-- ===== src/Events/Timeout.antt =====
-- How long the event loop waits for a timer (common/event.c).
use cml.Prelude.{
  ℕ, ◌+◌, ◌*◌, ◌/◌, ◌≤◌, ◌<◌, ◌≡◌, refl, ap, ◌∙◌, ◌⊎◌, inl, inr, pos, true, List, [], ◌∷◌, All, any,
  arith, ◌==◌, if◌then◌else◌, Bool-cases,
}
use cml.Events.Time.{
  Timespec, nanos, IsNormal, timespec_lt, timespec_gt, timespec_sub, timespec_lt-nanos,
  timespec_gt-nanos, timespec_sub-nanos,
}
use cml.Events.Timers.{Loop, earliest, timeout_of, event_timeout}

-- When the timer expires
abbrev pub due : Loop → ℕ → ℕ
due s i = nanos (s.timer i).next

abbrev pub AllNormal : Loop → List ℕ → Type 0
AllNormal s is = All (λ i. IsNormal (s.timer i).next) is

-- The time is the earliest of the first one and the timers.
record Earliest (s : Loop) (next : Timespec) (is : List ℕ) (t : Timespec) : Type 0 where
  normal : IsNormal t
  least : nanos t ≤ nanos next
  leasts : All (λ i. nanos t ≤ due s i) is
  which : (t ≡ next) ⊎ ((i : ℕ) × (any (λ j. i == j) is ≡ true) × (t ≡ (s.timer i).next))

All-weaken : (P Q : ℕ → Type 0) (is : List ℕ) → ((i : ℕ) → P i → Q i) → All P is → All Q is
All-weaken P Q [] f h = tt
All-weaken P Q (i ∷ is) f (p, h) = (f i p, All-weaken P Q is f h)

earliest_lem :
    (s : Loop) (next : Timespec) (is : List ℕ)
    → IsNormal next
    → AllNormal s is
    → Earliest s next is (earliest s next is)
unfolding earliest
earliest_lem s next [] n h = record {
  normal = n;
  least = omega arith;
  leasts = tt;
  which = inl refl;
}
earliest_lem s next (i ∷ is) n (m, h) = elim (Bool-cases (timespec_gt next (s.timer i).next)) [
  | inl e ↦
      let r = earliest_lem s (s.timer i).next is m h in
      let l : due s i < nanos next = (timespec_gt-nanos next (s.timer i).next n m).0 e in
      rw e (record {
        normal = r.normal;
        least = omega (arith, r.least);
        leasts = (r.least, r.leasts);
        which = elim r.which [
          | inl w ↦ inr (i, ground arith, w)
          | inr (j, w, w') ↦ inr (j, ground arith, w')
        ];
      })
  | inr e ↦
      let r = earliest_lem s next is n h in
      let l : nanos next ≤ due s i =
        ground (arith, (timespec_gt-nanos next (s.timer i).next n m).1) in
      rw e (record {
        normal = r.normal;
        least = r.least;
        leasts = (omega (arith, r.least), r.leasts);
        which = elim r.which [ inl w ↦ inl w | inr (j, w, w') ↦ inr (j, ground arith, w') ];
      })
]

-- A wait in milliseconds that ends at the time m or behind it, less than a millisecond late; there is
-- none for a time in the past.
abbrev pub EndsAt : ℕ → ℕ → ℕ → Type 0
EndsAt now ms m =
    ((m < now) × (ms ≡ 0)) ⊎ ((m ≤ now + ms * 1000000) × (now + ms * 1000000 < m + 1000000))

-- The rounding up to milliseconds
rounded :
    (s n : ℕ)
    → (1000000000 * s + n ≤ (s * 1000 + (n + 999999) / 1000000) * 1000000)
      × ((s * 1000 + (n + 999999) / 1000000) * 1000000 < 1000000000 * s + n + 1000000)
rounded s n = omega arith

wait_lem :
    (next now : Timespec)
    → IsNormal next
    → IsNormal now
    → (ms : ℕ) × ((if timespec_lt next now
          then pos 0
          else pos (
              (timespec_sub next now).sec * 1000
              + ((timespec_sub next now).nsec + 999999) / 1000000))
        ≡ pos ms)
      × EndsAt (nanos now) ms (nanos next)
wait_lem next now n m = elim (Bool-cases (timespec_lt next now)) [
  | inl e ↦ (0, rw e refl, inl ((timespec_lt-nanos next now n m).0 e, refl))
  | inr e ↦
      let l : nanos now ≤ nanos next = ground (arith, (timespec_lt-nanos next now n m).1) in
      let (k, sum) = timespec_sub-nanos next now n m l in
      let d = timespec_sub next now in
      let (up, down) = rounded d.sec d.nsec in
      (
        d.sec * 1000 + (d.nsec + 999999) / 1000000,
        rw e refl,
        inr (omega (arith, up, sum), omega (arith, down, sum)),
      )
]

-- While there are timers, the time that the event loop waits is that until the earliest of them,
-- rounded up to milliseconds, or 0 when that time has passed.
pub event_timeout_lem :
    (now : Timespec) (s : Loop) (i : ℕ) (is : List ℕ)
    → s.list ≡ i ∷ is
    → IsNormal now
    → AllNormal s (i ∷ is)
    → (ms m : ℕ) × (event_timeout now s ≡ pos ms)
      × All (λ j. m ≤ due s j) (i ∷ is)
      × ((j : ℕ) × (any (λ x. j == x) (i ∷ is) ≡ true) × (m ≡ due s j))
      × EndsAt (nanos now) ms m
unfolding event_timeout timeout_of
event_timeout_lem now s i is e n (m, h) =
    let r = earliest_lem s (s.timer i).next is m h in
    let (ms, w, ends) = wait_lem (earliest s (s.timer i).next is) now r.normal n in
    (
      ms,
      nanos (earliest s (s.timer i).next is),
      ap (timeout_of now s) e ∙ w,
      (r.least, r.leasts),
      elim r.which [
        | inl q ↦ (i, ground arith, ap nanos q)
        | inr (j, b, q) ↦ (j, ground arith, ap nanos q)
      ],
      ends,
    )
