-- ===== src/Events/Endless.antt =====
-- A timer that keeps the handler of the timers busy for ever (common/event.c).
use cml.Prelude.{
  ℕ, zero, suc, ◌+◌, ◌≡◌, refl, sym, ap, ap₂, subst, ◌∙◌, minus_one, pos, negsuc, true, false, none,
  some, List, ◌∷◌, arith, ◌==◌, ◌==ℤ◌, leb,
}
use cml.Events.Time.{Timespec, giga, IsNormal, timespec_add, timespec_gt}
use cml.Events.Timers.{
  Timer, Loop, event_timer_new, put, count_down, expire, timeout_loop, event_timeout_handler,
}

-- Functions that leave the timers as they are
abbrev pub quiet : ℕ → Loop → Loop
quiet i s = s

abbrev pub no_time : Timespec
no_time = record { sec = 0; nsec = 0 }

add_no_time : (t : Timespec) → IsNormal t → timespec_add no_time t ≡ t
unfolding timespec_add
add_no_time t n =
    let small : leb giga (0 + t.nsec) ≡ false = ground arith in
    rw small (ap₂ (λ a b. record { sec = a; nsec = b }) (omega arith) (omega arith))

-- A timer with the interval 0 that is repeated for ever and has expired
pub record Endless (now : Timespec) (t : Timer) : Type 0 where
  pub forever : (n : ℕ) × (t.repeated ≡ negsuc n)
  pub at_once : t.diff ≡ no_time
  pub normal : IsNormal t.next
  pub expired : timespec_gt now t.next ≡ true

stays :
    (now : Timespec) (i : ℕ) (s : Loop)
    → Endless now (s.timer i)
    → (s' : Loop) × (expire quiet i s ≡ s') × (s'.list ≡ s.list) × Endless now (s'.timer i)
unfolding expire count_down
stays now i s h =
    let t = s.timer i in
    let (n, r) = h.forever in
    let t' = record t { repeated = count_down t.repeated; next = timespec_add t.diff t.next } in
    let some_left : (t.repeated ==ℤ pos 0) ≡ false = ap (λ z. z ==ℤ pos 0) r in
    let still_left : (count_down t.repeated ==ℤ pos 0) ≡ false =
      ap (λ z. count_down z ==ℤ pos 0) r in
    let same_next : timespec_add t.diff t.next ≡ t.next =
      ap (λ d. timespec_add d t.next) h.at_once ∙ add_no_time t.next h.normal in
    let same : (i == i) ≡ true = ground arith in
    (
      put i t' s,
      rw (some_left, still_left) refl,
      refl,
      rw same (record {
        forever = (n, ap count_down r);
        at_once = h.at_once;
        normal = rw same_next h.normal;
        expired = rw same_next h.expired;
      }),
    )

loop_forever :
    (k : ℕ) (now : Timespec) (s : Loop) (i : ℕ) (is : List ℕ)
    → s.list ≡ i ∷ is
    → Endless now (s.timer i)
    → timeout_loop k now quiet s (i ∷ is) ≡ none
unfolding timeout_loop
loop_forever zero now s i is e h = refl
loop_forever (suc k) now s i is e h =
    let (s', f, l, h') = stays now i s h in
    let again : timeout_loop k now quiet s' s'.list ≡ none =
      ap (timeout_loop k now quiet s') (l ∙ e) ∙ loop_forever k now s' i is (l ∙ e) h' in
    rw h.expired (subst (λ x. timeout_loop k now quiet x x.list ≡ none) (sym f) again)

-- A timer with the interval 0 that is repeated for ever, first in the list and expired, whose function
-- leaves the timers as they are: the handler does not end, whatever fuel it is given; and such a
-- timer is what event_timer_new makes of the timeout 0.
pub event_timeout_handler-none :
    (k : ℕ) (now : Timespec) (s : Loop) (i : ℕ) (is : List ℕ)
    → s.list ≡ i ∷ is
    → Endless now (s.timer i)
    → (event_timeout_handler k now quiet s ≡ none)
      × (t : Timer) × (event_timer_new (pos 0) minus_one ≡ some t)
      × (t.diff ≡ (s.timer i).diff)
unfolding event_timeout_handler event_timer_new
event_timeout_handler-none k now s i is e h =
    (ap (timeout_loop k now quiet s) e ∙ loop_forever k now s i is e h, _, refl, sym h.at_once)
