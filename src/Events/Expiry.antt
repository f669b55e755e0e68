-- ===== src/Events/Expiry.antt =====
-- The handler of the timers comes to an end (common/event.c).
use cml.Prelude.{
  ℕ, zero, suc, ◌+◌, ◌≤◌, ◌<◌, ◌≡◌, refl, sym, ap, ◌∙◌, inl, inr, pos, true, some, List, [], ◌∷◌,
  ◌++◌, All, length, arith, ◌==ℤ◌, Bool-cases, append_assoc, append-nil, subst,
}
use cml.Events.Time.{
  Timespec, nanos, IsNormal, timespec_add, timespec_gt, timespec_gt-nanos, timespec_add-nanos,
}
use cml.Events.Timers.{
  Timer, Loop, put, event_remove_timer, count_down, expire, timeout_loop, event_timeout_handler,
}
use cml.Events.Timeout.{due}
use cml.Events.Weight.{
  mem, sum-remove_first, length-remove_first, sum-lt, overdue, weight, Sane, AllSane, Lighter,
  put-AllSane, sum-le, overdue-put_self, overdue-put_le,
}

-- The functions of the timers leave no more to do.
abbrev pub Tame : Timespec → (ℕ → Loop → Loop) → Type 0
Tame now call = (i : ℕ) (s : Loop) → AllSane s → Lighter now s (call i s)

pub mem-middle : (pre : List ℕ) (i : ℕ) (rest : List ℕ) → mem i (pre ++ i ∷ rest) ≡ true
mem-middle [] i rest = ground arith
mem-middle (j ∷ pre) i rest = ground (arith, mem-middle pre i rest)

pub All-append_one : (P : ℕ → Type 0) (is : List ℕ) (i : ℕ) → All P is → P i → All P (is ++ i ∷ [])
All-append_one P [] i h p = (p, tt)
All-append_one P (j ∷ is) i (q, h) p = (q, All-append_one P is i h p)

module _ (now : Timespec) (call : ℕ → Loop → Loop) (normal : IsNormal now)
    (tame : Tame now call) where
  -- What an expired timer is before its function is called: with its next time, or out of the list
  moved_lem :
      (i : ℕ) (t' : Timer) (s : Loop)
      → AllSane s
      → Sane t'
      → mem i s.list ≡ true
      → due s i < nanos now
      → due s i < nanos t'.next
      → AllSane (put i t' s) × (weight now (put i t' s) < weight now s)
  moved_lem i t' s h k m e l =
      let here = overdue-put_self now i t' s in
      (
        put-AllSane i t' s h k,
        sum-lt (overdue now s) (overdue now (put i t' s)) i s.list
            (overdue-put_le now i t' s (omega arith)) (omega (arith, here)) m,
      )

  removed_lem :
      (i : ℕ) (t' : Timer) (s : Loop)
      → AllSane s
      → Sane t'
      → mem i s.list ≡ true
      → due s i < nanos now
      → nanos t'.next ≡ due s i
      → AllSane (put i t' s) × (weight now (event_remove_timer i (put i t' s)) < weight now s)
  unfolding event_remove_timer
  removed_lem i t' s h k m e l =
      let here = overdue-put_self now i t' s in
      let less =
        sum-le (overdue now s) (overdue now (put i t' s)) s.list
          (overdue-put_le now i t' s (omega (arith, l))) in
      (
        put-AllSane i t' s h k,
        omega (arith, here, less, l, sum-remove_first (overdue now (put i t' s)) i s.list m),
      )

  -- A step with an expired timer leaves less to do.
  expire_lem :
      (i : ℕ) (s : Loop)
      → AllSane s
      → mem i s.list ≡ true
      → due s i < nanos now
      → AllSane (expire call i s)
        × (weight now (expire call i s) < weight now s)
        × (length (expire call i s).list ≤ length s.list)
  unfolding expire event_remove_timer
  expire_lem i s h m e =
      let t = s.timer i in
      let left = count_down t.repeated in
      elim (Bool-cases (t.repeated ==ℤ pos 0)) [
        | inl z ↦ rw z (
          h,
          omega (arith, sum-remove_first (overdue now s) i s.list m),
          length-remove_first i s.list,
        )
        | inr z ↦ elim (Bool-cases (left ==ℤ pos 0)) [
          | inl y ↦
              let s' = put i (record t { repeated = left }) s in
              let (sane, less) = removed_lem i (record t { repeated = left }) s h (h i) m e refl in
              let shorter = length-remove_first i s.list in
              let after = tame i (event_remove_timer i s') sane in
              rw (z, y)
                (
                  after.sane,
                  omega (arith, less, after.weight_le),
                  omega (arith, shorter, after.length_le),
                )
          | inr y ↦
              let (n, d, p) = h i in
              let (n', total) = timespec_add-nanos t.diff t.next d n in
              let t' = record t { repeated = left; next = timespec_add t.diff t.next } in
              let (sane, less) = moved_lem i t' s h (n', d, p) m e (omega (arith, total)) in
              let after = tame i (put i t' s) sane in
              rw (z, y) (after.sane, omega (arith, less, after.weight_le), after.length_le)
        ]
      ]

-- Fuel for so many expiries over a list of so many timers
abbrev pub budget : ℕ → ℕ → ℕ
budget zero n = 0
budget (suc w) n = suc n + budget w n

pub budget-step :
    (x y w n r k : ℕ)
    → y < x
    → x ≤ w
    → budget w n + suc r ≤ suc k
    → (v : ℕ) × (y ≤ v) × (budget v n + n ≤ k)
budget-step x y zero n r k h l f = absurd (omega arith)
budget-step x y (suc w) n r k h l f = (w, omega arith, omega arith)

-- No timer of the list is in the past.
abbrev pub NoneDue : Timespec → Loop → List ℕ → Type 0
NoneDue now s is = All (λ i. nanos now ≤ due s i) is

module _ (now : Timespec) (call : ℕ → Loop → Loop) (normal : IsNormal now)
    (tame : Tame now call) where
  loop_lem :
      (k w n : ℕ) (s : Loop) (pre rest : List ℕ)
      → s.list ≡ pre ++ rest
      → NoneDue now s pre
      → AllSane s
      → weight now s ≤ w
      → length s.list ≤ n
      → budget w n + length rest ≤ k
      → (s' : Loop) × (timeout_loop k now call s rest ≡ some s') × NoneDue now s' s'.list
  unfolding timeout_loop
  loop_lem k w n s pre [] e done h l m f =
      (s, refl, subst (λ is. NoneDue now s is) (sym (e ∙ append-nil pre)) done)
  loop_lem zero w n s pre (i ∷ rest) e done h l m f = absurd (omega arith)
  loop_lem (suc k) w n s pre (i ∷ rest) e done h l m f =
      elim (Bool-cases (timespec_gt now (s.timer i).next)) [
        | inl y ↦
            let past : due s i < nanos now =
              (timespec_gt-nanos now (s.timer i).next normal (h i).0).0 y in
            let here : mem i s.list ≡ true = ap (mem i) e ∙ mem-middle pre i rest in
            let (sane, less, shorter) = expire_lem now call normal tame i s h here past in
            let (v, few, enough) =
              budget-step (weight now s) (weight now (expire call i s)) w n (length rest) k less l
                f in
            let (s', r, none_due) =
              loop_lem k v n (expire call i s) [] (expire call i s).list refl tt sane few
                (omega (arith, shorter)) (omega (arith, shorter)) in
            (s', rw y r, none_due)
        | inr y ↦
            let ahead : nanos now ≤ due s i =
              ground (arith, (timespec_gt-nanos now (s.timer i).next normal (h i).0).1) in
            let (s', r, none_due) =
              loop_lem k w n s (pre ++ i ∷ []) rest (e ∙ sym (append_assoc pre (i ∷ []) rest))
                (All-append_one (λ j. nanos now ≤ due s j) pre i done ahead) h l m (omega arith) in
            (s', rw y r, none_due)
      ]

  -- The handler of the timers returns, with fuel for the nanoseconds that the timers of the list lie in
  -- the past, and then none of them does any more, if no interval is 0 and if the functions that it
  -- calls neither move a timer into the past nor add one.
  pub event_timeout_handler-NoneDue :
      (k : ℕ) (s : Loop)
      → AllSane s
      → budget (weight now s) (length s.list) + length s.list ≤ k
      → (s' : Loop) × (event_timeout_handler k now call s ≡ some s') × NoneDue now s' s'.list
  unfolding event_timeout_handler
  event_timeout_handler-NoneDue k s h f =
      loop_lem k (weight now s) (length s.list) s [] s.list refl tt h (omega arith) (omega arith) f
