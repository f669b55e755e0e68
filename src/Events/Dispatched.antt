-- ===== src/Events/Dispatched.antt =====
-- The dispatch of signals comes to an end, and what it leaves (common/event.c).
use cml.Prelude.{
  ℕ, zero, suc, ◌+◌, ◌≤◌, ◌<◌, ◌≡◌, refl, sym, ap, ◌∙◌, ◌⊎◌, inl, inr, ==_iff, Bool, true, false,
  not, ◌&&◌, some, List, [], ◌∷◌, ◌++◌, All, length, arith, ltb, ◌==◌, if◌then◌else◌, Bool-cases,
  subst, append_assoc, append-nil,
}
use cml.Events.Weight.{sum, mem, sum-le, sum-lt}
use cml.Events.Expiry.{budget, budget-step, All-append_one}
use cml.Events.Signals.{
  Dispatch, put_signal, pending, mark_all, handle_signal, signal_loop, clear_pending,
  event_signal_handler,
}

abbrev pub todo_bit : Dispatch → ℕ → ℕ
todo_bit s j = if (s.signal j).todo then 1 else 0

-- Nothing is left to do for the event.
abbrev pub Done : Dispatch → (ℕ → Bool) → ℕ → Type 0
Done s received j = ((s.signal j).todo && received (s.signal j).signum) ≡ false

-- What a function may do to the dispatcher while the list is no longer than n: it marks no event, keeps
-- the list that short, and leaves the array that is being handled; it may add and remove events, and
-- signals may arrive.
pub record Calm (n : ℕ) (s s' : Dispatch) : Type 0 where
  pub unmarked : (j : ℕ) → todo_bit s' j ≤ todo_bit s j
  pub short : length s'.list ≤ n
  pub second : s'.second ≡ s.second
  pub array : (x : ℕ) → pending s' x ≡ pending s x

-- Only these events are marked.
abbrev pub MarkedIn : List ℕ → Dispatch → Type 0
MarkedIn ids s = (j : ℕ) → (mem j ids ≡ true) ⊎ (todo_bit s j ≡ 0)

bits-length : (s : Dispatch) (ids : List ℕ) → sum (todo_bit s) ids ≤ length ids
bits-length s [] = omega arith
bits-length s (j ∷ ids) = ground (arith, bits-length s ids)

unmark_le :
    (i : ℕ) (s : Dispatch) (j : ℕ)
    → todo_bit (put_signal i (record (s.signal i) { todo = false }) s) j ≤ todo_bit s j
unmark_le i s j = elim (Bool-cases (j == i)) [
  | inl e ↦ rw e (omega arith)
  | inr e ↦ rw e (omega arith)
]

unmark_self :
    (i : ℕ) (s : Dispatch) → todo_bit (put_signal i (record (s.signal i) { todo = false }) s) i ≡ 0
unmark_self i s = let same : (i == i) ≡ true = ground arith in rw same refl

and_left : (a b : Bool) → (a && b) ≡ true → a ≡ true
and_left true b h = refl
and_left false b h = h

module _ (ids : List ℕ) (n : ℕ) (call : ℕ → Dispatch → Dispatch)
    (calm : (i : ℕ) (s : Dispatch) → length s.list ≤ n → Calm n s (call i s)) where
  handle_lem :
      (i : ℕ) (s : Dispatch)
      → MarkedIn ids s
      → length s.list ≤ n
      → (s.signal i).todo ≡ true
      → Calm n s (handle_signal call i s)
        × (sum (todo_bit (handle_signal call i s)) ids < sum (todo_bit s) ids)
  unfolding handle_signal
  handle_lem i s marked l e =
      let s1 = put_signal i (record (s.signal i) { todo = false }) s in
      let c = calm i s1 l in
      let one : todo_bit s i ≡ 1 = rw e refl in
      let here : mem i ids ≡ true = elim (marked i) [
        | inl m ↦ m
        | inr z ↦ absurd (omega (arith, one, z))
      ] in
      let less =
        sum-lt (todo_bit s) (todo_bit s1) i ids (unmark_le i s)
          (omega (arith, one, unmark_self i s)) here in
      (
        record {
          unmarked = λ j. omega (arith, c.unmarked j, unmark_le i s j);
          short = c.short;
          second = c.second;
          array = c.array;
        },
        omega (arith, less, sum-le (todo_bit s1) (todo_bit (call i s1)) ids c.unmarked),
      )

  loop_lem :
      (k w : ℕ) (s : Dispatch) (old : ℕ → Bool) (pre rest : List ℕ)
      → s.list ≡ pre ++ rest
      → ((x : ℕ) → pending s x ≡ old x)
      → All (Done s old) pre
      → MarkedIn ids s
      → sum (todo_bit s) ids ≤ w
      → length s.list ≤ n
      → budget w n + length rest ≤ k
      → (s' : Dispatch) × (signal_loop k call s rest ≡ some s')
        × All (Done s' old) s'.list
        × (s'.second ≡ s.second)
        × ((x : ℕ) → pending s' x ≡ old x)
  unfolding signal_loop
  loop_lem k w s old pre [] e agree done marked l m f =
      (s, refl, subst (λ is. All (Done s old) is) (sym (e ∙ append-nil pre)) done, refl, agree)
  loop_lem zero w s old pre (i ∷ rest) e agree done marked l m f = absurd (omega arith)
  loop_lem (suc k) w s old pre (i ∷ rest) e agree done marked l m f =
      elim (Bool-cases ((s.signal i).todo && pending s (s.signal i).signum)) [
        | inl y ↦
            let s1 = handle_signal call i s in
            let (c, less) =
              handle_lem i s marked m
                (and_left (s.signal i).todo (pending s (s.signal i).signum) y) in
            let (v, few, enough) =
              budget-step (sum (todo_bit s) ids) (sum (todo_bit s1) ids) w n (length rest) k less l
                f in
            let still : MarkedIn ids s1 = λ j. elim (marked j) [
              | inl b ↦ inl b
              | inr z ↦ inr (omega (arith, z, c.unmarked j))
            ] in
            let (s', r, d, b, a) =
              loop_lem k v s1 old [] s1.list refl (λ x. c.array x ∙ agree x) tt still few c.short
                (omega (arith, c.short)) in
            (s', rw y r, d, b ∙ c.second, a)
        | inr y ↦
            let here : Done s old i =
              ap (λ b. (s.signal i).todo && b) (sym (agree (s.signal i).signum)) ∙ y in
            let (s', r, d, b, a) =
              loop_lem k w s old (pre ++ i ∷ []) rest (e ∙ sym (append_assoc pre (i ∷ []) rest))
                agree (All-append_one (Done s old) pre i done here) marked l m (omega arith) in
            (s', rw y r, d, b, a)
      ]

-- What the marks change
mark_lem :
    (ids is : List ℕ) (s : Dispatch)
    → All (λ i. mem i ids ≡ true) is
    → MarkedIn ids s
    → MarkedIn ids (mark_all is s)
      × ((mark_all is s).list ≡ s.list)
      × ((mark_all is s).second ≡ s.second)
      × ((x : ℕ) → pending (mark_all is s) x ≡ pending s x)
unfolding mark_all
mark_lem ids [] s h marked = (marked, refl, refl, λ x. refl)
mark_lem ids (i ∷ is) s (m, h) marked =
    let s1 = put_signal i (record (s.signal i) { todo = true }) s in
    mark_lem ids is s1 h (λ j. elim (Bool-cases (j == i)) [
      | inl e ↦ let j_i : j ≡ i = (==_iff j i).0 e in inl (ap (λ x. mem x ids) j_i ∙ m)
      | inr e ↦ elim (marked j) [ inl b ↦ inl b | inr z ↦ inr (rw e z) ]
    ])

clear_lem :
    (nsig : ℕ) (s : Dispatch) (x : ℕ)
    → pending (clear_pending nsig s) x ≡ (if ltb x nsig then false else pending s x)
unfolding clear_pending
clear_lem nsig s x = elim (Bool-cases s.second) [ inl e ↦ rw e refl | inr e ↦ rw e refl ]

-- The array that signals are written to
abbrev pub current : Dispatch → ℕ → Bool
current s = if s.second then s.received1 else s.received0

switched : (s : Dispatch) (x : ℕ) → pending (record s { second = not s.second }) x ≡ current s x
switched s x = elim (Bool-cases s.second) [ inl e ↦ rw e refl | inr e ↦ rw e refl ]

-- The handler of the signals returns, with fuel for the events that may be marked and the length of
-- the list, if the functions that it calls mark no event, keep the list within that length and leave
-- the array that is handled; they may add and remove events. Then signals are written to the other
-- array, the flags that were set before are all cleared, and no event in the list is both marked and
-- for a signal whose flag was set before.
pub event_signal_handler-Done :
    (ids : List ℕ) (n : ℕ) (call : ℕ → Dispatch → Dispatch)
    → ((i : ℕ) (s : Dispatch) → length s.list ≤ n → Calm n s (call i s))
    → (nsig k : ℕ) (s : Dispatch) → MarkedIn ids s
    → All (λ i. mem i ids ≡ true) s.list
    → length s.list ≤ n
    → budget (length ids) n + n ≤ k
    → (s' : Dispatch) × (event_signal_handler nsig k call s ≡ some s')
      × (s'.second ≡ not s.second)
      × ((x : ℕ) → pending s' x ≡ (if ltb x nsig then false else current s x))
      × All (Done s' (current s)) s'.list
unfolding event_signal_handler clear_pending
event_signal_handler-Done ids n call calm nsig k s marked known l f =
    let s0 = record s { second = not s.second } in
    let s1 = mark_all s.list s0 in
    let (marked1, same, second, array) = mark_lem ids s.list s0 known marked in
    let short : length s1.list ≤ n = subst (λ is. length is ≤ n) (sym same) l in
    let (s', r, done, second', array') =
      loop_lem ids n call calm k (length ids) s1 (current s) [] s1.list refl
        (λ x. array x ∙ switched s x) tt marked1 (bits-length s1 ids) short
        (omega (arith, short)) in
    (
      clear_pending nsig s',
      rw r refl,
      second' ∙ second,
      λ x. clear_lem nsig s' x ∙ ap (λ b. if ltb x nsig then false else b) (array' x),
      done,
    )
