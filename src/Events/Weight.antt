-- ===== src/Events/Weight.antt =====
-- How far the timers of the list lie in the past (common/event.c): what the handler works off.
use cml.Prelude.{
  ℕ, ◌+◌, ◌-◌, ◌≤◌, ◌<◌, ◌≡◌, refl, sym, ap, inl, inr, Bool, true, List, [], ◌∷◌, any, length,
  arith, ◌==◌, Bool-cases, ==_iff, subst,
}
use cml.Events.Time.{Timespec, nanos, IsNormal}
use cml.Events.Timers.{Timer, Loop, put, remove_first, event_remove_timer}
use cml.Events.Timeout.{due}

abbrev pub sum : (ℕ → ℕ) → List ℕ → ℕ
sum f [] = 0
sum f (i ∷ is) = f i + sum f is

abbrev pub mem : ℕ → List ℕ → Bool
mem i is = any (λ j. i == j) is

pub sum-remove_first :
    (f : ℕ → ℕ) (i : ℕ) (is : List ℕ) → mem i is ≡ true → sum f (remove_first i is) + f i ≡ sum f is
unfolding remove_first
sum-remove_first f i (j ∷ is) h = elim (Bool-cases (j == i)) [
  | inl e ↦ let j_i : j ≡ i = (==_iff j i).0 e in rw e (omega (arith, ap f j_i))
  | inr e ↦ rw e (omega (arith, sum-remove_first f i is (ground arith)))
]
sum-remove_first f i [] h = cc

pub sum-remove_le : (f : ℕ → ℕ) (i : ℕ) (is : List ℕ) → sum f (remove_first i is) ≤ sum f is
unfolding remove_first
sum-remove_le f i [] = omega arith
sum-remove_le f i (j ∷ is) = ground (arith, sum-remove_le f i is)

pub length-remove_first : (i : ℕ) (is : List ℕ) → length (remove_first i is) ≤ length is
unfolding remove_first
length-remove_first i [] = omega arith
length-remove_first i (j ∷ is) = ground (arith, length-remove_first i is)

pub sum-le : (f g : ℕ → ℕ) (is : List ℕ) → ((j : ℕ) → g j ≤ f j) → sum g is ≤ sum f is
sum-le f g [] h = omega arith
sum-le f g (j ∷ is) h = omega (arith, h j, sum-le f g is h)

pub sum-lt :
    (f g : ℕ → ℕ) (i : ℕ) (is : List ℕ)
    → ((j : ℕ) → g j ≤ f j)
    → g i < f i
    → mem i is ≡ true
    → sum g is < sum f is
sum-lt f g i (j ∷ is) h l m = elim (Bool-cases (i == j)) [
  | inl e ↦
      let i_j : i ≡ j = (==_iff i j).0 e in
      let l' : g j < f j = subst (λ x. g x < f x) i_j l in omega (arith, sum-le f g is h, l')
  | inr e ↦ omega (arith, h j, sum-lt f g i is h l (ground arith))
]
sum-lt f g i [] h l m = cc

module _ (now : Timespec) where
  abbrev pub overdue : Loop → ℕ → ℕ
  overdue s i = nanos now - due s i

  abbrev pub weight : Loop → ℕ
  weight s = sum (overdue s) s.list

-- Times are normal, and no interval is 0.
abbrev pub Sane : Timer → Type 0
Sane t = IsNormal t.next × IsNormal t.diff × (1 ≤ nanos t.diff)

abbrev pub AllSane : Loop → Type 0
AllSane s = (i : ℕ) → Sane (s.timer i)

-- A step that leaves no more to do: no more timers in the list, and none further in the past.
pub record Lighter (now : Timespec) (s s' : Loop) : Type 0 where
  pub sane : AllSane s'
  pub weight_le : weight now s' ≤ weight now s
  pub length_le : length s'.list ≤ length s.list

pub put-AllSane : (i : ℕ) (t : Timer) (s : Loop) → AllSane s → Sane t → AllSane (put i t s)
put-AllSane i t s h k j = elim (Bool-cases (j == i)) [ inl e ↦ rw e k | inr e ↦ rw e (h j) ]

pub remove-Lighter :
    (now : Timespec) (i : ℕ) (s : Loop) → AllSane s → Lighter now s (event_remove_timer i s)
unfolding event_remove_timer
remove-Lighter now i s h = record {
  sane = h;
  weight_le = sum-remove_le (overdue now s) i s.list;
  length_le = length-remove_first i s.list;
}

module _ (now : Timespec) (i : ℕ) (t : Timer) (s : Loop) where
  pub overdue-put_self : overdue now (put i t s) i ≡ nanos now - nanos t.next
  overdue-put_self = let same : (i == i) ≡ true = ground arith in rw same refl

  pub overdue-put_le :
      due s i ≤ nanos t.next → (j : ℕ) → overdue now (put i t s) j ≤ overdue now s j
  overdue-put_le l j = elim (Bool-cases (j == i)) [
    | inl e ↦
        let j_i : j ≡ i = (==_iff j i).0 e in
        let le : nanos now - nanos t.next ≤ overdue now s j =
          subst (λ x. nanos now - nanos t.next ≤ overdue now s x) (sym j_i) (omega arith) in
        rw e le
    | inr e ↦ rw e (omega arith)
  ]
