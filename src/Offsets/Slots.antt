-- ===== src/Offsets/Slots.antt =====
-- The Boolean arrays of daemon/c_user.c and daemon/c_net.c, which mark the slots in use; a table is
-- none before its first use. `max` is the number of slots.
use cml.Prelude.{
  ℕ, ℤ, zero, suc, pos, minus_one, ◌<◌, ◌≡◌, refl, ◌⊎◌, inl, inr, Bool, true, false, Option, none,
  some, List, [], ◌∷◌, length, get_elem?, set, arith, Option-cases,
}

abbrev pub Table : Type 0
Table = Option (List Bool)

-- mem_new0
unfoldable pub fresh : ℕ → List Bool
fresh zero = []
fresh (suc max) = false ∷ fresh max

-- The array that a table has, or gets.
unfoldable pub slots : ℕ → Table → List Bool
unfolding fresh
slots max none = fresh max
slots max (some t) = t

-- The loop over the slots
unfoldable pub first_free : List Bool → Option ℕ
first_free [] = none
first_free (false ∷ t) = some 0
first_free (true ∷ t) = elim (first_free t) [ none ↦ none | some i ↦ some (suc i) ]

-- The first free slot is taken: its number or -1, and the array.
unfoldable pub take_next : ℕ → Table → ℤ × List Bool
unfolding fresh first_free
take_next max none = (pos 0, set (fresh max) 0 true)
take_next max (some t) = elim (first_free t) [
  | none ↦ (minus_one, t)
  | some i ↦ (pos i, set t i true)
]

-- That a slot is in use
abbrev pub Taken : Table → ℕ → Type 0
Taken none i = ⊥
Taken (some t) i = get_elem? t i ≡ some true

first_free-lem : (t : List Bool) (i : ℕ) → first_free t ≡ some i → get_elem? t i ≡ some false
unfolding first_free
first_free-lem [] i h = cc
first_free-lem (false ∷ t) i h = ground arith
first_free-lem (true ∷ t) zero h = ground arith
first_free-lem (true ∷ t) (suc i) h = ground (arith, first_free-lem t i)

get_elem?-fresh : (max i : ℕ) (b : Bool) → get_elem? (fresh max) i ≡ some b → b ≡ false
unfolding fresh
get_elem?-fresh zero i b h = cc
get_elem?-fresh (suc max) zero b h = ground arith
get_elem?-fresh (suc max) (suc i) b h = get_elem?-fresh max i b h

pub get_elem?-bound : (t : List Bool) (i : ℕ) (b : Bool) → get_elem? t i ≡ some b → i < length t
get_elem?-bound [] i b h = cc
get_elem?-bound (x ∷ t) zero b h = omega arith
get_elem?-bound (x ∷ t) (suc i) b h = omega (arith, get_elem?-bound t i b h)

pub length-fresh : (max : ℕ) → length (fresh max) ≡ max
unfolding fresh
length-fresh zero = refl
length-fresh (suc max) = omega (arith, length-fresh max)

pub length-set : (t : List Bool) (i : ℕ) (b : Bool) → length (set t i b) ≡ length t
length-set [] i b = refl
length-set (x ∷ t) zero b = refl
length-set (x ∷ t) (suc i) b = omega (arith, length-set t i b)

-- What is in use before is so in the array.
pub Taken-slots : (max : ℕ) (t : Table) (i : ℕ) → Taken t i → get_elem? (slots max t) i ≡ some true
unfolding slots
Taken-slots max none i h = absurd h
Taken-slots max (some t) i h = h

-- A slot that was handed out was free.
pub take_next-free :
    (max : ℕ) (t : Table) (i : ℕ)
    → 0 < max
    → (take_next max t).0 ≡ pos i
    → (get_elem? (slots max t) i ≡ some false) × ((take_next max t).1 ≡ set (slots max t) i true)
unfolding take_next slots fresh
take_next-free (suc max) none i h e = (ground arith, ground arith)
take_next-free max (some t) i h e = elim (Option-cases (first_free t)) [
  | inl n ↦ ground arith
  | inr (k, n) ↦ (ground (arith, first_free-lem t k n), ground arith)
]
take_next-free zero none i h e = absurd (omega arith)

first_free-full :
    (t : List Bool) (i : ℕ) → first_free t ≡ none → i < length t → get_elem? t i ≡ some true
unfolding first_free
first_free-full [] i h b = absurd (omega arith)
first_free-full (false ∷ t) i h b = cc
first_free-full (true ∷ t) zero h b = refl
first_free-full (true ∷ t) (suc i) h b = ground (arith, first_free-full t i)

-- None is handed out only if all are taken.
pub take_next-full :
    (max : ℕ) (t : Table) (i : ℕ)
    → (take_next max t).0 ≡ minus_one
    → i < length (slots max t)
    → get_elem? (slots max t) i ≡ some true
unfolding take_next slots fresh
take_next-full max none i e h = cc
take_next-full max (some t) i e h = ground (arith, first_free-full t i)

-- Either a free slot is handed out, or nothing happens.
pub take_next-cases :
    (max : ℕ) (t : Table)
    → 0 < max
    → ((i : ℕ) × ((take_next max t).0 ≡ pos i)
        × (get_elem? (slots max t) i ≡ some false)
        × ((take_next max t).1 ≡ set (slots max t) i true))
      ⊎ (((take_next max t).0 ≡ minus_one) × ((take_next max t).1 ≡ slots max t))
unfolding take_next slots
take_next-cases max none h = let (f, e) = take_next-free max none 0 h refl in inl (0, refl, f, e)
take_next-cases max (some t) h = elim (Option-cases (first_free t)) [
  | inl n ↦ inr (ground arith, ground arith)
  | inr (i, n) ↦ inl (i, ground arith, first_free-lem t i n, ground arith)
]

pub slots-some : (max : ℕ) (l : List Bool) → slots max (some l) ≡ l
unfolding slots
slots-some max l = refl

pub length-slots-none : (max : ℕ) → length (slots max none) ≡ max
unfolding slots
length-slots-none max = length-fresh max
