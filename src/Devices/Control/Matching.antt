-- ===== src/Devices/Control/Matching.antt =====
-- When two rules speak of a common device, and what c_cgroups_dev_list_match says of a list.
use cml.Prelude.{
  ℕ, zero, suc, ℤ, minus_one, ◌+◌, ◌≤◌, ◌≡◌, refl, ap₂, Bool, true, false, ◌&&◌, ◌||◌, Option, none,
  some, List, [], ◌∷◌, ◌==ℤ◌, ==ℤ_iff, ==ℤ_comm, if◌then◌else◌, arith, All,
}
use cml.Devices.Item.{Item}
use cml.Devices.Control.{list_match, list_add, list_remove, remove_at, remove_each, same_numbers}

-- The numbers of two rules overlap, where -1 stands for any number. The type plays no part.
abbrev pub overlap : (major minor major' minor' : ℤ) → Bool
overlap major minor major' minor' =
    (major ==ℤ minus_one || major' ==ℤ minus_one)
    || (major ==ℤ major' && (minor' ==ℤ minus_one || (minor ==ℤ minus_one || minor' ==ℤ minor)))

abbrev pub clash : Item → Item → Bool
clash e d = overlap e.major e.minor d.major d.minor

-- No rule of the one list overlaps with `d`; no rule of the one with any of the other.
abbrev pub Apart : List Item → Item → Type 0
Apart l d = All (λ e. clash e d ≡ false) l

abbrev pub NoClash : List Item → List Item → Type 0
NoClash l k = All (λ e. All (λ d. clash e d ≡ false) k) l

-- The position of the first rule that overlaps with `d`.
unfoldable pub first_clash : List Item → Item → Option ℕ
first_clash [] d = none
first_clash (e ∷ l) d =
    if clash e d then some 0 else elim (first_clash l d) [ none ↦ none | some n ↦ some (suc n) ]

-- A search by a rule that parsed never faults: it finds the first overlap.
pub list_match_lem : (l : List Item) (d : Item) → list_match l (some d) ≡ some (first_clash l d)
unfolding list_match first_clash
list_match_lem [] d = refl
list_match_lem (e ∷ l) d = rw (list_match_lem l d) (ground arith)

-- The search finds nothing exactly in a list that is apart from `d`.
pub first_clash-none : (l : List Item) (d : Item) → first_clash l d ≡ none → Apart l d
unfolding first_clash
first_clash-none [] d h = tt
first_clash-none (e ∷ l) d h = ground (arith, first_clash-none l d)

-- How often the numbers of `d` stand in a list.
unfoldable pub count : Item → List Item → ℕ
count d [] = 0
count d (e ∷ l) = (if same_numbers e d then 1 else 0) + count d l

same_numbers_self : (d : Item) → same_numbers d d ≡ true
same_numbers_self d = ground (arith, ==ℤ_iff d.major d.major, ==ℤ_iff d.minor d.minor)

same_numbers_eq : (e f : Item) → same_numbers e f ≡ true → (e.major ≡ f.major) × (e.minor ≡ f.minor)
same_numbers_eq e f h =
    (ground (arith, ==ℤ_iff e.major f.major), ground (arith, ==ℤ_iff e.minor f.minor))

clash_same : (e f d : Item) → same_numbers e f ≡ true → clash e d ≡ clash f d
clash_same e f d h =
    let (p, q) = same_numbers_eq e f h in ap₂ (λ j k. overlap j k d.major d.minor) p q

same_numbers_cong : (e f d : Item) → same_numbers e f ≡ true → same_numbers e d ≡ same_numbers f d
same_numbers_cong e f d h =
    let (p, q) = same_numbers_eq e f h in ap₂ (λ j k. j ==ℤ d.major && k ==ℤ d.minor) p q

-- A rule whose numbers stand in a list that is apart from `d` is apart from `d` itself.
Apart-of_count : (l : List Item) (x d : Item) → Apart l d → 1 ≤ count x l → clash x d ≡ false
unfolding count
Apart-of_count [] x d a h = absurd (omega arith)
Apart-of_count (e ∷ l) x d a h = ground (arith, clash_same e x d, Apart-of_count l x d a.1)

-- Every rule of a list is counted in a list that counts at least as many of each.
pub counted_in :
    (xs l : List Item) → ((d : Item) → count d xs ≤ count d l) → All (λ x. 1 ≤ count x l) xs
unfolding count
counted_in [] l h = tt
counted_in (x ∷ xs) l h =
    (ground (arith, h x, same_numbers_self x), counted_in xs l (λ d. ground (arith, h d)))

-- So a list that is counted in one apart from `d` is apart from `d`.
pub Apart-of_counted :
    (xs l : List Item) (d : Item) → ((e : Item) → count e xs ≤ count e l) → Apart l d → Apart xs d
Apart-of_counted xs l d h a = each xs (counted_in xs l h)
  where
    each : (ys : List Item) → All (λ y. 1 ≤ count y l) ys → Apart ys d
    each [] k = tt
    each (y ∷ ys) k = (Apart-of_count l y d a k.0, each ys k.1)

pub count-list_add :
    (d e : Item) (l : List Item)
    → count d (list_add l e) ≡ count d l + (if same_numbers e d then 1 else 0)
unfolding count list_add
count-list_add d e [] = omega arith
count-list_add d e (x ∷ l) = omega (arith, count-list_add d e l)

pub count-remove_at : (d : Item) (n : ℕ) (l : List Item) → count d (remove_at n l) ≤ count d l
unfolding count remove_at
count-remove_at d n [] = omega arith
count-remove_at d zero (x ∷ l) = omega arith
count-remove_at d (suc n) (x ∷ l) = omega (arith, count-remove_at d n l)

-- A removal by numbers takes away one entry with these numbers, if there is one, and no other.
pub count-list_remove :
    (d e : Item) (l : List Item)
    → count d l ≤ count d (list_remove l e) + (if same_numbers e d then 1 else 0)
unfolding count list_remove
count-list_remove d e [] = omega arith
count-list_remove d e (x ∷ l) = ground (arith, same_numbers_cong x e d, count-list_remove d e l)

pub count-remove_each :
    (d : Item) (l xs : List Item) → count d l ≤ count d (remove_each l xs) + count d xs
unfolding count remove_each
count-remove_each d l [] = omega arith
count-remove_each d l (x ∷ xs) =
    omega (arith, count-list_remove d x l, count-remove_each d (list_remove l x) xs)

-- The relation is symmetric.
pub clash_comm : (e d : Item) → clash e d ≡ clash d e
clash_comm e d = ground (arith, ==ℤ_comm e.major d.major, ==ℤ_comm e.minor d.minor)

-- What holds of every entry holds behind an addition and behind a removal.
pub All-list_add :
    (P : Item → Type 0) (l : List Item) (d : Item) → All P l → P d → All P (list_add l d)
unfolding list_add
All-list_add P [] d h p = (p, tt)
All-list_add P (x ∷ l) d h p = (h.0, All-list_add P l d h.1 p)

pub All-remove_at : (P : Item → Type 0) (n : ℕ) (l : List Item) → All P l → All P (remove_at n l)
unfolding remove_at
All-remove_at P n [] h = tt
All-remove_at P zero (x ∷ l) h = h.1
All-remove_at P (suc n) (x ∷ l) h = (h.0, All-remove_at P n l h.1)
