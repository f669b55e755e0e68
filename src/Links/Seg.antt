-- ===== src/Links/Seg.antt =====
-- What a pointer into the memory stands for: the elements of a doubly linked list, in order
-- (common/list.c).
use cml.Prelude.{
  ℕ, ◌≡◌, refl, sym, subst, ◌⊎◌, ==_iff, Bool, true, false, ◌||◌, Option, none, some, List, [], ◌∷◌,
  ◌++◌, arith, ◌==◌, map, Bool-cases, inl, inr,
}
use cml.Links.Heap.{Ptr, Node, node, Heap, write}

-- Address and data pointer of each element
abbrev pub Cells : Type 0
Cells = List (ℕ × ℕ)

abbrev pub has : ℕ → Cells → Bool
has a [] = false
has a ((b, _) ∷ xs) = (a == b) || has a xs

infix 40 ◌∉◌
abbrev pub ◌∉◌ : ℕ → Cells → Type 0
a ∉ xs = has a xs ≡ false

abbrev pub datas : Cells → List ℕ
datas xs = map (λ (a, d). d) xs

-- The first address, and the last; with no element the pointer that is given
abbrev pub first : Cells → Ptr → Ptr
first [] r = r
first ((a, _) ∷ xs) r = some a

abbrev pub last : Ptr → Cells → Ptr
last q [] = q
last q ((a, _) ∷ xs) = last (some a) xs

-- Distinct elements, the first with the predecessor q, the last with the successor r
abbrev pub Seg : Heap → Ptr → Cells → Ptr → Type 0
Seg h q [] r = Unit
Seg h q ((a, d) ∷ xs) r = (h a ≡ some (node d q (first xs r))) × (a ∉ xs) × Seg h (some a) xs r

-- A whole list
abbrev pub IsList : Heap → Cells → Type 0
IsList h xs = Seg h none xs none

-- Nothing differs but at the addresses of the cells.
abbrev pub SameOutside : Cells → Heap → Heap → Type 0
SameOutside xs h g = (b : ℕ) → b ∉ xs → g b ≡ h b

-- The same, for each address
abbrev pub Untouched : Cells → Heap → Heap → Type 0
Untouched xs h g = (b : ℕ) → (has b xs ≡ true) ⊎ (g b ≡ h b)

pub same-Untouched : (xs : Cells) (h g : Heap) → SameOutside xs h g → Untouched xs h g
same-Untouched xs h g same b = elim (Bool-cases (has b xs)) [
  | inl e ↦ inl e
  | inr e ↦ inr (same b e)
]

pub has-append : (a : ℕ) (xs ys : Cells) → has a (xs ++ ys) ≡ (has a xs || has a ys)
has-append a [] ys = refl
has-append a ((b, d) ∷ xs) ys = ground (arith, has-append a xs ys)

pub first-append : (xs ys : Cells) (r : Ptr) → first (xs ++ ys) r ≡ first xs (first ys r)
first-append [] ys r = refl
first-append (x ∷ xs) ys r = refl

pub last-some : (a : ℕ) (xs : Cells) → (b : ℕ) × (last (some a) xs ≡ some b)
last-some a [] = (a, refl)
last-some a ((b, d) ∷ xs) = last-some b xs

-- A segment stays one when nothing at its addresses changes.
pub frame :
    (h g : Heap) (q : Ptr) (xs : Cells) (r : Ptr)
    → Seg h q xs r
    → ((b : ℕ) → has b xs ≡ true → g b ≡ h b)
    → Seg g q xs r
frame h g q [] r s same = tt
frame h g q ((a, d) ∷ xs) r (e, out, s) same =
    (ground (arith, same a), out, frame h g (some a) xs r s (λ b i. same b (ground arith)))

pub frame-write :
    (h : Heap) (a : ℕ) (v : Option Node) (q : Ptr) (xs : Cells) (r : Ptr)
    → Seg h q xs r
    → a ∉ xs
    → Seg (write h a v) q xs r
unfolding write
frame-write h a v q xs r s out = frame h (write h a v) q xs r s (λ b i. ground arith)

pub split :
    (h : Heap) (q : Ptr) (xs ys : Cells) (r : Ptr)
    → Seg h q (xs ++ ys) r
    → Seg h q xs (first ys r) × Seg h (last q xs) ys r
split h q [] ys r s = (tt, s)
split h q ((a, d) ∷ xs) ys r (e, out, s) =
    let (s1, s2) = split h (some a) xs ys r s in
    ((rw (sym (first-append xs ys r)) e, ground (arith, has-append a xs ys), s1), s2)

-- No address of the one is in the other.
abbrev pub Apart : Cells → Cells → Type 0
Apart xs ys = (b : ℕ) → has b xs ≡ true → b ∉ ys

pub Apart-sym : (xs ys : Cells) → Apart xs ys → Apart ys xs
Apart-sym xs ys apart b i = elim (Bool-cases (has b xs)) [
  | inl e ↦ (let out = apart b e in cc)
  | inr e ↦ e
]

pub Apart-tail : (xs : Cells) (b c : ℕ) (ys : Cells) → Apart xs ((b, c) ∷ ys) → Apart xs ys
Apart-tail xs b c ys apart x i = ground (arith, apart x i)

pub Apart-cons : (xs : Cells) (b c : ℕ) (ys : Cells) → Apart xs ys → b ∉ xs → Apart xs ((b, c) ∷ ys)
Apart-cons xs b c ys apart out x i = elim (Bool-cases (x == b)) [
  | inl e ↦ let x_b : x ≡ b = (==_iff x b).0 e in let i' = subst (λ y. has y xs ≡ true) x_b i in cc
  | inr e ↦ rw e (apart x i)
]

pub has-head : (b c : ℕ) (ys : Cells) → has b ((b, c) ∷ ys) ≡ true
has-head b c ys = ground arith

pub split-Apart :
    (h : Heap) (q : Ptr) (xs ys : Cells) (r : Ptr) → Seg h q (xs ++ ys) r → Apart xs ys
split-Apart h q [] ys r s b i = cc
split-Apart h q ((a, d) ∷ xs) ys r (e, out, s) b i =
    ground (arith, split-Apart h (some a) xs ys r s b, has-append a xs ys)

pub glue :
    (h : Heap) (q : Ptr) (xs ys : Cells) (r : Ptr)
    → Seg h q xs (first ys r)
    → Seg h (last q xs) ys r
    → Apart xs ys
    → Seg h q (xs ++ ys) r
glue h q [] ys r s t apart = t
glue h q ((a, d) ∷ xs) ys r (e, out, s) t apart = (
  rw (first-append xs ys r) e,
  rw (has-append a xs ys, out) (apart a (ground arith)),
  glue h (some a) xs ys r s t (λ b i. apart b (ground arith)),
)

-- An address that holds no element is in no segment.
pub not-mem_of_none :
    (h : Heap) (a : ℕ) (q : Ptr) (xs : Cells) (r : Ptr) → Seg h q xs r → h a ≡ none → a ∉ xs
not-mem_of_none h a q [] r s unused = refl
not-mem_of_none h a q ((b, d) ∷ xs) r (e, out, s) unused =
    ground (arith, not-mem_of_none h a (some b) xs r s unused)

-- An address outside a list with an element in its middle
pub not-mem-middle :
    (b : ℕ) (ys : Cells) (a d : ℕ) (zs : Cells)
    → b ∉ ys ++ (a, d) ∷ zs
    → (b ∉ ys) × ((b == a) ≡ false) × (b ∉ zs)
not-mem-middle b ys a d zs o = (
  ground (arith, has-append b ys ((a, d) ∷ zs)),
  ground (arith, has-append b ys ((a, d) ∷ zs)),
  ground (arith, has-append b ys ((a, d) ∷ zs)),
)
