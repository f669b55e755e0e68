-- ===== src/Attest/Bytes.antt =====
-- Byte sequences and what memcmp says of them (rattestation/, tpm2d/).
use cml.Prelude.{
  ℕ, zero, suc, ◌≡◌, ◌≢◌, refl, sym, ap, ap₂, ◌∙◌, Bool, true, false, Option, none, some, List, [],
  ◌∷◌, ◌++◌, length, arith, ◌==◌, if◌then◌else◌, ==_iff,
}

abbrev pub Bytes : Type 0
Bytes = List ℕ

abbrev pub zeros : ℕ → Bytes
zeros zero = []
zeros (suc n) = 0 ∷ zeros n

-- The first n bytes; none when there are fewer
unfoldable pub read_bytes : ℕ → Bytes → Option Bytes
read_bytes zero xs = some []
read_bytes (suc n) [] = none
read_bytes (suc n) (x ∷ xs) = elim (read_bytes n xs) [ none ↦ none | some ys ↦ some (x ∷ ys) ]

-- Whether two sequences are the same
unfoldable pub same : Bytes → Bytes → Bool
same [] [] = true
same [] (y ∷ ys) = false
same (x ∷ xs) [] = false
same (x ∷ xs) (y ∷ ys) = let rest = same xs ys in if x == y then rest else false

-- memcmp on n bytes; none when one of the two has fewer, even behind the first difference.
unfoldable pub memcmp : Bytes → Bytes → ℕ → Option Bool
memcmp xs ys zero = some true
memcmp [] ys (suc n) = none
memcmp (x ∷ xs) [] (suc n) = none
memcmp (x ∷ xs) (y ∷ ys) (suc n) = elim (memcmp xs ys n) [
  | none ↦ none
  | some rest ↦ some (if x == y then rest else false)
]

both : (b c : Bool) → (if b then c else false) ≡ true → (b ≡ true) × (c ≡ true)
both true c h = (refl, h)
both false c h = cc

pub same-eq : (xs ys : Bytes) → same xs ys ≡ true → xs ≡ ys
unfolding same
same-eq [] [] h = refl
same-eq [] (y ∷ ys) h = cc
same-eq (x ∷ xs) [] h = cc
same-eq (x ∷ xs) (y ∷ ys) h =
    let (e, r) = both (x == y) (same xs ys) h in
    ap₂ (λ a l. a ∷ l) ((==_iff x y).0 e) (same-eq xs ys r)

pub same_refl : (xs : Bytes) → same xs xs ≡ true
unfolding same
same_refl [] = refl
same_refl (x ∷ xs) = let e : (x == x) ≡ true = ground arith in rw e (same_refl xs)

pub same_ne : (xs ys : Bytes) → same xs ys ≡ false → xs ≢ ys
same_ne xs ys h e = let yes : same xs ys ≡ true = ap (same xs) (sym e) ∙ same_refl xs in cc

pub read_bytes-append : (xs ys : Bytes) → read_bytes (length xs) (xs ++ ys) ≡ some xs
unfolding read_bytes
read_bytes-append [] ys = refl
read_bytes-append (x ∷ xs) ys = rw (read_bytes-append xs ys) refl

pub read_bytes-all : (n : ℕ) (xs : Bytes) → length xs ≡ n → read_bytes n xs ≡ some xs
unfolding read_bytes
read_bytes-all zero [] h = refl
read_bytes-all zero (x ∷ xs) h = absurd (omega arith)
read_bytes-all (suc n) [] h = absurd (omega arith)
read_bytes-all (suc n) (x ∷ xs) h = rw (read_bytes-all n xs (omega arith)) refl

-- Two pairs of sequences of the same lengths
pub append-inj :
    (xs xs' ys ys' : Bytes)
    → length xs ≡ length xs'
    → xs ++ ys ≡ xs' ++ ys'
    → (xs ≡ xs') × (ys ≡ ys')
append-inj [] [] ys ys' l e = (refl, e)
append-inj [] (x ∷ xs') ys ys' l e = absurd (omega arith)
append-inj (x ∷ xs) [] ys ys' l e = absurd (omega arith)
append-inj (x ∷ xs) (y ∷ xs') ys ys' l e =
    let head : x ≡ y = cc in
    let tail : xs ++ ys ≡ xs' ++ ys' = cc in
    let (a, b) = append-inj xs xs' ys ys' (omega arith) tail in (ap₂ (λ h t. h ∷ t) head a, b)

pub memcmp-same :
    (xs ys : Bytes) → length xs ≡ length ys → memcmp xs ys (length xs) ≡ some (same xs ys)
unfolding memcmp same
memcmp-same [] [] l = refl
memcmp-same [] (y ∷ ys) l = absurd (omega arith)
memcmp-same (x ∷ xs) [] l = absurd (omega arith)
memcmp-same (x ∷ xs) (y ∷ ys) l = rw (memcmp-same xs ys (omega arith)) refl

-- Two sequences that are equal from a first byte on
pub memcmp_lem :
    (x y : ℕ) (xs ys : Bytes) (n : ℕ)
    → memcmp (x ∷ xs) (y ∷ ys) (suc n) ≡ some true
    → (x ≡ y) × (memcmp xs ys n ≡ some true)
unfolding memcmp
memcmp_lem x y xs ys n h = step (memcmp xs ys n) h
  where
    step :
        (r : Option Bool)
        → elim r as (λ r. Option Bool) [
          | none ↦ none
          | some rest ↦ some (if x == y then rest else false)
        ]
          ≡ some true
        → (x ≡ y) × (r ≡ some true)
    step none h = cc
    step (some rest) h =
        let inner : (if x == y then rest else false) ≡ true = cc in
        let (e, r) = both (x == y) rest inner in ((==_iff x y).0 e, ap some r)
