-- ===== src/Devices/World/Open.antt =====
-- What the programs of the other containers make of a device that is exclusively assigned
-- (daemon/c_cgroups_dev.c).
use cml.Prelude.{
  ℕ, ◌==ℤ◌, ◌≡◌, ◌≢◌, refl, sym, ap, ℤ, pos, negsuc, Bool, true, false, ◌||◌, some, List, [], ◌∷◌,
  All, any, get_elem?, arith, minus_one, ◌==◌, ◌∙◌, inl, inr, Bool-cases,
}
use cml.Devices.Item.{Item}
use cml.Devices.Bpf.{bpf_prog_generate}
use cml.Devices.Bpf.Machine.{Access, Machine, run}
use cml.Devices.Bpf.Enforces.{IsContext, covers, number_fits, generate_enforces}
use cml.Devices.Control.Matching.{NoClash, clash}
use cml.Devices.World.{Container, World, empty_world, Reach}
use cml.Devices.World.Exclusion.{Reach-Excludes}

-- The only negative number of a rule is -1, the wildcard.
abbrev pub is_plain : ℤ → Bool
is_plain (pos n) = true
is_plain (negsuc n) = n == 0

abbrev pub IsPlain : Item → Type 0
IsPlain d = (is_plain d.major ≡ true) × (is_plain d.minor ≡ true)

-- Two plain numbers that one number fits are equal, or one is the wildcard.
fits-both :
    (v w : ℤ) (k : ℕ)
    → is_plain v ≡ true
    → is_plain w ≡ true
    → number_fits v k ≡ true
    → number_fits w k ≡ true
    → (v ==ℤ minus_one || (w ==ℤ minus_one || v ==ℤ w)) ≡ true
fits-both (pos n) (pos m) k p q h g = ground arith
fits-both (pos n) (negsuc m) k p q h g = ground arith
fits-both (negsuc n) (pos m) k p q h g = ground arith
fits-both (negsuc n) (negsuc m) k p q h g = ground arith

-- Two plain rules that cover one access overlap.
covers-clash :
    (a : Access) (e d : Item)
    → IsPlain e
    → IsPlain d
    → covers a e ≡ true
    → covers a d ≡ true
    → clash e d ≡ true
covers-clash a e d (p, p') (q, q') h g =
    ground (arith, fits-both e.major d.major a.major p q, fits-both e.minor d.minor a.minor p' q')

-- Rules that are apart from one that covers an access do not cover it.
apart-covers :
    (a : Access) (e : Item) (l : List Item)
    → IsPlain e
    → All IsPlain l
    → covers a e ≡ true
    → All (λ d. clash e d ≡ false) l
    → any (covers a) l ≡ false
apart-covers a e [] p ps h cs = refl
apart-covers a e (d ∷ l) p (q, ps) h (c, cs) =
    let later = apart-covers a e l p ps h cs in
    elim (Bool-cases (covers a d)) [
      | inl g ↦ let both = covers-clash a e d p q h g in absurd cc
      | inr g ↦ rw (g, later) refl
    ]

NoClash-covers :
    (a : Access) (k l : List Item)
    → All IsPlain k
    → All IsPlain l
    → any (covers a) k ≡ true
    → NoClash k l
    → any (covers a) l ≡ false
NoClash-covers a [] l ps qs h n = cc
NoClash-covers a (e ∷ k) l (p, ps) qs h (n, ns) = elim (Bool-cases (covers a e)) [
  | inl g ↦ apart-covers a e l p qs g n
  | inr g ↦
      let rest : any (covers a) k ≡ true = sym (ap (λ b. b || any (covers a) k) g) ∙ h in
      NoClash-covers a k l ps qs rest ns
]

-- Whatever operations are carried out on whatever containers, with any answers of the kernel: the program
-- generated from the rules of one container denies every access that an exclusively assigned rule of
-- another one covers, on every machine that meets the documented laws, as long as -1 is the only negative
-- number in these rules and the context has its fields within their widths.
pub Reach-bpf_prog_generate :
    {w : World} (i j : ℕ) (c o : Container) (m : Machine) (a : Access)
    → Reach empty_world w
    → get_elem? w.containers i ≡ some c
    → get_elem? w.containers j ≡ some o
    → i ≢ j
    → All IsPlain c.assigned
    → All IsPlain o.allowed
    → IsContext a
    → any (covers a) c.assigned ≡ true
    → run m (bpf_prog_generate o.allowed) a ≡ some 0
Reach-bpf_prog_generate i j c o m a r p q d ps qs ctx h =
    let apart = (Reach-Excludes i j c o r p q d).own in
    let denied = NoClash-covers a c.assigned o.allowed ps qs h apart in
    generate_enforces m o.allowed a ctx ∙ rw denied refl
