-- ===== src/Attest/Binding.antt =====
-- What an extended register says of the measurements (rattestation/, tpm2d/).
use cml.Prelude.{
  ℕ, zero, suc, ◌≡◌, ◌≢◌, refl, sym, ap, ap₂, ◌∙◌, ◌⊎◌, inl, inr, pos, minus_one, Bool, true, false,
  Option, none, some, List, [], ◌∷◌, ◌++◌, map, length, arith, codes, if◌then◌else◌, ◌>>=◌,
  >>=-eq-some, Bool-cases,
}
use cml.Attest.Bytes.{
  Bytes, zeros, read_bytes, same, memcmp, same-eq, same_ne, append-inj, memcmp_lem,
}
use cml.Attest.Hash.{sha256, Digests, hash_algo_to_size, hash_algo_to_string}
use cml.Attest.Measure.{Entry}
use cml.Attest.Containers.{extend_entry, replay, compare_pcr, container_verify}

-- Two messages with one digest
abbrev pub Collision : (Bytes → Bytes) → Type 0
Collision hash = (m m' : Bytes) × (m ≢ m') × (hash m ≡ hash m')

-- A message whose digest is this
abbrev pub Preimage : (Bytes → Bytes) → Bytes → Type 0
Preimage hash d = (m : Bytes) × (hash m ≡ d)

abbrev rev : List Bytes → List Bytes
rev [] = []
rev (d ∷ ds) = rev ds ++ d ∷ []

module _ (hash : Bytes → Bytes) where
  -- The register behind a sequence of extensions
  abbrev pub extend_all : Bytes → List Bytes → Bytes
  extend_all pcr [] = pcr
  extend_all pcr (d ∷ ds) = extend_all (hash (pcr ++ d)) ds

  -- The same from the last extension on
  chain : Bytes → List Bytes → Bytes
  chain pcr [] = pcr
  chain pcr (d ∷ ds) = hash (chain pcr ds ++ d)

  chain_one :
      (pcr d : Bytes) (ds : List Bytes) → chain pcr (ds ++ d ∷ []) ≡ chain (hash (pcr ++ d)) ds
  unfolding chain
  chain_one pcr d [] = refl
  chain_one pcr d (x ∷ ds) = ap (λ p. hash (p ++ x)) (chain_one pcr d ds)

  extend_all-chain : (pcr : Bytes) (ds : List Bytes) → extend_all pcr ds ≡ chain pcr (rev ds)
  unfolding chain
  extend_all-chain pcr [] = refl
  extend_all-chain pcr (d ∷ ds) =
      extend_all-chain (hash (pcr ++ d)) ds ∙ sym (chain_one pcr d (rev ds))

  module _ (n : ℕ) (length-hash : (m : Bytes) → length (hash m) ≡ n) (start : Bytes)
      (length-start : length start ≡ n) where
    length-chain : (ds : List Bytes) → length (chain start ds) ≡ n
    unfolding chain
    length-chain [] = length-start
    length-chain (d ∷ ds) = length-hash (chain start ds ++ d)

    chain-binding :
        (ds es : List Bytes)
        → chain start ds ≡ chain start es
        → (ds ≡ es) ⊎ (Collision hash ⊎ Preimage hash start)
    unfolding chain
    chain-binding [] [] e = inl refl
    chain-binding [] (x ∷ es) e = inr (inr (chain start es ++ x, sym e))
    chain-binding (d ∷ ds) [] e = inr (inr (chain start ds ++ d, e))
    chain-binding (d ∷ ds) (x ∷ es) e =
        elim (Bool-cases (same (chain start ds ++ d) (chain start es ++ x))) [
          | inl y ↦
              let (p, q) =
                append-inj (chain start ds) (chain start es) d x
                  (length-chain ds ∙ sym (length-chain es))
                  (same-eq (chain start ds ++ d) (chain start es ++ x) y) in
              elim (chain-binding ds es p) [ inl r ↦ inl (ap₂ (λ h t. h ∷ t) q r) | inr r ↦ inr r ]
          | inr y ↦ inr (
              inl (
                chain start ds ++ d,
                chain start es ++ x,
                same_ne (chain start ds ++ d) (chain start es ++ x) y,
                e,
              ))
        ]

rev-append_one : (ds : List Bytes) (d : Bytes) → rev (ds ++ d ∷ []) ≡ d ∷ rev ds
rev-append_one [] d = refl
rev-append_one (x ∷ ds) d = ap (λ l. l ++ x ∷ []) (rev-append_one ds d)

rev-rev : (ds : List Bytes) → rev (rev ds) ≡ ds
rev-rev [] = refl
rev-rev (d ∷ ds) = rev-append_one (rev ds) d ∙ ap (λ l. d ∷ l) (rev-rev ds)

pub length-extend_all :
    (hash : Bytes → Bytes) (n : ℕ) (start : Bytes) (ds : List Bytes)
    → ((m : Bytes) → length (hash m) ≡ n)
    → length start ≡ n
    → length (extend_all hash start ds) ≡ n
length-extend_all hash n start [] l ls = ls
length-extend_all hash n start (d ∷ ds) l ls =
    length-extend_all hash n (hash (start ++ d)) ds l (l (start ++ d))

-- Two sequences of extensions that lead from one start to one register are the same, or else they show
-- two messages with one digest, or a message whose digest is the start.
pub extend_all-binding :
    (hash : Bytes → Bytes) (n : ℕ) (start : Bytes) (ds es : List Bytes)
    → ((m : Bytes) → length (hash m) ≡ n)
    → length start ≡ n
    → extend_all hash start ds ≡ extend_all hash start es
    → (ds ≡ es) ⊎ (Collision hash ⊎ Preimage hash start)
extend_all-binding hash n start ds es l ls e =
    let chains : chain hash start (rev ds) ≡ chain hash start (rev es) =
      sym (extend_all-chain hash start ds) ∙ e ∙ extend_all-chain hash start es in
    elim (chain-binding hash n l start ls (rev ds) (rev es) chains) [
      | inl r ↦ inl (sym (rev-rev ds) ∙ ap rev r ∙ rev-rev es)
      | inr r ↦ inr r
    ]

-- Two sequences of which memcmp says that they begin as a third does
pub memcmp-eq :
    (xs ys zs : Bytes) (n : ℕ)
    → length xs ≡ n
    → length ys ≡ n
    → memcmp xs zs n ≡ some true
    → memcmp ys zs n ≡ some true
    → xs ≡ ys
unfolding memcmp
memcmp-eq [] [] zs n lx ly h k = refl
memcmp-eq [] (y ∷ ys) zs n lx ly h k = absurd (omega arith)
memcmp-eq (x ∷ xs) [] zs n lx ly h k = absurd (omega arith)
memcmp-eq (x ∷ xs) (y ∷ ys) zs zero lx ly h k = absurd (omega arith)
memcmp-eq (x ∷ xs) (y ∷ ys) [] (suc n) lx ly h k = cc
memcmp-eq (x ∷ xs) (y ∷ ys) (z ∷ zs) (suc n) lx ly h k =
    let (e, r) = memcmp_lem x z xs zs n h in
    let (e', r') = memcmp_lem y z ys zs n k in
    ap₂ (λ a l. a ∷ l) (e ∙ sym e') (memcmp-eq xs ys zs n (omega arith) (omega arith) r r')

pub length-zeros : (n : ℕ) → length (zeros n) ≡ n
length-zeros zero = refl
length-zeros (suc n) = ap suc (length-zeros n)

-- The bytes of the hashes that the verification reads
abbrev pub heads : List Entry → List (Option Bytes)
heads es = map (λ e. read_bytes 32 e.data_hash) es

went_on :
    (b : Bool) (o : Option (Option Bytes)) {end : Bytes}
    → (if b then o else some none) ≡ some (some end)
    → o ≡ some (some end)
went_on true o h = h
went_on false o h = cc

module _ (c : Digests) (name : Bytes) where
  replay_lem :
      (pcr : Bytes) (es : List Entry) (end : Bytes)
      → replay c sha256 name pcr es ≡ some (some end)
      → (ds : List Bytes) × (heads es ≡ map some ds) × (end ≡ extend_all c.hash256 pcr ds)
  unfolding replay extend_entry
  replay_lem pcr [] end h = ([], refl, cc)
  replay_lem pcr (e ∷ es) end h =
      let step =
        went_on (same e.template_hash_alg name)
          (extend_entry c sha256 pcr e.data_hash >>= λ pcr'. replay c sha256 name pcr' es) h in
      let (pcr', f, g) =
        >>=-eq-some (extend_entry c sha256 pcr e.data_hash) (λ pcr'. replay c sha256 name pcr' es)
          step in
      let (d, r, x) =
        >>=-eq-some (read_bytes 32 e.data_hash) (λ d. some (c.hash256 (pcr ++ d))) f in
      let (ds, hs, last_pcr) = replay_lem pcr' es end g in
      let next : c.hash256 (pcr ++ d) ≡ pcr' = cc in
      (d ∷ ds, ap₂ (λ a l. a ∷ l) r hs, last_pcr ∙ ap (λ p. extend_all c.hash256 p ds) (sym next))

pub compare_pcr_lem :
    (p pcr_tpm : Bytes) (n : ℕ)
    → compare_pcr p pcr_tpm n ≡ some (pos 0)
    → memcmp p pcr_tpm n ≡ some true
unfolding compare_pcr
compare_pcr_lem p pcr_tpm n h =
    let (b, e, f) =
      >>=-eq-some (memcmp p pcr_tpm n) (λ equal. some (if equal then pos 0 else minus_one)) h in
    e ∙ ap some (yes b f)
  where
    yes : (b : Bool) → some (if b then pos 0 else minus_one) ≡ some (pos 0) → b ≡ true
    yes true h = refl
    yes false h = cc

compared :
    (pcr_tpm : Bytes) (n : ℕ) (result : Option Bytes)
    → elim result [ none ↦ some minus_one | some pcr ↦ compare_pcr pcr pcr_tpm n ] ≡ some (pos 0)
    → (p : Bytes) × (result ≡ some p) × (memcmp p pcr_tpm n ≡ some true)
compared pcr_tpm n none h = cc
compared pcr_tpm n (some p) h = (p, refl, compare_pcr_lem p pcr_tpm n h)

-- What an acceptance says
pub accepted_lem :
    (c : Digests) (es : List Entry) (pcr_tpm : Bytes)
    → container_verify c es sha256 pcr_tpm ≡ some (pos 0)
    → (ds : List Bytes) × (heads es ≡ map some ds)
      × (memcmp (extend_all c.hash256 (zeros 32) ds) pcr_tpm 32 ≡ some true)
unfolding container_verify hash_algo_to_size hash_algo_to_string
accepted_lem c es pcr_tpm h =
    let (result, r, g) =
      >>=-eq-some (replay c sha256 (codes "sha256") (zeros 32) es)
        (λ result. elim result [ none ↦ some minus_one | some pcr ↦ compare_pcr pcr pcr_tpm 32 ])
        h in
    let (p, e, m) = compared pcr_tpm 32 result g in
    let (ds, hs, end) = replay_lem c (codes "sha256") (zeros 32) es p (r ∙ ap some e) in
    (ds, hs, ap (λ x. memcmp x pcr_tpm 32) (sym end) ∙ m)

-- Two lists of container measurements that are accepted for one value of the register agree in the hashes
-- of the images and their order, of each the first 32 bytes, or else they show two messages with one
-- SHA256 digest, or a message whose digest is all zero.
pub container_verify-binding :
    (c : Digests) (es fs : List Entry) (pcr_tpm : Bytes)
    → container_verify c es sha256 pcr_tpm ≡ some (pos 0)
    → container_verify c fs sha256 pcr_tpm ≡ some (pos 0)
    → (heads es ≡ heads fs) ⊎ (Collision c.hash256 ⊎ Preimage c.hash256 (zeros 32))
container_verify-binding c es fs pcr_tpm h k =
    let (ds, hd, md) = accepted_lem c es pcr_tpm h in
    let (xs, hx, mx) = accepted_lem c fs pcr_tpm k in
    let start = length-zeros 32 in
    let one =
      memcmp-eq (extend_all c.hash256 (zeros 32) ds) (extend_all c.hash256 (zeros 32) xs) pcr_tpm 32
        (length-extend_all c.hash256 32 (zeros 32) ds c.length-hash256 start)
        (length-extend_all c.hash256 32 (zeros 32) xs c.length-hash256 start) md mx in
    elim (extend_all-binding c.hash256 32 (zeros 32) ds xs c.length-hash256 start one) [
      | inl r ↦ inl (hd ∙ ap (map some) r ∙ sym hx)
      | inr r ↦ inr r
    ]
