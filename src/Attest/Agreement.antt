-- ===== src/Attest/Agreement.antt =====
-- The verification accepts what the tpm daemon measured (tpm2d/ml.c, rattestation/container_verify.c).
use cml.Attest.Ima.{has_prefix}
use cml.Prelude.{
  suc, ◌≤◌, any, ◌&&◌, ◌||◌, ◌⊎◌, ◌≡◌, ◌≢◌, refl, sym, ap, subst, ◌∙◌, pos, Bool, true, false,
  Option, some, List, [], ◌∷◌, ◌++◌, All, map, length, arith, codes, if◌then◌else◌, ◌>>=◌,
  Bool-cases, ◌==◌, ltb, inl, inr,
}
use cml.Attest.Bytes.{
  Bytes, zeros, read_bytes, same, memcmp, same_refl, read_bytes-all, read_bytes-append, memcmp-same,
}
use cml.Attest.Hash.{sha256, Digests, hash_algo_to_size, hash_algo_to_string}
use cml.Attest.Measure.{
  AlgId, Elem, Ml, Tpm, size_of_ha, pcrextend, has_elem, measurement_list_append,
  halg_id_to_ima_string, Entry, get_container_list,
}
use cml.Attest.Containers.{extend_entry, replay, compare_pcr, container_verify}
use cml.Attest.Binding.{extend_all, length-extend_all, length-zeros}

-- One call of ml_measurement_list_append
pub record Measurement : Type 0 where
  pub tpm : Tpm
  pub filename : Bytes
  pub algid : AlgId
  pub datahash : Bytes

-- A SHA256 digest for a file with a C string as its name, and a TPM that answers
pub record Good (m : Measurement) : Type 0 where
  pub digest : length m.datahash ≡ 32
  pub name : All (λ x. x ≢ 0) m.filename
  pub extended : m.tpm.extends ≡ true
  pub answered : m.tpm.reads ≡ true

unfoldable pub append_all : Digests → List Measurement → Ml → Option Ml
append_all c [] s = some s
append_all c (m ∷ ms) s =
    measurement_list_append c m.tpm m.filename m.algid m.datahash s >>= λ (ret, s').
    append_all c ms s'

abbrev pub empty : Ml
empty = record { list = []; pcr = zeros 32 }

-- The elements of the list were read back and are digests.
abbrev Whole : List Elem → Type 0
Whole es = All (λ e. (length e.datahash ≡ 32) × ((p : Bytes) × (e.template ≡ some p))) es

abbrev hashes : List Elem → List Bytes
hashes es = map (λ e. e.datahash) es

-- The register is that of the list.
record Faithful (c : Digests) (s : Ml) : Type 0 where
  register : s.pcr ≡ extend_all c.hash256 (zeros 32) (hashes s.list)
  whole : Whole s.list

-- What an element says of a file: its name, the algorithm and the digest
abbrev pub Label : Type 0
Label = Bytes × (AlgId × Bytes)

abbrev pub label_of : Elem → Label
label_of e = (e.filename, (e.algid, e.datahash))

abbrev pub labels : List Elem → List Label
labels es = map label_of es

-- Whether a file is listed: with the same digest, under a name that begins with its own
abbrev pub listed_as : Bytes → Bytes → Label → Bool
listed_as filename datahash (f, (a, d)) = same d datahash && has_prefix f filename

-- What an entry tells of a file, and how a label is told
abbrev pub entry_label : Entry → Bytes × (Bytes × Bytes)
entry_label e = (e.filename, (e.data_hash_alg, e.data_hash))

abbrev pub printed : Label → Bytes × (Bytes × Bytes)
printed (f, (a, d)) = (f, (halg_id_to_ima_string a, d))

-- The list behind a measurement
abbrev pub noted : Measurement → List Label → List Label
noted m ls =
    if any (listed_as m.filename m.datahash) ls
    then ls
    else ls ++ (m.filename, (m.algid, m.datahash)) ∷ []

-- The list behind a sequence of measurements
abbrev pub noted_all : List Measurement → List Label → List Label
noted_all [] ls = ls
noted_all (m ∷ ms) ls = noted_all ms (noted m ls)

-- The comparison of the names stays within the stored one: it is not made, or the new name has at most
-- one byte more, for which there is the 0.
abbrev pub Readable : Bytes → Bytes → Label → Type 0
Readable filename datahash (f, (a, d)) =
    (same d datahash ≡ false) ⊎ (length filename ≤ suc (length f))

abbrev pub AllReadable : List Measurement → List Label → Type 0
AllReadable [] ls = Unit
AllReadable (m ∷ ms) ls = All (Readable m.filename m.datahash) ls × AllReadable ms (noted m ls)

memcmp-has_prefix :
    (f name : Bytes)
    → All (λ x. x ≢ 0) name
    → length name ≤ suc (length f)
    → memcmp (f ++ 0 ∷ []) name (length name) ≡ some (has_prefix f name)
unfolding memcmp has_prefix
memcmp-has_prefix f [] h l = refl
memcmp-has_prefix [] (x ∷ []) (n, h) l =
    let other : (0 == x) ≡ false = ground arith in rw other refl
memcmp-has_prefix [] (x ∷ y ∷ name) h l = absurd (omega arith)
memcmp-has_prefix (y ∷ f) (x ∷ name) (n, h) l = rw (memcmp-has_prefix f name h (omega arith)) refl

pick :
    (s n b : Bool)
    → (if s then (if n then some true else some b) else some b) ≡ some ((s && n) || b)
pick true true b = refl
pick true false b = refl
pick false n b = refl

has_elem_lem :
    (filename datahash : Bytes) (es : List Elem)
    → All (λ x. x ≢ 0) filename
    → length datahash ≡ 32
    → Whole es
    → All (Readable filename datahash) (labels es)
    → has_elem filename datahash es ≡ some (any (listed_as filename datahash) (labels es))
unfolding has_elem
has_elem_lem filename datahash [] n l w r = refl
has_elem_lem filename datahash (e ∷ es) n l ((le, _), w) (r, rs) =
    let later = has_elem_lem filename datahash es n l w rs in
    let hash =
      subst (λ k. memcmp e.datahash datahash k ≡ some (same e.datahash datahash)) (le ∙ sym l)
        (memcmp-same e.datahash datahash (le ∙ sym l)) in
    let rest = any (listed_as filename datahash) (labels es) in
    elim r [
      | inl differs ↦ rw (hash, later, differs) refl
      | inr fits ↦
          rw (hash, later, memcmp-has_prefix e.filename filename n fits)
            (pick (same e.datahash datahash) (has_prefix e.filename filename) rest)
    ]

pcrextend_lem :
    (c : Digests) (t : Tpm) (d pcr : Bytes)
    → length d ≡ 32
    → t.extends ≡ true
    → pcrextend c t d pcr ≡ some (c.hash256 (pcr ++ d))
unfolding pcrextend
pcrextend_lem c t d pcr l e =
    let small : ltb size_of_ha (length d) ≡ false = ground (arith, l) in
    let read : read_bytes 32 (d ++ zeros size_of_ha) ≡ some d =
      subst (λ n. read_bytes n (d ++ zeros size_of_ha) ≡ some d) l
        (read_bytes-append d (zeros size_of_ha)) in
    rw (small, e) (rw read refl)

extend_all-append_one :
    (hash : Bytes → Bytes) (pcr : Bytes) (es : List Elem) (e : Elem)
    → extend_all hash pcr (hashes (es ++ e ∷ []))
      ≡ hash (extend_all hash pcr (hashes es) ++ e.datahash)
extend_all-append_one hash pcr [] e = refl
extend_all-append_one hash pcr (x ∷ es) e =
    extend_all-append_one hash (hash (pcr ++ x.datahash)) es e

Whole-append_one :
    (es : List Elem) (e : Elem)
    → Whole es
    → length e.datahash ≡ 32
    → ((p : Bytes) × (e.template ≡ some p))
    → Whole (es ++ e ∷ [])
Whole-append_one [] e w l t = ((l, t), tt)
Whole-append_one (x ∷ es) e (h, w) l t = (h, Whole-append_one es e w l t)

labels-append_one :
    (es : List Elem) (e : Elem) → labels (es ++ e ∷ []) ≡ labels es ++ label_of e ∷ []
labels-append_one [] e = refl
labels-append_one (x ∷ es) e = ap (λ l. label_of x ∷ l) (labels-append_one es e)

module _ (c : Digests) where
  append_lem :
      (m : Measurement) (s : Ml)
      → Good m
      → Faithful c s
      → All (Readable m.filename m.datahash) (labels s.list)
      → (s' : Ml) × (measurement_list_append c m.tpm m.filename m.algid m.datahash s
          ≡ some (pos 0, s'))
        × Faithful c s'
        × (labels s'.list ≡ noted m (labels s.list))
  unfolding measurement_list_append
  append_lem m s g f r =
      let b = any (listed_as m.filename m.datahash) (labels s.list) in
      let there = has_elem_lem m.filename m.datahash s.list g.name g.digest f.whole r in
      let extended = pcrextend_lem c m.tpm m.datahash s.pcr g.digest g.extended in
      let some_hash : (length m.datahash == 0) ≡ false = ground (arith, g.digest) in
      let pcr = c.hash256 (s.pcr ++ m.datahash) in
      let e : Elem = record {
        filename = m.filename;
        algid = m.algid;
        datahash = m.datahash;
        template = some pcr;
      } in
      let s' : Ml = record { list = s.list ++ e ∷ []; pcr = pcr } in
      let f' : Faithful c s' = record {
        register =
            ap (λ p. c.hash256 (p ++ m.datahash)) f.register
            ∙ sym (extend_all-append_one c.hash256 (zeros 32) s.list e);
        whole = Whole-append_one s.list e f.whole g.digest (pcr, refl);
      } in
      elim (Bool-cases b) [
        | inl y ↦ (s, rw (some_hash, there, extended, y) refl, f, rw y refl)
        | inr y ↦ (
          s',
          rw (some_hash, there, extended, y, g.answered) refl,
          f',
          labels-append_one s.list e ∙ rw y refl,
        )
      ]

  append_all_lem :
      (ms : List Measurement) (s : Ml)
      → All Good ms
      → Faithful c s
      → AllReadable ms (labels s.list)
      → (s' : Ml) × (append_all c ms s ≡ some s')
        × Faithful c s'
        × (labels s'.list ≡ noted_all ms (labels s.list))
  unfolding append_all
  append_all_lem [] s g f r = (s, refl, f, refl)
  append_all_lem (m ∷ ms) s (g, gs) f (r, rs) =
      let (s1, e, f1, l1) = append_lem m s g f r in
      let (s2, e', f2, l2) = append_all_lem ms s1 gs f1 (subst (AllReadable ms) (sym l1) rs) in
      (s2, rw e e', f2, l2 ∙ ap (noted_all ms) l1)

  list_lem :
      (es : List Elem) (pcr : Bytes)
      → Whole es
      → (entries : List Entry) × (get_container_list es ≡ some entries)
        × (replay c sha256 (codes "sha256") pcr entries
            ≡ some (some (extend_all c.hash256 pcr (hashes es))))
        × (map entry_label entries ≡ map printed (labels es))
  unfolding get_container_list replay extend_entry halg_id_to_ima_string same
  list_lem [] pcr w = ([], refl, refl, refl)
  list_lem (e ∷ es) pcr ((l, (p, t)), w) =
      let (entries, listed, r, n) = list_lem es (c.hash256 (pcr ++ e.datahash)) w in
      let entry : Entry = record {
        filename = e.filename;
        template_hash_alg = codes "sha256";
        template_hash = p;
        data_hash_alg = halg_id_to_ima_string e.algid;
        data_hash = e.datahash;
      } in
      let read = read_bytes-all 32 e.datahash l in
      (
        entry ∷ entries,
        rw (t, listed) refl,
        rw read r,
        ap (λ ls. (e.filename, (halg_id_to_ima_string e.algid, e.datahash)) ∷ ls) n,
      )

-- For measurements of SHA256 digests of files with C strings as names, while the TPM answers and no name
-- is compared past the end of a stored one: the daemon lists, in order, those whose digest it has not yet
-- listed under a name that begins with theirs, with name, algorithm and digest, and the verification
-- accepts the list for the register as it then is.
pub append_all-verified :
    (c : Digests) (ms : List Measurement)
    → All Good ms
    → AllReadable ms []
    → (s : Ml) × (entries : List Entry) × (append_all c ms empty ≡ some s)
      × (get_container_list s.list ≡ some entries)
      × (map entry_label entries ≡ map printed (noted_all ms []))
      × (container_verify c entries sha256 s.pcr ≡ some (pos 0))
unfolding container_verify hash_algo_to_size hash_algo_to_string compare_pcr
append_all-verified c ms g rs =
    let (s, e, f, ls) = append_all_lem c ms empty g (record { register = refl; whole = tt }) rs in
    let (entries, l, r, n) = list_lem c s.list (zeros 32) f.whole in
    let pcr = extend_all c.hash256 (zeros 32) (hashes s.list) in
    let long : length pcr ≡ 32 =
      length-extend_all c.hash256 32 (zeros 32) (hashes s.list) c.length-hash256
        (length-zeros 32) in
    let self : memcmp pcr pcr 32 ≡ some true =
      subst (λ n. memcmp pcr pcr n ≡ some true) long
        (memcmp-same pcr pcr refl ∙ ap some (same_refl pcr)) in
    let equal : memcmp pcr s.pcr 32 ≡ some true =
      subst (λ x. memcmp pcr x 32 ≡ some true) (sym f.register) self in
    (s, entries, e, l, n ∙ ap (map printed) ls, rw r (rw equal refl))
