-- ===== src/Attest/Remains.antt =====
-- What remains of the measurement log behind each read (rattestation/ima_verify.c).
use cml.Prelude.{
  ℕ, zero, suc, ◌-◌, ◌^◌, ◌≤◌, ◌<◌, ◌≡◌, refl, sym, ap, subst, ◌∙◌, Bool-cases, inl, inr, Bool,
  true, false, Option, none, some, [], ◌∷◌, ◌++◌, length, drop, ltb, arith, codes, if◌then◌else◌,
  ◌>>=◌, >>=-eq-some,
}
use cml.Attest.Bytes.{Bytes, zeros, read_bytes, same}
use cml.Attest.Hash.{HashAlgo}
use cml.Attest.Ima.{Env, le32}
use cml.Attest.Log.{
  buf_read, buf_read_into, buf_read_int, buf_read_number, c_string, read_ima_data, read_other_data,
  read_template_data, verify_template_hash, verify_template_data, extend_pcr, Header, Loop,
  verify_event,
}

length-drop : (n : ℕ) (xs : Bytes) → length (drop n xs) ≤ length xs
length-drop zero xs = omega arith
length-drop (suc n) [] = omega arith
length-drop (suc n) (x ∷ xs) = omega (arith, length-drop n xs)

buf_read_lem :
    (n : ℕ) (buf bytes rest : Bytes)
    → buf_read n buf ≡ some (bytes, rest)
    → (rest ≡ drop n buf) × (read_bytes n buf ≡ some bytes)
unfolding buf_read
buf_read_lem n buf bytes rest h =
    let (b, e, f) = >>=-eq-some (read_bytes n buf) (λ bytes. some (bytes, drop n buf)) h in
    (cc, e ∙ cc)

buf_read_bound :
    (n : ℕ) (buf bytes rest : Bytes)
    → buf_read n buf ≡ some (bytes, rest)
    → length rest ≤ length buf
buf_read_bound n buf bytes rest h =
    let (e, _) = buf_read_lem n buf bytes rest h in
    subst (λ r. length r ≤ length buf) (sym e) (length-drop n buf)

-- A header takes a byte at least.
pub header_bound :
    (buf bytes rest : Bytes) → buf_read 28 buf ≡ some (bytes, rest) → length rest < length buf
unfolding read_bytes
header_bound [] bytes rest h = let (_, r) = buf_read_lem 28 [] bytes rest h in cc
header_bound (x ∷ buf) bytes rest h =
    let (e, _) = buf_read_lem 28 (x ∷ buf) bytes rest h in
    subst (λ r. length r < suc (length buf)) (sym e) (omega (arith, length-drop 27 buf))

into_bound : (dest buf : Bytes) (n : ℕ) → length (buf_read_into dest n buf).1 ≤ length buf
unfolding buf_read_into
into_bound dest buf n = step (buf_read n buf) refl
  where
    step :
        (r : Option (Bytes × Bytes))
        → buf_read n buf ≡ r
        → length (
            (elim r as (λ r. Bytes × Bytes) [
              | none ↦ (dest, buf)
              | some (bytes, rest) ↦ (bytes ++ drop n dest, rest)
            ]).1)
          ≤ length buf
    step none e = omega arith
    step (some (bytes, rest)) e = buf_read_bound n buf bytes rest e

int_bound : (dest buf : Bytes) (n : ℕ) → length (buf_read_int dest n buf).1 ≤ length buf
unfolding buf_read_int
int_bound dest buf n = elim (Bool-cases (ltb n (2 ^ 31))) [
  | inl y ↦ rw y (into_bound dest buf n)
  | inr y ↦ let same_length : length buf ≤ length buf = omega arith in rw y same_length
]

number_bound : (kept : ℕ) (buf : Bytes) → length (buf_read_number kept buf).1 ≤ length buf
unfolding buf_read_number
number_bound kept buf = step (buf_read 4 buf) refl
  where
    step :
        (r : Option (Bytes × Bytes))
        → buf_read 4 buf ≡ r
        → length (
            (elim r as (λ r. ℕ × Bytes) [
              | none ↦ (kept, buf)
              | some (bytes, rest) ↦ (le32 bytes, rest)
            ]).1)
          ≤ length buf
    step none e = omega arith
    step (some (bytes, rest)) e = buf_read_bound 4 buf bytes rest e

given :
    (b : Bool) (o : Option (Bytes × Bytes)) {q : Bytes × Bytes}
    → (if b then o else none) ≡ some q
    → o ≡ some q
given true o h = h
given false o h = cc

other_bound :
    (env : Env) (stale : ℕ) (buf text rest : Bytes)
    → read_other_data env stale buf ≡ some (text, rest)
    → length rest ≤ length buf
unfolding read_other_data
other_bound env stale buf text rest h =
    let len = (buf_read_number stale buf).0 in
    let buf' = (buf_read_number stale buf).1 in
    let first = number_bound stale buf in
    let second = int_bound (zeros len) buf' len in
    let e = given (env.can_alloc len) (some (buf_read_int (zeros len) len buf')) h in
    let r : (buf_read_int (zeros len) len buf').1 ≡ rest = ap (λ p. p.1) (some_eq e) in
    subst (λ r. length r ≤ length buf) r (omega (arith, first, second))
  where
    some_eq : {p q : Bytes × Bytes} → some p ≡ some q → p ≡ q
    some_eq e = cc

-- A result under a test: the branch that has it
if_some :
    {A : Type 0} (b : Bool) (o : Option (Option A)) {a : A}
    → (if b then o else some none) ≡ some (some a)
    → o ≡ some (some a)
if_some true o h = h
if_some false o h = cc

if_none :
    {A : Type 0} (b : Bool) (o : Option (Option A)) {a : A}
    → (if b then none else o) ≡ some (some a)
    → o ≡ some (some a)
if_none true o h = cc
if_none false o h = h

if_refused :
    {A : Type 0} (b : Bool) (o : Option (Option A)) {a : A}
    → (if b then some none else o) ≡ some (some a)
    → o ≡ some (some a)
if_refused true o h = cc
if_refused false o h = h

pair_rest :
    {r : Bytes × Bytes} {text rest : Bytes} → some (some r) ≡ some (some (text, rest)) → r.1 ≡ rest
pair_rest {r = r} {text = text} {rest = rest} e = ap (λ p. p.1) both
  where
    both : r ≡ (text, rest)
    both = cc

ima_bound :
    (env : Env) (buf text rest : Bytes)
    → read_ima_data env buf ≡ some (some (text, rest))
    → length rest ≤ length buf
unfolding read_ima_data
ima_bound env buf text rest h =
    let digest = (buf_read_int (zeros 20) 20 buf).0 in
    let buf' = (buf_read_int (zeros 20) 20 buf).1 in
    let field_len = (buf_read_number 0 buf').0 in
    let buf'' = (buf_read_number 0 buf').1 in
    let first = int_bound (zeros 20) buf 20 in
    let second = number_bound 0 buf' in
    let third =
      step digest field_len buf'' (buf_read field_len buf'') refl
        (if_some (env.can_alloc 276) _ h) in
    omega (arith, first, second, third)
  where
    step :
        (digest : Bytes) (field_len : ℕ) (buf'' : Bytes) (r : Option (Bytes × Bytes))
        → buf_read field_len buf'' ≡ r
        → elim r as (λ r. Option (Option (Bytes × Bytes))) [
          | none ↦ some (some (digest ++ zeros 256, buf''))
          | some (bytes, left) ↦
              if ltb 256 field_len
              then none
              else some (some (digest ++ bytes ++ zeros (256 - field_len), left))
        ]
          ≡ some (some (text, rest))
        → length rest ≤ length buf''
    step digest field_len buf'' none e h =
        subst (λ r. length r ≤ length buf'') (pair_rest h) (omega arith)
    step digest field_len buf'' (some (bytes, left)) e h =
        subst (λ r. length r ≤ length buf'') (pair_rest (if_none (ltb 256 field_len) _ h))
          (buf_read_bound field_len buf'' bytes left e)

template_bound :
    (env : Env) (stale : ℕ) (name buf text rest : Bytes)
    → read_template_data env stale name buf ≡ some (some (text, rest))
    → length rest ≤ length buf
unfolding read_template_data
template_bound env stale name buf text rest h = elim (Bool-cases (same name (codes "ima"))) [
  | inl y ↦ ima_bound env buf text rest (
      ap (λ b. if b then read_ima_data env buf else some (read_other_data env stale buf)) (sym y)
      ∙ h)
  | inr y ↦ other_bound env stale buf text rest (
      inner (
        ap (λ b. if b then read_ima_data env buf else some (read_other_data env stale buf)) (sym y)
        ∙ h))
]
  where
    inner : {o : Option (Bytes × Bytes)} → some o ≡ some (some (text, rest)) → o ≡ some (text, rest)
    inner e = cc

pub event_bound :
    (env : Env) (algo : HashAlgo) (h : Header) (s s' : Loop)
    → verify_event env algo h s ≡ some (some s')
    → length s'.buf ≤ length s.buf
unfolding verify_event
event_bound env algo h s s' e =
    let name_array = (buf_read_into (zeros 256) h.name_len s.buf).0 in
    let buf = (buf_read_into (zeros 256) h.name_len s.buf).1 in
    let name = c_string name_array in
    let first = into_bound (zeros 256) s.buf h.name_len in
    let (read, r, f) =
      >>=-eq-some (read_template_data env s.stale name buf) _
        (if_refused (ltb 255 h.name_len) _ e) in
    let second = step name buf read r f in omega (arith, first, second)
  where
    last_step :
        (rest : Bytes) (text : Bytes) (good : Bool) (lost : Bool)
        → some (
            if good
            then (extend_pcr env algo s.pcr text >>= λ pcr.
                some (record { buf = rest; pcr = pcr; stale = length text; lost = lost }))
            else none)
          ≡ some (some s')
        → s'.buf ≡ rest
    last_step rest text true lost e =
        let (pcr, _, g) =
          >>=-eq-some (extend_pcr env algo s.pcr text)
            (λ pcr. some (record { buf = rest; pcr = pcr; stale = length text; lost = lost }))
            (strip e) in
        sym (ap (λ (s : Loop). s.buf) (some_eq g))
      where
        strip : {o : Option Loop} → some o ≡ some (some s') → o ≡ some s'
        strip e = cc

        some_eq : {p q : Loop} → some p ≡ some q → p ≡ q
        some_eq e = cc
    last_step rest text false lost e = cc

    step :
        (name buf : Bytes) (read : Option (Bytes × Bytes))
        → read_template_data env s.stale name buf ≡ some read
        → elim read as (λ r. Option (Option Loop)) [
          | none ↦ some none
          | some (text, rest) ↦
              if verify_template_hash env text h.digest
              then (verify_template_data env s.lost name text >>= λ (good, lost). some (
                  if good
                  then (extend_pcr env algo s.pcr text >>= λ pcr.
                      some (record { buf = rest; pcr = pcr; stale = length text; lost = lost }))
                  else none))
              else some none
        ]
          ≡ some (some s')
        → length s'.buf ≤ length buf
    step name buf none r e = cc
    step name buf (some (text, rest)) r e =
        let ((good, lost), _, g) =
          >>=-eq-some (verify_template_data env s.lost name text) _
            (if_some (verify_template_hash env text h.digest) _ e) in
        let same_rest = last_step rest text good lost g in
        subst (λ b. length b ≤ length buf) (sym same_rest)
          (template_bound env s.stale name buf text rest r)
