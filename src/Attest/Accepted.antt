-- ===== src/Attest/Accepted.antt =====
-- What an accepted response shows (rattestation/attestation.c).
use cml.Prelude.{
  ℕ, zero, suc, ◌≡◌, refl, sym, ap, ap₂, subst, ◌∙◌, ◌⊎◌, inl, inr, ℤ, pos, ◌>>=◌, ◌==ℤ◌, ==ℤ_iff,
  Bool, true, false, not, ◌&&◌, ◌||◌, Option, none, some, List, [], ◌∷◌, length, arith,
  if◌then◌else◌, >>=-eq-some, ◌==◌, ==_iff, ltb,
}
use cml.Hex.Convert.{convert_hex_to_bin}
use cml.Attest.Bytes.{Bytes, zeros, memcmp, memcmp_lem}
use cml.Attest.Hash.{sha256, size_to_hash_algo}
use cml.Attest.Containers.{container_verify}
use cml.Attest.Binding.{Collision, Preimage, heads, memcmp-eq, container_verify-binding}
use cml.Attest.Ima.{Env}
use cml.Attest.Log.{ima_verify}
use cml.Attest.Led.{Ended, Extended, ima_verify-Ended, container_verify-Extended}
use cml.Attest.Quote.{
  Attest, Tss, Pcr, PcrStrings, Response, Config, and_then, same_number, check_pcr, check_pcrs,
  aggregated, check_aggregated, find_pcr, check_ima, check_containers, check_signature, check_quote,
  attestation_verify_resp,
}

-- A register is the one that is expected, and has the value that is expected.
pub record Expected (tss : Tss) (halg : ℕ) (c : PcrStrings) (v : Pcr) : Type 0 where
  pub pcr : Bytes
  pub converted : convert_hex_to_bin c.value (tss.stack halg) ≡ some (pos 0, pcr)
  pub equal : memcmp pcr v.value halg ≡ some true
  pub fits : length v.value ≡ halg
  pub number : ℤ
  pub number_expected : c.number ≡ some number
  pub number_found : v.number ≡ some number

-- So are all registers.
abbrev pub AllExpected : Tss → ℕ → List PcrStrings → List Pcr → Type 0
AllExpected tss halg [] [] = Unit
AllExpected tss halg (c ∷ cs) (v ∷ vs) = Expected tss halg c v × AllExpected tss halg cs vs
AllExpected tss halg _ _ = ⊥

-- The kernel's log is there and verified with success: the loop over its events comes to its end, and the
-- register that it has computed then is the one that is configured for the log.
pub record ImaVerified (env : Env) (stale : ℕ) (config : Config) (resp : Response) : Type 0 where
  pub log : Bytes
  pub logged : resp.ml_ima_entry ≡ some log
  pub register : Bytes
  pub found : find_pcr config.ima_pcr resp.pcr_values ≡ some register
  pub verified : ima_verify env stale (size_to_hash_algo resp.halg) log register ≡ some (pos 0)
  pub led : Ended env stale (size_to_hash_algo resp.halg) log register

-- Container measurements are there and verified with success; in the SHA256 bank, their hashes extended in
-- their order give the register that is configured for them.
pub record ContainersVerified (env : Env) (config : Config) (resp : Response) : Type 0 where
  pub some_entry : (length resp.ml_container_entry == 0) ≡ false
  pub register : Bytes
  pub found : find_pcr config.container_pcr resp.pcr_values ≡ some register
  pub verified :
      container_verify env.digests resp.ml_container_entry (size_to_hash_algo resp.halg) register
      ≡ some (pos 0)
  pub led : size_to_hash_algo resp.halg ≡ sha256 → Extended env resp.ml_container_entry register

-- The quote names the nonce and the registers, and is signed under the certificate that came with it;
-- what the configuration asks for of the measurements is verified.
pub record Sound (env : Env) (stale : ℕ) (tss : Tss) (config : Config) (nonce : Bytes)
    (resp : Response) : Type 0 where
  pub quote : Bytes
  pub quoted : resp.quoted ≡ some quote
  pub attest : Attest
  pub unmarshalled : tss.unmarshal_attest quote ≡ some attest
  pub fresh : memcmp attest.extra_data nonce (length nonce) ≡ some true
  pub sig : Bytes
  pub signature : resp.signature ≡ some sig
  pub sig_bytes : Bytes
  pub sig_unmarshalled : tss.unmarshal_signature sig ≡ some sig_bytes
  pub signed : tss.verify_quote resp.certificate sig_bytes quote ≡ true
  pub registers : AllExpected tss config.halg config.pcr_values resp.pcr_values
  pub values : Bytes
  pub values_aggregated : aggregated resp.pcr_values ≡ some values
  pub digest : memcmp attest.pcr_digest (env.digests.hash256 values) 32 ≡ some true
  pub ima : (config.verify_ima ≡ false) ⊎ ImaVerified env stale config resp
  pub containers : (config.verify_containers ≡ false) ⊎ ContainersVerified env config resp

and_then_lem : (a b : Option Bool) → and_then a b ≡ some true → (a ≡ some true) × (b ≡ some true)
unfolding and_then
and_then_lem (some true) b h = (refl, h)
and_then_lem (some false) b h = cc
and_then_lem none b h = cc

refused_lem :
    (b : Bool) (o : Option Bool)
    → (if b then some false else o) ≡ some true
    → (b ≡ false) × (o ≡ some true)
refused_lem true o h = cc
refused_lem false o h = (refl, h)

asserted_lem : (b : Bool) (o : Option Bool) → (if b then none else o) ≡ some true → o ≡ some true
asserted_lem true o h = cc
asserted_lem false o h = h

not_lem : (b : Bool) → not b ≡ false → b ≡ true
not_lem true h = refl
not_lem false h = cc

same_number_lem : (a b : Option ℤ) → same_number a b ≡ true → (n : ℤ) × (a ≡ some n) × (b ≡ some n)
unfolding same_number
same_number_lem (some n) (some m) h = (n, refl, ap some (sym ((==ℤ_iff n m).0 h)))
same_number_lem (some n) none h = cc
same_number_lem none b h = cc

both_lem : (a b : Bool) → some (a && b) ≡ some true → (a ≡ true) × (b ≡ true)
both_lem true b h = (refl, cc)
both_lem false b h = cc

module _ (tss : Tss) (halg : ℕ) where
  check_pcr_lem :
      (c : PcrStrings) (v : Pcr) → check_pcr tss halg c v ≡ some true → Expected tss halg c v
  unfolding check_pcr
  check_pcr_lem c v h =
      let ((ret, pcr), e, h1) = >>=-eq-some (convert_hex_to_bin c.value (tss.stack halg)) _ h in
      let (r, h2) = refused_lem (not (ret ==ℤ pos 0)) _ h1 in
      let (l, h3) = refused_lem (not (length v.value == halg)) _ h2 in
      let (s, h4) = refused_lem (not (same_number c.number v.number)) _ h3 in
      let (n, ne, nf) =
        same_number_lem c.number v.number (not_lem (same_number c.number v.number) s) in
      let ret_eq = (==ℤ_iff ret (pos 0)).0 (not_lem (ret ==ℤ pos 0) r) in
      record {
        pcr = pcr;
        converted = e ∙ ap (λ z. some (z, pcr)) ret_eq;
        equal = h4;
        fits = (==_iff (length v.value) halg).0 (not_lem (length v.value == halg) l);
        number = n;
        number_expected = ne;
        number_found = nf;
      }

  check_pcrs_lem :
      (cs : List PcrStrings) (vs : List Pcr)
      → length vs ≡ length cs
      → check_pcrs tss halg cs vs ≡ some true
      → AllExpected tss halg cs vs
  unfolding check_pcrs
  check_pcrs_lem [] [] l h = tt
  check_pcrs_lem [] (v ∷ vs) l h = absurd (omega arith)
  check_pcrs_lem (c ∷ cs) [] l h = absurd (omega arith)
  check_pcrs_lem (c ∷ cs) (v ∷ vs) l h =
      let (good, e, h1) = >>=-eq-some (check_pcr tss halg c v) _ h in
      let (all_good, e', h2) = >>=-eq-some (check_pcrs tss halg cs vs) _ h1 in
      let (g, gs) = both_lem good all_good h2 in
      (check_pcr_lem c v (e ∙ ap some g), check_pcrs_lem cs vs (omega arith) (e' ∙ ap some gs))

some_lem :
    {A : Type 0} (o : Option A) (f : A → Option Bool)
    → elim o [ none ↦ some false | some a ↦ f a ] ≡ some true
    → (a : A) × (o ≡ some a) × (f a ≡ some true)
some_lem none f h = cc
some_lem (some a) f h = (a, refl, h)

wanted_lem :
    (b : Bool) (o : Option Bool)
    → (if b then o else some true) ≡ some true
    → (b ≡ false) ⊎ (o ≡ some true)
wanted_lem true o h = inr h
wanted_lem false o h = inl refl

-- A result that is compared with 0
zero_lem : (o : Option ℤ) → (o >>= λ ret. some (ret ==ℤ pos 0)) ≡ some true → o ≡ some (pos 0)
zero_lem o h =
    let (ret, e, z) = >>=-eq-some o (λ ret. some (ret ==ℤ pos 0)) h in
    let zero_ret : (ret ==ℤ pos 0) ≡ true = cc in e ∙ ap some ((==ℤ_iff ret (pos 0)).0 zero_ret)

ima_lem :
    (env : Env) (stale : ℕ) (config : Config) (resp : Response)
    → check_ima env stale config resp ≡ some true
    → (config.verify_ima ≡ false) ⊎ ImaVerified env stale config resp
unfolding check_ima
ima_lem env stale config resp h = elim (wanted_lem config.verify_ima _ h) [
  | inl off ↦ inl off
  | inr h1 ↦
      let (log, l, h2) = some_lem resp.ml_ima_entry _ h1 in
      let (register, f, h3) = some_lem (find_pcr config.ima_pcr resp.pcr_values) _ h2 in
      let v = zero_lem (ima_verify env stale (size_to_hash_algo resp.halg) log register) h3 in
      inr (record {
        log = log;
        logged = l;
        register = register;
        found = f;
        verified = v;
        led = ima_verify-Ended env stale (size_to_hash_algo resp.halg) log register v;
      })
]

containers_lem :
    (env : Env) (config : Config) (resp : Response)
    → check_containers env config resp ≡ some true
    → (config.verify_containers ≡ false) ⊎ ContainersVerified env config resp
unfolding check_containers
containers_lem env config resp h = elim (wanted_lem config.verify_containers _ h) [
  | inl off ↦ inl off
  | inr h1 ↦
      let (there, h2) = refused_lem (length resp.ml_container_entry == 0) _ h1 in
      let (register, f, h3) = some_lem (find_pcr config.container_pcr resp.pcr_values) _ h2 in
      let v =
        zero_lem
          (container_verify env.digests resp.ml_container_entry (size_to_hash_algo resp.halg)
            register)
          h3 in
      inr (record {
        some_entry = there;
        register = register;
        found = f;
        verified = v;
        led =
            container_verify-Extended env resp.ml_container_entry (size_to_hash_algo resp.halg)
              register v;
      })
]

memcmp-swap : (xs ys : Bytes) (n : ℕ) → memcmp xs ys n ≡ some true → memcmp ys xs n ≡ some true
unfolding memcmp
memcmp-swap xs ys zero h = refl
memcmp-swap [] ys (suc n) h = cc
memcmp-swap (x ∷ xs) [] (suc n) h = cc
memcmp-swap (x ∷ xs) (y ∷ ys) (suc n) h =
    let (e, r) = memcmp_lem x y xs ys n h in
    let back : (y == x) ≡ true = (==_iff y x).1 (sym e) in rw (memcmp-swap xs ys n r, back) refl

signed_lem :
    (tss : Tss) (quote sig : Bytes) (resp : Response)
    → check_signature tss quote sig resp ≡ some true
    → (b : Bytes) × (tss.unmarshal_signature sig ≡ some b)
      × (tss.verify_quote resp.certificate b quote ≡ true)
unfolding check_signature
signed_lem tss quote sig resp h =
    let (b, e, h1) =
      some_lem (tss.unmarshal_signature sig) (λ b. some (tss.verify_quote resp.certificate b quote))
        h in
    (b, e, cc (h1))

-- What is behind the unmarshalling
quoted_lem :
    (env : Env) (stale : ℕ) (tss : Tss) (config : Config) (nonce quote sig : Bytes)
    (resp : Response)
    → check_quote env stale tss config nonce quote sig resp ≡ some true
    → (attest : Attest) × (tss.unmarshal_attest quote ≡ some attest)
      × (memcmp attest.extra_data nonce (length nonce) ≡ some true)
      × (check_signature tss quote sig resp ≡ some true)
      × (check_aggregated env attest resp.pcr_values ≡ some true)
      × (check_ima env stale config resp ≡ some true)
      × (check_containers env config resp ≡ some true)
unfolding check_quote
quoted_lem env stale tss config nonce quote sig resp h =
    let (attest, a, h1) = some_lem (tss.unmarshal_attest quote) _ h in
    let (n, h2) = and_then_lem _ _ h1 in
    let (g, h3) = and_then_lem _ _ h2 in
    let (d, h4) = and_then_lem _ _ h3 in
    let (i, c) = and_then_lem _ _ h4 in (attest, a, n, g, d, i, c)

-- An accepted response is sound in every part that the code checks: the registers are those that are
-- expected, the quote names them and the nonce, its signature holds under the certificate of the response
-- itself, and the kernel's log and the container measurements, each if the configuration asks for it, are
-- there and verified with success against the register that is configured for them: the loop over the
-- log ends with the value of its register, and in the SHA256 bank the hashes of the container
-- measurements, extended in their order, give theirs.
pub attestation_verify_resp-Sound :
    (env : Env) (stale : ℕ) (tss : Tss) (config : Config) (nonce : Bytes) (resp : Response)
    → attestation_verify_resp env stale tss config nonce resp ≡ some true
    → Sound env stale tss config nonce resp
unfolding attestation_verify_resp check_aggregated
attestation_verify_resp-Sound env stale tss config nonce resp h =
    let h1 = asserted_lem (not (ltb (length resp.pcr_values) 24)) _ h in
    let h2 = asserted_lem (not ((config.halg == 32) || (config.halg == 20))) _ h1 in
    let (quote, q, h3) = some_lem resp.quoted _ h2 in
    let (sig, s, h4) = some_lem resp.signature _ h3 in
    let (l, h5) = refused_lem (not (length resp.pcr_values == length config.pcr_values)) _ h4 in
    let long =
      (==_iff (length resp.pcr_values) (length config.pcr_values)).0
        (not_lem (length resp.pcr_values == length config.pcr_values) l) in
    let (pcrs, h6) = and_then_lem _ _ h5 in
    let (attest, a, n, g, d, i, c) = quoted_lem env stale tss config nonce quote sig resp h6 in
    let (sig_bytes, sb, sv) = signed_lem tss quote sig resp g in
    let (values, va, vd) =
      >>=-eq-some (aggregated resp.pcr_values)
        (λ values. memcmp attest.pcr_digest (env.digests.hash256 values) 32) d in
    record {
      quote = quote;
      quoted = q;
      attest = attest;
      unmarshalled = a;
      fresh = n;
      sig = sig;
      signature = s;
      sig_bytes = sig_bytes;
      sig_unmarshalled = sb;
      signed = sv;
      registers = check_pcrs_lem tss config.halg config.pcr_values resp.pcr_values long pcrs;
      values = values;
      values_aggregated = va;
      digest = vd;
      ima = ima_lem env stale config resp i;
      containers = containers_lem env config resp c;
    }

-- One expectation of two registers
Expected-unique :
    (tss : Tss) (halg : ℕ) (c : PcrStrings) (v w : Pcr)
    → Expected tss halg c v
    → Expected tss halg c w
    → v ≡ w
Expected-unique tss halg c v w e f =
    let bins : e.pcr ≡ f.pcr = cc (e.converted, f.converted) in
    let values =
      memcmp-eq v.value w.value e.pcr halg e.fits f.fits (memcmp-swap e.pcr v.value halg e.equal)
        (memcmp-swap e.pcr w.value halg (ap (λ b. memcmp b w.value halg) bins ∙ f.equal)) in
    let numbers : v.number ≡ w.number =
      e.number_found ∙ sym e.number_expected ∙ f.number_expected ∙ sym f.number_found in
    ap₂ (λ n x. record { number = n; value = x }) numbers values

AllExpected-unique :
    (tss : Tss) (halg : ℕ) (cs : List PcrStrings) (vs ws : List Pcr)
    → AllExpected tss halg cs vs
    → AllExpected tss halg cs ws
    → vs ≡ ws
AllExpected-unique tss halg [] [] [] e f = refl
AllExpected-unique tss halg [] [] (w ∷ ws) e f = absurd f
AllExpected-unique tss halg [] (v ∷ vs) ws e f = absurd e
AllExpected-unique tss halg (c ∷ cs) [] ws e f = absurd e
AllExpected-unique tss halg (c ∷ cs) (v ∷ vs) [] e f = absurd f
AllExpected-unique tss halg (c ∷ cs) (v ∷ vs) (w ∷ ws) (e, es) (f, fs) =
    ap₂ (λ x xs. x ∷ xs) (Expected-unique tss halg c v w e f)
      (AllExpected-unique tss halg cs vs ws es fs)

-- Two responses that are accepted with one configuration, which asks for the containers, in the SHA256 bank
-- agree in the hashes of the images and their order, of each the first 32 bytes, or else they show two
-- messages with one SHA256 digest, or a message whose digest is all zero.
pub heads-attestation_verify_resp :
    (env : Env) (stale : ℕ) (tss : Tss) (config : Config) (nonce nonce' : Bytes)
    (resp resp' : Response)
    → config.verify_containers ≡ true
    → size_to_hash_algo resp.halg ≡ sha256
    → size_to_hash_algo resp'.halg ≡ sha256
    → attestation_verify_resp env stale tss config nonce resp ≡ some true
    → attestation_verify_resp env stale tss config nonce' resp' ≡ some true
    → (heads resp.ml_container_entry ≡ heads resp'.ml_container_entry)
      ⊎ (Collision env.digests.hash256 ⊎ Preimage env.digests.hash256 (zeros 32))
heads-attestation_verify_resp env stale tss config nonce nonce' resp resp' on a a' h k =
    let s = attestation_verify_resp-Sound env stale tss config nonce resp h in
    let t = attestation_verify_resp-Sound env stale tss config nonce' resp' k in
    let v = asked on s.containers in
    let w = asked on t.containers in
    let one =
      AllExpected-unique tss config.halg config.pcr_values resp.pcr_values resp'.pcr_values
        s.registers t.registers in
    let found : w.register ≡ v.register =
      cc (v.found, w.found, ap (find_pcr config.container_pcr) one) in
    let first =
      subst (λ x. container_verify env.digests resp.ml_container_entry x v.register ≡ some (pos 0))
        a v.verified in
    let second =
      subst (λ x. container_verify env.digests resp'.ml_container_entry x w.register ≡ some (pos 0))
        a' w.verified in
    let second' =
      subst (λ x. container_verify env.digests resp'.ml_container_entry sha256 x ≡ some (pos 0))
        found second in
    container_verify-binding env.digests resp.ml_container_entry resp'.ml_container_entry v.register
      first second'
  where
    asked : {A : Type 0} {b : Bool} → b ≡ true → (b ≡ false) ⊎ A → A
    asked on (inl off) = absurd (clash_lem (sym on ∙ off))
      where
        clash_lem : true ≡ false → ⊥
        clash_lem e = cc
    asked on (inr v) = v
