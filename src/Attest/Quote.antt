-- ===== src/Attest/Quote.antt =====
-- The verification of the tpm daemon's answer (rattestation/attestation.c). The TSS library, OpenSSL and
-- what is on the stack are parameters; none is an assertion or a read beyond the end of a buffer.
use cml.Prelude.{
  ℕ, ℤ, pos, ◌==ℤ◌, Bool, true, false, not, ◌&&◌, ◌||◌, Option, none, some, List, [], ◌∷◌, ◌++◌,
  length, if◌then◌else◌, ◌>>=◌, ◌==◌, ltb,
}
use cml.Hex.Convert.{convert_hex_to_bin}
use cml.Attest.Bytes.{Bytes, read_bytes, memcmp}
use cml.Attest.Hash.{size_to_hash_algo}
use cml.Attest.Measure.{Entry}
use cml.Attest.Containers.{container_verify}
use cml.Attest.Ima.{Env}
use cml.Attest.Log.{ima_verify}

-- TPMS_ATTEST, as far as it is looked at: the arrays of the nonce and of the digest of the registers
pub record Attest : Type 0 where
  pub extra_data : Bytes
  pub pcr_digest : Bytes

-- TSS_TPMS_ATTEST_Unmarshalu, TSS_TPMT_SIGNATURE_Unmarshalu, ssl_verify_signature_from_buf with a
-- certificate, a signature and what is signed, and what an array on the stack holds
pub record Tss : Type 0 where
  pub unmarshal_attest : Bytes → Option Attest
  pub unmarshal_signature : Bytes → Option Bytes
  pub verify_quote : Bytes → Bytes → Bytes → Bool
  pub stack : ℕ → Bytes

-- Pcr
pub record Pcr : Type 0 where
  pub number : Option ℤ
  pub value : Bytes

-- PcrStrings
pub record PcrStrings : Type 0 where
  pub number : Option ℤ
  pub value : Bytes

-- Tpm2dToRemote
pub record Response : Type 0 where
  pub quoted : Option Bytes
  pub signature : Option Bytes
  pub certificate : Bytes
  pub pcr_values : List Pcr
  pub halg : ℤ
  pub ml_ima_entry : Option Bytes
  pub ml_container_entry : List Entry

-- RAttestationConfig
pub record Config : Type 0 where
  pub halg : ℕ
  pub pcr_values : List PcrStrings
  pub verify_ima : Bool
  pub ima_pcr : ℤ
  pub verify_containers : Bool
  pub container_pcr : ℤ

-- A check behind another, which is not made when the first fails
unfoldable pub and_then : Option Bool → Option Bool → Option Bool
and_then first second = first >>= λ good. if good then second else some false

-- The comparison of two numbers that have to be there
unfoldable pub same_number : Option ℤ → Option ℤ → Bool
same_number (some n) (some m) = n ==ℤ m
same_number _ _ = false

-- The body of the loop over the registers
unfoldable pub check_pcr : Tss → ℕ → PcrStrings → Pcr → Option Bool
check_pcr tss halg expected found = do
  (ret, pcr) ← convert_hex_to_bin expected.value (tss.stack halg)
  let compared = memcmp pcr found.value halg
  if not (ret ==ℤ pos 0)
      then some false
      else if not (length found.value == halg)
      then some false
      else if not (same_number expected.number found.number)
      then some false
      else compared

-- The loop over the registers, of which there are as many as are expected
unfoldable pub check_pcrs : Tss → ℕ → List PcrStrings → List Pcr → Option Bool
check_pcrs tss halg (c ∷ cs) (v ∷ vs) = check_pcr tss halg c v >>= λ good.
    (check_pcrs tss halg cs vs >>= λ all_good. some (good && all_good))
check_pcrs tss halg [] vs = some true
check_pcrs tss halg (c ∷ cs) [] = none

-- What goes into the digest of the registers: 32 bytes of each value
unfoldable pub aggregated : List Pcr → Option Bytes
aggregated [] = some []
aggregated (v ∷ vs) =
    read_bytes 32 v.value >>= λ value. (aggregated vs >>= λ values. some (value ++ values))

unfoldable pub check_aggregated : Env → Attest → List Pcr → Option Bool
check_aggregated env attest vs =
    aggregated vs >>= λ values. memcmp attest.pcr_digest (env.digests.hash256 values) 32

-- The search for a register; a number that is not there is 0.
unfoldable pub find_pcr : ℤ → List Pcr → Option Bytes
find_pcr n [] = none
find_pcr n (v ∷ vs) =
    let rest = find_pcr n vs in
    let m : ℤ = elim v.number [ none ↦ pos 0 | some m ↦ m ] in
    if m ==ℤ n then some v.value else rest

-- The part on the kernel's measurements
unfoldable pub check_ima : Env → ℕ → Config → Response → Option Bool
check_ima env stale config resp =
    let check = λ (log : Bytes) (value : Bytes).
      ima_verify env stale (size_to_hash_algo resp.halg) log value >>= λ ret.
      some (ret ==ℤ pos 0) in
    if config.verify_ima
    then elim resp.ml_ima_entry [
      | none ↦ some false
      | some log ↦ elim (find_pcr config.ima_pcr resp.pcr_values) [
        | none ↦ some false
        | some value ↦ check log value
      ]
    ]
    else some true

-- The part on the containers
unfoldable pub check_containers : Env → Config → Response → Option Bool
check_containers env config resp =
    let check = λ (value : Bytes).
      container_verify env.digests resp.ml_container_entry (size_to_hash_algo resp.halg) value
      >>= λ ret. some (ret ==ℤ pos 0) in
    if config.verify_containers
    then (if length resp.ml_container_entry == 0
        then some false
        else elim (find_pcr config.container_pcr resp.pcr_values) [
          | none ↦ some false
          | some value ↦ check value
        ])
    else some true

-- The part on the signature: it has to hold under the certificate of the response.
unfoldable pub check_signature : Tss → Bytes → Bytes → Response → Option Bool
check_signature tss quote sig resp = elim (tss.unmarshal_signature sig) [
  | none ↦ some false
  | some bytes ↦ some (tss.verify_quote resp.certificate bytes quote)
]

-- The part from the unmarshalling of the quote on
unfoldable pub check_quote : Env → ℕ → Tss → Config → Bytes → Bytes → Bytes → Response → Option Bool
check_quote env stale tss config nonce quote sig resp = elim (tss.unmarshal_attest quote) [
  | none ↦ some false
  | some attest ↦ and_then (memcmp attest.extra_data nonce (length nonce)) (
      and_then (check_signature tss quote sig resp) (
        and_then (check_aggregated env attest resp.pcr_values)
          (and_then (check_ima env stale config resp) (check_containers env config resp))))
]

-- attestation_verify_resp
unfoldable pub attestation_verify_resp : Env → ℕ → Tss → Config → Bytes → Response → Option Bool
attestation_verify_resp env stale tss config nonce resp =
    if not (ltb (length resp.pcr_values) 24)
    then none
    else if not ((config.halg == 32) || (config.halg == 20))
    then none
    else elim resp.quoted [
      | none ↦ some false
      | some quote ↦ elim resp.signature [
        | none ↦ some false
        | some sig ↦
            if not (length resp.pcr_values == length config.pcr_values)
            then some false
            else and_then (check_pcrs tss config.halg config.pcr_values resp.pcr_values)
                (check_quote env stale tss config nonce quote sig resp)
      ]
    ]
