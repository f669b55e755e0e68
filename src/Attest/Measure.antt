-- ===== src/Attest/Measure.antt =====
-- The measurements of container images (tpm2d/ml.c). The TPM keeps one register for them; its answers
-- are arguments, and it extends the register as it is documented to.
use cml.Prelude.{
  ℕ, ℤ, pos, minus_one, Bool, true, false, Option, none, some, List, [], ◌∷◌, ◌++◌, length, codes,
  if◌then◌else◌, ◌>>=◌, ◌==◌, ltb,
}
use cml.Attest.Bytes.{Bytes, zeros, read_bytes, memcmp}
use cml.Attest.Hash.{Digests}

-- TPM_ALG_ID, as far as it is told apart
pub data AlgId : Type 0 where
  alg_sha1 alg_sha256 alg_sha384 alg_other : AlgId

-- ml_elem_t; `template` is the value of the register, read back in the SHA256 bank.
pub record Elem : Type 0 where
  pub filename : Bytes
  pub algid : AlgId
  pub datahash : Bytes
  pub template : Option Bytes

-- measurement_list, and the register
pub record Ml : Type 0 where
  pub list : List Elem
  pub pcr : Bytes

-- What the TPM answers to an extension, and to the reading of the register
pub record Tpm : Type 0 where
  pub extends : Bool
  pub reads : Bool

abbrev pub size_of_ha : ℕ
size_of_ha = 64

-- tpm2_pcrextend on the register: the data is padded, and the bank takes its first 32 bytes.
unfoldable pub pcrextend : Digests → Tpm → Bytes → Bytes → Option Bytes
pcrextend c t data_bytes pcr =
    if ltb size_of_ha (length data_bytes)
    then some pcr
    else if t.extends
    then (read_bytes 32 (data_bytes ++ zeros size_of_ha) >>= λ d. some (c.hash256 (pcr ++ d)))
    else some pcr

-- Whether the file is in the list; none is a read beyond the end of a hash. A file name ends with 0.
unfoldable pub has_elem : Bytes → Bytes → List Elem → Option Bool
has_elem filename datahash [] = some false
has_elem filename datahash (e ∷ es) = do
  let rest = has_elem filename datahash es
  same_hash ← memcmp e.datahash datahash (length datahash)
  let named = memcmp (e.filename ++ 0 ∷ []) filename (length filename) >>= λ same_name.
      if same_name then some true else rest
  if same_hash then named else rest

-- ml_measurement_list_append, where the file name and the hash are there
unfoldable pub measurement_list_append :
    Digests → Tpm → Bytes → AlgId → Bytes → Ml → Option (ℤ × Ml)
measurement_list_append c t filename algid datahash s =
    if length datahash == 0 then some (minus_one, s) else do
      there ← has_elem filename datahash s.list
      pcr ← pcrextend c t datahash s.pcr
      let elem : Elem = record {
        filename = filename;
        algid = algid;
        datahash = datahash;
        template = if t.reads then some pcr else none;
      }
      if there
          then some (pos 0, s)
          else some (pos 0, record { list = s.list ++ elem ∷ []; pcr = pcr })

-- halg_id_to_ima_string
unfoldable pub halg_id_to_ima_string : AlgId → Bytes
halg_id_to_ima_string alg_sha1 = codes "sha1"
halg_id_to_ima_string alg_sha256 = codes "sha256"
halg_id_to_ima_string alg_sha384 = codes "sha384"
halg_id_to_ima_string alg_other = codes "none"

-- MlContainerEntry
pub record Entry : Type 0 where
  pub filename : Bytes
  pub template_hash_alg : Bytes
  pub template_hash : Bytes
  pub data_hash_alg : Bytes
  pub data_hash : Bytes

-- ml_get_container_list_new; none is a read through the pointer of a register that was not read.
unfoldable pub get_container_list : List Elem → Option (List Entry)
get_container_list [] = some []
get_container_list (e ∷ es) = do
  template ← e.template
  rest ← get_container_list es
  let entry : Entry = record {
    filename = e.filename;
    template_hash_alg = halg_id_to_ima_string alg_sha256;
    template_hash = template;
    data_hash_alg = halg_id_to_ima_string e.algid;
    data_hash = e.datahash;
  }
  some (entry ∷ rest)
