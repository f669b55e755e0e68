-- ===== src/Attest/Containers.antt =====
-- The verification of the container measurements (rattestation/container_verify.c).
use cml.Prelude.{
  ℕ, zero, suc, ℤ, pos, negsuc, minus_one, Option, none, some, List, [], ◌∷◌, ◌++◌, if◌then◌else◌,
  ◌>>=◌,
}
use cml.Attest.Bytes.{Bytes, zeros, read_bytes, same, memcmp}
use cml.Attest.Hash.{HashAlgo, sha1, sha256, Digests, hash_algo_to_size, hash_algo_to_string}
use cml.Attest.Measure.{Entry}

-- The extension by one entry, of which as many bytes are read as the digest has
unfoldable pub extend_entry : Digests → HashAlgo → Bytes → Bytes → Option Bytes
extend_entry c sha256 pcr data_hash = read_bytes 32 data_hash >>= λ d. some (c.hash256 (pcr ++ d))
extend_entry c sha1 pcr data_hash = read_bytes 20 data_hash >>= λ d. some (c.hash1 (pcr ++ d))
extend_entry c _ pcr data_hash = some pcr

-- The loop over the entries: none is a read beyond the end of a hash; a wrong name of the algorithm
-- stops it.
unfoldable pub replay : Digests → HashAlgo → Bytes → Bytes → List Entry → Option (Option Bytes)
replay c algo name pcr [] = some (some pcr)
replay c algo name pcr (e ∷ es) =
    let rest = extend_entry c algo pcr e.data_hash >>= λ pcr'. replay c algo name pcr' es in
    if same e.template_hash_alg name then rest else some none

-- The comparison with the register
unfoldable pub compare_pcr : Bytes → Bytes → ℕ → Option ℤ
compare_pcr pcr pcr_tpm size =
    memcmp pcr pcr_tpm size >>= λ equal. some (if equal then pos 0 else minus_one)

-- container_verify_runtime_measurements
unfoldable pub container_verify : Digests → List Entry → HashAlgo → Bytes → Option ℤ
container_verify c entries algo pcr_tpm = elim (hash_algo_to_size algo) [
  | negsuc n ↦ some minus_one
  | pos zero ↦ some minus_one
  | pos (suc n) ↦ do
    name ← hash_algo_to_string algo
    result ← replay c algo name (zeros (suc n)) entries
    elim result [ none ↦ some minus_one | some pcr ↦ compare_pcr pcr pcr_tpm (suc n) ]
]
