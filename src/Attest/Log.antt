-- ===== src/Attest/Log.antt =====
-- The loop over the measurement log (rattestation/ima_verify.c, from buf_read on), on x86. The buffers are
-- calloc's: a read or a write beyond the end of one is none.
use cml.Prelude.{
  ℕ, zero, suc, ◌-◌, ◌^◌, ℤ, pos, negsuc, minus_one, Bool, false, Option, none, some, [], ◌∷◌, ◌++◌,
  length, drop, codes, if◌then◌else◌, ◌>>=◌, ◌==◌, ltb,
}
use cml.Attest.Bytes.{Bytes, zeros, read_bytes, same}
use cml.Attest.Hash.{HashAlgo, sha256, hash_algo_to_size}
use cml.Attest.Containers.{compare_pcr}
use cml.Attest.Ima.{Env, le32, split_bar, template_fmt, fields_loop}

-- buf_read: what is read and what remains
unfoldable pub buf_read : ℕ → Bytes → Option (Bytes × Bytes)
buf_read size buf = read_bytes size buf >>= λ bytes. some (bytes, drop size buf)

-- buf_read into a buffer, of a failure of which nothing is noted
unfoldable pub buf_read_into : Bytes → ℕ → Bytes → Bytes × Bytes
buf_read_into dest size buf = elim (buf_read size buf) [
  | none ↦ (dest, buf)
  | some (bytes, rest) ↦ (bytes ++ drop size dest, rest)
]

-- buf_read with an int as the size, which is far too large when the int is negative
unfoldable pub buf_read_int : Bytes → ℕ → Bytes → Bytes × Bytes
buf_read_int dest len buf = if ltb len (2 ^ 31) then buf_read_into dest len buf else (dest, buf)

-- buf_read of a 32 bit number into a variable, which keeps its value when the read fails
unfoldable pub buf_read_number : ℕ → Bytes → ℕ × Bytes
buf_read_number kept buf = elim (buf_read 4 buf) [
  | none ↦ (kept, buf)
  | some (bytes, rest) ↦ (le32 bytes, rest)
]

-- A C string in an array that is filled up with 0
unfoldable pub c_string : Bytes → Bytes
c_string [] = []
c_string (x ∷ xs) = let rest = c_string xs in if x == 0 then [] else x ∷ rest

-- read_template_data for the template `ima`, where the buffer has 276 bytes
unfoldable pub read_ima_data : Env → Bytes → Option (Option (Bytes × Bytes))
read_ima_data env buf =
    if env.can_alloc 276
    then (let (digest, buf') = buf_read_int (zeros 20) 20 buf in
        let (field_len, buf'') = buf_read_number 0 buf' in
        elim (buf_read field_len buf'') [
          | none ↦ some (some (digest ++ zeros 256, buf''))
          | some (bytes, rest) ↦
              if ltb 256 field_len
              then none
              else some (some (digest ++ bytes ++ zeros (256 - field_len), rest))
        ])
    else some none

-- read_template_data for the others; `stale` is the length of the last template, or what is in the
-- variable before the first.
unfoldable pub read_other_data : Env → ℕ → Bytes → Option (Bytes × Bytes)
read_other_data env stale buf =
    let (len, buf') = buf_read_number stale buf in
    if env.can_alloc len then some (buf_read_int (zeros len) len buf') else none

-- read_template_data: a failure, or the data and what remains
unfoldable pub read_template_data : Env → ℕ → Bytes → Bytes → Option (Option (Bytes × Bytes))
read_template_data env stale name buf =
    if same name (codes "ima") then read_ima_data env buf else some (read_other_data env stale buf)

-- verify_template_hash
unfoldable pub verify_template_hash : Env → Bytes → Bytes → Bool
verify_template_hash env template_data digest = same (env.digests.hash1 template_data) digest

-- verify_template_data: whether it succeeds, and whether the last description is lost
unfoldable pub verify_template_data : Env → Bool → Bytes → Bytes → Option (Bool × Bool)
verify_template_data env lost name template_data =
    let (fmt, lost') = template_fmt lost name in
    fields_loop env name template_data (split_bar fmt) 0 none >>= λ good. some (good, lost')

-- The extension of the simulated register by the SHA256 of a template; only that bank is supported.
unfoldable pub extend_pcr : Env → HashAlgo → Bytes → Bytes → Option Bytes
extend_pcr env sha256 pcr template_data =
    some (env.digests.hash256 (pcr ++ env.digests.hash256 template_data))
extend_pcr env _ pcr template_data = none

-- The header of an event
pub record Header : Type 0 where
  pub digest : Bytes
  pub name_len : ℕ

unfoldable pub header_of : Bytes → Option Header
header_of bytes = do
  digest ← read_bytes 20 (drop 4 bytes)
  some (record { digest = digest; name_len = le32 (drop 24 bytes) })

-- What the variables of the loop hold: what remains, the register, the length of the last template, and
-- whether the last description is lost
pub record Loop : Type 0 where
  pub buf : Bytes
  pub pcr : Bytes
  pub stale : ℕ
  pub lost : Bool

-- The loop's body behind the header: the outer none is undefined, the inner one a failure.
unfoldable pub verify_event : Env → HashAlgo → Header → Loop → Option (Option Loop)
verify_event env algo header s = if ltb 255 header.name_len then some none else do
  let (name_array, buf) = buf_read_into (zeros 256) header.name_len s.buf
  let name = c_string name_array
  read ← read_template_data env s.stale name buf
  elim read [
    | none ↦ some none
    | some (template_data, rest) ↦
        let verified : Option (Option Loop) =
          verify_template_data env s.lost name template_data >>= λ (good, lost). some (
            if good
            then (extend_pcr env algo s.pcr template_data >>= λ pcr.
                some (record { buf = rest; pcr = pcr; stale = length template_data; lost = lost }))
            else none) in
        if verify_template_hash env template_data header.digest then verified else some none
  ]

-- How the loop ends: with the register, with a failure, in undefined behaviour, or without fuel
pub data Ending : Type 0 where
  ended : Bytes → Ending
  failed undefined starved : Ending

-- The loop, on as many passes as there are numbers of fuel
unfoldable pub events_loop : Env → HashAlgo → ℕ → Loop → Ending
events_loop env algo zero s = starved
events_loop env algo (suc fuel) s = elim (buf_read 28 s.buf) [
  | none ↦ ended s.pcr
  | some (bytes, rest) ↦ elim (header_of bytes) [
    | none ↦ undefined
    | some header ↦
        elim (verify_event env algo header
          (record { buf = rest; pcr = s.pcr; stale = s.stale; lost = s.lost })) [
            | none ↦ undefined
            | some none ↦ failed
            | some (some s') ↦ events_loop env algo fuel s'
          ]
  ]
]

-- The comparison behind the loop; none is undefined, or a loop without fuel.
unfoldable pub compare_ending : Ending → Bytes → ℕ → Option ℤ
compare_ending (ended pcr) pcr_tpm size = compare_pcr pcr pcr_tpm size
compare_ending failed pcr_tpm size = some minus_one
compare_ending undefined pcr_tpm size = none
compare_ending starved pcr_tpm size = none

-- ima_verify_binary_runtime_measurements in the first call; every pass takes 28 bytes at least.
unfoldable pub ima_verify : Env → ℕ → HashAlgo → Bytes → Bytes → Option ℤ
ima_verify env stale algo buf pcr_tpm = elim (hash_algo_to_size algo) [
  | negsuc n ↦ some minus_one
  | pos zero ↦ some minus_one
  | pos (suc n) ↦
      compare_ending
        (events_loop env algo (suc (length buf))
          (record { buf = buf; pcr = zeros (suc n); stale = stale; lost = false }))
        pcr_tpm (suc n)
]
