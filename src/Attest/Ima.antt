-- ===== src/Attest/Ima.antt =====
-- The verification of the kernel's measurement log (rattestation/ima_verify.c), on x86. The signature
-- check and the parser of module signatures (rattestation/modsig.c) rest on OpenSSL: parameters.
use cml.Prelude.{
  ℕ, suc, ◌+◌, ◌-◌, ◌*◌, ◌%◌, ◌^◌, Bool, true, false, not, ◌&&◌, Option, none, some, List, [], ◌∷◌,
  length, drop, codes, if◌then◌else◌, ◌>>=◌, ◌==◌, ltb,
}
use cml.Attest.Bytes.{Bytes, read_bytes, same}
use cml.Attest.Hash.{Digests}

-- ssl_verify_signature_from_digest with the certificate, modsig_parse_new, and calloc
pub record Env : Type 0 where
  pub digests : Digests
  pub verify : Bytes → Bytes → Bool
  pub modsig : Bytes → Option Bytes
  pub can_alloc : ℕ → Bool

-- A 32 bit number, the lowest byte first
unfoldable pub le32 : Bytes → ℕ
le32 (a ∷ b ∷ c ∷ d ∷ []) = a + b * 2 ^ 8 + c * 2 ^ 16 + d * 2 ^ 24
le32 _ = 0

-- A part of the data of a template; none is a read beyond its end.
unfoldable pub slice : Bytes → ℕ → ℕ → Option Bytes
slice data_bytes off n = read_bytes n (drop off data_bytes)

unfoldable pub strlen : Bytes → Option ℕ
strlen [] = none
strlen (x ∷ xs) = let rest = strlen xs >>= λ n. some (suc n) in if x == 0 then some 0 else rest

-- strncmp with the length of the second
unfoldable pub has_prefix : Bytes → Bytes → Bool
has_prefix text [] = true
has_prefix [] (y ∷ ys) = false
has_prefix (x ∷ text) (y ∷ ys) = let rest = has_prefix text ys in if x == y then rest else false

-- strsep at bars
unfoldable pub split_bar : Bytes → List Bytes
split_bar [] = [] ∷ []
split_bar (x ∷ xs) = elim (split_bar xs) [
  | [] ↦ (x ∷ []) ∷ []
  | f ∷ fs ↦ if x == 124 then [] ∷ f ∷ fs else (x ∷ f) ∷ fs
]

-- The format of a template, and whether the last description has lost its own: an unknown name takes
-- that description's place.
unfoldable pub template_fmt : Bool → Bytes → Bytes × Bool
template_fmt lost name =
    if same name (codes "ima")
    then (codes "d|n", lost)
    else if same name (codes "ima-ng")
    then (codes "d-ng|n-ng", lost)
    else if same name (codes "ima-sig")
    then (codes "d-ng|n-ng|sig", lost)
    else if same name (codes "ima-modsig") && not lost
    then (codes "d-ng|n-ng|sig|d-modsig|modsig", lost)
    else (name, if same name (codes "ima-modsig") then lost else true)

-- The length of a field, and where it begins
unfoldable pub field_len : Bytes → Bytes → Bytes → ℕ → Option (ℕ × ℕ)
field_len name f data_bytes off =
    if same name (codes "ima") && same f (codes "d")
    then some (20, off)
    else if same name (codes "ima") && same f (codes "n")
    then (strlen (drop off data_bytes) >>= λ n. some (n, off))
    else (slice data_bytes off 4 >>= λ b. some (le32 b, (off + 4) % 2 ^ 32))

-- Where the digest of a file stands, behind the name of its algorithm
unfoldable pub digest_at : Bytes → ℕ → ℕ → Option (ℕ × ℕ)
digest_at data_bytes off len = do
  n ← strlen (drop off data_bytes)
  some (off + suc n, (len + 2 ^ 32 - suc n) % 2 ^ 32)

unfoldable pub digest_bytes : Bytes → Option (ℕ × ℕ) → Option Bytes
digest_bytes data_bytes none = some []
digest_bytes data_bytes (some (off, len)) = slice data_bytes off len

-- What a field leads to: a signature that does not hold, or the next field at an offset
pub data Field : Type 0 where
  refused : Field
  next : ℕ → Option (ℕ × ℕ) → Field

-- What is behind a signature
unfoldable pub checked : Bool → ℕ → Option (ℕ × ℕ) → Field
checked holds off digest = if holds then next off digest else refused

-- The field `sig` of ima-sig
unfoldable pub sig_field : Env → Bytes → ℕ → ℕ → Option (ℕ × ℕ) → Option Field
sig_field env data_bytes off len digest =
    if not (ltb off (length data_bytes)) then some (next off digest) else do
      mark ← slice data_bytes off 1
      let signed = do
        sig ← slice data_bytes (off + 9) (len - 9)
        d ← digest_bytes data_bytes digest
        some (checked (env.verify sig d) ((off + len) % 2 ^ 32) digest)
      if not (same mark (3 ∷ []))
          then some (next off digest)
          else if ltb len 9
          then none
          else signed

-- The field `modsig` of ima-modsig
unfoldable pub modsig_field : Env → Bytes → ℕ → ℕ → Option (ℕ × ℕ) → Option Field
modsig_field env data_bytes off len digest = do
  text ← slice data_bytes off len
  d ← digest_bytes data_bytes digest
  elim (env.modsig text) [
    | none ↦ some refused
    | some sig ↦ some (checked (env.verify sig d) ((off + len) % 2 ^ 32) digest)
  ]

-- One field that is named by `f`
unfoldable pub field : Env → Bytes → Bytes → Bytes → ℕ → ℕ → Option (ℕ × ℕ) → Option Field
field env name f data_bytes off len digest =
    let plain : Option Field = some (next ((off + len) % 2 ^ 32) digest) in
    let with_digest : Option Field =
      digest_at data_bytes off len >>= λ d. some (next ((off + len) % 2 ^ 32) (some d)) in
    let named : Option Field = slice data_bytes off len >>= λ text. plain in
    if has_prefix name (codes "ima-sig")
    then (if has_prefix f (codes "d-ng")
        then with_digest
        else if has_prefix f (codes "sig")
        then sig_field env data_bytes off len digest
        else if has_prefix f (codes "n-ng")
        then named
        else plain)
    else if has_prefix name (codes "ima-modsig")
    then (if has_prefix f (codes "d-ng")
        then plain
        else if has_prefix f (codes "d-modsig")
        then with_digest
        else if same f (codes "modsig")
        then modsig_field env data_bytes off len digest
        else if has_prefix f (codes "n-ng")
        then named
        else plain)
    else plain

-- The loop over the fields of verify_template_data: whether nothing was refused
unfoldable pub fields_loop : Env → Bytes → Bytes → List Bytes → ℕ → Option (ℕ × ℕ) → Option Bool
fields_loop env name data_bytes [] off digest = some true
fields_loop env name data_bytes (f ∷ fs) off digest = do
  (len, off') ← field_len name f data_bytes off
  r ← field env name f data_bytes off' len digest
  elim r [
    | refused ↦ some false
    | next off'' digest' ↦ fields_loop env name data_bytes fs off'' digest'
  ]
