-- ===== src/Attest/Hash.antt =====
-- The hash algorithms (rattestation/hash.c). The functions are OpenSSL's: a parameter, of which the
-- lengths of the digests are used.
use cml.Prelude.{◌≡◌, ℤ, pos, minus_one, ◌==ℤ◌, if◌then◌else◌, length, codes, Option, none, some}
use cml.Attest.Bytes.{Bytes}

-- hash_algo_t, as far as size_to_hash_algo gives it
pub data HashAlgo : Type 0 where
  sha1 sha256 sha384 last : HashAlgo

-- What OpenSSL computes
pub record Digests : Type 0 where
  pub hash1 : Bytes → Bytes
  pub hash256 : Bytes → Bytes
  pub length-hash1 : (m : Bytes) → length (hash1 m) ≡ 20
  pub length-hash256 : (m : Bytes) → length (hash256 m) ≡ 32

-- hash_algo_to_size
unfoldable pub hash_algo_to_size : HashAlgo → ℤ
hash_algo_to_size sha1 = pos 20
hash_algo_to_size sha256 = pos 32
hash_algo_to_size _ = minus_one

-- size_to_hash_algo
unfoldable pub size_to_hash_algo : ℤ → HashAlgo
size_to_hash_algo z =
    if z ==ℤ pos 20
    then sha1
    else if z ==ℤ pos 32
    then sha256
    else if z ==ℤ pos 48
    then sha384
    else last

-- hash_algo_to_string
unfoldable pub hash_algo_to_string : HashAlgo → Option Bytes
hash_algo_to_string sha1 = some (codes "sha1")
hash_algo_to_string sha256 = some (codes "sha256")
hash_algo_to_string _ = none
