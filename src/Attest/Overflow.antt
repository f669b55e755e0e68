-- ===== src/Attest/Overflow.antt =====
-- An event with the template name `ima` (rattestation/ima_verify.c).
use cml.Prelude.{ℕ, ◌<◌, ◌≡◌, refl, true, false, none, ◌++◌, length, codes, arith, ltb}
use cml.Attest.Bytes.{Bytes, zeros, read_bytes, same}
use cml.Attest.Hash.{HashAlgo}
use cml.Attest.Ima.{Env, le32}
use cml.Attest.Log.{
  buf_read, buf_read_into, c_string, read_ima_data, read_template_data, verify_event,
}
use cml.Attest.Unsigned.{buf_read-at, buf_read_number-at, buf_read_int-at}

-- The name is read.
named :
    (rest : Bytes)
    → buf_read_into (zeros 256) 3 (codes "ima" ++ rest) ≡ (codes "ima" ++ zeros 253, rest)
unfolding buf_read_into buf_read read_bytes
named rest = refl

c_name : c_string (codes "ima" ++ zeros 253) ≡ codes "ima"
unfolding c_string
c_name = refl

module _ (env : Env) (digest number text rest : Bytes) (twenty : length digest ≡ 20)
    (four : length number ≡ 4) (fits : le32 number ≡ length text) (long : 256 < length text)
    (room : env.can_alloc 276 ≡ true) where
  read_overflow : read_ima_data env (digest ++ (number ++ (text ++ rest))) ≡ none
  unfolding read_ima_data
  read_overflow =
      let read =
        buf_read_int-at (zeros 20) digest (number ++ (text ++ rest)) 20 twenty refl (omega arith) in
      let read' = buf_read_number-at 0 number (text ++ rest) four in
      let read'' = buf_read-at (length text) text rest refl in
      let much : ltb 256 (length text) ≡ true = ground arith in
      rw (room, read) (rw read' (rw fits (rw (read'', read) (rw read' (rw fits (rw much refl))))))

  -- The name of the file in an event under the name `ima` is written past the end of the buffer of 276
  -- bytes when it is longer than 256 bytes and the log has all of it: the length is not checked.
  pub verify_event-overflow :
      (algo : HashAlgo) (hash pcr : Bytes) (stale : ℕ)
      → verify_event env algo
          (record { digest = hash; name_len = 3 })
          (record {
            buf = codes "ima" ++ (digest ++ (number ++ (text ++ rest)));
            pcr = pcr;
            stale = stale;
            lost = false;
          })
        ≡ none
  unfolding verify_event read_template_data same
  verify_event-overflow algo hash pcr stale =
      let body = digest ++ (number ++ (text ++ rest)) in
      rw (named body) (rw c_name (rw read_overflow refl))
