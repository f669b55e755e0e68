-- ===== src/Messages/Broken.antt =====
-- Where the framing of messages breaks (common/protobuf.c).
use cml.Prelude.{
  ℕ, zero, suc, ◌-◌, ◌^◌, ◌≤◌, ◌<◌, ◌≡◌, refl, false, Option, some, List, [], ◌∷◌, ◌++◌, length,
  drop, arith, ◌==◌, ltb,
}
use cml.Messages.Fd.{intr, Answer, failed, moved, min, read_loop, fd_read}
use cml.Messages.Protobuf.{
  max_message_size, htonl, ntohl, read_retry, recv_message_packed, recv_message,
}
use cml.Messages.Transfer.{Moves, moving}
use cml.Messages.Delivery.{retry_lem, ntohl-htonl}

-- A length of a mebibyte or more is received as a message without any bytes, which is the message of
-- default values, and what stands behind the length is left to be read as the next message.
pub recv_message-oversized {ℓ} :
    {M : Type ℓ} (unpack : List ℕ → Option M) (k n : ℕ) (answers : List Answer) (rest : List ℕ)
    → max_message_size ≤ n
    → n < 2 ^ 32
    → Moves answers
    → 4 ≤ moving answers
    → (later : List Answer) × (recv_message unpack (suc k) answers (htonl n ++ rest)
        ≡ some (unpack [], rest, later))
unfolding recv_message recv_message_packed htonl
recv_message-oversized unpack k n answers rest large word m h =
    let (later, e, m', c) = retry_lem k answers (htonl n) rest m h in
    let size : ntohl (htonl n) ≡ n = ntohl-htonl n word in
    let too_large : ltb n max_message_size ≡ false = ground arith in
    (later, rw e (rw (size, too_large) refl))

moved_part : (j len l : ℕ) → 1 ≤ j → j < len → j ≤ l → (min j (min len l) ≡ j) × ((j == 0) ≡ false)
moved_part j len l one part there = ground arith

-- A read that is interrupted by a signal between two pieces is started again for its whole length,
-- behind the bytes that had been read, which are lost.
pub read_retry-interrupted :
    (k j len : ℕ) (answers : List Answer) (incoming : List ℕ)
    → 1 ≤ j
    → j < len
    → j ≤ length incoming
    → read_retry (suc k) (moved j ∷ failed intr ∷ answers) len incoming
      ≡ read_retry k answers len (drop j incoming)
unfolding read_retry fd_read read_loop
read_retry-interrupted k j zero answers incoming one part there = absurd (omega arith)
read_retry-interrupted k j (suc len) answers incoming one part there =
    let (all, not_zero) = moved_part j (suc len) (length incoming) one part there in
    let more : suc len - j ≡ suc (len - j) = omega arith in rw (all, not_zero, more) refl
