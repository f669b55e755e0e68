-- ===== src/Messages/Delivery.antt =====
-- A message that is sent is received (common/fd.c, common/protobuf.c).
use cml.Prelude.{
  ℕ, suc, ◌+◌, ◌^◌, ◌≤◌, ◌<◌, ◌≡◌, refl, ap, ◌∙◌, ℤ, pos, negsuc, ◌==ℤ◌, true, false, Option, none,
  some, List, [], ◌∷◌, ◌++◌, length, arith, if◌then◌else◌, ◌==◌, ltb,
}
use cml.Messages.Fd.{Answer, done, fd_read, fd_write}
use cml.Messages.Protobuf.{
  max_message_size, htonl, ntohl, send_message_packed, send_message, read_retry,
  recv_message_packed, recv_message,
}
use cml.Messages.Transfer.{Moves, moving, read_lem, write_lem}

pub ntohl-htonl : (n : ℕ) → n < 2 ^ 32 → ntohl (htonl n) ≡ n
unfolding ntohl htonl
ntohl-htonl n h = omega arith

length-htonl : (n : ℕ) → length (htonl n) ≡ 4
unfolding htonl
length-htonl n = refl

-- One call of fd_read, retried never
pub retry_lem :
    (k : ℕ) (answers : List Answer) (bytes rest : List ℕ)
    → Moves answers
    → length bytes ≤ moving answers
    → (later : List Answer) × (read_retry (suc k) answers (length bytes) (bytes ++ rest)
        ≡ some (done (length bytes), bytes, rest, later))
      × Moves later
      × (moving answers ≤ moving later + length bytes)
unfolding read_retry fd_read
retry_lem k answers bytes rest m h =
    let (later, e, m', c) = read_lem answers (length bytes) [] bytes rest m h refl in
    (later, rw e refl, m', c)

packed_lem :
    (answers : List Answer) (buf : List ℕ)
    → length buf < max_message_size
    → Moves answers
    → 4 + length buf ≤ moving answers
    → (later : List Answer) × (send_message_packed answers buf
        ≡ some (pos (length buf), htonl (length buf) ++ buf, later))
unfolding send_message_packed fd_write htonl
packed_lem answers [] small m h =
    let (later, e, m', c) = write_lem answers 4 (htonl 0) [] m (omega arith) (omega arith) in
    (later, rw e refl)
packed_lem answers (b ∷ buf) small m h =
    let fits : ltb (length (b ∷ buf)) max_message_size ≡ true = ground arith in
    let (l1, e1, m1, c1) =
      write_lem answers 4 (htonl (length (b ∷ buf))) [] m (omega arith) (omega arith) in
    let (l2, e2, m2, c2) =
      write_lem l1 (length (b ∷ buf)) (b ∷ buf) [] m1 (omega arith) (omega (arith, c1)) in
    let same : (length (b ∷ buf) == length (b ∷ buf)) ≡ true = ground arith in
    let some_bytes : (length (b ∷ buf) == 0) ≡ false = ground arith in
    (l2, rw (fits, e1, some_bytes, e2, same) refl)

-- What is returned for the bytes of a message: no buffer when there are none
abbrev pub as_buffer : List ℕ → Option (List ℕ)
as_buffer [] = none
as_buffer (b ∷ buf) = some (b ∷ buf)

recv_packed_lem :
    (k : ℕ) (r : ℤ) (answers : List Answer) (buf rest : List ℕ)
    → length buf < max_message_size
    → Moves answers
    → 4 + length buf ≤ moving answers
    → (later : List Answer) × (recv_message_packed
          (suc k)
          r
          answers
          (htonl (length buf) ++ buf ++ rest)
        ≡ some (record {
          buf = as_buffer buf;
          ret_len = pos (length buf);
          incoming = rest;
          answers = later;
        }))
unfolding recv_message_packed htonl
recv_packed_lem k r answers [] rest small m h =
    let (later, e, m', c) = retry_lem k answers (htonl 0) rest m (omega arith) in
    let zero_length : ntohl (htonl 0) ≡ 0 = ntohl-htonl 0 (omega arith) in
    (later, rw e (rw zero_length refl))
recv_packed_lem k r answers (b ∷ buf) rest small m h =
    let all = b ∷ buf in
    let (l1, e1, m1, c1) = retry_lem k answers (htonl (length all)) (all ++ rest) m (omega arith) in
    let (l2, e2, m2, c2) = retry_lem k l1 all rest m1 (omega (arith, c1)) in
    let size : ntohl (htonl (length all)) ≡ length all = ntohl-htonl (length all) (omega arith) in
    let fits : ltb (length all) max_message_size ≡ true = ground arith in
    let some_bytes : (length all == 0) ≡ false = ground arith in
    let same : (length all == length all) ≡ true = ground arith in
    (l2, rw e1 (rw (size, fits, some_bytes) (rw e2 (rw (size, same) refl))))

module _ {ℓ} {M : Type ℓ} (pack : M → List ℕ) (unpack : List ℕ → Option M) (m : M) where
  unpacked :
      (buf : List ℕ)
      → (if pos (length buf) ==ℤ pos 0
          then unpack []
          else if pos (length buf) ==ℤ negsuc 1
          then none
          else elim (as_buffer buf) [ none ↦ none | some b ↦ unpack b ])
        ≡ unpack buf
  unpacked [] = refl
  unpacked (b ∷ buf) =
      let some_bytes : (length (b ∷ buf) == 0) ≡ false = ground arith in rw some_bytes refl

  sent_lem :
      (answers : List Answer)
      → length (pack m) < max_message_size
      → Moves answers
      → 4 + length (pack m) ≤ moving answers
      → (later : List Answer) × (send_message pack answers m
          ≡ some (pos (length (pack m)), htonl (length (pack m)) ++ pack m, later))
  unfolding send_message
  sent_lem answers small moves h =
      let fits : ltb (length (pack m)) max_message_size ≡ true = ground arith in
      let (later, e) = packed_lem answers (pack m) small moves h in (later, rw fits (rw e refl))

  received_lem :
      (k : ℕ) (answers : List Answer) (rest : List ℕ)
      → length (pack m) < max_message_size
      → unpack (pack m) ≡ some m
      → Moves answers
      → 4 + length (pack m) ≤ moving answers
      → (later : List Answer) × (recv_message unpack
            (suc k)
            answers
            (htonl (length (pack m)) ++ pack m ++ rest)
          ≡ some (some m, rest, later))
  unfolding recv_message
  received_lem k answers rest small back moves h =
      let (later, e) = recv_packed_lem k (pos 0) answers (pack m) rest small moves h in
      (later, rw e (ap (λ x. some (x, rest, later)) (unpacked (pack m) ∙ back)))

  -- A message that protobuf-c unpacks as it packed it, and whose packed form is shorter than the limit,
  -- arrives: however the kernel cuts the two transfers into pieces, if no call fails and it moves a
  -- byte at least each time that it is not blocked, it is sent, and what is sent is received as that
  -- message, with whatever follows it left for the next.
  pub recv_message-send_message :
      (k : ℕ) (writes reads : List Answer) (rest : List ℕ)
      → unpack (pack m) ≡ some m
      → length (pack m) < max_message_size
      → Moves writes
      → Moves reads
      → 4 + length (pack m) ≤ moving writes
      → 4 + length (pack m) ≤ moving reads
      → (sent : List ℕ) × (writes' reads' : List Answer) × (send_message pack writes m
          ≡ some (pos (length (pack m)), sent, writes'))
        × (recv_message unpack (suc k) reads (sent ++ rest) ≡ some (some m, rest, reads'))
  recv_message-send_message k writes reads rest back small mw mr hw hr =
      let (writes', e) = sent_lem writes small mw hw in
      let (reads', e') = received_lem k reads rest small back mr hr in
      (htonl (length (pack m)) ++ pack m, writes', reads', e, e')
