-- ===== src/Messages/Examples.antt =====
-- Short messages through cut transfers. A message is a number, packed as a byte unless it is 0.
use cml.Prelude.{ℕ, zero, suc, ◌≡◌, refl, pos, Option, none, some, List, [], ◌∷◌, ◌++◌, arith}
use cml.Messages.Fd.{Answer, blocked, failed, moved, intr}
use cml.Messages.Protobuf.{max_message_size, htonl, read_retry, send_message, recv_message}
use cml.Messages.Delivery.{recv_message-send_message}
use cml.Messages.Broken.{recv_message-oversized, read_retry-interrupted}

abbrev pack : ℕ → List ℕ
pack zero = []
pack (suc n) = suc n ∷ []

abbrev unpack : List ℕ → Option ℕ
unpack [] = some 0
unpack (b ∷ []) = some b
unpack _ = none

-- The kernel takes one byte, then blocks, then takes any number at a time.
abbrev pieces : List Answer
pieces = moved 1 ∷ blocked ∷ moved 9 ∷ moved 9 ∷ moved 9 ∷ moved 9 ∷ []

recv_message-send_message_example :
    (sent : List ℕ) × (writes' reads' : List Answer) × (send_message pack pieces 7
      ≡ some (pos 1, sent, writes'))
    × (recv_message unpack 1 pieces (sent ++ 5 ∷ []) ≡ some (some 7, 5 ∷ [], reads'))
recv_message-send_message_example =
    recv_message-send_message pack unpack 7 0 pieces pieces (5 ∷ []) refl (omega arith)
      (omega arith, (omega arith, (omega arith, (omega arith, (omega arith, tt)))))
      (omega arith, (omega arith, (omega arith, (omega arith, (omega arith, tt))))) (omega arith)
      (omega arith)

recv_message-oversized_example :
    (later : List Answer) × (recv_message unpack 1 pieces (htonl max_message_size ++ 5 ∷ [])
      ≡ some (some 0, 5 ∷ [], later))
recv_message-oversized_example =
    recv_message-oversized unpack 0 max_message_size pieces (5 ∷ []) (omega arith) (omega arith)
      (omega arith, (omega arith, (omega arith, (omega arith, (omega arith, tt))))) (omega arith)

read_retry-interrupted_example :
    read_retry 2 (moved 2 ∷ failed intr ∷ pieces) 4 (0 ∷ 0 ∷ 0 ∷ 1 ∷ 7 ∷ [])
    ≡ read_retry 1 pieces 4 (0 ∷ 1 ∷ 7 ∷ [])
read_retry-interrupted_example =
    read_retry-interrupted 1 2 4 pieces (0 ∷ 0 ∷ 0 ∷ 1 ∷ 7 ∷ []) (omega arith) (omega arith)
      (omega arith)
