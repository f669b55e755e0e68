-- ===== src/Messages/Protobuf.antt =====
-- The framing of protobuf messages (common/protobuf.c): a length of four bytes, then the packed message.
-- Packing and unpacking are protobuf-c's, and arguments.
use cml.Prelude.{
  ℕ, zero, suc, ◌+◌, ◌*◌, ◌/◌, ◌%◌, ◌^◌, ℤ, pos, negsuc, minus_one, ◌==ℤ◌, not, Option, none, some,
  List, [], ◌∷◌, ◌++◌, length, if◌then◌else◌, ◌==◌, ltb, ◌>>=◌,
}
use cml.Messages.Fd.{intr, connreset, other_error, Answer, done, fault, Reading, fd_read, fd_write}

-- PROTOBUF_MAX_MESSAGE_SIZE
abbrev pub max_message_size : ℕ
max_message_size = 1024 * 1024

-- htonl and ntohl, as bytes of a 32 bit number
unfoldable pub htonl : ℕ → List ℕ
htonl n = n / 2 ^ 24 % 256 ∷ n / 2 ^ 16 % 256 ∷ n / 2 ^ 8 % 256 ∷ n % 256 ∷ []

unfoldable pub ntohl : List ℕ → ℕ
ntohl (a ∷ b ∷ c ∷ d ∷ []) = a * 2 ^ 24 + b * 2 ^ 16 + c * 2 ^ 8 + d
ntohl _ = 0

abbrev pub Sending : Type 0
Sending = ℤ × List ℕ × List Answer

-- protobuf_send_message_packed; none is an assertion that fails, or a wait for ever.
unfoldable pub send_message_packed : List Answer → List ℕ → Option Sending
send_message_packed answers buf =
    if not (ltb (length buf) max_message_size) then some (minus_one, [], answers) else do
      (first, head, answers') ← fd_write answers (htonl (length buf))
      elim first [
        | fault e ↦ some (minus_one, head, answers')
        | done n ↦
            if not (n == 4)
            then none
            else if length buf == 0
            then some (pos 0, head, answers')
            else do
              (second, body, answers'') ← fd_write answers' buf
              elim second [
                | fault e ↦ some (minus_one, head ++ body, answers'')
                | done m ↦
                    if not (m == length buf) then none else some (pos m, head ++ body, answers'')
              ]
      ]

-- protobuf_send_message on the packed message
unfoldable pub send_message {ℓ} : {M : Type ℓ} → (M → List ℕ) → List Answer → M → Option Sending
send_message pack answers message =
    let buf = pack message in
    if not (ltb (length buf) max_message_size) then some (minus_one, [], answers) else do
      (ret, sent, answers') ← send_message_packed answers buf
      if ret ==ℤ minus_one
          then some (minus_one, sent, answers')
          else some (pos (length buf), sent, answers')

-- The loops around fd_read, with one step of fuel for each call of it: the whole is read again when
-- it is interrupted.
unfoldable pub read_retry : ℕ → List Answer → ℕ → List ℕ → Option Reading
read_retry zero answers len incoming = none
read_retry (suc k) answers len incoming = do
  (outcome, got, incoming', answers') ← fd_read answers len incoming
  let again = read_retry k answers' len incoming'
  elim outcome [
    | fault intr ↦ again
    | fault connreset ↦ some (fault connreset, got, incoming', answers')
    | fault other_error ↦ some (fault other_error, got, incoming', answers')
    | done n ↦ some (done n, got, incoming', answers')
  ]

-- The buffer that is returned, the length that is stored, and what is still to come
pub record Received : Type 0 where
  pub buf : Option (List ℕ)
  pub ret_len : ℤ
  pub incoming : List ℕ
  pub answers : List Answer

abbrev pub no_buffer : ℤ → List ℕ → List Answer → Received
no_buffer l incoming answers = record {
  buf = none;
  ret_len = l;
  incoming = incoming;
  answers = answers;
}

-- protobuf_recv_message_packed_new; `ret_len` is what the caller has in the variable for the length.
unfoldable pub recv_message_packed : ℕ → ℤ → List Answer → List ℕ → Option Received
recv_message_packed k ret_len answers incoming = do
  (first, head, incoming1, answers1) ← read_retry k answers 4 incoming
  let without : ℤ → Received = λ l. no_buffer l incoming1 answers1
  elim first [
    | fault connreset ↦ some (without (negsuc 1))
    | fault intr ↦ some (without minus_one)
    | fault other_error ↦ some (without minus_one)
    | done n ↦
        let buflen = ntohl head in
        if n == 0
        then some (without (negsuc 1))
        else if not (n == 4)
        then some (without minus_one)
        else if not (ltb buflen max_message_size)
        then some (without ret_len)
        else if buflen == 0
        then some (without (pos 0))
        else do
          (second, body, incoming2, answers2) ← read_retry k answers1 buflen incoming1
          let lost = no_buffer minus_one incoming2 answers2
          elim second [
            | fault e ↦ some lost
            | done m ↦
                if not (m == buflen)
                then some lost
                else some (record {
                  buf = some body;
                  ret_len = pos m;
                  incoming = incoming2;
                  answers = answers2;
                })
          ]
  ]

-- protobuf_recv_message
unfoldable pub recv_message {ℓ} :
    {M : Type ℓ}
    → (List ℕ → Option M)
    → ℕ
    → List Answer
    → List ℕ
    → Option (Option M × List ℕ × List Answer)
recv_message unpack k answers incoming = do
  r ← recv_message_packed k (pos 0) answers incoming
  let message =
      if r.ret_len ==ℤ pos 0
      then unpack []
      else if r.ret_len ==ℤ negsuc 1
      then none
      else elim r.buf [ none ↦ none | some buf ↦ unpack buf ]
  some (message, r.incoming, r.answers)
