-- ===== src/Messages/Fd.antt =====
-- Reading and writing through a file descriptor (common/fd.c). The kernel's answers to read and write
-- are lists, one for each call; without a further answer the call waits for ever, which is none.
use cml.Prelude.{
  ℕ, zero, suc, ◌-◌, Option, none, some, List, [], ◌∷◌, ◌++◌, length, drop, if◌then◌else◌, ◌==◌,
  ltb,
}

pub data Errno : Type 0 where
  intr connreset other_error : Errno

-- Blocked is EAGAIN. A number of bytes counts up to what is asked for, and to what there is.
pub data Answer : Type 0 where
  blocked : Answer
  failed : Errno → Answer
  moved : ℕ → Answer

abbrev pub take : ℕ → List ℕ → List ℕ
take zero xs = []
take (suc n) [] = []
take (suc n) (x ∷ xs) = x ∷ take n xs

abbrev pub min : ℕ → ℕ → ℕ
min a b = if ltb a b then a else b

-- What a transfer comes to: a number of bytes, or an error
pub data Transfer : Type 0 where
  done : ℕ → Transfer
  fault : Errno → Transfer

-- fd_read with the bytes that are still to come through the descriptor: the outcome, the bytes that
-- were read before it, those still to come, and the answers still to come
abbrev pub Reading : Type 0
Reading = Transfer × List ℕ × List ℕ × List Answer

-- The loop of fd_read, with what was read so far
unfoldable pub read_loop : List Answer → ℕ → List ℕ → List ℕ → Option Reading
read_loop answers zero got incoming = some (done (length got), got, incoming, answers)
read_loop [] (suc remain) got incoming = none
read_loop (blocked ∷ answers) (suc remain) got incoming =
    read_loop answers (suc remain) got incoming
read_loop (failed e ∷ answers) (suc remain) got incoming = some (fault e, got, incoming, answers)
read_loop (moved n ∷ answers) (suc remain) got incoming =
    let ret = min n (min (suc remain) (length incoming)) in
    let got' = got ++ take ret incoming in
    let rest = read_loop answers (suc remain - ret) got' (drop ret incoming) in
    if ret == 0 then some (done (length got), got, incoming, answers) else rest

unfoldable pub fd_read : List Answer → ℕ → List ℕ → Option Reading
unfolding read_loop
fd_read answers len incoming = read_loop answers len [] incoming

-- The loop of fd_write: the outcome, the bytes that were sent, and the answers still to come
unfoldable pub write_loop : List Answer → List ℕ → List ℕ → Option (Transfer × List ℕ × List Answer)
write_loop answers [] sent = some (done (length sent), sent, answers)
write_loop [] (b ∷ buf) sent = none
write_loop (blocked ∷ answers) (b ∷ buf) sent = write_loop answers (b ∷ buf) sent
write_loop (failed e ∷ answers) (b ∷ buf) sent = some (fault e, sent, answers)
write_loop (moved n ∷ answers) (b ∷ buf) sent =
    let ret = min n (length (b ∷ buf)) in
    let rest = write_loop answers (drop ret (b ∷ buf)) (sent ++ take ret (b ∷ buf)) in
    if ret == 0 then some (done (length sent), sent, answers) else rest

unfoldable pub fd_write : List Answer → List ℕ → Option (Transfer × List ℕ × List Answer)
unfolding write_loop
fd_write answers buf = write_loop answers buf []
