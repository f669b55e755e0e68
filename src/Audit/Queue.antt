-- ===== src/Audit/Queue.antt =====
-- The audit log as a queue (daemon/audit.c).
use cml.Prelude.{
  ℕ, ◌<◌, ◌≡◌, refl, ℤ, pos, minus_one, Bool, true, false, Option, none, some, List, [], ◌∷◌, ◌++◌,
  All, length, if◌then◌else◌, ◌>>=◌,
}
use cml.Attest.Bytes.{Bytes}
use cml.Audit.Log.{File, write_file, next_record}
use cml.Audit.Records.{Line, concat, encode, file_of, fits, stored, write_file_lem, next_record_lem}

-- A call of the log
pub data Call : Type 0 where
  store : List Bytes → Call
  fetch : Call

-- What a call answers
pub data Answer : Type 0 where
  was_stored : ℤ → Answer
  was_fetched : Option Bytes → Answer

-- A sequence of calls, with the answers
unfoldable pub run : ℕ → List Call → File → Option (List Answer × File)
run storage [] file = some ([], file)
run storage (store m ∷ calls) file =
    let (ret, file') = write_file storage (concat m) file in
    run storage calls file' >>= λ (answers, last). some (was_stored ret ∷ answers, last)
run storage (fetch ∷ calls) file = next_record storage true file >>= λ (record_text, file').
    run storage calls file' >>= λ (answers, last). some (was_fetched record_text ∷ answers, last)

-- The same on a queue of records
abbrev pub queue : ℕ → List Call → List (List Bytes) → List Answer × List (List Bytes)
queue storage [] ms = ([], ms)
queue storage (store m ∷ calls) ms =
    let (ret, ms') = stored storage m ms in
    let (answers, last) = queue storage calls ms' in (was_stored ret ∷ answers, last)
queue storage (fetch ∷ calls) [] =
    let (answers, last) = queue storage calls [] in (was_fetched none ∷ answers, last)
queue storage (fetch ∷ calls) (m ∷ ms) =
    let (answers, last) = queue storage calls ms in (was_fetched (some (concat m)) ∷ answers, last)

-- Records consist of lines, and no record is fetched from a log that is full to the last byte.
abbrev pub Fair : ℕ → List Call → List (List Bytes) → Type 0
Fair storage [] ms = Unit
Fair storage (store m ∷ calls) ms = All Line m × Fair storage calls (stored storage m ms).1
Fair storage (fetch ∷ calls) [] = Fair storage calls []
Fair storage (fetch ∷ calls) (m ∷ ms) = (length (encode (m ∷ ms)) < storage) × Fair storage calls ms

stored-All :
    (storage : ℕ) (m : List Bytes) (ms : List (List Bytes))
    → All Line m
    → All (All Line) ms
    → All (All Line) (stored storage m ms).1
stored-All storage m ms h hs = pick (fits storage ms m)
  where
    more : (ms : List (List Bytes)) → All (All Line) ms → All (All Line) (ms ++ m ∷ [])
    more [] hs = (h, tt)
    more (x ∷ ms) (hx, hs) = (hx, more ms hs)

    stored_if : Bool → ℤ × List (List Bytes)
    stored_if b = if b then (pos 0, ms ++ m ∷ []) else (minus_one, ms)

    pick : (b : Bool) → All (All Line) (stored_if b).1
    pick true = more ms hs
    pick false = hs

empty_lem : (storage : ℕ) → next_record storage true none ≡ some (none, none)
unfolding next_record
empty_lem storage = refl

-- The log is a queue: whatever records are stored and fetched, the answers are those of a queue that takes
-- a record when its text and the delimiter have a place, and the file is that of the queue, if no record
-- holds the delimiter as a line and none is fetched while the log is full to the last byte.
pub run-queue :
    (storage : ℕ) (calls : List Call) (ms : List (List Bytes))
    → All (All Line) ms
    → Fair storage calls ms
    → run storage calls (file_of ms)
      ≡ some ((queue storage calls ms).0, file_of (queue storage calls ms).1)
unfolding run
run-queue storage [] ms hs f = refl
run-queue storage (store m ∷ calls) ms hs (h, f) =
    let later = run-queue storage calls (stored storage m ms).1 (stored-All storage m ms h hs) f in
    rw (write_file_lem storage ms m) (rw later refl)
run-queue storage (fetch ∷ calls) [] hs f =
    rw (empty_lem storage) (rw (run-queue storage calls [] tt f) refl)
run-queue storage (fetch ∷ calls) (m ∷ ms) (h, hs) (l, f) =
    rw (next_record_lem storage m ms h l) (rw (run-queue storage calls ms hs f) refl)
