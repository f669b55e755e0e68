-- ===== src/Audit/Examples.antt =====
-- Records of one line.
use cml.Prelude.{ℕ, ◌≡◌, refl, some, none, List, [], ◌∷◌, ◌++◌, true, pos, minus_one, arith}
use cml.Attest.Bytes.{Bytes, same}
use cml.Audit.Log.{next_record}
use cml.Audit.Records.{Line, encode, file_of, next_record-encode}
use cml.Audit.Queue.{Call, store, fetch, was_stored, was_fetched, run, run-queue}

abbrev record_of : ℕ → List Bytes
record_of n = (n ∷ 10 ∷ []) ∷ []

one_Line : Line (7 ∷ 10 ∷ [])
unfolding same
one_Line = record { body = 7 ∷ []; ended = refl; inner = (omega arith, tt); other = refl }

-- The third record has no place.
abbrev calls : List Call
calls = store (record_of 7) ∷ store (record_of 7) ∷ store (record_of 7) ∷ fetch ∷ fetch ∷ fetch ∷ []

run-queue_example :
    run 20 calls none
    ≡ some (
      was_stored (pos 0)
          ∷ was_stored (pos 0)
          ∷ was_stored minus_one
          ∷ was_fetched (some (7 ∷ 10 ∷ []))
          ∷ was_fetched (some (7 ∷ 10 ∷ []))
          ∷ was_fetched none
          ∷ [],
      none,
    )
run-queue_example =
    run-queue 20 calls [] tt
      ((one_Line, tt), ((one_Line, tt), ((one_Line, tt), (omega arith, (omega arith, tt)))))

next_record-encode_example :
    (cut : Bytes) × (next_record 16 true (file_of (record_of 7 ∷ record_of 7 ∷ []))
      ≡ some (some (7 ∷ 10 ∷ []), some cut))
    × (encode (record_of 7 ∷ []) ≡ cut ++ 10 ∷ [])
next_record-encode_example =
    next_record-encode 16 (record_of 7) (record_of 7) [] (one_Line, tt) refl
