-- ===== src/Audit/Records.antt =====
-- Files that hold the records of an audit log (daemon/audit.c).
use cml.Prelude.{
  ℕ, zero, suc, ◌+◌, ◌-◌, ◌≤◌, ◌<◌, ◌≡◌, ◌≢◌, refl, sym, ap, ap₂, subst, ◌∙◌, ℤ, pos, minus_one,
  Bool-cases, inl, inr, Bool, true, false, Option, none, some, List, [], ◌∷◌, ◌++◌, All, length,
  drop, drop-append, ltb, ◌==◌, arith, append_assoc, append-nil, length-append, if◌then◌else◌,
}
use cml.Attest.Bytes.{Bytes, read_bytes, read_bytes-append, same, same_refl}
use cml.Audit.Log.{
  delimiter, File, remaining_storage, check_delimiter, file_write_append, write_file, lines, up_to,
  file_read_new, front, purge, next_record,
}

-- A line of a record: it ends with a newline, and is not the delimiter.
pub record Line (l : Bytes) : Type 0 where
  pub body : Bytes
  pub ended : l ≡ body ++ 10 ∷ []
  pub inner : All (λ x. x ≢ 10) body
  pub other : same l delimiter ≡ false

abbrev pub concat : List Bytes → Bytes
concat [] = []
concat (l ∷ ls) = l ++ concat ls

-- The file of a queue of records, each of which is a list of lines
abbrev pub encode : List (List Bytes) → Bytes
encode [] = []
encode (m ∷ ms) = concat m ++ (delimiter ++ encode ms)

-- The file of a queue: there is none when it is empty.
abbrev pub file_of : List (List Bytes) → File
file_of [] = none
file_of (m ∷ ms) = some (encode (m ∷ ms))

lines_body :
    (body rest : Bytes)
    → All (λ x. x ≢ 10) body
    → lines ((body ++ 10 ∷ []) ++ rest) ≡ (body ++ 10 ∷ []) ∷ lines rest
unfolding lines
lines_body [] rest h =
    elim (lines rest)
      as (λ r. elim r [ [] ↦ (10 ∷ []) ∷ [] | l ∷ ls ↦ (10 ∷ []) ∷ l ∷ ls ] ≡ (10 ∷ []) ∷ r) [
        | [] ↦ refl
        | l ∷ ls ↦ refl
      ]
lines_body (x ∷ body) rest (n, h) =
    let other : (x == 10) ≡ false = ground arith in rw (lines_body body rest h) (rw other refl)

front_lem :
    (m : List Bytes) (rest : Bytes)
    → All Line m
    → front (concat m ++ (delimiter ++ rest)) ≡ concat m
unfolding front up_to
front_lem [] rest h =
    let first : lines (delimiter ++ rest) ≡ delimiter ∷ lines rest =
      lines_body (codes5) rest
        (omega arith, (omega arith, (omega arith, (omega arith, (omega arith, tt))))) in
    rw first (rw (same_refl delimiter) refl)
  where
    codes5 : Bytes
    codes5 = 45 ∷ 45 ∷ 45 ∷ 45 ∷ 45 ∷ []
front_lem (l ∷ m) rest (w, ws) =
    let tail = concat m ++ (delimiter ++ rest) in
    let first : lines (l ++ tail) ≡ l ∷ lines tail =
      subst (λ b. lines (b ++ tail) ≡ b ∷ lines tail) (sym w.ended)
        (lines_body w.body tail w.inner) in
    let later = front_lem m rest ws in
    rw (append_assoc l (concat m) (delimiter ++ rest))
      (rw first (rw w.other (ap (λ b. l ++ b) later)))

pub encode-append_one :
    (ms : List (List Bytes)) (m : List Bytes)
    → encode (ms ++ m ∷ []) ≡ encode ms ++ (concat m ++ delimiter)
encode-append_one [] m = ap (λ b. concat m ++ b) (append-nil delimiter)
encode-append_one (x ∷ ms) m =
    ap (λ b. concat x ++ (delimiter ++ b)) (encode-append_one ms m) ∙ simp append_assoc

-- A file that is not empty ends with the delimiter.
encode-ends :
    (m : List Bytes) (ms : List (List Bytes))
    → (before : Bytes) × (encode (m ∷ ms) ≡ before ++ delimiter)
encode-ends m [] = (concat m, ap (λ b. concat m ++ b) (append-nil delimiter))
encode-ends m (x ∷ ms) =
    let (before, e) = encode-ends x ms in
    (
      concat m ++ (delimiter ++ before),
      ap (λ b. concat m ++ (delimiter ++ b)) e ∙ simp append_assoc,
    )

check_delimiter_lem : (ms : List (List Bytes)) → check_delimiter (file_of ms) ≡ true
unfolding check_delimiter
check_delimiter_lem [] = refl
check_delimiter_lem (m ∷ ms) =
    let (before, e) = encode-ends m ms in
    let long = ap length e ∙ length-append before delimiter in
    let some_bytes : (length (encode (m ∷ ms)) == 0) ≡ false = ground (arith, long) in
    let enough : ltb (length (encode (m ∷ ms))) 6 ≡ false = ground (arith, long) in
    let at : length (encode (m ∷ ms)) - 6 ≡ length before = omega (arith, long) in
    let last_bytes : drop (length (encode (m ∷ ms)) - 6) (encode (m ∷ ms)) ≡ delimiter =
      ap₂ drop at e ∙ drop-append before delimiter in
    rw some_bytes (rw enough (rw last_bytes (same_refl delimiter)))

appended :
    (ms : List (List Bytes)) (m : List Bytes)
    → file_write_append (file_write_append (file_of ms) (concat m)) delimiter
      ≡ file_of (ms ++ m ∷ [])
unfolding file_write_append
appended [] m = ap some (ap (λ b. concat m ++ b) (sym (append-nil delimiter)))
appended (x ∷ ms) m =
    ap some
      (append_assoc (encode (x ∷ ms)) (concat m) delimiter ∙ sym (encode-append_one (x ∷ ms) m))

remaining_lem :
    (storage : ℕ) (ms : List (List Bytes))
    → remaining_storage storage (file_of ms) ≡ storage - length (encode ms)
unfolding remaining_storage
remaining_lem storage [] = omega arith
remaining_lem storage (m ∷ ms) = ground arith

-- Whether a record still has a place
abbrev pub fits : ℕ → List (List Bytes) → List Bytes → Bool
fits storage ms m =
    if ltb (storage - length (encode ms)) (length (concat m) + 6) then false else true

-- The queue behind a call that stores a record
abbrev pub stored : ℕ → List Bytes → List (List Bytes) → ℤ × List (List Bytes)
stored storage m ms = if fits storage ms m then (pos 0, ms ++ m ∷ []) else (minus_one, ms)

pub write_file_lem :
    (storage : ℕ) (ms : List (List Bytes)) (m : List Bytes)
    → write_file storage (concat m) (file_of ms)
      ≡ ((stored storage m ms).0, file_of (stored storage m ms).1)
unfolding write_file
write_file_lem storage ms m =
    elim (Bool-cases (ltb (storage - length (encode ms)) (length (concat m) + 6))) [
      | inl y ↦ rw (remaining_lem storage ms) (rw y refl)
      | inr y ↦
          rw (remaining_lem storage ms)
            (rw y (rw (check_delimiter_lem ms) (ap (λ f. (pos 0, f)) (appended ms m))))
    ]

whole_read :
    (n : ℕ) (bytes : Bytes)
    → length bytes ≤ n
    → elim (read_bytes n bytes) as (λ r. Bytes) [ none ↦ bytes | some text ↦ text ] ≡ bytes
unfolding read_bytes
whole_read zero [] h = refl
whole_read zero (x ∷ bytes) h = absurd (omega arith)
whole_read (suc n) [] h = refl
whole_read (suc n) (x ∷ bytes) h = step (read_bytes n bytes) (whole_read n bytes (omega arith))
  where
    step :
        (r : Option Bytes)
        → elim r as (λ r. Bytes) [ none ↦ bytes | some text ↦ text ] ≡ bytes
        → elim (elim r as (λ r. Option Bytes) [ none ↦ none | some ys ↦ some (x ∷ ys) ])
            as (λ r. Bytes) [ none ↦ x ∷ bytes | some text ↦ text ]
          ≡ x ∷ bytes
    step none e = refl
    step (some ys) e = ap (λ l. x ∷ l) e

purge_lem :
    (storage : ℕ) (m : List Bytes) (ms : List (List Bytes))
    → length (encode (m ∷ ms)) < storage
    → purge storage (length (concat m)) (encode (m ∷ ms)) ≡ some (file_of ms)
unfolding purge file_read_new
purge_lem storage m [] h =
    let long = length-append (concat m) (delimiter ++ []) in
    let all : (length (concat m) + 6 == length (encode (m ∷ []))) ≡ true = ground (arith, long) in
    rw all refl
purge_lem storage m (x ∷ ms) h =
    let bytes = encode (m ∷ x ∷ ms) in
    let front_part = concat m ++ delimiter in
    let long_front = length-append (concat m) delimiter in
    let view : bytes ≡ front_part ++ encode (x ∷ ms) =
      sym (append_assoc (concat m) delimiter (encode (x ∷ ms))) in
    let long = ap length view ∙ length-append front_part (encode (x ∷ ms)) in
    let long_next = length-append (concat x) (delimiter ++ encode ms) in
    let long_next' = length-append delimiter (encode ms) in
    let more : (length (concat m) + 6 == length bytes) ≡ false =
      ground (arith, long, long_front, long_next, long_next') in
    let read = whole_read (storage - 1) bytes (omega arith) in
    let enough : ltb (length bytes) (length (concat m) + 6) ≡ false =
      ground (arith, long, long_front) in
    let left : drop (length (concat m) + 6) bytes ≡ encode (x ∷ ms) =
      ap₂ drop (sym long_front) view ∙ drop-append front_part (encode (x ∷ ms)) in
    rw more (rw read (rw enough (ap (λ b. some (some b)) left)))

pub next_record_lem :
    (storage : ℕ) (m : List Bytes) (ms : List (List Bytes))
    → All Line m
    → length (encode (m ∷ ms)) < storage
    → next_record storage true (file_of (m ∷ ms)) ≡ some (some (concat m), file_of ms)
unfolding next_record
next_record_lem storage m ms ls h =
    let long = length-append (concat m) (delimiter ++ encode ms) in
    let long' = length-append delimiter (encode ms) in
    let some_bytes : (length (encode (m ∷ ms)) == 0) ≡ false = ground (arith, long, long') in
    let read = front_lem m (encode ms) ls in
    rw some_bytes (rw read (rw (purge_lem storage m ms h) refl))

file_read_new_lem :
    (maxlen : ℕ) (bytes text : Bytes)
    → read_bytes (maxlen - 1) bytes ≡ some text
    → file_read_new maxlen bytes ≡ text
unfolding file_read_new
file_read_new_lem maxlen bytes text e = rw (file_read_new, e) refl

-- When a log that is full to the last byte gives its first record away, and holds more, the last byte of the
-- file is lost: file_read_new has one byte less than the log.
pub next_record-encode :
    (storage : ℕ) (m x : List Bytes) (ms : List (List Bytes))
    → All Line m
    → length (encode (m ∷ x ∷ ms)) ≡ storage
    → (cut : Bytes) × (next_record storage true (file_of (m ∷ x ∷ ms))
        ≡ some (some (concat m), some cut))
      × (encode (x ∷ ms) ≡ cut ++ 10 ∷ [])
unfolding next_record purge
next_record-encode storage m x ms ls h =
    let bytes = encode (m ∷ x ∷ ms) in
    let front_part = concat m ++ delimiter in
    let (before, e) = encode-ends x ms in
    let dashes : Bytes = 45 ∷ 45 ∷ 45 ∷ 45 ∷ 45 ∷ [] in
    let cut = before ++ dashes in
    let ending : encode (x ∷ ms) ≡ cut ++ 10 ∷ [] =
      e ∙ sym (append_assoc before dashes (10 ∷ [])) in
    let view : bytes ≡ (front_part ++ cut) ++ 10 ∷ [] =
      sym (append_assoc (concat m) delimiter (encode (x ∷ ms)))
      ∙ ap (λ b. front_part ++ b) ending
      ∙ sym (append_assoc front_part cut (10 ∷ [])) in
    let long = ap length view ∙ length-append (front_part ++ cut) (10 ∷ []) in
    let long_front = length-append (concat m) delimiter in
    let long_cut = length-append front_part cut in
    let long_dashes = length-append before dashes in
    let some_bytes : (length bytes == 0) ≡ false = ground (arith, long) in
    let more : (length (concat m) + 6 == length bytes) ≡ false =
      ground (arith, long, long_front, long_cut, long_dashes) in
    let size : length (front_part ++ cut) ≡ storage - 1 = omega (arith, long, h) in
    let read : read_bytes (storage - 1) bytes ≡ some (front_part ++ cut) =
      ap₂ read_bytes (sym size) view ∙ read_bytes-append (front_part ++ cut) (10 ∷ []) in
    let short = file_read_new_lem storage bytes (front_part ++ cut) read in
    let enough : ltb (length (front_part ++ cut)) (length (concat m) + 6) ≡ false =
      ground (arith, long_front, long_cut) in
    let left : drop (length (concat m) + 6) (front_part ++ cut) ≡ cut =
      ap (λ k. drop k (front_part ++ cut)) (sym long_front) ∙ drop-append front_part cut in
    let text = front_lem m (encode (x ∷ ms)) ls in
    (cut, rw some_bytes (rw text (rw more (rw short (rw enough (rw left refl))))), ending)
