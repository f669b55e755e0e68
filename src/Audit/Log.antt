-- ===== src/Audit/Log.antt =====
-- The audit log of a container (daemon/audit.c): a file of records in text, each with a delimiter behind
-- it. The file system does what it is asked to; texts hold no 0.
use cml.Prelude.{
  ℕ, ◌+◌, ◌-◌, ℤ, pos, minus_one, Bool, true, false, Option, none, some, List, [], ◌∷◌, ◌++◌,
  length, drop, ltb, ◌==◌, codes, if◌then◌else◌, ◌>>=◌,
}
use cml.Attest.Bytes.{Bytes, read_bytes, same}

-- AUDIT_DELIMITER
abbrev pub delimiter : Bytes
delimiter = codes "-----" ++ 10 ∷ []

-- The file, if there is one
abbrev pub File : Type 0
File = Option Bytes

-- audit_remaining_storage
unfoldable pub remaining_storage : ℕ → File → ℕ
remaining_storage storage none = storage
remaining_storage storage (some bytes) =
    if ltb storage (length bytes) then 0 else storage - length bytes

-- audit_log_check_delimiter
unfoldable pub check_delimiter : File → Bool
check_delimiter none = true
check_delimiter (some bytes) =
    if length bytes == 0
    then true
    else if ltb (length bytes) (length delimiter)
    then false
    else same (drop (length bytes - length delimiter) bytes) delimiter

-- file_write_append
unfoldable pub file_write_append : File → Bytes → File
file_write_append none text = some text
file_write_append (some bytes) text = some (bytes ++ text)

-- audit_write_file, with the record as text
unfoldable pub write_file : ℕ → Bytes → File → ℤ × File
write_file storage text file =
    if ltb (remaining_storage storage file) (length text + length delimiter)
    then (minus_one, file)
    else (let fixed = if check_delimiter file then file else file_write_append file delimiter in
        (pos 0, file_write_append (file_write_append fixed text) delimiter))

-- What getline returns, one after the other
unfoldable pub lines : Bytes → List Bytes
lines [] = []
lines (x ∷ xs) = elim (lines xs) [
  | [] ↦ (x ∷ []) ∷ []
  | l ∷ ls ↦ if x == 10 then (10 ∷ []) ∷ l ∷ ls else (x ∷ l) ∷ ls
]

-- The lines before the delimiter
unfoldable pub up_to : List Bytes → Bytes
up_to [] = []
up_to (l ∷ ls) = let rest = up_to ls in if same l delimiter then [] else l ++ rest

-- file_read_new on a text: a byte less than the place there is, at most
unfoldable pub file_read_new : ℕ → Bytes → Bytes
file_read_new maxlen bytes = elim (read_bytes (maxlen - 1) bytes) [
  | none ↦ bytes
  | some text ↦ text
]

-- The record at the front of the file
unfoldable pub front : Bytes → Bytes
front bytes = up_to (lines bytes)

-- The removal of a record of that length; none is a read beyond the end of what was read.
unfoldable pub purge : ℕ → ℕ → Bytes → Option File
purge storage len bytes =
    let offset = len + length delimiter in
    let buf = file_read_new storage bytes in
    if offset == length bytes
    then some none
    else if ltb (length buf) offset
    then none
    else some (some (drop offset buf))

-- audit_next_record_new with audit_record_from_textfile_new, as far as the text of the record goes: no
-- record, or its text, and the file behind that
unfoldable pub next_record : ℕ → Bool → File → Option (Option Bytes × File)
next_record storage purges none = some (none, none)
next_record storage purges (some bytes) =
    let read = front bytes in
    let after : Option File =
      if purges then purge storage (length read) bytes else some (some bytes) in
    if length bytes == 0
    then some (some [], some bytes)
    else (after >>= λ file. some (some read, file))
