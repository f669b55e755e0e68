-- ===== src/Texts/Calls.antt =====
-- Calls on a text buffer (common/str.c), and what they mean for its text.
use cml.Prelude.{
  ℕ, zero, suc, ◌≤◌, ◌≡◌, ◌≢◌, ℤ, pos, negsuc, is_negative, false, Option, some, List, [], ◌∷◌,
  ◌++◌, All, length, ◌>>=◌,
}
use cml.Attest.Bytes.{Bytes}
use cml.Texts.Str.{
  Str, Allocator, outside, str_insert_len, str_insert, str_append, str_append_len, str_truncate,
  str_assign, str_assign_len,
}

-- A call, with a C string that has no 0 within, or with as many bytes of a memory as are asked for
pub data Edit : Type 0 where
  append : Bytes → Edit
  append_len : Bytes → ℕ → Edit
  insert : ℤ → Bytes → Edit
  insert_len : ℤ → Bytes → ℕ → Edit
  truncate : ℤ → Edit
  assign : Bytes → Edit
  assign_len : Bytes → ℕ → Edit

-- A C string that is not in the buffer
abbrev pub c_text : Bytes → Bytes
c_text text = text ++ 0 ∷ []

unfoldable pub run_one : Allocator → Edit → Str → Option Str
run_one a (append text) s = str_append a s (outside (c_text text))
run_one a (append_len memory n) s = str_append_len a s (outside memory) (pos n)
run_one a (insert p text) s = str_insert a s p (outside (c_text text))
run_one a (insert_len p memory n) s = str_insert_len a s p (outside memory) (pos n)
run_one a (truncate n) s = str_truncate s n
run_one a (assign text) s = str_assign a s (c_text text)
run_one a (assign_len memory n) s = str_assign_len a s memory (pos n)

-- A sequence of calls, each with what the allocator then does
unfoldable pub run : List (Allocator × Edit) → Str → Option Str
run [] s = some s
run ((a, e) ∷ es) s = run_one a e s >>= λ s'. run es s'

-- The text with another one put in; beyond its end nothing is.
abbrev pub inserted : ℕ → Bytes → Bytes → Bytes
inserted zero text c = text ++ c
inserted (suc p) text [] = []
inserted (suc p) text (x ∷ c) = x ∷ inserted p text c

abbrev pub truncated : ℕ → Bytes → Bytes
truncated zero c = []
truncated (suc n) [] = []
truncated (suc n) (x ∷ c) = x ∷ truncated n c

-- A text put in at a place, of which a negative one is the end
abbrev pub put_in : ℤ → Bytes → Bytes → Bytes
put_in (pos p) text c = inserted p text c
put_in (negsuc _) text c = c ++ text

-- What a call means
abbrev pub edited : Edit → Bytes → Bytes
edited (append text) c = c ++ text
edited (append_len memory n) c = c ++ truncated n memory
edited (insert p text) c = put_in p text c
edited (insert_len p memory n) c = put_in p (truncated n memory) c
edited (truncate (pos n)) c = truncated n c
edited (truncate (negsuc _)) c = c
edited (assign text) c = text
edited (assign_len memory n) c = truncated n memory

abbrev pub edited_all : List (Allocator × Edit) → Bytes → Bytes
edited_all [] c = c
edited_all ((a, e) ∷ es) c = edited_all es (edited e c)

-- A text without 0
abbrev pub Text : Bytes → Type 0
Text text = All (λ x. x ≢ 0) text

-- What a call has to keep to: no more bytes are asked for than there are, and no negative length is left
abbrev pub Proper : Edit → Type 0
Proper (append text) = Text text
Proper (append_len memory n) = n ≤ length memory
Proper (insert p text) = Text text
Proper (insert_len p memory n) = n ≤ length memory
Proper (truncate n) = is_negative n ≡ false
Proper (assign text) = Text text
Proper (assign_len memory n) = n ≤ length memory
