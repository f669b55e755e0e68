-- ===== src/Texts/Str.antt =====
-- The text buffer of common/str.c. Sizes are small enough not to overflow; none is a read or a write
-- outside of a buffer, or through a pointer to released memory.
use cml.Prelude.{
  ℕ, zero, suc, ◌+◌, ◌-◌, ℤ, pos, negsuc, minus_one, Bool, true, false, ◌&&◌, Option, none, some,
  [], ◌∷◌, ◌++◌, length, drop, ltb, if◌then◌else◌, ◌>>=◌,
}
use cml.Attest.Bytes.{Bytes, read_bytes}
use cml.Attest.Ima.{slice, strlen}

-- struct str; the buffer has allocated_len bytes.
pub record Str : Type 0 where
  pub buf : Bytes
  pub len : ℕ

-- What new memory holds, and whether realloc moves a buffer
pub record Allocator : Type 0 where
  pub held : ℕ → ℕ
  pub moves : Bool

-- Where the text of an argument stands: outside, up to the end of its memory, or at an offset in the
-- buffer itself
pub data Source : Type 0 where
  outside : Bytes → Source
  inside : ℕ → Source

-- Memory that nothing was written to
unfoldable pub unwritten : Allocator → ℕ → Bytes
unwritten a zero = []
unwritten a (suc n) = a.held n ∷ unwritten a n

-- The test for enough room
unfoldable pub has_room : Str → ℕ → Bool
has_room s n = ltb (s.len + n) (length s.buf)

-- str_expand
unfoldable pub str_expand : Allocator → Str → ℕ → Str
str_expand a s n =
    if has_room s n
    then s
    else record s { buf = s.buf ++ unwritten a (s.len + n + 1 - length s.buf) }

-- memcpy to a place in the buffer
unfoldable pub write : ℕ → Bytes → Bytes → Option Bytes
write (suc p) text (b ∷ bs) = write p text bs >>= λ rest. some (b ∷ rest)
write (suc p) text [] = none
write zero [] bs = some bs
write zero (t ∷ ts) (b ∷ bs) = write zero ts bs >>= λ rest. some (t ∷ rest)
write zero (t ∷ ts) [] = none

-- The move of the text behind the place, which makes room
unfoldable pub make_room : ℕ → ℕ → ℕ → Bytes → Option Bytes
make_room p n len buf =
    let moved = slice buf p (len - p) >>= λ tail. write (p + n) tail buf in
    if ltb p len then moved else some buf

-- The copy of a part of the buffer into the room: the text before the place, then what was moved
unfoldable pub copy_own : ℕ → ℕ → ℕ → Bytes → Option Bytes
copy_own p n off buf =
    let until = if ltb off p then (if ltb n (p - off) then n else p - off) else 0 in
    let first = slice buf off until >>= λ text. write p text buf in
    first >>= λ buf'.
    if ltb until n
    then (slice buf' (off + until + n) (n - until) >>= λ text. write (p + until) text buf')
    else some buf'

-- str_insert_len behind its tests of the arguments
unfoldable pub insert_at : Allocator → Str → ℕ → Source → ℕ → Option Str
insert_at a s p src n =
    let s' = str_expand a s n in
    let ended = λ (buf : Bytes).
      write (s.len + n) (0 ∷ []) buf >>= λ done. some (record { buf = done; len = s.len + n }) in
    elim src [
      | outside memory ↦ do
        text ← read_bytes n memory
        roomy ← make_room p n s.len s'.buf
        written ← write p text roomy
        ended written
      | inside off ↦
          if a.moves && (if has_room s n then false else true)
          then none
          else if ltb s.len off
          then none
          else do
            roomy ← make_room p n s.len s'.buf
            written ← copy_own p n off roomy
            ended written
    ]

-- The length of the argument, which is measured when it is negative
unfoldable pub text_len : Str → Source → ℤ → Option ℕ
text_len s src (pos n) = some n
text_len s (outside memory) (negsuc _) = strlen memory
text_len s (inside off) (negsuc _) = strlen (drop off s.buf)

-- str_insert_len
unfoldable pub str_insert_len : Allocator → Str → ℤ → Source → ℤ → Option Str
str_insert_len a s (negsuc _) src len = text_len s src len >>= λ n. insert_at a s s.len src n
str_insert_len a s (pos p) src len =
    text_len s src len >>= λ n. if ltb s.len p then some s else insert_at a s p src n

-- str_insert
unfoldable pub str_insert : Allocator → Str → ℤ → Source → Option Str
str_insert a s p src = str_insert_len a s p src minus_one

-- str_append, str_append_len
unfoldable pub str_append : Allocator → Str → Source → Option Str
str_append a s src = str_insert_len a s minus_one src minus_one

unfoldable pub str_append_len : Allocator → Str → Source → ℤ → Option Str
str_append_len a s src len = str_insert_len a s minus_one src len

-- str_truncate
unfoldable pub str_truncate : Str → ℤ → Option Str
str_truncate s (negsuc _) = none
str_truncate s (pos n) =
    let len = if ltb n s.len then n else s.len in
    write len (0 ∷ []) s.buf >>= λ buf. some (record { buf = buf; len = len })

-- str_assign, with a text that is not the buffer itself
unfoldable pub str_assign : Allocator → Str → Bytes → Option Str
str_assign a s memory = str_truncate s (pos 0) >>= λ s'. str_append a s' (outside memory)

-- str_assign_len
unfoldable pub str_assign_len : Allocator → Str → Bytes → ℤ → Option Str
str_assign_len a s memory len =
    str_truncate s (pos 0) >>= λ s'. str_append_len a s' (outside memory) len

-- str_new_len
unfoldable pub str_new_len : Allocator → ℕ → Option Str
str_new_len a n =
    let s = str_expand a (record { buf = []; len = 0 }) (if ltb 2 n then n else 2) in
    write 0 (0 ∷ []) s.buf >>= λ buf. some (record { buf = buf; len = 0 })

-- str_new
unfoldable pub str_new : Allocator → Bytes → Option Str
str_new a init = do
  n ← strlen init
  let filled = str_new_len a (n + 2) >>= λ s. str_append_len a s (outside init) (pos n)
  if ltb 0 n then filled else str_new_len a 2
