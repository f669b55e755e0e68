-- ===== src/Devices/Rule.antt =====
-- Parsing of a device rule such as "c 1:3 rwm": c_cgroups_dev_from_rule_new of
-- daemon/c_cgroups_dev.c, over the C library's strtok_r and strtol. A text is its bytes.
pub mod Access
pub mod Print
use cml.Prelude.{
  ℕ, zero, suc, ℤ, pos, negsuc, neg, minus_one, ◌+◌, ◌-◌, ◌*◌, ◌/◌, ◌%◌, ◌^◌, Bool, true, false,
  ◌&&◌, ◌||◌, Option, none, some, ◌>>=◌, List, [], ◌∷◌, ◌++◌, ltb, leb, ◌==◌, if◌then◌else◌, length,
  bit_or,
}
use cml.Devices.Item.{Item, dev_block, dev_char, acc_mknod, acc_read, acc_write, acc_all}

abbrev pub Text : Type 0
Text = List ℕ

-- strtok_r with one delimiter: what it skips, what it takes, and where it leaves the pointer.
unfoldable pub skip_delims : ℕ → Text → Text
skip_delims d [] = []
skip_delims d (c ∷ s) = let rest = skip_delims d s in if c == d then rest else c ∷ s

unfoldable pub take_token : ℕ → Text → Text × Text
take_token d [] = ([], [])
take_token d (c ∷ s) = let (t, rest) = take_token d s in if c == d then ([], s) else (c ∷ t, rest)

abbrev pub next_token : ℕ → Text → Option Text × Text
next_token d [] = (none, [])
next_token d (c ∷ s) = let (t, rest) = take_token d (c ∷ s) in (some t, rest)

unfoldable pub strtok_r : ℕ → Text → Option Text × Text
unfolding skip_delims take_token
strtok_r d s = next_token d (skip_delims d s)

-- strtol in base 10, which stops at the first other byte: `none` is ERANGE.
unfoldable pub is_space : ℕ → Bool
is_space c = c == 32 || leb 9 c && leb c 13

unfoldable pub is_digit : ℕ → Bool
is_digit c = leb b'0' c && leb c b'9'

unfoldable pub digits_value : ℕ → Text → ℕ
unfolding is_digit
digits_value acc [] = acc
digits_value acc (c ∷ s) =
    let more = digits_value (acc * 10 + (c - b'0')) s in if is_digit c then more else acc

abbrev pub long_limit : ℕ
long_limit = 2 ^ 63

unfoldable pub strtol_signed : Bool → Text → Option ℤ
strtol_signed true s = let n = digits_value 0 s in if leb n long_limit then some (neg n) else none
strtol_signed false s = let n = digits_value 0 s in if ltb n long_limit then some (pos n) else none

unfoldable pub strtol : Text → Option ℤ
unfolding is_space
strtol [] = some (pos 0)
strtol (c ∷ s) =
    let rest = strtol s in
    if is_space c
    then rest
    else if c == b'-'
    then strtol_signed true s
    else if c == b'+'
    then strtol_signed false s
    else strtol_signed false (c ∷ s)

-- The switch on the first byte of the type.
unfoldable pub parse_type : Text → Option ℕ
parse_type [] = none
parse_type (c ∷ s) =
    if c == b'c'
    then some dev_char
    else if c == b'b'
    then some dev_block
    else if c == b'a'
    then some 0
    else none

abbrev pub fits_int : ℤ → Bool
fits_int (pos n) = ltb n (2 ^ 31)
fits_int (negsuc n) = ltb n (2 ^ 31)

unfoldable pub parse_number : Text → Option ℤ
parse_number [] = some (pos 0)
parse_number (c ∷ s) =
    if c == b'*'
    then some minus_one
    else strtol (c ∷ s) >>= λ v. if fits_int v then some v else none

unfoldable pub access_bits : ℕ → Text → Option ℕ
access_bits access [] = some access
access_bits access (c ∷ s) =
    let read = access_bits (bit_or access acc_read) s in
    let write = access_bits (bit_or access acc_write) s in
    let mknod = access_bits (bit_or access acc_mknod) s in
    if c == b'r' then read else if c == b'w' then write else if c == b'm' then mknod else none

unfoldable pub parse_access : Option Text → Option ℕ
unfolding access_bits
parse_access none = some acc_all
parse_access (some s) = if ltb 3 (length s) || length s == 0 then none else access_bits 0 s

-- The part of c_cgroups_dev_from_rule_new behind the type, over the token "1:3".
unfoldable pub from_device : ℕ → Text → Option Item
from_device type dev = do
  let (maj_tok, pointer) = strtok_r b':' dev
  maj_str ← maj_tok
  major ← parse_number maj_str
  let (min_tok, pointer') = strtok_r b' ' pointer
  min_str ← min_tok
  minor ← parse_number min_str
  access ← parse_access (strtok_r b':' pointer').0
  some (record { major = major; minor = minor; type = type; access = access })

-- c_cgroups_dev_from_rule_new: `none` is NULL.
unfoldable pub from_rule_new : Text → Option Item
from_rule_new rule = do
  let (type_tok, pointer) = strtok_r b' ' rule
  type_str ← type_tok
  type ← parse_type type_str
  let (dev_tok, pointer') = strtok_r b' ' pointer
  dev ← dev_tok
  from_device type dev

-- The decimal digits that printf writes for %d, before `s`; `suc n` rounds are enough for n.
unfoldable pub digits_onto : ℕ → ℕ → Text → Text
digits_onto zero n s = s
digits_onto (suc fuel) n s =
    let c = b'0' + n % 10 in
    let more = digits_onto fuel (n / 10) (c ∷ s) in if ltb n 10 then c ∷ s else more

unfoldable pub print_number : ℤ → Text
print_number (pos n) = digits_onto (suc n) n []
print_number (negsuc n) = b'-' ∷ digits_onto (suc (suc n)) (suc n) []

-- The rule "%c %d:%d rwm" that c_cgroups_dev_device_allow and c_cgroups_dev_device_deny write.
unfoldable pub device_rule : ℕ → ℤ → ℤ → Text
device_rule type major minor =
    type
    ∷ b' '
    ∷ (print_number major ++ b':' ∷ (print_number minor ++ b' ' ∷ b'r' ∷ b'w' ∷ b'm' ∷ []))
