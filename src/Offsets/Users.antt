-- ===== src/Offsets/Users.antt =====
-- The user id ranges of containers (daemon/c_user.c). `none` stands for a failed ASSERT, or for a
-- read or write beyond the array or through a null pointer. `max` is MAX_UID_RANGES.
pub mod Exclusive
pub mod Separate
pub mod Release
use cml.Prelude.{
  ℕ, ℤ, pos, negsuc, minus_one, neg, suc, ◌+◌, ◌-◌, ◌*◌, ◌%◌, ◌/◌, ◌^◌, ltb, ◌==ℤ◌, ◌&&◌, Bool,
  true, false, Option, none, some, List, not, if◌then◌else◌, get_elem?, set, is_negative, ◌>>=◌,
}
use cml.Offsets.Slots.{Table, slots, take_next}

abbrev pub uid_range : ℕ
uid_range = 100000

abbrev pub uid_ranges_start : ℕ
uid_ranges_start = 100000

abbrev pub uid_max : ℕ
uid_max = 65535

-- (UINT_MAX - UID_RANGES_START) / UID_RANGE
abbrev pub max_uid_ranges : ℕ
max_uid_ranges = (2 ^ 32 - 1 - uid_ranges_start) / uid_range

-- An int of 32 bits in two's complement
unfoldable pub wrap_int : ℤ → ℤ
wrap_int (pos n) = let m = n % 2 ^ 32 in if ltb m (2 ^ 31) then pos m else neg (2 ^ 32 - m)
wrap_int (negsuc n) =
    let m = n % 2 ^ 32 in if ltb m (2 ^ 31) then negsuc m else pos (2 ^ 32 - 1 - m)

-- UID_RANGES_START + offset * UID_RANGE
unfoldable pub range_start : ℤ → ℤ
unfolding wrap_int
range_start (pos n) = wrap_int (pos (uid_ranges_start + n * uid_range))
range_start (negsuc n) = wrap_int (neg (n * uid_range))

-- c_user_t, and the content of the container's .uid file, if it can be read.
pub record User : Type 0 where
  pub offset : ℤ
  pub uid_start : ℤ
  pub stored : Option ℤ
  pub has_userns : Bool
  pub is_c0 : Bool

-- c_user_new, which fills a new struct with zeros.
unfoldable pub user_new : Option ℤ → Bool → Bool → User
user_new stored has_userns is_c0 = record {
  offset = pos 0;
  uid_start = pos 0;
  stored = stored;
  has_userns = has_userns;
  is_c0 = is_c0;
}

-- c_user_unset_offset
unfoldable pub unset_offset : ℕ → Table → ℤ → Option Table
unset_offset max table (pos i) =
    if ltb i max then (table >>= λ t. some (some (set t i false))) else none
unset_offset max table (negsuc i) = if negsuc i ==ℤ minus_one then some table else none

-- c_user_set_next_offset
unfoldable pub set_next_offset : ℕ → Table → ℤ × List Bool
set_next_offset max table = take_next max table

-- c_user_set_offset
unfoldable pub set_offset : ℕ → Table → ℤ → Option (ℤ × List Bool)
unfolding slots
set_offset max table (negsuc i) = none
set_offset max table (pos i) = get_elem? (slots max table) i >>= λ taken.
    some (if taken then (minus_one, slots max table) else (pos i, set (slots max table) i true))

abbrev pub Started : Type 0
Started = ℤ × Table × User

-- A range was found: the rest of c_user_set_next_uid_range_start
unfoldable pub assign_range : Table → User → ℤ → Option ℤ → Started
unfolding range_start
assign_range t u offset stored =
    (pos 0, t, record u { offset = offset; uid_start = range_start offset; stored = stored })

-- The part of c_user_set_next_uid_range_start that looks for a new range; `writes` says whether the
-- file can be written.
unfoldable pub next_range : ℕ → Bool → Table → User → Started
unfolding assign_range set_next_offset
next_range max writes table u =
    let (offset, t) = set_next_offset max table in
    if is_negative offset
    then (minus_one, some t, u)
    else assign_range (some t) u offset (if writes then some offset else u.stored)

-- c_user_set_next_uid_range_start, by what the file holds
unfoldable pub use_stored : ℕ → Bool → Table → User → Option ℤ → Option Started
unfolding assign_range next_range set_offset
use_stored max writes table u none = some (next_range max writes table u)
use_stored max writes table u (some (negsuc n)) = some (
    if negsuc n ==ℤ minus_one
    then next_range max writes table u
    else assign_range table u (negsuc n) u.stored)
use_stored max writes table u (some (pos n)) = set_offset max table (pos n) >>= λ (offset, t).
    some (
      if offset ==ℤ minus_one
      then next_range max writes (some t) u
      else assign_range (some t) u offset u.stored)

unfoldable pub set_next_uid_range_start : ℕ → Bool → Table → User → Option Started
unfolding use_stored
set_next_uid_range_start max writes table u = use_stored max writes table u u.stored

-- -COMPARTMENT_ERROR_USER
abbrev pub error_user : ℤ
error_user = negsuc 8

-- c_user_start_pre_clone; `rebooted` says whether the container's previous state is rebooting.
unfoldable pub start_pre_clone : ℕ → Bool → Bool → Table → User → Option Started
unfolding set_next_uid_range_start
start_pre_clone max writes rebooted table u =
    if not u.has_userns
    then some (pos 0, table, u)
    else if u.is_c0 && rebooted
    then some (pos 0, table, u)
    else set_next_uid_range_start max writes table u >>= λ (code, t, v).
        some ((if code ==ℤ pos 0 then pos 0 else error_user), t, v)

-- c_user_cleanup, as far as the ranges go
unfoldable pub cleanup : ℕ → Bool → Table → User → Option Table
unfolding unset_offset
cleanup max rebooting table u =
    if not u.has_userns
    then some table
    else if rebooting && u.is_c0
    then some table
    else unset_offset max table u.offset
