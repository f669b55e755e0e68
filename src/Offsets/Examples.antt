-- ===== src/Offsets/Examples.antt =====
-- Slots at concrete inputs.
use cml.Prelude.{ℤ, pos, ◌≡◌, refl, Bool, true, false, none, some, [], ◌∷◌, set, arith}
use cml.Offsets.Slots.{Table, fresh, take_next, first_free}
use cml.Offsets.Users.{
  User, user_new, start_pre_clone, cleanup, set_next_uid_range_start, use_stored, next_range,
  set_next_offset, assign_range, range_start, wrap_int, max_uid_ranges,
}
use cml.Offsets.Users.Exclusive.{Member, Daemon, created, started, Reach, initial, next}
use cml.Offsets.Users.Separate.{in_range, Reach-Separate}
use cml.Offsets.Users.Release.{cleanup-Foreign}

abbrev first : User
first = user_new none true false

abbrev ranged : ℤ → User
ranged o = record (user_new (some o) true false) { offset = o; uid_start = range_start o }

abbrev one_slot : Table
one_slot = some (set (fresh max_uid_ranges) 0 true)

abbrev two_slots : Table
two_slots = some (set (set (fresh max_uid_ranges) 0 true) 1 true)

abbrev member : User → Bool → Member
member u b = record { user = u; active = b }

abbrev both : Daemon
both = record {
  table = two_slots;
  members = member (ranged (pos 0)) true ∷ member (ranged (pos 1)) true ∷ [];
}

both-Reach : Reach max_uid_ranges both
unfolding user_new start_pre_clone set_next_uid_range_start use_stored next_range set_next_offset
    take_next first_free assign_range
both-Reach =
    next
      (next
        (next (next initial (created (record { table = none; members = [] }) none true false tt))
          (created (record { table = none; members = member first false ∷ [] }) none true false tt))
        (started (record { table = none; members = member first false ∷ member first false ∷ [] }) 0
          (member first false) true false (pos 0) one_slot (ranged (pos 0)) refl refl refl))
      (started
        (record {
          table = one_slot;
          members = member (ranged (pos 0)) true ∷ member first false ∷ [];
        })
        1 (member first false) true false (pos 0) two_slots (ranged (pos 1)) refl refl refl)

Reach-Separate_example : in_range (range_start (pos 1)) 100042 ≡ false
unfolding range_start wrap_int
Reach-Separate_example =
    Reach-Separate 0 1 (member (ranged (pos 0)) true) (member (ranged (pos 1)) true) 100042
      both-Reach (omega arith) refl refl refl refl refl

cleanup-Foreign_example :
    (t : Table) × (v : User) × (cleanup 2 false (some (true ∷ true ∷ [])) (user_new none true false)
      ≡ some t)
    × (start_pre_clone 2 true false t first ≡ some (pos 0, some (true ∷ true ∷ []), v))
    × (v.offset ≡ pos 0)
    × (v.uid_start ≡ range_start (pos 0))
unfolding user_new
cleanup-Foreign_example = cleanup-Foreign 1 (true ∷ []) none false true first refl refl
