-- ===== src/Offsets/Users/Release.antt =====
-- A clean-up without a start (daemon/c_user.c): compartment_cleanup calls it also when a start
-- failed before its hook.
use cml.Prelude.{
  ℕ, ℤ, suc, pos, ◌≡◌, refl, Bool, true, false, Option, none, some, if◌then◌else◌, List, ◌∷◌, arith,
}
use cml.Offsets.Slots.{Table, take_next, first_free}
use cml.Offsets.Users.{
  User, user_new, start_pre_clone, cleanup, unset_offset, set_next_uid_range_start, use_stored,
  next_range, set_next_offset, assign_range, range_start,
}

-- When slot 0 is in use, by whatever container, the clean-up of a new container that has a user namespace,
-- was never started and is not rebooting frees slot 0 all the same; and the next container to start,
-- when it has a user namespace and no stored offset and was not rebooted, takes slot 0 and the ids that
-- go with it.
pub cleanup-Foreign :
    (max : ℕ) (l : List Bool) (stored : Option ℤ) (is_c0 writes : Bool) (u : User)
    → u.has_userns ≡ true
    → u.stored ≡ none
    → (t : Table) × (v : User) × (cleanup
          (suc max)
          false
          (some (true ∷ l))
          (user_new stored true is_c0)
        ≡ some t)
      × (start_pre_clone (suc max) writes false t u ≡ some (pos 0, some (true ∷ l), v))
      × (v.offset ≡ pos 0)
      × (v.uid_start ≡ range_start (pos 0))
unfolding cleanup unset_offset user_new start_pre_clone set_next_uid_range_start use_stored
    next_range set_next_offset take_next first_free assign_range
cleanup-Foreign max l stored is_c0 writes u h1 h2 = (
  some (false ∷ l),
  record u {
    offset = pos 0;
    uid_start = range_start (pos 0);
    stored = if writes then some (pos 0) else u.stored;
  },
  ground arith,
  ground arith,
  refl,
  refl,
)
