-- ===== src/Offsets/Users/Exclusive.antt =====
-- All containers with their user id ranges, where each clean-up follows a start that took a range
-- (daemon/c_user.c).
use cml.Prelude.{
  ℕ, ℤ, pos, negsuc, minus_one, ◌<◌, ◌≡◌, refl, ◌≢◌, ◌⊎◌, inl, inr, Bool, true, false, ◌&&◌, Option,
  none, some, List, [], ◌∷◌, ◌++◌, if◌then◌else◌, length, get_elem?, set, arith, Option-cases, not,
  ◌==ℤ◌, subst,
}
use cml.Offsets.Slots.{Table, Taken, slots, take_next-cases}
use cml.Offsets.Users.{
  User, user_new, Started, set_next_offset, set_offset, next_range, assign_range,
  set_next_uid_range_start, use_stored, error_user, start_pre_clone, cleanup, unset_offset,
  range_start,
}

-- A container's user structure, and whether it has a range: `active` from a start to the clean-up.
pub record Member : Type 0 where
  pub user : User
  pub active : Bool

pub record Daemon : Type 0 where
  pub table : Table
  pub members : List Member

abbrev pub IsSane : Option ℤ → Type 0
IsSane none = Unit
IsSane (some (pos n)) = Unit
IsSane (some (negsuc n)) = ⊥

-- Whether the hooks do anything for this user.
abbrev pub applies : Bool → User → Bool
applies rebooted u = u.has_userns && not (u.is_c0 && rebooted)

module _ (max : ℕ) where
  pub data Step : Daemon → Daemon → Type 0 where
    created :
        (d : Daemon) (stored : Option ℤ) (has_userns is_c0 : Bool)
        → IsSane stored
        → Step d (record d {
          members =
              d.members ++ record { user = user_new stored has_userns is_c0; active = false } ∷ [];
        })
    started :
        (d : Daemon) (i : ℕ) (m : Member) (writes rebooted : Bool) (code : ℤ) (t : Table) (u : User)
        → get_elem? d.members i ≡ some m
        → m.active ≡ false
        → start_pre_clone max writes rebooted d.table m.user ≡ some (code, t, u)
        → Step d (record {
          table = t;
          members =
              set d.members i
                (record { user = u; active = applies rebooted m.user && (code ==ℤ pos 0) });
        })
    cleaned :
        (d : Daemon) (i : ℕ) (m : Member) (rebooting : Bool) (t : Table)
        → get_elem? d.members i ≡ some m
        → m.active ≡ true
        → cleanup max rebooting d.table m.user ≡ some t
        → Step d (record {
          table = t;
          members = set d.members i (record m { active = not (applies rebooting m.user) });
        })

  pub data Reach : Daemon → Type 0 where
    initial : Reach (record { table = none; members = [] })
    next : {d e : Daemon} → Reach d → Step d e → Reach e

  -- An active member holds a slot, and its ids start where the slot's do.
  pub record Holds (t : Table) (m : Member) : Type 0 where
    pub offset : ℕ
    pub is_offset : m.user.offset ≡ pos offset
    pub taken : Taken t offset
    pub starts : m.user.uid_start ≡ range_start (pos offset)

  pub record Inv (d : Daemon) : Type 0 where
    pub held :
        (i : ℕ) (m : Member) → get_elem? d.members i ≡ some m → m.active ≡ true → Holds d.table m
    pub apart :
        (i j : ℕ) (m n : Member)
        → i ≢ j
        → get_elem? d.members i ≡ some m
        → get_elem? d.members j ≡ some n
        → m.active ≡ true
        → n.active ≡ true
        → m.user.offset ≢ n.user.offset
    pub sane : (i : ℕ) (m : Member) → get_elem? d.members i ≡ some m → IsSane m.user.stored
    pub sized : length (slots max d.table) ≡ max

-- What a start comes to: nothing, or a slot that was free.
pub record Took (max : ℕ) (table : Table) (u : User) (t : Table) (v : User) : Type 0 where
  pub slot : ℕ
  pub was_free : get_elem? (slots max table) slot ≡ some false
  pub now : t ≡ some (set (slots max table) slot true)
  pub offset : v.offset ≡ pos slot
  pub starts : v.uid_start ≡ range_start (pos slot)
  pub stored : IsSane v.stored

-- A table changes by nothing but its allocation.
abbrev pub Kept : ℕ → Table → Table → Type 0
Kept max table t = (t ≡ table) ⊎ (t ≡ some (slots max table))

pub record Refused (max : ℕ) (table : Table) (u : User) (t : Table) (v : User) : Type 0 where
  pub kept : Kept max table t
  pub same : v ≡ u

-- By the code of the result
abbrev Outcome : ℕ → Table → User → Started → Type 0
Outcome max table u (code, t, v) =
    ((code ≡ pos 0) × Took max table u t v) ⊎ ((code ≡ minus_one) × Refused max table u t v)

IsSane-if : (b : Bool) (i : ℕ) (o : Option ℤ) → IsSane o → IsSane (if b then some (pos i) else o)
IsSane-if true i o h = tt
IsSane-if false i o h = h

next_range-Outcome :
    (max : ℕ) (writes : Bool) (table : Table) (u : User)
    → 0 < max
    → IsSane u.stored
    → Outcome max table u (next_range max writes table u)
unfolding next_range set_next_offset assign_range
next_range-Outcome max writes table u h s = elim (take_next-cases max table h) [
  | inl (i, e, f, g) ↦
      rw (e, g)
        (inl (
          refl,
          record {
            slot = i;
            was_free = f;
            now = refl;
            offset = refl;
            starts = refl;
            stored = IsSane-if writes i u.stored s;
          },
        ))
  | inr (e, g) ↦ rw (e, g) (inr (refl, record { kept = inr refl; same = refl }))
]

-- The table is allocated before the search for a new range.
Outcome-allocated :
    (max : ℕ) (table : Table) (u : User) (r : Started)
    → Outcome max (some (slots max table)) u r
    → Outcome max table u r
unfolding slots
Outcome-allocated max table u r (inl (e, k)) = inl (
  e,
  record {
    slot = k.slot;
    was_free = k.was_free;
    now = k.now;
    offset = k.offset;
    starts = k.starts;
    stored = k.stored;
  },
)
Outcome-allocated max table u r (inr (e, k)) =
    inr (e, record { kept = elim k.kept [ inl p ↦ inr p | inr p ↦ inr p ]; same = k.same })

abbrev Outcome? : ℕ → Table → User → Option Started → Type 0
Outcome? max table u none = Unit
Outcome? max table u (some r) = Outcome max table u r

stored-Outcome :
    (max : ℕ) (writes : Bool) (table : Table) (u : User) (o : Option ℤ)
    → 0 < max
    → IsSane u.stored
    → IsSane o
    → Outcome? max table u (use_stored max writes table u o)
unfolding use_stored set_offset assign_range
stored-Outcome max writes table u none h s k = next_range-Outcome max writes table u h s
stored-Outcome max writes table u (some (negsuc n)) h s k = absurd k
stored-Outcome max writes table u (some (pos n)) h s _ =
    elim (Option-cases (get_elem? (slots max table) n)) [
      | inl k ↦ rw k tt
      | inr (true, k) ↦ rw k (
          Outcome-allocated max table u _
            (next_range-Outcome max writes (some (slots max table)) u h s))
      | inr (false, k) ↦ rw k (
          inl (
            refl,
            record { slot = n; was_free = k; now = refl; offset = refl; starts = refl; stored = s },
          ))
    ]

-- A start that applies
pub start-Outcome :
    (max : ℕ) (writes rebooted : Bool) (table : Table) (u : User) (code : ℤ) (t : Table) (v : User)
    → 0 < max
    → IsSane u.stored
    → start_pre_clone max writes rebooted table u ≡ some (code, t, v)
    → applies rebooted u ≡ true
    → ((code ≡ pos 0) × Took max table u t v) ⊎ ((code ≢ pos 0) × Refused max table u t v)
unfolding start_pre_clone set_next_uid_range_start
start-Outcome max writes rebooted table u code t v h s e a =
    elim (Option-cases (set_next_uid_range_start max writes table u)) [
      | inl k ↦ ground arith
      | inr ((c, t1, v1), k) ↦
          let o : Outcome max table u (c, t1, v1) =
            subst (Outcome? max table u) k (stored-Outcome max writes table u u.stored h s s) in
          let same_t : t ≡ t1 = ground arith in
          let same_v : v ≡ v1 = ground arith in
          let told : code ≡ (if c ==ℤ pos 0 then pos 0 else error_user) = ground arith in
          elim o [
            | inl (z, took) ↦ inl (rw (told, z) refl, rw (same_t, same_v) took)
            | inr (z, kept) ↦ inr (rw (told, z) (λ x. cc), rw (same_t, same_v) kept)
          ]
    ]

-- A start that does not
pub start-idle :
    (max : ℕ) (writes rebooted : Bool) (table : Table) (u : User) (code : ℤ) (t : Table) (v : User)
    → start_pre_clone max writes rebooted table u ≡ some (code, t, v)
    → applies rebooted u ≡ false
    → (t ≡ table) × (v ≡ u)
unfolding start_pre_clone
start-idle max writes rebooted table u code t v e a = ground arith

pub cleanup-frees :
    (max : ℕ) (rebooting : Bool) (table t : Table) (u : User) (i : ℕ)
    → cleanup max rebooting table u ≡ some t
    → u.offset ≡ pos i
    → (applies rebooting u ≡ true)
    → (l : List Bool) × (table ≡ some l) × (t ≡ some (set l i false))
unfolding cleanup unset_offset
cleanup-frees max rebooting none t u i e f a = ground arith
cleanup-frees max rebooting (some l) t u i e f a = (l, refl, ground arith)

pub cleanup-idle :
    (max : ℕ) (rebooting : Bool) (table t : Table) (u : User)
    → cleanup max rebooting table u ≡ some t
    → applies rebooting u ≡ false
    → t ≡ table
unfolding cleanup
cleanup-idle max rebooting table t u e a = ground arith
