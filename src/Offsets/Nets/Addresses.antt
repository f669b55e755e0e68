-- ===== src/Offsets/Nets/Addresses.antt =====
-- What a start does to the address slots, and what a clean-up does behind a failed one
-- (daemon/c_net.c).
use cml.Prelude.{
  ℕ, ℤ, pos, minus_one, ◌<◌, ◌≤◌, ◌≡◌, refl, ap, ◌⊎◌, inl, inr, Bool, true, false, Option, none,
  some, List, ◌∷◌, length, get_elem?, set, subst,
}
use cml.Offsets.Slots.{Table, slots, take_next-cases, get_elem?-bound, slots-some}
use cml.Offsets.Nets.{
  Interface, max_num_devices, start_pre_clone_interface, start_error, start_with, Ipv4,
  unset_offset, set_next_offset, cmld_addr, cont_addr, cleanup_interface, cleanup_interfaces,
}

-- 172.23.slot.host
abbrev pub in_subnet : ℕ → ℕ → Ipv4
in_subnet slot host = record { a = 172; b = 23; c = slot; d = host }

-- The addresses of a slot: 172.23.slot.1 for the daemon, .2 for the container, .255 for all
pub record Subnet (slot : ℕ) (ni : Interface) : Type 0 where
  pub daemon : ni.cmld_addr ≡ in_subnet slot 1
  pub container : ni.cont_addr ≡ in_subnet slot 2
  pub broadcast : ni.bc_addr ≡ in_subnet slot 255

-- A start that succeeds
pub record Given (table : Table) (ni : Interface) (t : Table) (ni' : Interface) : Type 0 where
  pub slot : ℕ
  pub bounded : slot ≤ 254
  pub was_free : get_elem? (slots max_num_devices table) slot ≡ some false
  pub now : t ≡ some (set (slots max_num_devices table) slot true)
  pub offset : ni'.cont_offset ≡ pos slot
  pub kept : ni'.configure ≡ ni.configure
  pub subnet : (ni.configure ≡ false) ⊎ Subnet slot ni'

-- What the start of an interface comes to
abbrev pub Outcome : Table → Interface → Option (ℤ × Table × Interface) → Type 0
Outcome table ni none = ⊥
Outcome table ni (some (code, t, ni')) =
    ((code ≡ pos 0) × Given table ni t ni')
    ⊎ ((code ≡ minus_one) × (t ≡ some (slots max_num_devices table)))

-- When all slots are in use, the start of an interface fails, and the clean-up of the interfaces that
-- follows a failed start is stopped by an assertion.
pub cleanup_failed :
    (max : ℕ) (created : Bool) (l : List Bool) (ni : Interface) (nis : List Interface)
    → 0 < max
    → ((i : ℕ) → i < length l → get_elem? l i ≡ some true)
    → (ni' : Interface) × (start_pre_clone_interface max created (some l) ni
        ≡ some (minus_one, some l, ni'))
      × (cleanup_interfaces max (some l) (ni' ∷ nis) ≡ none)
unfolding start_pre_clone_interface set_next_offset start_with start_error cleanup_interfaces
    cleanup_interface unset_offset
cleanup_failed max created l ni nis z full = elim (take_next-cases max (some l) z) [
  | inl (i, e, f, g) ↦
      let f' : get_elem? l i ≡ some false =
        subst (λ k. get_elem? k i ≡ some false) (slots-some max l) f in
      absurd (differ (full i (get_elem?-bound l i false f')) f')
  | inr (e, g) ↦ (
    record ni { cont_offset = minus_one },
    rw (e, g, start_error)
        (ap (λ k. some (minus_one, some k, record ni { cont_offset = minus_one }))
          (slots-some max l)),
    refl,
  )
]
  where
    differ : {o : Option Bool} → o ≡ some true → o ≡ some false → ⊥
    differ a b = cc
