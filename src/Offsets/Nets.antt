-- ===== src/Offsets/Nets.antt =====
-- The address slots of network interfaces (daemon/c_net.c). `none` stands for a failed ASSERT or an
-- access through a null pointer. `max` is MAX_NUM_DEVICES.
pub mod Addresses
use cml.Prelude.{
  ℕ, ℤ, pos, negsuc, minus_one, ltb, ◌==ℤ◌, ◌&&◌, ◌+◌, Bool, true, false, Option, none, some, List,
  [], ◌∷◌, if◌then◌else◌, set, is_negative, ◌>>=◌, not,
}
use cml.Offsets.Slots.{Table, take_next}

abbrev pub subnet_offs : ℕ
subnet_offs = 0

-- MAX_NUM_DEVICES
abbrev pub max_num_devices : ℕ
max_num_devices = 255

-- The four bytes of an address
pub record Ipv4 : Type 0 where
  pub a : ℕ
  pub b : ℕ
  pub c : ℕ
  pub d : ℕ

abbrev pub no_addr : Ipv4
no_addr = record { a = 0; b = 0; c = 0; d = 0 }

-- c_net_interface_t, as far as its addresses go
pub record Interface : Type 0 where
  pub cont_offset : ℤ
  pub configure : Bool
  pub cmld_addr : Ipv4
  pub cont_addr : Ipv4
  pub bc_addr : Ipv4

-- c_net_interface_new
unfoldable pub interface_new : Bool → Interface
interface_new configure = record {
  cont_offset = minus_one;
  configure = configure;
  cmld_addr = no_addr;
  cont_addr = no_addr;
  bc_addr = no_addr;
}

-- c_net_unset_offset
unfoldable pub unset_offset : ℕ → Table → ℤ → Option Table
unset_offset max table (negsuc i) = none
unset_offset max table (pos i) =
    if ltb i max then (table >>= λ t. some (some (set t i false))) else none

-- c_net_set_next_offset
unfoldable pub set_next_offset : ℕ → Table → ℤ × List Bool
set_next_offset max table = take_next max table

-- c_net_get_next_ipv4_cmld_addr, c_net_get_next_ipv4_cont_addr and c_net_get_next_ipv4_bcaddr
unfoldable pub cmld_addr : ℕ → Ipv4
cmld_addr offset = record { a = 172; b = 23; c = offset + subnet_offs; d = 1 }

unfoldable pub cont_addr : ℕ → Ipv4
cont_addr offset = record { a = 172; b = 23; c = offset + subnet_offs; d = 2 }

unfoldable pub bcaddr : Ipv4 → Ipv4
bcaddr addr = record addr { d = 255 }

-- The addresses of an interface with a slot
unfoldable pub addressed : ℕ → Interface → Interface
unfolding cmld_addr cont_addr bcaddr
addressed i ni = if not ni.configure then ni else record ni {
  cmld_addr = cmld_addr i;
  cont_addr = cont_addr i;
  bc_addr = bcaddr (cont_addr i);
}

-- The error path of c_net_start_pre_clone_interface
unfoldable pub start_error : ℕ → Table → Interface → Option (ℤ × Table × Interface)
unfolding unset_offset
start_error max table ni =
    if is_negative ni.cont_offset
    then some (minus_one, table, ni)
    else unset_offset max table ni.cont_offset >>= λ t. some (minus_one, t, ni)

-- The part of c_net_start_pre_clone_interface behind the search for a slot; `created` says whether
-- the veth names are free and the pair can be created.
unfoldable pub start_with : ℕ → Bool → Table → Interface → ℤ → Option (ℤ × Table × Interface)
unfolding start_error addressed
start_with max created table ni (negsuc i) = start_error max table ni
start_with max created table ni (pos i) =
    if created then some (pos 0, table, addressed i ni) else start_error max table (addressed i ni)

-- c_net_start_pre_clone_interface
unfoldable pub start_pre_clone_interface :
    ℕ → Bool → Table → Interface → Option (ℤ × Table × Interface)
unfolding start_with set_next_offset
start_pre_clone_interface max created table ni =
    let (offset, t) = set_next_offset max table in
    start_with max created (some t) (record ni { cont_offset = offset }) offset

-- c_net_cleanup_interface
unfoldable pub cleanup_interface : ℕ → Table → Interface → Option (Table × Interface)
unfolding unset_offset
cleanup_interface max table ni = unset_offset max table ni.cont_offset >>= λ t.
    some (t, record ni { cmld_addr = no_addr; cont_addr = no_addr; bc_addr = no_addr })

-- The loop of c_net_cleanup over the interfaces
unfoldable pub cleanup_interfaces : ℕ → Table → List Interface → Option (Table × List Interface)
unfolding cleanup_interface
cleanup_interfaces max table [] = some (table, [])
cleanup_interfaces max table (ni ∷ nis) = cleanup_interface max table ni >>= λ (t, ni').
    cleanup_interfaces max t nis >>= λ (t', nis'). some (t', ni' ∷ nis')
