-- ===== src/Devices/World.antt =====
-- All containers of the daemon with the two global device lists of daemon/c_cgroups_dev.c, and
-- what any sequence of operations on any of them leads to. A step is one operation on one
-- container, with any answers of the kernel, or a new container.
pub mod Exclusion
pub mod Open
use cml.Prelude.{ℕ, ℤ, ◌≡◌, Bool, Option, none, some, List, [], ◌∷◌, ◌++◌, get_elem?, set}
use cml.Compartment.State.{State}
use cml.Devices.Item.{Item}
use cml.Devices.Rule.{Text}
use cml.Devices.Bpf.{Insn}
use cml.Devices.Control.{
  Kernel, Control, Outcome, Config, success, allow, assign, deny, device_allow, device_deny,
  allow_list, start_post_clone, cleanup,
}

-- The lists of one container.
pub record Container : Type 0 where
  pub allowed : List Item
  pub assigned : List Item
  pub bpf_prog : Option (List Insn)

pub record World : Type 0 where
  pub global_allowed : List Item
  pub global_assigned : List Item
  pub clock : ℕ
  pub containers : List Container

-- c_cgroups_dev_new
abbrev pub new_container : Container
new_container = record { allowed = []; assigned = []; bpf_prog = none }

abbrev pub empty_world : World
empty_world = record { global_allowed = []; global_assigned = []; clock = 0; containers = [] }

abbrev pub focus : World → Container → Control
focus w c = record {
  global_allowed = w.global_allowed;
  global_assigned = w.global_assigned;
  allowed = c.allowed;
  assigned = c.assigned;
  bpf_prog = c.bpf_prog;
  clock = w.clock;
}

abbrev pub own_part : Control → Container
own_part s = record { allowed = s.allowed; assigned = s.assigned; bpf_prog = s.bpf_prog }

abbrev pub put : World → ℕ → Control → World
put w i s = record {
  global_allowed = s.global_allowed;
  global_assigned = s.global_assigned;
  clock = s.clock;
  containers = set w.containers i (own_part s);
}

pub data Op : Type 0 where
  allows assigns denies : Text → Op
  allows_list : Option (List Text) → Op
  allows_device : ℕ → ℤ → ℤ → Bool → Op
  denies_device : ℕ → ℤ → ℤ → Op
  starts : Config → Op
  cleans : Op

unfoldable pub run_op : (ℕ → Kernel) → State → Op → Control → Outcome
run_op env st (allows rule) s = allow env st s rule
run_op env st (assigns rule) s = assign env st s rule
run_op env st (denies rule) s = deny env st s rule
run_op env st (allows_list rules) s = allow_list env st s rules
run_op env st (allows_device type major minor assigning) s =
    device_allow env st s type major minor assigning
run_op env st (denies_device type major minor) s = device_deny env st s type major minor
run_op env st (starts c) s = start_post_clone env st c s
run_op env st cleans s = some (success, cleanup s)

pub data Step (w u : World) : Type 0 where
  act :
      (env : ℕ → Kernel) (st : State) (op : Op) (i : ℕ) (c : Container) (code : ℤ) (s : Control)
      → get_elem? w.containers i ≡ some c
      → run_op env st op (focus w c) ≡ some (code, s)
      → u ≡ put w i s
      → Step w u
  create : u ≡ record w { containers = w.containers ++ new_container ∷ [] } → Step w u

pub data Reach (w : World) : World → Type 0 where
  here : Reach w w
  next : {t u : World} → Reach w t → Step t u → Reach w u
