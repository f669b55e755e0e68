-- ===== src/Compartment/Life.antt =====
-- What the daemon keeps of a compartment, and the operations that its callbacks share
-- (daemon/compartment.c). How often each callback is registered with the event loop is
-- counted, and the signals sent to processes and the clean-ups of the modules are a record of what was done.
use cml.Prelude.{
  ℕ, ℤ, pos, negsuc, minus_one, neg, ltb, ◌==◌, ◌&&◌, Bool, true, false, ◌||◌, Option, none, some,
  List, [], ◌∷◌, if◌then◌else◌, is_negative,
}
use cml.Compartment.State.{State, stopped, booting, running, setup, rebooting, in_state}

-- A SIGKILL to a process or to a group, one call of the modules' clean-up, or a round of the
-- observers for a new key.
pub data Deed : Type 0 where
  killed : ℤ → Deed
  cleaned : Bool → Deed
  key_told : Deed

-- struct compartment. `past` has the states left behind, newest first: at each of them the
-- observers are told. `helpers` has the process ids of the helper children.
pub record Compartment : Type 0 where
  pub state : State
  pub prev_state : State
  pub past : List State
  pub setup_mode : Bool
  pub pid : ℤ
  pub pid_early : ℤ
  pub exit_status : ℕ
  pub key : Option (List ℕ)
  pub start_timer : Bool
  pub stop_timer : Bool
  pub helpers : List ℤ
  pub is_doing_cleanup : Bool
  pub is_rebooting : Bool
  pub early_io : ℕ
  pub post_io : ℕ
  pub sigchld : ℕ
  pub sigchld_early : ℕ
  pub deeds : List Deed

-- compartment_new, as far as these fields go
abbrev pub new_compartment : Compartment
new_compartment = record {
  state = stopped;
  prev_state = stopped;
  past = [];
  setup_mode = false;
  pid = minus_one;
  pid_early = minus_one;
  exit_status = 0;
  key = none;
  start_timer = false;
  stop_timer = false;
  helpers = [];
  is_doing_cleanup = false;
  is_rebooting = false;
  early_io = 0;
  post_io = 0;
  sigchld = 0;
  sigchld_early = 0;
  deeds = [];
}

-- compartment_is_stoppable and compartment_is_startable
unfoldable pub is_stoppable : Compartment → Bool
is_stoppable c = elim c.helpers [
  | _ ∷ _ ↦ false
  | [] ↦ in_state c.state running || (in_state c.state booting || in_state c.state setup)
]

unfoldable pub is_startable : Compartment → Bool
is_startable c = in_state c.state stopped || in_state c.state rebooting

-- The states that a compartment in setup does not leave it for.
abbrev pub is_kept_from : State → State → Bool
is_kept_from setup booting = true
is_kept_from setup running = true
is_kept_from _ _ = false

-- compartment_set_state
unfoldable pub set_state : Compartment → State → Compartment
set_state c st =
    if in_state c.state st
    then c
    else if is_kept_from c.state st
    then c
    else record c { prev_state = c.state; state = st; past = c.state ∷ c.past }

-- compartment_set_setup_mode
unfoldable pub set_setup_mode : Compartment → Bool → Compartment
set_setup_mode c b = record c { setup_mode = b }

-- compartment_free_key
unfoldable pub free_key : Compartment → Compartment
free_key c = record c { key = none }

abbrev pub same_text : List ℕ → List ℕ → Bool
same_text [] [] = true
same_text (a ∷ s) (b ∷ t) = a == b && same_text s t
same_text _ _ = false

abbrev pub has_key : Compartment → List ℕ → Bool
has_key c key = elim c.key [ none ↦ false | some old ↦ same_text old key ]

-- compartment_set_key
unfoldable pub set_key : Compartment → List ℕ → Compartment
unfolding free_key
set_key c key =
    if has_key c key then c else record (free_key c) { key = some key; deeds = key_told ∷ c.deeds }

-- compartment_cleanup, whose module hooks are told whether the compartment reboots
unfoldable pub cleanup : Compartment → Bool → Compartment
cleanup c reboots = record c {
  stop_timer = false;
  start_timer = false;
  deeds = cleaned reboots ∷ c.deeds;
  pid = minus_one;
  pid_early = minus_one;
}

-- compartment_kill_early_child: the process group of the early child
unfoldable pub kill_early_child : Compartment → Compartment
kill_early_child c = elim c.pid_early [
  | negsuc n ↦ c
  | pos n ↦ if ltb 1 n then record c { deeds = killed (neg n) ∷ c.deeds } else c
]

-- compartment_kill; whether the signal could be sent is only logged.
unfoldable pub kill : Compartment → Compartment
unfolding kill_early_child
kill c =
    if in_state c.state stopped
    then c
    else (let c1 = kill_early_child c in
        if is_negative c1.pid then c1 else record c1 { deeds = killed c1.pid ∷ c1.deeds })

-- compartment_start_timeout_cb and compartment_stop_timeout_cb
unfoldable pub start_timeout_cb : Compartment → Compartment
start_timeout_cb c = record (if in_state c.state booting then kill c else c) { start_timer = false }

unfoldable pub stop_timeout_cb : Compartment → Compartment
stop_timeout_cb c = record (kill c) { stop_timer = false }
