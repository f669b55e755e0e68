-- ===== src/Compartment/State.antt =====
-- The states of a compartment: compartment_state_t of daemon/compartment.h.
use cml.Prelude.{ℕ, Bool, true, false, ◌==◌}

pub data State : Type 0 where
  stopped starting booting running freezing frozen zombie shutting_down setup rebooting : State

pub State-discrete : Discrete State
State-discrete = hlevel

-- The values of the enumeration.
abbrev pub state_value : State → ℕ
state_value stopped = 1
state_value starting = 2
state_value booting = 3
state_value running = 4
state_value freezing = 5
state_value frozen = 6
state_value zombie = 7
state_value shutting_down = 8
state_value setup = 9
state_value rebooting = 10

-- The comparison of two states.
abbrev pub in_state : State → State → Bool
in_state a b = state_value a == state_value b

-- The test by which a device rule takes effect at once.
abbrev pub is_up : State → Bool
is_up booting = true
is_up running = true
is_up _ = false
