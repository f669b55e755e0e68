-- ===== src/Compartment/Start/Outcome.antt =====
-- How compartment_start ends (daemon/compartment.c).
use cml.Prelude.{
  ◌+◌, ℤ, pos, minus_one, ◌≡◌, ◌⊎◌, true, false, ◌∷◌, if◌then◌else◌, is_negative, arith,
}
use cml.Compartment.State.{stopped, starting, setup}
use cml.Compartment.Life.{Compartment, cleaned, set_state, cleanup}
use cml.Compartment.Start.{StartAnswers, run_hooks, start, start_error_pre_clone}

-- What is as if nothing had been started, with one clean-up more.
pub record Aborted (c u : Compartment) : Type 0 where
  pub state : u.state ≡ stopped
  pub pid : u.pid ≡ minus_one
  pub pid_early : u.pid_early ≡ minus_one
  pub start_timer : u.start_timer ≡ false
  pub stop_timer : u.stop_timer ≡ false
  pub early_io : u.early_io ≡ c.early_io
  pub sigchld_early : u.sigchld_early ≡ c.sigchld_early
  pub deeds : u.deeds ≡ cleaned false ∷ c.deeds

-- What waits for the early child.
pub record Launched (child : ℤ) (c u : Compartment) : Type 0 where
  pub state : u.state ≡ (if c.setup_mode then setup else starting)
  pub pid : u.pid ≡ c.pid
  pub pid_early : u.pid_early ≡ child
  pub early_io : u.early_io ≡ c.early_io + 1
  pub sigchld_early : u.sigchld_early ≡ c.sigchld_early + 1

-- The state in which a start clones its early child.
abbrev prepared : Compartment → Compartment
prepared c =
    if (set_state c starting).setup_mode
    then set_state (set_state c starting) setup
    else set_state c starting

-- A start whose pre-clone hooks succeed but whose stack mapping, socket pair or clone fails leaves the
-- compartment stopped and does not return an error.
pub start_silent :
    (a : StartAnswers) (c : Compartment)
    → is_negative (run_hooks (pos 0) a.pre_clone) ≡ false
    → (a.mapped ≡ false) ⊎ ((a.paired ≡ false) ⊎ (is_negative a.clone_pid ≡ true))
    → (is_negative (start a c).0 ≡ false) × ((start a c).1.state ≡ stopped)
unfolding start start_error_pre_clone cleanup set_state
start_silent a c h1 h2 = ground arith
