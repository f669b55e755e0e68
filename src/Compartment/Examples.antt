-- ===== src/Compartment/Examples.antt =====
-- Runs of a compartment at concrete inputs.
use cml.Prelude.{ℕ, ℤ, pos, refl, true, false, some, none, List, arith, [], ◌∷◌}
use cml.Compartment.Life.{Compartment, new_compartment}
use cml.Compartment.Start.{
  StartAnswers, EarlyAnswers, PostAnswers, start, start_post_clone_early_cb, run_hooks,
}
use cml.Compartment.Start.Runs.{Runs}
use cml.Compartment.Signals.{Waits, exited, signaled, sigchld_cb, still_active}
use cml.Compartment.Signals.Reaping.{Cleared, Settled, sigchld_cb-reaps}
use cml.Compartment.Steps.{created, next, started, early_message, Sound}
use cml.Compartment.Steps.Callbacks.{Reach-Sound}

abbrev fine : StartAnswers
fine = record {
  pre_clone = none ∷ some (pos 0) ∷ [];
  mapped = true;
  paired = true;
  clone_pid = pos 500;
  post_clone_early = some (pos 0) ∷ [];
  stop_written = true;
}

-- The message "501"
abbrev pid_text : List ℕ
pid_text = 53 ∷ 48 ∷ 49 ∷ []

abbrev reads_501 : List ℕ → ℤ
reads_501 s = pos 501

abbrev early_ok : EarlyAnswers
early_ok = record {
  excepted = false;
  message = some pid_text;
  post_clone = some (pos 0) ∷ [];
  go_written = true;
  stop_written = true;
}

abbrev post_ok : PostAnswers
post_ok = record {
  excepted = false;
  message = some 3;
  pre_exec = [];
  go_written = true;
  post_exec = [];
  has_service = true;
  stop_written = true;
}

abbrev setting_up : Compartment
setting_up = record new_compartment { setup_mode = true }

-- A compartment with one helper child, and the end of its init process by SIGHUP.
abbrev alive : Compartment
alive = record new_compartment { pid = pos 501; sigchld = 1; helpers = pos 600 ∷ [] }

abbrev hung_up : Waits
hung_up = record {
  group = pos 501;
  group_status = signaled 1;
  own = pos 0;
  own_status = exited 0;
  helper = λ child. child;
}

sigchld_cb-reaps_example :
    Cleared (sigchld_cb hung_up alive)
    × Settled true (still_active (λ child. child) (pos 600 ∷ [])) alive (sigchld_cb hung_up alive)
sigchld_cb-reaps_example = sigchld_cb-reaps hung_up alive refl refl refl

Reach-Sound_example :
    Sound (start_post_clone_early_cb reads_501 early_ok (start fine new_compartment).1)
unfolding start run_hooks
Reach-Sound_example = Reach-Sound reads_501 (
    next (next created (started new_compartment fine))
      (early_message (start fine new_compartment).1 early_ok (omega arith)))
