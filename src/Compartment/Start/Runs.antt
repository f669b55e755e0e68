-- ===== src/Compartment/Start/Runs.antt =====
-- A start as a whole: compartment_start, and the two callbacks that the child's messages call.
use cml.Prelude.{
  ℕ, ◌+◌, ◌-◌, ℤ, pos, ◌≡◌, ◌==◌, Bool, true, false, none, some, List, if◌then◌else◌, is_negative,
}
use cml.Compartment.State.{booting, running, setup}
use cml.Compartment.Life.{Compartment}
use cml.Compartment.Start.{
  StartAnswers, EarlyAnswers, PostAnswers, run_hooks, starts_with_error, post_exec, msg_error,
}

-- Answers without an error
pub record StartFine (a : StartAnswers) : Type 0 where
  pub pre_clone : is_negative (run_hooks (pos 0) a.pre_clone) ≡ false
  pub mapped : a.mapped ≡ true
  pub paired : a.paired ≡ true
  pub cloned : is_negative a.clone_pid ≡ false
  pub post_clone_early : is_negative (run_hooks (pos 0) a.post_clone_early) ≡ false

pub record EarlyFine (pid_msg : List ℕ) (e : EarlyAnswers) : Type 0 where
  pub excepted : e.excepted ≡ false
  pub message : e.message ≡ some pid_msg
  pub no_error : starts_with_error pid_msg ≡ false
  pub post_clone : is_negative (run_hooks (pos 0) e.post_clone) ≡ false
  pub go_written : e.go_written ≡ true

pub record PostFine (msg : ℕ) (p : PostAnswers) : Type 0 where
  pub excepted : p.excepted ≡ false
  pub message : p.message ≡ some msg
  pub no_error : (msg == msg_error) ≡ false
  pub pre_exec : is_negative (run_hooks (pos 0) p.pre_exec) ≡ false
  pub go_written : p.go_written ≡ true
  pub post_exec : is_negative (run_hooks (pos 0) p.post_exec) ≡ false

-- The compartment behind the message of the early child
abbrev received : ℤ → Compartment → Compartment
received pid c = record c {
  early_io = c.early_io - 1;
  pid = pid;
  post_io = c.post_io + 1;
  sigchld = c.sigchld + 1;
}

-- A compartment whose parts answer
pub record Runs (child : ℤ) (has_service : Bool) (c u : Compartment) : Type 0 where
  pub state : u.state ≡ (if c.setup_mode then setup else if has_service then booting else running)
  pub pid : u.pid ≡ child
  pub key : u.key ≡ none
  pub start_timer : u.start_timer ≡ (if c.setup_mode then c.start_timer else true)
  pub sigchld : u.sigchld ≡ c.sigchld + 1
  pub early_io : u.early_io ≡ c.early_io
  pub post_io : u.post_io ≡ c.post_io
  pub deeds : u.deeds ≡ c.deeds
