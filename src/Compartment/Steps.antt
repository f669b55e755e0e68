-- ===== src/Compartment/Steps.antt =====
-- All that can happen to a compartment, in any order (daemon/compartment.c): its public operations,
-- and the callbacks while the event loop has them.
pub mod Soundness
pub mod Callbacks
use cml.Prelude.{
  ℕ, ℤ, pos, minus_one, ◌≤◌, ◌≡◌, refl, ◌≢◌, Bool, true, false, ◌&&◌, not, is_negative, ltb, neg,
  zero, suc, Option, none, some, List, [], ◌∷◌, if◌then◌else◌, arith, All,
}
use cml.Compartment.State.{State, stopped, in_state}
use cml.Compartment.Life.{
  Compartment, Deed, killed, cleaned, key_told, new_compartment, is_kept_from, set_state,
  set_setup_mode, set_key, has_key, free_key, kill, kill_early_child, start_timeout_cb,
  stop_timeout_cb,
}
use cml.Compartment.Start.{
  StartAnswers, EarlyAnswers, PostAnswers, Hooks, start, start_post_clone_early_cb,
  start_post_clone_cb, stop,
}
use cml.Compartment.Signals.{Waits, wait_for_child, sigchld_cb, sigchld_early_cb}

module _ (atoi : List ℕ → ℤ) where
  pub data Step : Compartment → Compartment → Type 0 where
    set_to : (c : Compartment) (s : State) → Step c (set_state c s)
    set_mode : (c : Compartment) (b : Bool) → Step c (set_setup_mode c b)
    key_set : (c : Compartment) (key : List ℕ) → Step c (set_key c key)
    key_freed : (c : Compartment) → Step c (free_key c)
    child_added : (c : Compartment) (pid : ℤ) → Step c (wait_for_child c pid)
    started : (c : Compartment) (a : StartAnswers) → Step c (start a c).1
    stopping : (c : Compartment) (h : Hooks) → Step c (stop h c).1
    kill_asked : (c : Compartment) → Step c (kill c)
    early_message :
        (c : Compartment) (e : EarlyAnswers)
        → 1 ≤ c.early_io
        → Step c (start_post_clone_early_cb atoi e c)
    message : (c : Compartment) (p : PostAnswers) → 1 ≤ c.post_io → Step c (start_post_clone_cb p c)
    start_timeout : (c : Compartment) → c.start_timer ≡ true → Step c (start_timeout_cb c)
    stop_timeout : (c : Compartment) → c.stop_timer ≡ true → Step c (stop_timeout_cb c)
    child_signal : (c : Compartment) (w : Waits) → 1 ≤ c.sigchld → Step c (sigchld_cb w c)
    early_signal :
        (c u : Compartment) (w : Waits)
        → 1 ≤ c.sigchld_early
        → sigchld_early_cb w c ≡ some u
        → Step c u

  pub data Reach : Compartment → Type 0 where
    created : Reach new_compartment
    next : {c u : Compartment} → Reach c → Step c u → Reach u

-- Which state an observer may be told of behind which.
abbrev pub may_follow : State → State → Bool
may_follow s t = not (in_state s t) && not (is_kept_from s t)

-- The states are as the observers were told, from `stopped` on.
abbrev pub Chain : State → List State → Type 0
Chain s [] = s ≡ stopped
Chain s (t ∷ past) = (may_follow t s ≡ true) × Chain t past

abbrev pub newest : List State → State
newest [] = stopped
newest (s ∷ _) = s

-- No signal to every process.
abbrev pub Aimed : Deed → Type 0
Aimed (killed pid) = pid ≢ minus_one
Aimed (cleaned b) = Unit
Aimed key_told = Unit

pub record SoundParts (state prev_state : State) (past : List State) (deeds : List Deed)
    (cleaning : Bool) (handlers : ℕ) (rebooting : Bool) : Type 0 where
  pub chain : Chain state past
  pub previous : prev_state ≡ newest past
  pub safe : All Aimed deeds
  pub awaited : cleaning ≡ true → 1 ≤ handlers
  pub reboots : rebooting ≡ true → cleaning ≡ true

abbrev pub Sound : Compartment → Type 0
Sound c = SoundParts c.state c.prev_state c.past c.deeds c.is_doing_cleanup c.sigchld c.is_rebooting
