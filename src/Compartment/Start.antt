-- ===== src/Compartment/Start.antt =====
-- The parent's side of a start, and the stop (daemon/compartment.c). What the modules' hooks, the
-- system calls and the child answer is given with each operation.
pub mod Outcome
pub mod Runs
use cml.Prelude.{
  ℕ, ◌+◌, ◌-◌, ℤ, pos, minus_one, ◌==◌, Bool, true, false, Option, none, some, List, [], ◌∷◌,
  if◌then◌else◌, is_negative, ◌||◌, ◌==ℤ◌, not,
}
use cml.Compartment.State.{
  State, stopped, starting, booting, running, shutting_down, setup, in_state,
}
use cml.Compartment.Life.{
  Compartment, set_state, set_setup_mode, free_key, cleanup, kill_early_child, kill,
}

-- The answers of one kind of hook, module by module; a module may lack the hook.
abbrev pub Hooks : Type 0
Hooks = List (Option ℤ)

-- A loop over hooks that leaves at the first error: `ret` behind it.
unfoldable pub run_hooks : ℤ → Hooks → ℤ
run_hooks ret [] = ret
run_hooks ret (none ∷ hooks) = run_hooks ret hooks
run_hooks ret (some code ∷ hooks) =
    let later = run_hooks code hooks in if is_negative code then code else later

-- The loop of the stop, which runs all hooks.
unfoldable pub run_stop_hooks : ℤ → Hooks → ℤ
run_stop_hooks ret [] = ret
run_stop_hooks ret (none ∷ hooks) = run_stop_hooks ret hooks
run_stop_hooks ret (some code ∷ hooks) =
    run_stop_hooks (if is_negative code then minus_one else ret) hooks

pub record StartAnswers : Type 0 where
  pub pre_clone : Hooks
  pub mapped : Bool
  pub paired : Bool
  pub clone_pid : ℤ
  pub post_clone_early : Hooks
  pub stop_written : Bool

-- The ways out of compartment_start
unfoldable pub start_error_pre_clone : ℤ → Compartment → ℤ × Compartment
start_error_pre_clone ret c = (ret, set_state (cleanup c false) stopped)

unfoldable pub start_error_post_clone : Bool → ℤ → Compartment → ℤ × Compartment
start_error_post_clone stop_written ret c =
    ((if ret ==ℤ pos 0 then pos 1 else ret), (if stop_written then c else kill c))

-- The part of compartment_start behind the clone
unfoldable pub start_cloned : StartAnswers → Compartment → ℤ × Compartment
unfolding start_error_post_clone
start_cloned a c =
    let c1 = record c {
      pid_early = a.clone_pid;
      early_io = c.early_io + 1;
      sigchld_early = c.sigchld_early + 1;
    } in
    let ret = run_hooks (pos 0) a.post_clone_early in
    if is_negative ret then start_error_post_clone a.stop_written ret c1 else (pos 0, c1)

-- compartment_start
unfoldable pub start : StartAnswers → Compartment → ℤ × Compartment
unfolding start_error_pre_clone start_cloned
start a c =
    let c1 = set_state c starting in
    let ret = run_hooks (pos 0) a.pre_clone in
    if is_negative ret
    then start_error_pre_clone ret c1
    else if not a.mapped || not a.paired
    then start_error_pre_clone ret c1
    else (let c2 = if c1.setup_mode then set_state c1 setup else c1 in
        if is_negative a.clone_pid then start_error_pre_clone ret c2 else start_cloned a c2)

pub record EarlyAnswers : Type 0 where
  pub excepted : Bool
  pub message : Option (List ℕ)
  pub post_clone : Hooks
  pub go_written : Bool
  pub stop_written : Bool

-- COMPARTMENT_START_SYNC_MSG_ERROR
abbrev pub msg_error : ℕ
msg_error = 4

abbrev pub starts_with_error : List ℕ → Bool
starts_with_error [] = false
starts_with_error (b ∷ _) = b == msg_error

unfoldable pub early_error_pre_clone : Compartment → Compartment
early_error_pre_clone c = kill_early_child (record c { early_io = c.early_io - 1 })

-- compartment_start_post_clone_early_cb; the C library's atoi is a parameter.
unfoldable pub start_post_clone_early_cb : (List ℕ → ℤ) → EarlyAnswers → Compartment → Compartment
unfolding early_error_pre_clone
start_post_clone_early_cb atoi a c =
    if a.excepted then early_error_pre_clone c else elim a.message [
      | none ↦ early_error_pre_clone c
      | some pid_msg ↦
          if starts_with_error pid_msg
          then early_error_pre_clone c
          else (let c1 = record c {
            early_io = c.early_io - 1;
            pid = atoi pid_msg;
            post_io = c.post_io + 1;
            sigchld = c.sigchld + 1;
          } in
              if is_negative (run_hooks (pos 0) a.post_clone) || not a.go_written
              then (if a.stop_written then c1 else kill c1)
              else c1)
    ]

pub record PostAnswers : Type 0 where
  pub excepted : Bool
  pub message : Option ℕ
  pub pre_exec : Hooks
  pub go_written : Bool
  pub post_exec : Hooks
  pub has_service : Bool
  pub stop_written : Bool

unfoldable pub post_error : Compartment → Compartment
post_error c = kill (record c { post_io = c.post_io - 1 })

-- The part of compartment_start_post_clone_cb behind the hooks of start_pre_exec
unfoldable pub post_exec : PostAnswers → Compartment → Compartment
unfolding post_error
post_exec a c =
    let c1 =
      if in_state c.state setup then c else record (set_state c booting) { start_timer = true } in
    let c2 = free_key c1 in
    if not a.go_written || is_negative (run_hooks (pos 0) a.post_exec)
    then post_error c2
    else record (if a.has_service then c2 else set_state c2 running) { post_io = c2.post_io - 1 }

-- compartment_start_post_clone_cb
unfoldable pub start_post_clone_cb : PostAnswers → Compartment → Compartment
unfolding post_error post_exec
start_post_clone_cb a c = elim (if a.excepted then some msg_error else a.message) [
  | none ↦ record c { post_io = c.post_io - 1 }
  | some msg ↦
      if msg == msg_error
      then c
      else if is_negative (run_hooks (pos 0) a.pre_exec)
      then (if a.stop_written then record c { post_io = c.post_io - 1 } else post_error c)
      else post_exec a c
]

-- compartment_stop
unfoldable pub stop : Hooks → Compartment → ℤ × Compartment
stop hooks c =
    let c1 = record c { stop_timer = true } in
    let c2 = if in_state c1.state setup then set_setup_mode c1 false else c1 in
    (run_stop_hooks (pos 0) hooks, set_state c2 shutting_down)
