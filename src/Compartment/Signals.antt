-- ===== src/Compartment/Signals.antt =====
-- The reaping of children on SIGCHLD (daemon/compartment.c). What waitpid answers is given with
-- each operation.
pub mod Reaping
use cml.Prelude.{
  ℕ, ◌-◌, ℤ, pos, negsuc, ltb, ◌==◌, ◌==ℤ◌, Bool, true, false, ◌&&◌, Option, none, some, List, [],
  ◌∷◌, ◌++◌, if◌then◌else◌, not,
}
use cml.Compartment.State.{State, stopped, rebooting}
use cml.Compartment.Life.{Compartment, set_state, cleanup}

-- compartment_wait_for_child
unfoldable pub wait_for_child : Compartment → ℤ → Compartment
wait_for_child c child = record c { helpers = c.helpers ++ child ∷ [] }

-- How a process ended, for the macros WIFEXITED and WIFSIGNALED.
pub data Status : Type 0 where
  exited : ℕ → Status
  signaled : ℕ → Status
  changed : Status

-- The answers of waitpid to the three questions of a handler.
pub record Waits : Type 0 where
  pub group : ℤ
  pub group_status : Status
  pub own : ℤ
  pub own_status : Status
  pub helper : ℤ → ℤ

-- Which of the two handlers runs.
pub data Handler : Type 0 where
  main early : Handler

abbrev pub remove_signal : Handler → Compartment → Compartment
remove_signal main c = record c { sigchld = c.sigchld - 1 }
remove_signal early c = record c { sigchld_early = c.sigchld_early - 1 }

-- The helper children that waitpid does not answer for.
unfoldable pub still_active : (ℤ → ℤ) → List ℤ → List ℤ
still_active answer [] = []
still_active answer (child ∷ children) =
    let rest = still_active answer children in if answer child ==ℤ child then rest else child ∷ rest

-- compartment_sigchld_handle_helpers
unfoldable pub handle_helpers : Handler → (ℤ → ℤ) → Compartment → Compartment
unfolding still_active
handle_helpers sig answer c =
    let c1 = record c { helpers = still_active answer c.helpers } in
    elim c1.helpers [
      | _ ∷ _ ↦ c1
      | [] ↦
          if c1.is_doing_cleanup
          then (let c2 = record (remove_signal sig c1) { is_doing_cleanup = false } in
              record (set_state c2 (if c2.is_rebooting then rebooting else stopped)) {
                is_rebooting = false;
              })
          else c1
    ]

abbrev pub is_positive : ℤ → Bool
is_positive (pos n) = ltb 0 n
is_positive (negsuc n) = false

abbrev pub sighup : ℕ
sighup = 1

abbrev pub begin_cleanup : Compartment → Bool → Compartment
begin_cleanup c reboots = record (cleanup c reboots) { is_doing_cleanup = true }

-- The end of the init process, found in its group; `none` is a return of the handler.
unfoldable pub reap_init : Status → Compartment → Option Compartment
reap_init (exited n) c = some (begin_cleanup (record c { exit_status = n }) false)
reap_init (signaled n) c = some (
    if n == sighup
    then begin_cleanup (record c { is_rebooting = true }) true
    else begin_cleanup c false)
reap_init changed c = none

-- Its end before it has a group.
unfoldable pub reap_before_group : Status → Compartment → Option Compartment
reap_before_group (exited n) c = some (begin_cleanup (record c { exit_status = n }) false)
reap_before_group (signaled n) c = some (begin_cleanup c false)
reap_before_group changed c = none

-- What `status` holds: waitpid writes it only when it answers with a process.
abbrev pub status_after : Status → ℤ → Status → Status
status_after old answer new = if is_positive answer then new else old

-- The second question of compartment_sigchld_cb, about the pid as it is by then, and the helpers
unfoldable pub reap_rest : Waits → Status → Compartment → Compartment
unfolding reap_before_group handle_helpers
reap_rest w status c =
    elim (if w.own ==ℤ c.pid
      then reap_before_group (status_after status w.own w.own_status) c
      else some c) [ none ↦ c | some c1 ↦ handle_helpers main w.helper c1 ]

-- compartment_sigchld_cb
unfoldable pub sigchld_cb : Waits → Compartment → Compartment
unfolding reap_init reap_rest
sigchld_cb w c =
    if is_positive c.pid
    then (let status = status_after (exited 0) w.group w.group_status in
        elim (if w.group ==ℤ c.pid then reap_init status c else some c) [
          | none ↦ c
          | some c1 ↦ reap_rest w status c1
        ])
    else reap_rest w (exited 0) c

abbrev pub has_failed : Status → Bool
has_failed (exited n) = ltb 0 n
has_failed (signaled n) = true
has_failed changed = false

-- compartment_sigchld_early_cb. `none`: the signal handler that was freed is freed again.
unfoldable pub sigchld_early_cb : Waits → Compartment → Option Compartment
unfolding handle_helpers
sigchld_early_cb w c =
    if not (c.pid_early ==ℤ pos 0) && is_positive w.own
    then (let c1 = remove_signal early c in
        let c2 = if has_failed w.own_status then set_state c1 stopped else c1 in
        let c3 = handle_helpers early w.helper (record c2 { pid_early = negsuc 0 }) in
        if c.is_doing_cleanup && not c3.is_doing_cleanup then none else some c3)
    else some (handle_helpers early w.helper c)
