-- ===== src/Compartment/Steps/Callbacks.antt =====
-- The callbacks of a compartment keep what every run keeps (daemon/compartment.c).
use cml.Prelude.{
  ℕ, ℤ, pos, minus_one, ◌+◌, ◌-◌, ◌≤◌, ◌≡◌, refl, Bool, true, false, ◌&&◌, not, is_negative, Option,
  none, some, List, [], ◌∷◌, if◌then◌else◌, arith, All, Bool-cases, Option-cases, ◌==◌, ◌==ℤ◌, inl,
  inr, subst, ◌⊎◌, ◌||◌,
}
use cml.Compartment.State.{State, stopped, booting, running, shutting_down, setup, in_state}
use cml.Compartment.Life.{
  Compartment, new_compartment, cleanup, is_kept_from, set_state, set_setup_mode, free_key,
  start_timeout_cb, stop_timeout_cb,
}
use cml.Compartment.Start.{
  EarlyAnswers, PostAnswers, Hooks, post_error, post_exec, starts_with_error, msg_error, run_hooks,
  start_post_clone_early_cb, start_post_clone_cb, stop,
}
use cml.Compartment.Signals.{
  Waits, Status, exited, signaled, changed, Handler, main, early, remove_signal, still_active,
  handle_helpers, reap_init, reap_before_group, begin_cleanup, reap_rest, is_positive, status_after,
  sighup, has_failed, wait_for_child, sigchld_cb, sigchld_early_cb,
}
use cml.Compartment.Steps.{
  Step, set_to, set_mode, key_set, key_freed, child_added, started, stopping, kill_asked,
  early_message, message, start_timeout, stop_timeout, child_signal, early_signal, Reach, created,
  next, Chain, newest, Aimed, SoundParts, Sound,
}
use cml.Compartment.Steps.Soundness.{
  Sound-more, set_state-Sound, set_key-Sound, kill-Sound, told-Sound, start-Sound, unmessaged-Sound,
}

early_message-Sound :
    (atoi : List ℕ → ℤ) (e : EarlyAnswers) (c : Compartment)
    → Sound c
    → Sound (start_post_clone_early_cb atoi e c)
unfolding start_post_clone_early_cb
early_message-Sound atoi e c h = elim (Bool-cases e.excepted) [
  | inl k ↦ rw k (unmessaged-Sound c h)
  | inr k ↦ elim (Option-cases e.message) [
    | inl m ↦ rw (k, m) (unmessaged-Sound c h)
    | inr (text, m) ↦ elim (Bool-cases (starts_with_error text)) [
      | inl f ↦ rw (k, m, f) (unmessaged-Sound c h)
      | inr f ↦
          let d = record c {
            early_io = c.early_io - 1;
            pid = atoi text;
            post_io = c.post_io + 1;
            sigchld = c.sigchld + 1;
          } in
          let hd = Sound-more c h in
          elim (Bool-cases (is_negative (run_hooks (pos 0) e.post_clone) || not e.go_written)) [
            | inl g ↦ rw (k, m, f, g) (told-Sound d e.stop_written hd)
            | inr g ↦ rw (k, m, f, g) hd
          ]
    ]
  ]
]

post_error-Sound : (c : Compartment) → Sound c → Sound (post_error c)
unfolding post_error
post_error-Sound c h = kill-Sound (record c { post_io = c.post_io - 1 }) h

booting-Sound :
    (c : Compartment) (b : Bool)
    → Sound c
    → Sound (if b then c else record (set_state c booting) { start_timer = true })
booting-Sound c true h = h
booting-Sound c false h = set_state-Sound c booting h

running-Sound :
    (c : Compartment) (b : Bool) → Sound c → Sound (if b then c else set_state c running)
running-Sound c true h = h
running-Sound c false h = set_state-Sound c running h

post_exec-Sound : (p : PostAnswers) (c : Compartment) → Sound c → Sound (post_exec p c)
unfolding post_exec free_key
post_exec-Sound p c h =
    let c1 =
      if in_state c.state setup then c else record (set_state c booting) { start_timer = true } in
    let h1 = booting-Sound c (in_state c.state setup) h in
    elim (Bool-cases (not p.go_written || is_negative (run_hooks (pos 0) p.post_exec))) [
      | inl k ↦ rw k (post_error-Sound (free_key c1) h1)
      | inr k ↦ rw k (running-Sound (free_key c1) p.has_service h1)
    ]

answered-Sound :
    (p : PostAnswers) (c : Compartment)
    → Sound c
    → Sound (if p.stop_written then record c { post_io = c.post_io - 1 } else post_error c)
answered-Sound p c h = elim (Bool-cases p.stop_written) [
  | inl k ↦ rw k h
  | inr k ↦ rw k (post_error-Sound c h)
]

message-Sound : (p : PostAnswers) (c : Compartment) → Sound c → Sound (start_post_clone_cb p c)
unfolding start_post_clone_cb
message-Sound p c h = elim (Option-cases (if p.excepted then some msg_error else p.message)) [
  | inl k ↦ rw (start_post_clone_cb, k) h
  | inr (msg, k) ↦ elim (Bool-cases (msg == msg_error)) [
    | inl f ↦ rw (start_post_clone_cb, k, f) h
    | inr f ↦ elim (Bool-cases (is_negative (run_hooks (pos 0) p.pre_exec))) [
      | inl g ↦ rw (start_post_clone_cb, k, f, g) (answered-Sound p c h)
      | inr g ↦ rw (start_post_clone_cb, k, f, g) (post_exec-Sound p c h)
    ]
  ]
]

stop-Sound : (hooks : Hooks) (c : Compartment) → Sound c → Sound (stop hooks c).1
unfolding stop set_setup_mode
stop-Sound hooks c h = elim (Bool-cases (in_state c.state setup)) [
  | inl k ↦
      rw k (set_state-Sound (record c { stop_timer = true; setup_mode = false }) shutting_down h)
  | inr k ↦ rw k (set_state-Sound (record c { stop_timer = true }) shutting_down h)
]

start_timeout-Sound : (c : Compartment) → Sound c → Sound (start_timeout_cb c)
unfolding start_timeout_cb
start_timeout-Sound c h = elim (Bool-cases (in_state c.state booting)) [
  | inl k ↦ rw k (kill-Sound c h)
  | inr k ↦ rw k h
]

stop_timeout-Sound : (c : Compartment) → Sound c → Sound (stop_timeout_cb c)
unfolding stop_timeout_cb
stop_timeout-Sound c h = kill-Sound c h

List-cases : (l : List ℤ) → (l ≡ []) ⊎ ((x : ℤ) × (xs : List ℤ) × (l ≡ x ∷ xs))
List-cases [] = inl refl
List-cases (x ∷ xs) = inr (x, xs, refl)

set_state-Told :
    (c : Compartment) (s : State)
    → Chain c.state c.past
    → c.prev_state ≡ newest c.past
    → Chain (set_state c s).state (set_state c s).past
      × ((set_state c s).prev_state ≡ newest (set_state c s).past)
unfolding set_state
set_state-Told c s h k = elim (Bool-cases (in_state c.state s)) [
  | inl e ↦ rw e (h, k)
  | inr e ↦ elim (Bool-cases (is_kept_from c.state s)) [
    | inl f ↦ rw (e, f) (h, k)
    | inr f ↦ rw (e, f) ((rw (e, f) refl, h), refl)
  ]
]

set_state-deeds :
    (c : Compartment) (s : State)
    → ((set_state c s).deeds ≡ c.deeds) × ((set_state c s).is_doing_cleanup ≡ c.is_doing_cleanup)
unfolding set_state
set_state-deeds c s = ground arith

-- The clean-up is over, and no reboot is due any more.
finished-Sound :
    (c : Compartment) (s : State)
    → Chain c.state c.past
    → c.prev_state ≡ newest c.past
    → All Aimed c.deeds
    → c.is_doing_cleanup ≡ false
    → Sound (record (set_state c s) { is_rebooting = false })
finished-Sound c s h1 h2 h3 h4 =
    let (k1, k2) = set_state-Told c s h1 h2 in
    let (e, f) = set_state-deeds c s in
    record { chain = k1; previous = k2; safe = rw e h3; awaited = λ g. cc; reboots = λ g. cc }

removed-Sound :
    (sig : Handler) (c : Compartment) (s : State)
    → Chain c.state c.past
    → c.prev_state ≡ newest c.past
    → All Aimed c.deeds
    → Sound (record (set_state (record (remove_signal sig c) { is_doing_cleanup = false }) s) {
      is_rebooting = false;
    })
removed-Sound main c s h1 h2 h3 =
    finished-Sound (record (remove_signal main c) { is_doing_cleanup = false }) s h1 h2 h3 refl
removed-Sound early c s h1 h2 h3 =
    finished-Sound (record (remove_signal early c) { is_doing_cleanup = false }) s h1 h2 h3 refl

helpers-Sound :
    (sig : Handler) (answer : ℤ → ℤ) (c : Compartment)
    → Sound c
    → Sound (handle_helpers sig answer c)
unfolding handle_helpers
helpers-Sound sig answer c h = elim (List-cases (still_active answer c.helpers)) [
  | inr (x, xs, e) ↦ rw (handle_helpers, e) h
  | inl e ↦ elim (Bool-cases c.is_doing_cleanup) [
    | inr f ↦
        rw (handle_helpers, e, f)
          (subst (λ b. SoundParts c.state c.prev_state c.past c.deeds b c.sigchld c.is_rebooting) f
            h)
    | inl f ↦
        rw (handle_helpers, e, f)
          (removed-Sound sig
            (record c { helpers = still_active answer c.helpers; is_doing_cleanup = true }) _
            h.chain h.previous h.safe)
  ]
]

begin_cleanup-Sound :
    (c : Compartment) (told : Bool)
    → Chain c.state c.past
    → c.prev_state ≡ newest c.past
    → All Aimed c.deeds
    → 1 ≤ c.sigchld
    → Sound (begin_cleanup c told)
unfolding cleanup
begin_cleanup-Sound c told h1 h2 h3 k = record {
  chain = h1;
  previous = h2;
  safe = (tt, h3);
  awaited = λ _. k;
  reboots = λ _. refl;
}

abbrev Awaited : Option Compartment → Type 0
Awaited none = Unit
Awaited (some u) = Sound u × (1 ≤ u.sigchld)

-- Behind a reaping that does not return, the compartment is sound and has its handler.
reap_init-Sound :
    (s : Status) (c u : Compartment)
    → Sound c
    → 1 ≤ c.sigchld
    → reap_init s c ≡ some u
    → Sound u × (1 ≤ u.sigchld)
unfolding reap_init cleanup
reap_init-Sound (exited n) c u h k e =
    subst Awaited e
      (begin_cleanup-Sound (record c { exit_status = n }) false h.chain h.previous h.safe k, k)
reap_init-Sound (signaled n) c u h k e = elim (Bool-cases (n == sighup)) [
  | inl f ↦ subst Awaited e (
      rw f (
        begin_cleanup-Sound (record c { is_rebooting = true }) true h.chain h.previous h.safe k,
        k,
      ))
  | inr f ↦ subst Awaited e (rw f (begin_cleanup-Sound c false h.chain h.previous h.safe k, k))
]
reap_init-Sound changed c u h k e = cc

reap_before-Sound :
    (s : Status) (c u : Compartment)
    → Sound c
    → 1 ≤ c.sigchld
    → reap_before_group s c ≡ some u
    → Sound u
unfolding reap_before_group cleanup
reap_before-Sound (exited n) c u h k e =
    (subst Awaited e
      (begin_cleanup-Sound (record c { exit_status = n }) false h.chain h.previous h.safe k, k)).0
reap_before-Sound (signaled n) c u h k e =
    (subst Awaited e (begin_cleanup-Sound c false h.chain h.previous h.safe k, k)).0
reap_before-Sound changed c u h k e = cc

reap_rest-Sound :
    (w : Waits) (s : Status) (c : Compartment) → Sound c → 1 ≤ c.sigchld → Sound (reap_rest w s c)
unfolding reap_rest
reap_rest-Sound w s c h k = elim (Bool-cases (w.own ==ℤ c.pid)) [
  | inr e ↦ rw (reap_rest, e) (helpers-Sound main w.helper c h)
  | inl e ↦ elim (Option-cases (reap_before_group (status_after s w.own w.own_status) c)) [
    | inl f ↦ rw (reap_rest, e, f) h
    | inr (u, f) ↦
        rw (reap_rest, e, f) (helpers-Sound main w.helper u (reap_before-Sound _ c u h k f))
  ]
]

child_signal-Sound :
    (w : Waits) (c : Compartment) → Sound c → 1 ≤ c.sigchld → Sound (sigchld_cb w c)
unfolding sigchld_cb
child_signal-Sound w c h k = elim (Bool-cases (is_positive c.pid)) [
  | inr e ↦ rw (sigchld_cb, e) (reap_rest-Sound w (exited 0) c h k)
  | inl e ↦
      let s = status_after (exited 0) w.group w.group_status in
      elim (Bool-cases (w.group ==ℤ c.pid)) [
        | inr f ↦ rw (sigchld_cb, e, f) (reap_rest-Sound w s c h k)
        | inl f ↦ elim (Option-cases (reap_init s c)) [
          | inl g ↦ rw (sigchld_cb, e, f, g) h
          | inr (u, g) ↦
              let (h1, k1) = reap_init-Sound s c u h k g in
              rw (sigchld_cb, e, f, g) (reap_rest-Sound w s u h1 k1)
        ]
      ]
]

failed-Sound : (c : Compartment) (b : Bool) → Sound c → Sound (if b then set_state c stopped else c)
failed-Sound c true h = set_state-Sound c stopped h
failed-Sound c false h = h

abbrev IsSound : Option Compartment → Type 0
IsSound none = Unit
IsSound (some u) = Sound u

early_signal-Sound : (w : Waits) (c : Compartment) → Sound c → IsSound (sigchld_early_cb w c)
unfolding sigchld_early_cb
early_signal-Sound w c h = elim (Bool-cases (not (c.pid_early ==ℤ pos 0) && is_positive w.own)) [
  | inr e ↦ rw (sigchld_early_cb, e) (helpers-Sound early w.helper c h)
  | inl e ↦
      let d =
        record (if has_failed w.own_status
          then set_state (remove_signal early c) stopped
          else remove_signal early c) { pid_early = minus_one } in
      let hd =
        helpers-Sound early w.helper d
          (failed-Sound (remove_signal early c) (has_failed w.own_status) h) in
      elim (Bool-cases
        (c.is_doing_cleanup && not (handle_helpers early w.helper d).is_doing_cleanup)) [
          | inl f ↦ rw (sigchld_early_cb, e, f) tt
          | inr f ↦ rw (sigchld_early_cb, e, f) hd
        ]
]

Step-Sound : (atoi : List ℕ → ℤ) {c u : Compartment} → Step atoi c u → Sound c → Sound u
unfolding set_setup_mode free_key wait_for_child
Step-Sound atoi (set_to c s) h = set_state-Sound c s h
Step-Sound atoi (set_mode c b) h = h
Step-Sound atoi (key_set c key) h = set_key-Sound c key h
Step-Sound atoi (key_freed c) h = h
Step-Sound atoi (child_added c pid) h = h
Step-Sound atoi (started c a) h = start-Sound a c h
Step-Sound atoi (stopping c hooks) h = stop-Sound hooks c h
Step-Sound atoi (kill_asked c) h = kill-Sound c h
Step-Sound atoi (early_message c e _) h = early_message-Sound atoi e c h
Step-Sound atoi (message c p _) h = message-Sound p c h
Step-Sound atoi (start_timeout c _) h = start_timeout-Sound c h
Step-Sound atoi (stop_timeout c _) h = stop_timeout-Sound c h
Step-Sound atoi (child_signal c w k) h = child_signal-Sound w c h k
Step-Sound atoi (early_signal c u w _ e) h = subst IsSound e (early_signal-Sound w c h)

created-Sound : Sound new_compartment
created-Sound = record {
  chain = refl;
  previous = refl;
  safe = tt;
  awaited = λ e. cc;
  reboots = λ e. cc;
}

-- Whatever happens to a new compartment, in whatever order: the observers were told of a chain of
-- states in which no state follows itself and neither booting nor running follows setup, and
-- prev_state is the newest of those left behind; no SIGKILL was sent to all processes (-1); a
-- clean-up that is not over has its SIGCHLD handler registered, and a reboot is only due while a
-- clean-up is not over.
pub Reach-Sound : (atoi : List ℕ → ℤ) {c : Compartment} → Reach atoi c → Sound c
Reach-Sound atoi created = created-Sound
Reach-Sound atoi (next r s) = Step-Sound atoi s (Reach-Sound atoi r)
