-- ===== src/Compartment/Signals/Reaping.antt =====
-- What the SIGCHLD handlers reap, and the states they lead to (daemon/compartment.c).
use cml.Prelude.{
  ◌-◌, ℤ, pos, negsuc, minus_one, ◌==◌, ◌==ℤ◌, ==ℤ_iff, ◌≡◌, refl, ◌∙◌, ◌↔◌, ◌⊎◌, inl, inr, Bool,
  true, false, ◌||◌, none, some, List, [], ◌∷◌, if◌then◌else◌, arith, subst, Bool-cases,
}
use cml.Compartment.State.{stopped, rebooting}
use cml.Compartment.Life.{Compartment, set_state, cleanup}
use cml.Compartment.Signals.{
  Waits, Status, exited, signaled, changed, main, early, still_active, handle_helpers,
  begin_cleanup, reap_init, reap_before_group, reap_rest, sigchld_cb, sigchld_early_cb, is_positive,
  sighup, has_failed, remove_signal,
}

-- The compartment behind the reaping of its init process: down if no helper is left over, and
-- cleaning up in its old state otherwise.
pub record Down (reboots : Bool) (c u : Compartment) : Type 0 where
  pub state : u.state ≡ (if reboots then rebooting else stopped)
  pub is_doing_cleanup : u.is_doing_cleanup ≡ false
  pub is_rebooting : u.is_rebooting ≡ false
  pub sigchld : u.sigchld ≡ c.sigchld - 1

pub record Pending (c u : Compartment) : Type 0 where
  pub state : u.state ≡ c.state
  pub is_doing_cleanup : u.is_doing_cleanup ≡ true
  pub sigchld : u.sigchld ≡ c.sigchld

-- Neither a process nor a timer is left.
pub record Cleared (u : Compartment) : Type 0 where
  pub pid : u.pid ≡ minus_one
  pub pid_early : u.pid_early ≡ minus_one
  pub start_timer : u.start_timer ≡ false
  pub stop_timer : u.stop_timer ≡ false

abbrev pub Settled : Bool → List ℤ → Compartment → Compartment → Type 0
Settled reboots [] c u = Down reboots c u
Settled reboots (_ ∷ _) c u = Pending c u

abbrev pub is_reboot : Status → Bool
is_reboot (exited n) = false
is_reboot (signaled n) = n == sighup
is_reboot changed = false

abbrev pub has_ended : Status → Bool
has_ended changed = false
has_ended _ = true

-- The compartment between the reaping of its init process and the look at its helpers.
record Reaped (reboots : Bool) (c u : Compartment) : Type 0 where
  cleared : Cleared u
  state : u.state ≡ c.state
  helpers : u.helpers ≡ c.helpers
  sigchld : u.sigchld ≡ c.sigchld
  is_doing_cleanup : u.is_doing_cleanup ≡ true
  is_rebooting : u.is_rebooting ≡ reboots

helpers-Down :
    (answer : ℤ → ℤ) (c u : Compartment) (b : Bool)
    → Reaped b c u
    → still_active answer c.helpers ≡ []
    → Down b c (handle_helpers main answer u)
unfolding handle_helpers set_state
helpers-Down answer c u b r h =
    let h1 = r.helpers in
    let h2 = r.is_doing_cleanup in
    let h3 = r.is_rebooting in
    let h4 = r.sigchld in
    record {
      state = ground arith;
      is_doing_cleanup = ground arith;
      is_rebooting = ground arith;
      sigchld = ground arith;
    }

helpers-Pending :
    (answer : ℤ → ℤ) (c u : Compartment) (b : Bool) (x : ℤ) (xs : List ℤ)
    → Reaped b c u
    → still_active answer c.helpers ≡ x ∷ xs
    → Pending c (handle_helpers main answer u)
unfolding handle_helpers
helpers-Pending answer c u b x xs r h =
    let h1 = r.helpers in
    let h2 = r.is_doing_cleanup in
    let h3 = r.state in
    let h4 = r.sigchld in
    record { state = ground arith; is_doing_cleanup = ground arith; sigchld = ground arith }

helpers-Cleared :
    (answer : ℤ → ℤ) (u : Compartment) → Cleared u → Cleared (handle_helpers main answer u)
unfolding handle_helpers set_state
helpers-Cleared answer u r =
    let h1 = r.pid in
    let h2 = r.pid_early in
    let h3 = r.start_timer in
    let h4 = r.stop_timer in
    record {
      pid = ground arith;
      pid_early = ground arith;
      start_timer = ground arith;
      stop_timer = ground arith;
    }

helpers-Settled :
    (answer : ℤ → ℤ) (c u : Compartment) (b : Bool) (l : List ℤ)
    → Reaped b c u
    → still_active answer c.helpers ≡ l
    → Settled b l c (handle_helpers main answer u)
helpers-Settled answer c u b [] r h = helpers-Down answer c u b r h
helpers-Settled answer c u b (x ∷ xs) r h = helpers-Pending answer c u b x xs r h

Reaped-begin :
    (c d : Compartment) (told : Bool)
    → d.state ≡ c.state
    → d.helpers ≡ c.helpers
    → d.sigchld ≡ c.sigchld
    → Reaped d.is_rebooting c (begin_cleanup d told)
unfolding cleanup
Reaped-begin c d told h1 h2 h3 = record {
  cleared = record { pid = refl; pid_early = refl; start_timer = refl; stop_timer = refl };
  state = h1;
  helpers = h2;
  sigchld = h3;
  is_doing_cleanup = refl;
  is_rebooting = refl;
}

Reaped-init :
    (s : Status) (c : Compartment)
    → has_ended s ≡ true
    → (u : Compartment) × (reap_init s c ≡ some u) × Reaped (is_reboot s || c.is_rebooting) c u
unfolding reap_init
Reaped-init (exited n) c h =
    (_, refl, Reaped-begin c (record c { exit_status = n }) false refl refl refl)
Reaped-init (signaled n) c h = elim (Bool-cases (n == sighup)) [
  | inl e ↦ rw e (_, refl, Reaped-begin c (record c { is_rebooting = true }) true refl refl refl)
  | inr e ↦ rw e (_, refl, Reaped-begin c c false refl refl refl)
]
Reaped-init changed c h = cc

Reaped-before :
    (s : Status) (b : Bool) (c u : Compartment)
    → has_ended s ≡ true
    → Reaped b c u
    → (v : Compartment) × (reap_before_group s u ≡ some v) × Reaped b c v
unfolding reap_before_group
Reaped-before (exited n) b c u h r = (
  _,
  refl,
  subst (λ b. Reaped b c (begin_cleanup (record u { exit_status = n }) false)) r.is_rebooting
      (Reaped-begin c (record u { exit_status = n }) false r.state r.helpers r.sigchld),
)
Reaped-before (signaled n) b c u h r = (
  _,
  refl,
  subst (λ b. Reaped b c (begin_cleanup u false)) r.is_rebooting
      (Reaped-begin c u false r.state r.helpers r.sigchld),
)
Reaped-before changed b c u h r = cc

==ℤ_refl : (a : ℤ) → (a ==ℤ a) ≡ true
==ℤ_refl a = (==ℤ_iff a a).1 refl

minus_one-negative : (a : ℤ) → (a ==ℤ minus_one) ≡ true → is_positive a ≡ false
minus_one-negative (pos n) h = cc
minus_one-negative (negsuc n) h = refl

reap_rest-path :
    (w : Waits) (s : Status) (u v : Compartment)
    → u.pid ≡ minus_one
    → reap_before_group s u ≡ some v
    → (reap_rest w s u ≡ handle_helpers main w.helper v)
      ⊎ (reap_rest w s u ≡ handle_helpers main w.helper u)
unfolding reap_rest
reap_rest-path w s u v h1 h2 = elim (Bool-cases (w.own ==ℤ minus_one)) [
  | inl k ↦
      inl
        (let own : (w.own ==ℤ u.pid) ≡ true = rw h1 k in ground (arith, minus_one-negative w.own k))
  | inr k ↦ inr (let own : (w.own ==ℤ u.pid) ≡ false = rw h1 k in ground arith)
]

sigchld_cb-path :
    (w : Waits) (c u : Compartment)
    → is_positive c.pid ≡ true
    → w.group ≡ c.pid
    → reap_init w.group_status c ≡ some u
    → sigchld_cb w c ≡ reap_rest w w.group_status u
unfolding sigchld_cb
sigchld_cb-path w c u h1 h2 h3 = ground (arith, ==ℤ_refl c.pid)

sigchld_cb-main :
    (w : Waits) (c : Compartment)
    → is_positive c.pid ≡ true
    → w.group ≡ c.pid
    → has_ended w.group_status ≡ true
    → (u : Compartment) × (sigchld_cb w c ≡ handle_helpers main w.helper u)
      × Reaped (is_reboot w.group_status || c.is_rebooting) c u
sigchld_cb-main w c h1 h2 h3 =
    let (u, e, r) = Reaped-init w.group_status c h3 in
    let (v, f, q) = Reaped-before w.group_status _ c u h3 r in
    let p = sigchld_cb-path w c u h1 h2 e in
    elim (reap_rest-path w w.group_status u v r.cleared.pid f) [
      | inl k ↦ (v, p ∙ k, q)
      | inr k ↦ (u, p ∙ k, r)
    ]

-- When the init process is reaped by its group with an exit or a signal, no pid and no timer is left;
-- if no helper child is left either, the compartment is rebooting or stopped, by SIGHUP or a reboot
-- that was due, with one handler less and no clean-up going on, and otherwise it keeps its state and
-- handlers and the clean-up is going on.
pub sigchld_cb-reaps :
    (w : Waits) (c : Compartment)
    → is_positive c.pid ≡ true
    → w.group ≡ c.pid
    → has_ended w.group_status ≡ true
    → Cleared (sigchld_cb w c)
      × Settled
          (is_reboot w.group_status || c.is_rebooting)
          (still_active w.helper c.helpers)
          c
          (sigchld_cb w c)
sigchld_cb-reaps w c h1 h2 h3 =
    let (u, e, r) = sigchld_cb-main w c h1 h2 h3 in
    rw e (helpers-Cleared w.helper u r.cleared, helpers-Settled w.helper c u _ _ r refl)

-- The handler of the early child is freed a second time exactly when there is an early pid, waitpid
-- answers with a child, a clean-up is going on and no helper child is left.
pub sigchld_early_cb-none :
    (w : Waits) (c : Compartment)
    → (sigchld_early_cb w c ≡ none) ↔ (
        ((c.pid_early ==ℤ pos 0) ≡ false)
        × (is_positive w.own ≡ true)
        × (c.is_doing_cleanup ≡ true)
        × (still_active w.helper c.helpers ≡ []))
unfolding sigchld_early_cb handle_helpers set_state
sigchld_early_cb-none w c = ground arith

helpers-idle :
    (answer : ℤ → ℤ) (c : Compartment)
    → c.is_doing_cleanup ≡ false
    → handle_helpers early answer c ≡ record c { helpers = still_active answer c.helpers }
unfolding handle_helpers
helpers-idle answer c h = ground arith

set_state-stopped :
    (c : Compartment)
    → ((set_state c stopped).state ≡ stopped)
      × ((set_state c stopped).deeds ≡ c.deeds)
      × ((set_state c stopped).is_doing_cleanup ≡ c.is_doing_cleanup)
unfolding set_state
set_state-stopped c = ground arith

-- An early child that is reaped with a failure, while no clean-up is going on, leaves the compartment
-- stopped and without an early child, and the modules' clean-up is not called and nothing is killed.
pub early_failure :
    (w : Waits) (c : Compartment)
    → (c.pid_early ==ℤ pos 0) ≡ false
    → is_positive w.own ≡ true
    → has_failed w.own_status ≡ true
    → c.is_doing_cleanup ≡ false
    → (u : Compartment) × (sigchld_early_cb w c ≡ some u)
      × (u.state ≡ stopped)
      × (u.pid_early ≡ minus_one)
      × (u.deeds ≡ c.deeds)
unfolding sigchld_early_cb
early_failure w c h1 h2 h3 h4 =
    let (k1, k2, k3) = set_state-stopped (remove_signal early c) in
    let d = record (set_state (remove_signal early c) stopped) { pid_early = minus_one } in
    let e : handle_helpers early w.helper d
        ≡ record d { helpers = still_active w.helper d.helpers } =
      helpers-idle w.helper d (k3 ∙ h4) in
    (handle_helpers early w.helper d, (rw (h1, h2, h3, h4) refl), rw e k1, rw e refl, rw e k2)
