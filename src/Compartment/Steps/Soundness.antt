-- ===== src/Compartment/Steps/Soundness.antt =====
-- The operations of a compartment keep what every run keeps (daemon/compartment.c).
use cml.Prelude.{
  ℕ, ℤ, pos, minus_one, negsuc, ◌+◌, ◌-◌, ◌≡◌, refl, ◌≢◌, Bool, true, false, not, is_negative, ltb,
  neg, zero, suc, some, List, ◌∷◌, if◌then◌else◌, arith, Bool-cases, inl, inr, ◌||◌,
}
use cml.Compartment.State.{State, stopped, starting, setup, in_state}
use cml.Compartment.Life.{
  Compartment, Deed, killed, cleaned, key_told, cleanup, is_kept_from, set_state, set_key, has_key,
  free_key, kill, kill_early_child,
}
use cml.Compartment.Start.{
  StartAnswers, start, start_error_pre_clone, start_cloned, start_error_post_clone,
  early_error_pre_clone, run_hooks,
}
use cml.Compartment.Steps.{Aimed, Sound}

-- One deed more
Sound-deed :
    (c : Compartment) (d : Deed) → Aimed d → Sound c → Sound (record c { deeds = d ∷ c.deeds })
Sound-deed c d a h = record {
  chain = h.chain;
  previous = h.previous;
  safe = (a, h.safe);
  awaited = h.awaited;
  reboots = h.reboots;
}

-- One handler more
pub Sound-more : (c : Compartment) → Sound c → Sound (record c { sigchld = c.sigchld + 1 })
Sound-more c h = record {
  chain = h.chain;
  previous = h.previous;
  safe = h.safe;
  awaited = λ e. omega arith;
  reboots = h.reboots;
}

pub set_state-Sound : (c : Compartment) (s : State) → Sound c → Sound (set_state c s)
unfolding set_state
set_state-Sound c s h = elim (Bool-cases (in_state c.state s)) [
  | inl e ↦ rw e h
  | inr e ↦ elim (Bool-cases (is_kept_from c.state s)) [
    | inl f ↦ rw (e, f) h
    | inr f ↦
        rw (e, f)
          (record {
            chain = (rw (e, f) refl, h.chain);
            previous = refl;
            safe = h.safe;
            awaited = h.awaited;
            reboots = h.reboots;
          })
  ]
]

pub set_key-Sound : (c : Compartment) (key : List ℕ) → Sound c → Sound (set_key c key)
unfolding set_key free_key
set_key-Sound c key h = elim (Bool-cases (has_key c key)) [
  | inl e ↦ rw e h
  | inr e ↦ rw e (Sound-deed (record (free_key c) { key = some key }) key_told tt h)
]

neg_ne : (n : ℕ) → ltb 1 n ≡ true → neg n ≢ minus_one
neg_ne zero h = cc
neg_ne (suc zero) h = cc
neg_ne (suc (suc n)) h = ground arith

early_pid-Sound : (c : Compartment) (a : ℤ) → c.pid_early ≡ a → Sound c → Sound (kill_early_child c)
unfolding kill_early_child
early_pid-Sound c (negsuc n) e h = rw e h
early_pid-Sound c (pos n) e h = elim (Bool-cases (ltb 1 n)) [
  | inl f ↦ rw (e, f) (Sound-deed c (killed (neg n)) (neg_ne n f) h)
  | inr f ↦ rw (e, f) h
]

natural_ne : (a : ℤ) → is_negative a ≡ false → a ≢ minus_one
natural_ne (pos n) h = cc
natural_ne (negsuc n) h = cc

pub kill-Sound : (c : Compartment) → Sound c → Sound (kill c)
unfolding kill
kill-Sound c h =
    let d = kill_early_child c in
    let k = early_pid-Sound c c.pid_early refl h in
    elim (Bool-cases (in_state c.state stopped)) [
      | inl e ↦ rw e h
      | inr e ↦ elim (Bool-cases (is_negative d.pid)) [
        | inl f ↦ rw (e, f) k
        | inr f ↦ rw (e, f) (Sound-deed d (killed d.pid) (natural_ne d.pid f) k)
      ]
    ]

pub cleanup-Sound : (c : Compartment) (b : Bool) → Sound c → Sound (cleanup c b)
unfolding cleanup
cleanup-Sound c b h = Sound-deed c (cleaned b) tt h

-- An error that is told to the child, or else the child is killed.
pub told-Sound : (c : Compartment) (b : Bool) → Sound c → Sound (if b then c else kill c)
told-Sound c true h = h
told-Sound c false h = kill-Sound c h

aborted-Sound : (ret : ℤ) (c : Compartment) → Sound c → Sound (start_error_pre_clone ret c).1
unfolding start_error_pre_clone
aborted-Sound ret c h = set_state-Sound (cleanup c false) stopped (cleanup-Sound c false h)

cloned-Sound : (a : StartAnswers) (c : Compartment) → Sound c → Sound (start_cloned a c).1
unfolding start_cloned start_error_post_clone
cloned-Sound a c h =
    let d = record c {
      pid_early = a.clone_pid;
      early_io = c.early_io + 1;
      sigchld_early = c.sigchld_early + 1;
    } in
    elim (Bool-cases (is_negative (run_hooks (pos 0) a.post_clone_early))) [
      | inl e ↦ rw e (told-Sound d a.stop_written h)
      | inr e ↦ rw e h
    ]

in_setup-Sound : (c : Compartment) (b : Bool) → Sound c → Sound (if b then set_state c setup else c)
in_setup-Sound c true h = set_state-Sound c setup h
in_setup-Sound c false h = h

pub start-Sound : (a : StartAnswers) (c : Compartment) → Sound c → Sound (start a c).1
unfolding start
start-Sound a c h =
    let ret = run_hooks (pos 0) a.pre_clone in
    let c1 = set_state c starting in
    let h1 = set_state-Sound c starting h in
    let c2 = if c1.setup_mode then set_state c1 setup else c1 in
    let h2 = in_setup-Sound c1 c1.setup_mode h1 in
    elim (Bool-cases (is_negative ret)) [
      | inl e ↦ rw e (aborted-Sound ret c1 h1)
      | inr e ↦ elim (Bool-cases (not a.mapped || not a.paired)) [
        | inl f ↦ rw (e, f) (aborted-Sound ret c1 h1)
        | inr f ↦ elim (Bool-cases (is_negative a.clone_pid)) [
          | inl g ↦ rw (e, f, g) (aborted-Sound ret c2 h2)
          | inr g ↦ rw (e, f, g) (cloned-Sound a c2 h2)
        ]
      ]
    ]

pub unmessaged-Sound : (c : Compartment) → Sound c → Sound (early_error_pre_clone c)
unfolding early_error_pre_clone
unmessaged-Sound c h = early_pid-Sound (record c { early_io = c.early_io - 1 }) c.pid_early refl h
