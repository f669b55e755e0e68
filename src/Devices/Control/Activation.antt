-- ===== src/Devices/Control/Activation.antt =====
-- Activation of a generated program: what is attached behind it, and what start_post_clone makes
-- of its result (daemon/c_cgroups_dev.c).
use cml.Prelude.{
  ℕ, zero, suc, minus_one, ◌+◌, ◌-◌, ◌≤◌, ◌≡◌, refl, true, false, ◌⊎◌, inl, inr, none, some, List,
  ◌==ℤ◌, if◌then◌else◌, arith, Bool-cases, is_negative, any,
}
use cml.Compartment.State.{State}
use cml.Devices.Bpf.{Insn, bpf_prog_generate}
use cml.Devices.Bpf.Machine.{Access, Machine, run}
use cml.Devices.Bpf.Enforces.{IsContext, covers, verdict, generate_enforces}
use cml.Devices.Control.{
  Kernel, loaded, Control, Outcome, Config, success, error_cgroups, load_loop, load_retries,
  prog_load, bpf_prog_activate, unless_failed, start_post_clone,
}

load_loop_bound :
    (k : Kernel) (retries attempt : ℕ) → (load_loop k retries attempt).1 ≤ attempt + retries + 1
unfolding load_loop
load_loop_bound k zero attempt = omega arith
load_loop_bound k (suc retries) attempt = ground (arith, load_loop_bound k retries (attempt + 1))

-- Whatever the kernel answers, a program is offered to it at most twelve times.
pub prog_load_bound : (k : Kernel) → (prog_load k).1 ≤ 12
unfolding prog_load
prog_load_bound k = ground (arith, load_loop_bound k load_retries 0)

-- An activation either succeeds, and then the new program is the container's and the cgroup was
-- opened and attached to, or it fails with a negative code and leaves everything as it was.
pub activate_outcome :
    (k : Kernel) (s : Control) (p : List Insn)
    → let (code, v) = bpf_prog_activate k s p in
      ((code ≡ success)
        × (v ≡ record s { bpf_prog = some p })
        × ((prog_load k).0 ≡ loaded)
        × (k.opens ≡ true)
        × (k.attaches ≡ true))
      ⊎ ((is_negative code ≡ true) × (v ≡ s))
unfolding bpf_prog_activate
activate_outcome k s p = ground arith

-- A container that started has the program of its rules, unless its cgroup could not be opened.
abbrev pub Guarded : (ℕ → Kernel) → Control → Type 0
Guarded env v =
    (v.bpf_prog ≡ some (bpf_prog_generate v.allowed)) ⊎ ((env (v.clock - 1)).opens ≡ false)

abbrev IfSuccess : (ℕ → Kernel) → Outcome → Type 0
IfSuccess env none = Unit
IfSuccess env (some (code, v)) = code ≡ success → Guarded env v

activation_success :
    (k : Kernel) (s : Control) (p : List Insn)
    → let (code, v) = bpf_prog_activate k s p in
      (if code ==ℤ minus_one then error_cgroups else success) ≡ success
      → ((v.bpf_prog ≡ some p) × (v.allowed ≡ s.allowed))
        ⊎ ((k.opens ≡ false) × (v.clock ≡ s.clock))
unfolding bpf_prog_activate
activation_success k s p = ground arith

module _ (env : ℕ → Kernel) where
  unless-IfSuccess :
      (r : Outcome) (rest : Control → Outcome)
      → ((v : Control) → IfSuccess env (rest v))
      → IfSuccess env (unless_failed r rest)
  unfolding unless_failed
  unless-IfSuccess none rest h = tt
  unless-IfSuccess (some (code, v)) rest h = elim (Bool-cases (is_negative code)) [
    | inl n ↦ rw n (λ e. cc)
    | inr n ↦ rw n (h v)
  ]

  activated :
      (s : Control)
      → IfSuccess env (
          let (code, v) =
            bpf_prog_activate
              (env s.clock)
              (record s { clock = s.clock + 1 })
              (bpf_prog_generate s.allowed) in
          some ((if code ==ℤ minus_one then error_cgroups else success), v))
  activated s e =
      let back : s.clock + 1 - 1 ≡ s.clock = omega arith in
      elim (activation_success (env s.clock) (record s { clock = s.clock + 1 }) _ e) [
        | inl (p, a) ↦ inl (rw a p)
        | inr (o, c) ↦ inr (rw (c, back) o)
      ]

  start_post_clone-IfSuccess :
      (st : State) (c : Config) (s : Control) → IfSuccess env (start_post_clone env st c s)
  unfolding start_post_clone
  start_post_clone-IfSuccess st c s = unless-IfSuccess _ _ λ s1. unless-IfSuccess _ _ λ s2.
      unless-IfSuccess _ _ λ s3.
        unless-IfSuccess _ _
          λ s4. unless-IfSuccess _ _ λ s5. unless-IfSuccess _ _ λ s6. activated s6

IfSuccess-elim :
    (env : ℕ → Kernel) (r : Outcome) {v : Control}
    → IfSuccess env r
    → r ≡ some (success, v)
    → Guarded env v
IfSuccess-elim env r h e = (rw e at h) refl

-- A container whose start reports success is guarded by the program of its allowed rules, on
-- every machine and for every access, or else its cgroup directory could not be opened when the
-- program was to be attached.
pub start_post_clone_guards :
    (m : Machine) (env : ℕ → Kernel) (st : State) (c : Config) (s : Control) {v : Control}
    (a : Access)
    → IsContext a
    → start_post_clone env st c s ≡ some (success, v)
    → ((p : List Insn) × (v.bpf_prog ≡ some p)
        × (run m p a ≡ some (verdict (any (covers a) v.allowed))))
      ⊎ ((env (v.clock - 1)).opens ≡ false)
start_post_clone_guards m env st c s {v} a ctx e =
    elim (IfSuccess-elim env _ (start_post_clone-IfSuccess env st c s) e) [
      | inl g ↦ inl (bpf_prog_generate v.allowed, g, generate_enforces m v.allowed a ctx)
      | inr o ↦ inr o
    ]
