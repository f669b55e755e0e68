-- ===== src/Devices/Bpf/Machine.antt =====
-- The kernel's BPF machine, as far as the generated programs use it. The machine is no code of
-- this repository: it is a parameter, and the laws are the documented effect of each instruction
-- (the kernel's BPF instruction set) and of the device hook's context, bpf_cgroup_dev_ctx.
use cml.Prelude.{
  ℕ, zero, suc, ◌+◌, ◌*◌, ◌/◌, ◌%◌, ◌^◌, ◌≡◌, refl, Option, none, some, List, [], ◌∷◌, ◌==◌,
  if◌then◌else◌, drop, bit_and, arith,
}
use cml.Devices.Bpf.{
  word, and, rsh, jne, Insn, ldx_mem, alu32_imm, mov32_reg, mov64_imm, jmp_imm, jmp_reg, exit_insn,
}

-- One access of a process to a device.
pub record Access : Type 0 where
  pub type : ℕ
  pub access : ℕ
  pub major : ℕ
  pub minor : ℕ

-- The context in memory: (access << 16) | type, then major, then minor.
abbrev pub word_at : Access → ℕ → ℕ
word_at a off =
    if off == 0 then a.access * 65536 + a.type else if off == 4 then a.major else a.minor

abbrev pub Regs : Type 0
Regs = ℕ → ℕ

unfoldable pub write : Regs → ℕ → ℕ → Regs
write r dst v reg = if reg == dst then v else r reg

abbrev pub low_word : ℕ → ℕ
low_word n = n % 4294967296

-- `exec p a r` is the value that the program returns from the instructions `p` on.
pub record Machine : Type 0 where
  pub exec : List Insn → Access → Regs → Option ℕ
  pub start : Regs
  pub context : ℕ
  pub context_in_1 : start 1 ≡ context
  pub exec-ldx_mem :
      (dst src off : ℕ) (p : List Insn) (a : Access) (r : Regs)
      → r src ≡ context
      → exec (ldx_mem word dst src off ∷ p) a r ≡ exec p a (write r dst (low_word (word_at a off)))
  pub exec-and :
      (dst imm : ℕ) (p : List Insn) (a : Access) (r : Regs)
      → exec (alu32_imm and dst imm ∷ p) a r
        ≡ exec p a (write r dst (bit_and (low_word (r dst)) imm))
  pub exec-rsh :
      (dst imm : ℕ) (p : List Insn) (a : Access) (r : Regs)
      → exec (alu32_imm rsh dst imm ∷ p) a r ≡ exec p a (write r dst (low_word (r dst) / 2 ^ imm))
  pub exec-mov32_reg :
      (dst src : ℕ) (p : List Insn) (a : Access) (r : Regs)
      → exec (mov32_reg dst src ∷ p) a r ≡ exec p a (write r dst (low_word (r src)))
  pub exec-mov64_imm :
      (dst imm : ℕ) (p : List Insn) (a : Access) (r : Regs)
      → exec (mov64_imm dst imm ∷ p) a r ≡ exec p a (write r dst imm)
  pub exec-jne_imm :
      (dst imm off : ℕ) (p : List Insn) (a : Access) (r : Regs)
      → exec (jmp_imm jne dst imm off ∷ p) a r
        ≡ (if r dst == imm then exec p a r else exec (drop off p) a r)
  pub exec-jne_reg :
      (dst src off : ℕ) (p : List Insn) (a : Access) (r : Regs)
      → exec (jmp_reg jne dst src off ∷ p) a r
        ≡ (if r dst == r src then exec p a r else exec (drop off p) a r)
  pub exec-exit : (p : List Insn) (a : Access) (r : Regs) → exec (exit_insn ∷ p) a r ≡ some (r 0)

-- What the kernel does with a program at an access.
abbrev pub run : Machine → List Insn → Access → Option ℕ
run m p a = m.exec p a m.start

-- A machine that meets the laws: `skip` counts the instructions that a jump passes over.
unfoldable pub simulate : List Insn → ℕ → Access → Regs → Option ℕ
unfolding write
simulate [] skip a r = none
simulate (i ∷ p) (suc skip) a r = simulate p skip a r
simulate (ldx_mem word dst src off ∷ p) zero a r =
    simulate p 0 a (write r dst (low_word (word_at a off)))
simulate (alu32_imm and dst imm ∷ p) zero a r =
    simulate p 0 a (write r dst (bit_and (low_word (r dst)) imm))
simulate (alu32_imm rsh dst imm ∷ p) zero a r =
    simulate p 0 a (write r dst (low_word (r dst) / 2 ^ imm))
simulate (mov32_reg dst src ∷ p) zero a r = simulate p 0 a (write r dst (low_word (r src)))
simulate (mov64_imm dst imm ∷ p) zero a r = simulate p 0 a (write r dst imm)
simulate (jmp_imm jne dst imm off ∷ p) zero a r = simulate p (if r dst == imm then 0 else off) a r
simulate (jmp_reg jne dst src off ∷ p) zero a r = simulate p (if r dst == r src then 0 else off) a r
simulate (exit_insn ∷ p) zero a r = some (r 0)

simulate-drop :
    (p : List Insn) (n : ℕ) (a : Access) (r : Regs) → simulate p n a r ≡ simulate (drop n p) 0 a r
unfolding simulate
simulate-drop p zero a r = refl
simulate-drop [] (suc n) a r = refl
simulate-drop (i ∷ p) (suc n) a r = simulate-drop p n a r

pub simulate-jne_imm :
    (dst imm off : ℕ) (p : List Insn) (a : Access) (r : Regs)
    → simulate (jmp_imm jne dst imm off ∷ p) 0 a r
      ≡ (if r dst == imm then simulate p 0 a r else simulate (drop off p) 0 a r)
unfolding simulate
simulate-jne_imm dst imm off p a r = ground (arith, simulate-drop p off a r)

pub simulate-jne_reg :
    (dst src off : ℕ) (p : List Insn) (a : Access) (r : Regs)
    → simulate (jmp_reg jne dst src off ∷ p) 0 a r
      ≡ (if r dst == r src then simulate p 0 a r else simulate (drop off p) 0 a r)
unfolding simulate
simulate-jne_reg dst src off p a r = ground (arith, simulate-drop p off a r)

unfoldable pub simulator : Machine
unfolding simulate
simulator = record {
  exec = λ p a r. simulate p 0 a r;
  start = λ reg. 0;
  context = 0;
  context_in_1 = refl;
  exec-ldx_mem = λ dst src off p a r h. refl;
  exec-and = λ dst imm p a r. refl;
  exec-rsh = λ dst imm p a r. refl;
  exec-mov32_reg = λ dst src p a r. refl;
  exec-mov64_imm = λ dst imm p a r. refl;
  exec-jne_imm = simulate-jne_imm;
  exec-jne_reg = simulate-jne_reg;
  exec-exit = λ p a r. refl;
}
