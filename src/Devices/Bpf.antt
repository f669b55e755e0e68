-- ===== src/Devices/Bpf.antt =====
-- The BPF program that enforces a list of device rules: c_cgroups_dev_bpf_prog_generate of
-- daemon/c_cgroups_dev.c, over the instructions that the macros of daemon/bpf_insn.h build.
pub mod Machine
pub mod Blocks
pub mod Enforces
use cml.Prelude.{ℕ, ℤ, pos, negsuc, ◌+◌, ◌-◌, List, [], ◌∷◌, ◌++◌, ltb, ◌==◌, if◌then◌else◌, length}
use cml.Devices.Item.{Item, acc_all}

pub data Size : Type 0 where
  word : Size

pub data AluOp : Type 0 where
  and rsh : AluOp

pub data JmpOp : Type 0 where
  jne : JmpOp

-- Registers are given by their number.
pub data Insn : Type 0 where
  ldx_mem : Size → (dst src off : ℕ) → Insn
  alu32_imm : AluOp → (dst imm : ℕ) → Insn
  mov32_reg : (dst src : ℕ) → Insn
  mov64_imm : (dst imm : ℕ) → Insn
  jmp_imm : JmpOp → (dst imm off : ℕ) → Insn
  jmp_reg : JmpOp → (dst src off : ℕ) → Insn
  exit_insn : Insn

-- INSNR_TYPE, INSNR_MAJOR, INSNR_MINOR and INSNR_ACCESS
unfoldable pub insnr_type : Item → ℕ
insnr_type i = if ltb 0 i.type then 1 else 0

abbrev pub insnr_number : ℤ → ℕ
insnr_number (pos n) = 1
insnr_number (negsuc n) = 0

unfoldable pub insnr_major : Item → ℕ
insnr_major i = insnr_number i.major

unfoldable pub insnr_minor : Item → ℕ
insnr_minor i = insnr_number i.minor

unfoldable pub insnr_access : Item → ℕ
insnr_access i = if i.access == acc_all then 0 else 3

-- c_cgroups_dev_bpf_prog_append
unfoldable pub bpf_prog_append : List Insn → List Insn → List Insn
bpf_prog_append prog insn = prog ++ insn

-- What loads type, access, major and minor into the registers 2 to 5.
unfoldable pub pre_insn : List Insn
pre_insn =
    ldx_mem word 2 1 0
    ∷ alu32_imm and 2 65535
    ∷ ldx_mem word 3 1 0
    ∷ alu32_imm rsh 3 16
    ∷ ldx_mem word 4 1 4
    ∷ ldx_mem word 5 1 8
    ∷ []

-- Each test of a rule takes the program and the distance to the next rule, and returns both.
unfoldable pub emit_type : ℕ → List Insn → ℕ → List Insn × ℕ
unfolding bpf_prog_append
emit_type type prog next_ins =
    if ltb 0 type
    then (bpf_prog_append prog (jmp_imm jne 2 type next_ins ∷ []), next_ins - 1)
    else (prog, next_ins)

unfoldable pub emit_access : ℕ → List Insn → ℕ → List Insn × ℕ
unfolding bpf_prog_append
emit_access access prog next_ins = if access == acc_all then (prog, next_ins) else (
  bpf_prog_append prog
      (mov32_reg 1 3 ∷ alu32_imm and 1 access ∷ jmp_reg jne 1 3 (next_ins - 2) ∷ []),
  next_ins - 3,
)

unfoldable pub emit_number : ℕ → ℤ → List Insn → ℕ → List Insn × ℕ
unfolding bpf_prog_append
emit_number reg (pos n) prog next_ins =
    (bpf_prog_append prog (jmp_imm jne reg n next_ins ∷ []), next_ins - 1)
emit_number reg (negsuc n) prog next_ins = (prog, next_ins)

unfoldable pub allow_insn : List Insn
allow_insn = mov64_imm 0 1 ∷ exit_insn ∷ []

unfoldable pub deny_insn : List Insn
deny_insn = mov64_imm 0 0 ∷ exit_insn ∷ []

-- One round of the loop over the rules.
unfoldable pub emit_rule : List Insn → Item → List Insn
unfolding bpf_prog_append emit_type emit_access emit_number allow_insn insnr_type insnr_access
    insnr_major insnr_minor
emit_rule prog i =
    let next_ins = 1 + insnr_type i + insnr_access i + insnr_major i + insnr_minor i in
    let (prog1, next1) = emit_type i.type prog next_ins in
    let (prog2, next2) = emit_access i.access prog1 next1 in
    let (prog3, next3) = emit_number 4 i.major prog2 next2 in
    let (prog4, next4) = emit_number 5 i.minor prog3 next3 in bpf_prog_append prog4 allow_insn

unfoldable pub emit_rules : List Insn → List Item → List Insn
emit_rules prog [] = prog
emit_rules prog (i ∷ items) = emit_rules (emit_rule prog i) items

-- c_cgroups_dev_bpf_prog_generate
unfoldable pub bpf_prog_generate : List Item → List Insn
unfolding bpf_prog_append pre_insn emit_rules deny_insn
bpf_prog_generate items = bpf_prog_append (emit_rules (bpf_prog_append [] pre_insn) items) deny_insn

-- The instruction count that the same function adds up first, for its log.
unfoldable pub total_insn_nr_from : ℕ → List Item → ℕ
total_insn_nr_from n [] = n
total_insn_nr_from n (i ∷ items) =
    total_insn_nr_from (n + (insnr_type i + insnr_access i + insnr_major i + insnr_minor i + 2))
      items

unfoldable pub total_insn_nr : List Item → ℕ
unfolding total_insn_nr_from pre_insn
total_insn_nr items = total_insn_nr_from (length pre_insn) items + 2
