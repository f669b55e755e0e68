-- ===== src/Devices/Bpf/Blocks.antt =====
-- The program that the generator appends to in place, taken apart into one block for each rule.
use cml.Prelude.{
  ℕ, ℤ, pos, negsuc, ◌+◌, ◌-◌, ◌≡◌, refl, List, [], ◌∷◌, ◌++◌, append_assoc, append-nil, ltb, ◌==◌,
  if◌then◌else◌, arith, length, length-append, sym,
}
use cml.Devices.Item.{Item, acc_all}
use cml.Devices.Bpf.{
  Insn, and, jne, alu32_imm, mov32_reg, jmp_imm, jmp_reg, insnr_type, insnr_access, insnr_major,
  insnr_minor, insnr_number, emit_type, emit_access, emit_number, emit_rule, emit_rules, allow_insn,
  deny_insn, pre_insn, bpf_prog_generate, total_insn_nr_from, total_insn_nr,
}

abbrev pub type_part : ℕ → ℕ → List Insn
type_part type off = if ltb 0 type then jmp_imm jne 2 type off ∷ [] else []

abbrev pub access_part : ℕ → ℕ → List Insn
access_part access off =
    if access == acc_all
    then []
    else mov32_reg 1 3 ∷ alu32_imm and 1 access ∷ jmp_reg jne 1 3 (off - 2) ∷ []

abbrev pub number_part : ℕ → ℤ → ℕ → List Insn
number_part reg (pos n) off = jmp_imm jne reg n off ∷ []
number_part reg (negsuc n) off = []

-- The rest of a rule's block behind its four tests, last first.
abbrev pub minor_rest : Item → List Insn
minor_rest i = number_part 5 i.minor (1 + insnr_minor i) ++ allow_insn

abbrev pub major_rest : Item → List Insn
major_rest i = number_part 4 i.major (1 + insnr_major i + insnr_minor i) ++ minor_rest i

abbrev pub access_rest : Item → List Insn
access_rest i =
    access_part i.access (1 + insnr_access i + insnr_major i + insnr_minor i) ++ major_rest i

abbrev pub rule_block : Item → List Insn
rule_block i =
    type_part i.type (1 + insnr_type i + insnr_access i + insnr_major i + insnr_minor i)
    ++ access_rest i

abbrev pub rule_blocks : List Item → List Insn
rule_blocks [] = []
rule_blocks (i ∷ items) = rule_block i ++ rule_blocks items

emit_type_lem :
    (i : Item) (p : List Insn) (n m : ℕ)
    → n ≡ insnr_type i + m
    → emit_type i.type p n ≡ (p ++ type_part i.type n, m)
unfolding emit_type insnr_type
emit_type_lem i p n m h = ground (arith, append-nil p)

emit_access_lem :
    (i : Item) (p : List Insn) (n m : ℕ)
    → n ≡ insnr_access i + m
    → emit_access i.access p n ≡ (p ++ access_part i.access n, m)
unfolding emit_access insnr_access
emit_access_lem i p n m h = ground (arith, append-nil p)

emit_number_lem :
    (reg : ℕ) (v : ℤ) (p : List Insn) (n m : ℕ)
    → n ≡ insnr_number v + m
    → emit_number reg v p n ≡ (p ++ number_part reg v n, m)
unfolding emit_number
emit_number_lem reg (pos k) p n m h = ground arith
emit_number_lem reg (negsuc k) p n m h = ground (arith, append-nil p)

emit_rule_lem : (p : List Insn) (i : Item) → emit_rule p i ≡ p ++ rule_block i
unfolding emit_rule
emit_rule_lem p i =
    let n4 = 1 + insnr_minor i in
    let n3 = 1 + insnr_major i + insnr_minor i in
    let n2 = 1 + insnr_access i + insnr_major i + insnr_minor i in
    let n1 = 1 + insnr_type i + insnr_access i + insnr_major i + insnr_minor i in
    rw
      (
        emit_type_lem i p n1 n2 (omega arith),
        emit_access_lem i _ n2 n3 (omega arith),
        emit_number_lem 4 i.major _ n3 n4 (unfold insnr_major in omega arith),
        emit_number_lem 5 i.minor _ n4 1 (unfold insnr_minor in omega arith),
      )
      (simp append_assoc)

emit_rules_lem : (p : List Insn) (is : List Item) → emit_rules p is ≡ p ++ rule_blocks is
unfolding emit_rules
emit_rules_lem p [] = sym (append-nil p)
emit_rules_lem p (i ∷ is) =
    rw (emit_rules_lem (emit_rule p i) is, emit_rule_lem p i)
      (append_assoc p (rule_block i) (rule_blocks is))

-- The generated program: the loads, a block for each rule, and the denial.
pub bpf_prog_generate_lem :
    (is : List Item) → bpf_prog_generate is ≡ pre_insn ++ (rule_blocks is ++ deny_insn)
unfolding bpf_prog_generate
bpf_prog_generate_lem is =
    rw (emit_rules_lem pre_insn is) (append_assoc pre_insn (rule_blocks is) deny_insn)

pub length-type_part : (i : Item) (n : ℕ) → length (type_part i.type n) ≡ insnr_type i
unfolding insnr_type
length-type_part i n = ground arith

pub length-access_part : (i : Item) (n : ℕ) → length (access_part i.access n) ≡ insnr_access i
unfolding insnr_access
length-access_part i n = ground arith

pub length-number_part : (reg : ℕ) (v : ℤ) (n : ℕ) → length (number_part reg v n) ≡ insnr_number v
length-number_part reg (pos k) n = refl
length-number_part reg (negsuc k) n = refl

pub length-minor_rest : (i : Item) → length (minor_rest i) ≡ insnr_minor i + 2
unfolding allow_insn insnr_minor
length-minor_rest i = omega (
  arith,
  length-append {0} (number_part 5 i.minor (1 + insnr_minor i)) allow_insn,
  length-number_part 5 i.minor (1 + insnr_minor i),
)

pub length-major_rest : (i : Item) → length (major_rest i) ≡ insnr_major i + insnr_minor i + 2
unfolding insnr_major
length-major_rest i = omega (
  arith,
  length-append {0} (number_part 4 i.major (1 + insnr_major i + insnr_minor i)) (minor_rest i),
  length-number_part 4 i.major (1 + insnr_major i + insnr_minor i),
  length-minor_rest i,
)

pub length-access_rest :
    (i : Item) → length (access_rest i) ≡ insnr_access i + insnr_major i + insnr_minor i + 2
length-access_rest i =
    let n = 1 + insnr_access i + insnr_major i + insnr_minor i in
    omega (
      arith,
      length-append {0} (access_part i.access n) (major_rest i),
      length-access_part i n,
      length-major_rest i,
    )

length-rule_block :
    (i : Item)
    → length (rule_block i) ≡ insnr_type i + insnr_access i + insnr_major i + insnr_minor i + 2
length-rule_block i =
    let n = 1 + insnr_type i + insnr_access i + insnr_major i + insnr_minor i in
    omega (
      arith,
      length-append {0} (type_part i.type n) (access_rest i),
      length-type_part i n,
      length-access_rest i,
    )

length-rule_blocks :
    (n : ℕ) (is : List Item) → total_insn_nr_from n is ≡ n + length (rule_blocks is)
unfolding total_insn_nr_from
length-rule_blocks n [] = omega arith
length-rule_blocks n (i ∷ is) = omega (
  arith,
  length-rule_block i,
  length-append (rule_block i) (rule_blocks is),
  length-rule_blocks (n + (insnr_type i + insnr_access i + insnr_major i + insnr_minor i + 2)) is,
)

-- The count of instructions that the generator logs is the length of what it generates.
pub total_insn_nr-generate : (is : List Item) → total_insn_nr is ≡ length (bpf_prog_generate is)
unfolding total_insn_nr deny_insn pre_insn
total_insn_nr-generate is = rw (bpf_prog_generate_lem is) (
    omega (
      arith,
      length-append {0} pre_insn (rule_blocks is ++ deny_insn),
      length-append {0} (rule_blocks is) deny_insn,
      length-rule_blocks (length pre_insn) is,
    ))
