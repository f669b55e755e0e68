-- ===== src/Devices/Bpf/Enforces.antt =====
-- What the program that daemon/c_cgroups_dev.c generates decides, on every machine that meets the
-- documented laws.
use cml.Prelude.{
  ℕ, ℤ, pos, negsuc, ◌+◌, ◌-◌, ◌*◌, ◌/◌, ◌<◌, ◌≡◌, refl, ◌∙◌, Bool, true, false, ◌&&◌, Option, some,
  List, [], ◌∷◌, ◌++◌, append_assoc, ltb, ◌==◌, if◌then◌else◌, arith, length, any, drop,
  drop-append, Bool-cases, inl, inr, bit_and, bit_and-low_half,
}
use cml.Devices.Item.{Item, acc_all}
use cml.Devices.Bpf.{
  Insn, and, jne, mov32_reg, alu32_imm, jmp_reg, exit_insn, pre_insn, insnr_type, insnr_access,
  insnr_major, insnr_minor, insnr_number, allow_insn, deny_insn, bpf_prog_generate,
}
use cml.Devices.Bpf.Blocks.{
  type_part, access_part, number_part, minor_rest, major_rest, access_rest, rule_block, rule_blocks,
  bpf_prog_generate_lem, length-minor_rest, length-major_rest, length-access_rest,
}
use cml.Devices.Bpf.Machine.{Access, Machine, Regs, write, low_word, run}

-- A rule and an access, field by field.
abbrev pub type_fits : ℕ → Access → Bool
type_fits type a = if ltb 0 type then a.type == type else true

abbrev pub access_fits : ℕ → Access → Bool
access_fits access a = if access == acc_all then true else bit_and a.access access == a.access

abbrev pub number_fits : ℤ → ℕ → Bool
number_fits (pos n) k = k == n
number_fits (negsuc n) k = true

-- A rule covers an access: its type, or any type; every kind of access that is asked for; and the
-- device numbers, where a negative number is a wildcard.
abbrev pub covers : Access → Item → Bool
covers a i =
    type_fits i.type a
    && (access_fits i.access a && (number_fits i.major a.major && number_fits i.minor a.minor))

abbrev pub verdict : Bool → ℕ
verdict true = 1
verdict false = 0

-- The fields of the kernel's context have their widths.
pub record IsContext (a : Access) : Type 0 where
  pub type_half : a.type < 65536
  pub access_half : a.access < 65536
  pub major_word : a.major < 4294967296
  pub minor_word : a.minor < 4294967296

-- The registers hold the fields.
record Loaded (a : Access) (r : Regs) : Type 0 where
  in_2 : r 2 ≡ a.type
  in_3 : r 3 ≡ a.access
  in_4 : r 4 ≡ a.major
  in_5 : r 5 ≡ a.minor

drop_part : (off : ℕ) (k rest : List Insn) → off ≡ length k → drop off (k ++ rest) ≡ rest
drop_part off k rest e = rw e (drop-append k rest)

module _ (m : Machine) (a : Access) where
  -- The jump of a failed test ends behind the block `k`.
  type_part_exec :
      (t off : ℕ) (k rest : List Insn) (r : Regs)
      → Loaded a r
      → (ltb 0 t ≡ true → off ≡ length k)
      → m.exec (type_part t off ++ (k ++ rest)) a r
        ≡ (if type_fits t a then m.exec (k ++ rest) a r else m.exec rest a r)
  type_part_exec t off k rest r l e = elim (Bool-cases (ltb 0 t)) [
    | inl h ↦
        rw h (m.exec-jne_imm 2 t off (k ++ rest) a r ∙ rw (l.in_2, drop_part off k rest (e h)) refl)
    | inr h ↦ rw h refl
  ]

  number_part_exec :
      (reg field : ℕ) (v : ℤ) (off : ℕ) (k rest : List Insn) (r : Regs)
      → r reg ≡ field
      → off ≡ insnr_number v + length k - 1
      → m.exec (number_part reg v off ++ (k ++ rest)) a r
        ≡ (if number_fits v field then m.exec (k ++ rest) a r else m.exec rest a r)
  number_part_exec reg field (pos n) off k rest r l e =
      m.exec-jne_imm reg n off (k ++ rest) a r ∙ rw (l, drop_part off k rest (omega arith)) refl
  number_part_exec reg field (negsuc n) off k rest r l e = refl

  touched : ℕ → Regs → Regs
  touched access r =
      if access == acc_all then r else write (write r 1 a.access) 1 (bit_and a.access access)

  touched-Loaded : (access : ℕ) (r : Regs) → Loaded a r → Loaded a (touched access r)
  unfolding touched write
  touched-Loaded access r l = ground arith

  access_test_exec :
      (access off : ℕ) (k rest : List Insn) (r : Regs)
      → IsContext a
      → Loaded a r
      → off ≡ length k + 2
      → let s = write (write r 1 a.access) 1 (bit_and a.access access) in
        m.exec
          (mov32_reg 1 3 ∷ alu32_imm and 1 access ∷ jmp_reg jne 1 3 (off - 2) ∷ (k ++ rest))
          a
          r
        ≡ (if bit_and a.access access == a.access then m.exec (k ++ rest) a s else m.exec rest a s)
  access_test_exec access off k rest r ctx l e =
      let low : low_word (r 3) ≡ a.access = omega (arith, l.in_3) in
      let same : low_word a.access ≡ a.access = omega arith in
      let s = write (write r 1 a.access) 1 (bit_and a.access access) in
      let jump = jmp_reg jne 1 3 (off - 2) ∷ (k ++ rest) in
      let end : drop (off - 2) (k ++ rest) ≡ rest = drop_part (off - 2) k rest (omega arith) in
      rw (m.exec-mov32_reg 1 3 (alu32_imm and 1 access ∷ jump) a r, low)
        (rw (m.exec-and 1 access jump a (write r 1 a.access)) (
          unfold write in
          rw (same, m.exec-jne_reg 1 3 (off - 2) (k ++ rest) a s, end, l.in_3) refl))

  access_part_exec :
      (access off : ℕ) (k rest : List Insn) (r : Regs)
      → IsContext a
      → Loaded a r
      → ((access == acc_all) ≡ false → off ≡ length k + 2)
      → m.exec (access_part access off ++ (k ++ rest)) a r ≡ (
          if access_fits access a
          then m.exec (k ++ rest) a (touched access r)
          else m.exec rest a (touched access r))
  unfolding touched
  access_part_exec access off k rest r ctx l e = elim (Bool-cases (access == acc_all)) [
    | inl h ↦ rw h refl
    | inr h ↦ rw h (access_test_exec access off k rest r ctx l (e h))
  ]

  allow_exec : (rest : List Insn) (r : Regs) → m.exec (allow_insn ++ rest) a r ≡ some 1
  unfolding allow_insn write
  allow_exec rest r = m.exec-mov64_imm 0 1 (exit_insn ∷ rest) a r ∙ m.exec-exit rest a (write r 0 1)

  deny_exec : (r : Regs) → m.exec deny_insn a r ≡ some 0
  unfolding deny_insn write
  deny_exec r = m.exec-mov64_imm 0 0 (exit_insn ∷ []) a r ∙ m.exec-exit [] a (write r 0 0)

  module _ (i : Item) (rest : List Insn) (x : Option ℕ) (ctx : IsContext a)
      (next : (s : Regs) → Loaded a s → m.exec rest a s ≡ x) where
    minor_exec :
        (r : Regs)
        → Loaded a r
        → m.exec (minor_rest i ++ rest) a r ≡ (if number_fits i.minor a.minor then some 1 else x)
    minor_exec r l = rw (append_assoc (number_part 5 i.minor (1 + insnr_minor i)) allow_insn rest) (
        number_part_exec 5 a.minor i.minor (1 + insnr_minor i) allow_insn rest r l.in_5
          (unfold insnr_minor allow_insn in omega arith)
        ∙ rw (allow_exec rest r, next r l) refl)

    major_exec :
        (r : Regs)
        → Loaded a r
        → m.exec (major_rest i ++ rest) a r
          ≡ (if number_fits i.major a.major && number_fits i.minor a.minor then some 1 else x)
    major_exec r l =
        let off = 1 + insnr_major i + insnr_minor i in
        rw (append_assoc (number_part 4 i.major off) (minor_rest i) rest) (
          number_part_exec 4 a.major i.major off (minor_rest i) rest r l.in_4
            (unfold insnr_major in omega (arith, length-minor_rest i))
          ∙ rw (minor_exec r l, next r l) (ground arith))

    access_exec :
        (r : Regs)
        → Loaded a r
        → m.exec (access_rest i ++ rest) a r ≡ (
            if access_fits i.access a
              && (number_fits i.major a.major && number_fits i.minor a.minor)
            then some 1
            else x)
    access_exec r l =
        let off = 1 + insnr_access i + insnr_major i + insnr_minor i in
        let l' = touched-Loaded i.access r l in
        rw (append_assoc (access_part i.access off) (major_rest i) rest) (
          access_part_exec i.access off (major_rest i) rest r ctx l
            (λ h. unfold insnr_access in rw h (omega (arith, length-major_rest i)))
          ∙ rw (major_exec _ l', next _ l') (ground arith))

    rule_block_exec :
        (r : Regs)
        → Loaded a r
        → m.exec (rule_block i ++ rest) a r ≡ (if covers a i then some 1 else x)
    rule_block_exec r l =
        let off = 1 + insnr_type i + insnr_access i + insnr_major i + insnr_minor i in
        rw (append_assoc (type_part i.type off) (access_rest i) rest) (
          type_part_exec i.type off (access_rest i) rest r l
            (λ h. unfold insnr_type in rw h (omega (arith, length-access_rest i)))
          ∙ rw (access_exec r l, next r l) (ground arith))

  rule_blocks_exec :
      (is : List Item) (r : Regs)
      → IsContext a
      → Loaded a r
      → m.exec (rule_blocks is ++ deny_insn) a r ≡ some (verdict (any (covers a) is))
  rule_blocks_exec [] r ctx l = deny_exec r
  rule_blocks_exec (i ∷ is) r ctx l = rw (append_assoc (rule_block i) (rule_blocks is) deny_insn) (
      rule_block_exec i (rule_blocks is ++ deny_insn) (some (verdict (any (covers a) is))) ctx
        (λ s l'. rule_blocks_exec is s ctx l') r l
      ∙ ground arith)

  -- The registers behind the loads.
  loaded : Regs
  loaded =
      write
        (write
          (write
            (write (write (write m.start 2 (a.access * 65536 + a.type)) 2 a.type) 3
              (a.access * 65536 + a.type))
            3 a.access)
          4 a.major)
        5 a.minor

  loaded-Loaded : Loaded a loaded
  unfolding loaded write
  loaded-Loaded = record { in_2 = refl; in_3 = refl; in_4 = refl; in_5 = refl }

  pre_exec : (p : List Insn) → IsContext a → m.exec (pre_insn ++ p) a m.start ≡ m.exec p a loaded
  unfolding pre_insn loaded write
  pre_exec p ctx =
      let v = a.access * 65536 + a.type in
      let all : low_word v ≡ v = omega arith in
      let low : bit_and v 65535 ≡ a.type = bit_and-low_half a.access a.type ctx.type_half in
      let high : v / 65536 ≡ a.access = omega arith in
      let major : low_word a.major ≡ a.major = omega arith in
      let minor : low_word a.minor ≡ a.minor = omega arith in
      rw (m.exec-ldx_mem 2 1 0 _ a m.start m.context_in_1, all)
        (rw (m.exec-and 2 65535 _ a (write m.start 2 v)) (
          unfold write in
          rw (all, low)
            (rw (m.exec-ldx_mem 3 1 0 _ a _ m.context_in_1, all)
              (rw (m.exec-rsh 3 16 _ a _, all, high)
                (rw (m.exec-ldx_mem 4 1 4 _ a _ m.context_in_1, major)
                  (rw (m.exec-ldx_mem 5 1 8 _ a _ m.context_in_1, minor) refl))))))

-- On every machine that meets the laws, the program that is generated from a list of rules grants
-- exactly the accesses that some rule of the list covers: it returns 1 for those and 0 for all
-- others, and never fails to return. The context has its fields within their widths.
pub generate_enforces :
    (m : Machine) (items : List Item) (a : Access)
    → IsContext a
    → run m (bpf_prog_generate items) a ≡ some (verdict (any (covers a) items))
generate_enforces m items a ctx = rw (bpf_prog_generate_lem items) (
    pre_exec m a (rule_blocks items ++ deny_insn) ctx
    ∙ rule_blocks_exec m a items (loaded m a) ctx (loaded-Loaded m a))
