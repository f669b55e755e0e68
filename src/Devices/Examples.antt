-- ===== src/Devices/Examples.antt =====
-- Runs of the device control on concrete rules, and the properties at concrete inputs.
use cml.Prelude.{
  ℕ, pos, negsuc, minus_one, ◌≡◌, refl, true, false, ◌⊎◌, none, some, List, [], ◌∷◌, arith, codes,
  any, is_negative, length, ltb, if◌then◌else◌, ◌-◌,
}
use cml.Compartment.State.{starting}
use cml.Devices.Item.{Item, acc_all}
use cml.Devices.Rule.{
  Text, from_rule_new, device_rule, strtok_r, parse_type, parse_number, parse_access, from_device,
  strtol, strtol_signed, digits_value,
}
use cml.Devices.Rule.Print.{from_rule_new-device_rule}
use cml.Devices.Bpf.{Insn, emit_rule, bpf_prog_generate, total_insn_nr}
use cml.Devices.Bpf.Machine.{Access, simulator, run}
use cml.Devices.Bpf.Blocks.{total_insn_nr-generate}
use cml.Devices.Bpf.Enforces.{IsContext, covers, verdict, generate_enforces}
use cml.Devices.Control.{
  Kernel, loaded, again, Control, Config, success, prog_load, load_loop, bpf_prog_activate,
  is_dev_allowed, allows_numbers, start_post_clone, unless_failed, allow_list, assign_list,
  each_rule, allow, assign, update_prog, list_match, list_add, cleanup, add_allowed, add_assigned,
  generic_whitelist,
}
use cml.Devices.Control.Matching.{clash, first_clash}
use cml.Devices.Control.Activation.{activate_outcome, start_post_clone_guards}
use cml.Devices.Control.Lifecycle.{holding, is_dev_allowed-enforced, cleanup-assign}
use cml.Devices.World.{
  Container, World, new_container, empty_world, Reach, here, act, create, assigns, allows, run_op,
}
use cml.Devices.World
use cml.Devices.World.Open.{Reach-bpf_prog_generate}

rule_parser_works :
    from_rule_new (codes "c 10:* rw")
    ≡ some (record { major = pos 10; minor = minus_one; type = 2; access = 7 })
unfolding from_rule_new strtok_r parse_type parse_number parse_access from_device strtol
    strtol_signed digits_value
rule_parser_works = refl

abbrev tun : Item
tun = record { major = pos 10; minor = pos 200; type = 2; access = 7 }

abbrev any_block_read : Item
any_block_read = record { major = minus_one; minor = minus_one; type = 1; access = 2 }

abbrev open_tun : Access
open_tun = record { type = 2; access = 6; major = 10; minor = 200 }

abbrev write_disk : Access
write_disk = record { type = 1; access = 4; major = 8; minor = 0 }

abbrev two_rules : List Item
two_rules = any_block_read ∷ tun ∷ []

simulated_grant : run simulator (bpf_prog_generate two_rules) open_tun ≡ some 1
unfolding simulator bpf_prog_generate emit_rule
simulated_grant = refl

simulated_denial : run simulator (bpf_prog_generate two_rules) write_disk ≡ some 0
unfolding simulator bpf_prog_generate emit_rule
simulated_denial = refl

open_tun-IsContext : IsContext open_tun
open_tun-IsContext = omega arith

generate_enforces_example : run simulator (bpf_prog_generate two_rules) open_tun ≡ some 1
generate_enforces_example = generate_enforces simulator two_rules open_tun open_tun-IsContext

total_insn_nr-generate_example : total_insn_nr two_rules ≡ length (bpf_prog_generate two_rules)
total_insn_nr-generate_example = total_insn_nr-generate two_rules

from_rule_new-device_rule_example :
    from_rule_new (device_rule b'b' (pos 8) minus_one)
    ≡ some (record { major = pos 8; minor = minus_one; type = 1; access = acc_all })
unfolding parse_type
from_rule_new-device_rule_example =
    from_rule_new-device_rule b'b' 1 (pos 8) minus_one refl refl refl refl

-- A kernel that takes every program.
abbrev willing : ℕ → Kernel
willing n = record { load = λ attempt. loaded; opens = true; attaches = true }

-- A kernel that is busy for two attempts.
abbrev busy : Kernel
busy = record {
  load = λ attempt. if ltb attempt 2 then again else loaded;
  opens = true;
  attaches = false;
}

abbrev fresh : Control
fresh = holding [] [] [] 0

abbrev plain : Config
plain = record {
  whitelist_base = none;
  whitelist_priv = none;
  privileged = false;
  is_kvm = false;
  dev_allow_list = some (codes "b 8:1 r" ∷ []);
  dev_assign_list = none;
}

activate_outcome_example :
    ((minus_one ≡ success)
      × (fresh ≡ record fresh { bpf_prog = some [] })
      × ((prog_load busy).0 ≡ loaded)
      × (busy.opens ≡ true)
      × (busy.attaches ≡ true))
    ⊎ ((is_negative minus_one ≡ true) × (fresh ≡ fresh))
unfolding bpf_prog_activate prog_load load_loop
activate_outcome_example = activate_outcome busy fresh []

started : Control
unfolding start_post_clone unless_failed allow_list assign_list each_rule allow update_prog
    list_match add_allowed list_add generic_whitelist from_rule_new strtok_r parse_type parse_number
    parse_access from_device strtol strtol_signed digits_value bpf_prog_activate prog_load load_loop
started = elim (start_post_clone willing starting plain fresh) [ none ↦ fresh | some (code, v) ↦ v ]

start_post_clone_guards_example :
    ((p : List Insn) × (started.bpf_prog ≡ some p)
      × (run simulator p open_tun ≡ some (verdict (any (covers open_tun) started.allowed))))
    ⊎ ((willing (started.clock - 1)).opens ≡ false)
unfolding started
start_post_clone_guards_example =
    start_post_clone_guards simulator willing starting plain fresh open_tun open_tun-IsContext refl

tun_holder : Control
tun_holder = record fresh { allowed = tun ∷ [] }

is_dev_allowed-enforced_example :
    run simulator (bpf_prog_generate tun_holder.allowed) open_tun ≡ some 1
unfolding is_dev_allowed allows_numbers tun_holder
is_dev_allowed-enforced_example =
    is_dev_allowed-enforced simulator tun_holder b'c' 10 200 open_tun open_tun-IsContext refl refl
      refl (refl, tt) refl

abbrev tun_rule : Text
tun_rule = codes "c 10:200 rwm"

parsed_tun : from_rule_new tun_rule ≡ some tun
unfolding from_rule_new strtok_r parse_type parse_number parse_access from_device strtol
    strtol_signed digits_value
parsed_tun = refl

cleanup-assign_example :
    (s : Control) × (assign willing starting fresh tun_rule ≡ some (success, s))
    × (cleanup s ≡ fresh)
unfolding first_clash
cleanup-assign_example =
    cleanup-assign willing starting refl tun_rule tun parsed_tun [] [] 0 refl refl

abbrev tun_owner : Container
tun_owner = record { allowed = tun ∷ []; assigned = tun ∷ []; bpf_prog = none }

abbrev two_containers : World
two_containers = record empty_world { containers = new_container ∷ new_container ∷ [] }

abbrev tun_assigned : World
tun_assigned = record {
  global_allowed = tun ∷ [];
  global_assigned = tun ∷ [];
  clock = 0;
  containers = tun_owner ∷ new_container ∷ [];
}

Reach-tun_assigned : Reach empty_world tun_assigned
unfolding run_op assign update_prog list_match add_allowed add_assigned list_add from_rule_new
    strtok_r parse_type parse_number parse_access from_device strtol strtol_signed digits_value
Reach-tun_assigned =
    World.next {t = two_containers}
      (World.next {t = record empty_world { containers = new_container ∷ [] }}
        (World.next here (create refl)) (create refl))
      (act willing starting (assigns tun_rule) 0 new_container success
        (record fresh {
          global_allowed = tun ∷ [];
          global_assigned = tun ∷ [];
          allowed = tun ∷ [];
          assigned = tun ∷ [];
        })
        refl refl refl)

-- Opening it is denied to the other container, which has no rules.
Reach-bpf_prog_generate_example : run simulator (bpf_prog_generate []) open_tun ≡ some 0
Reach-bpf_prog_generate_example =
    Reach-bpf_prog_generate 0 1 tun_owner new_container simulator open_tun Reach-tun_assigned refl
      refl (omega arith) ((refl, refl), tt) tt open_tun-IsContext refl

-- A rule with -2, which is a wildcard for the program but not for the comparison of rules
abbrev minus_two : Item
minus_two = record { major = negsuc 1; minor = pos 200; type = 2; access = 7 }

minus_two_parsed : from_rule_new (codes "c -2:200 rwm") ≡ some minus_two
unfolding from_rule_new strtok_r parse_type parse_number parse_access from_device strtol
    strtol_signed digits_value
minus_two_parsed = refl

minus_two-clash : clash tun minus_two ≡ false
minus_two-clash = refl

minus_two-run : run simulator (bpf_prog_generate (minus_two ∷ [])) open_tun ≡ some 1
minus_two-run = generate_enforces simulator (minus_two ∷ []) open_tun open_tun-IsContext
