-- ===== src/Devices/Control.antt =====
-- The operations of daemon/c_cgroups_dev.c on one container's rules and on the two global lists.
-- The lists are those of common/list.c; a pointer into one is the position of its element. `none`
-- is a read through a null pointer, which is what a rule that does not parse leads to. A result
-- code comes back with the new state.
pub mod Matching
pub mod Changes
pub mod Activation
pub mod Lifecycle
pub mod Exclusive
use cml.Prelude.{
  ℕ, zero, suc, ℤ, pos, negsuc, minus_one, ◌+◌, Bool, true, false, ◌&&◌, ◌||◌, not, Option, none,
  some, ◌>>=◌, List, [], ◌∷◌, ◌++◌, ◌==◌, ◌==ℤ◌, if◌then◌else◌, codes, is_negative, is_some,
}
use cml.Compartment.State.{State, is_up}
use cml.Devices.Item.{Item, dev_block, dev_char}
use cml.Devices.Rule.{Text, from_rule_new, device_rule}
use cml.Devices.Bpf.{Insn, bpf_prog_generate}

-- What the kernel answers while one program is activated: to each attempt to load it, to opening
-- the container's cgroup, and to attaching the program there.
pub data Load : Type 0 where
  loaded again refused : Load

pub record Kernel : Type 0 where
  pub load : ℕ → Load
  pub opens : Bool
  pub attaches : Bool

-- c_cgroups_dev_t with the two global lists; `clock` counts the activations so far.
pub record Control : Type 0 where
  pub global_allowed : List Item
  pub global_assigned : List Item
  pub allowed : List Item
  pub assigned : List Item
  pub bpf_prog : Option (List Insn)
  pub clock : ℕ

abbrev pub Outcome : Type 0
Outcome = Option (ℤ × Control)

-- -COMPARTMENT_ERROR_CGROUPS
abbrev pub error_cgroups : ℤ
error_cgroups = negsuc 4

abbrev pub success : ℤ
success = pos 0

-- BPF_PROG_LOAD_RETRIES
abbrev pub load_retries : ℕ
load_retries = 10

-- The loop of retries: the answer to the last attempt, and the number of the next one.
unfoldable pub load_loop : Kernel → ℕ → ℕ → Load × ℕ
load_loop k zero attempt = (k.load attempt, attempt + 1)
load_loop k (suc retries) attempt = elim (k.load attempt) [
  | loaded ↦ (loaded, attempt + 1)
  | again ↦ load_loop k retries (attempt + 1)
  | refused ↦ (refused, attempt + 1)
]

-- With one more attempt, for the log.
unfoldable pub prog_load : Kernel → Load × ℕ
unfolding load_loop
prog_load k =
    let (answer, attempt) = load_loop k load_retries 0 in
    elim answer [
      | loaded ↦ (loaded, attempt)
      | again ↦ (k.load attempt, attempt + 1)
      | refused ↦ (k.load attempt, attempt + 1)
    ]

-- c_cgroups_dev_bpf_prog_activate; the old program is detached only behind the new one.
unfoldable pub bpf_prog_activate : Kernel → Control → List Insn → ℤ × Control
bpf_prog_activate k s prog = elim (prog_load k).0 [
  | loaded ↦
      if not k.opens
      then (error_cgroups, s)
      else if k.attaches
      then (success, record s { bpf_prog = some prog })
      else (minus_one, s)
  | again ↦ (minus_one, s)
  | refused ↦ (minus_one, s)
]

-- c_cgroups_dev_list_match, on a rule that may be null: the position of the first match.
unfoldable pub list_match : List Item → Option Item → Option (Option ℕ)
list_match [] d = some none
list_match (e ∷ l) none = if e.major ==ℤ minus_one then some (some 0) else none
list_match (e ∷ l) (some d) =
    let later = list_match l (some d) >>= λ found.
    some (elim found [ none ↦ none | some n ↦ some (suc n) ]) in
    if e.major ==ℤ minus_one || d.major ==ℤ minus_one
    then some (some 0)
    else if not (e.major ==ℤ d.major)
    then later
    else if d.minor ==ℤ minus_one || (e.minor ==ℤ minus_one || d.minor ==ℤ e.minor)
    then some (some 0)
    else later

-- list_remove of the element at a position, and of the matched element if there is one
unfoldable pub remove_at : ℕ → List Item → List Item
remove_at n [] = []
remove_at zero (e ∷ l) = l
remove_at (suc n) (e ∷ l) = e ∷ remove_at n l

-- c_cgroups_dev_list_add
unfoldable pub list_add : List Item → Item → List Item
list_add l d = l ++ d ∷ []

abbrev pub same_numbers : Item → Item → Bool
same_numbers e d = e.major ==ℤ d.major && e.minor ==ℤ d.minor

-- c_cgroups_dev_list_remove: the first entry with the same numbers goes.
unfoldable pub list_remove : List Item → Item → List Item
list_remove [] d = []
list_remove (e ∷ l) d = let rest = list_remove l d in if same_numbers e d then l else e ∷ rest

-- c_cgroups_dev_add_allowed; copying a null rule is a fault.
unfoldable pub add_allowed : Control → Option Item → Option Control
add_allowed s none = none
add_allowed s (some d) = do
  let s' = record s { global_allowed = list_add s.global_allowed d }
  found ← list_match s.allowed (some d)
  some (if is_some found then s' else record s' { allowed = list_add s.allowed d })

-- c_cgroups_dev_add_assigned
unfoldable pub add_assigned : Control → Option Item → Option Control
add_assigned s none = none
add_assigned s (some d) = do
  let s' = record s { global_assigned = list_add s.global_assigned d }
  found ← list_match s.assigned (some d)
  some (if is_some found then s' else record s' { assigned = list_add s.assigned d })

-- Behind each change: a running container gets a new program, with the kernel's next answers.
unfoldable pub update_prog : (ℕ → Kernel) → State → Control → ℤ × Control
update_prog env st s =
    if is_up st
    then bpf_prog_activate (env s.clock) (record s { clock = s.clock + 1 })
        (bpf_prog_generate s.allowed)
    else (success, s)

abbrev pub drop_match : List Item → Option ℕ → List Item
drop_match l none = l
drop_match l (some n) = remove_at n l

-- The two loops over rules, which stop at the first error.
unfoldable pub each_rule : (Control → Text → Outcome) → Control → List Text → Outcome
each_rule op s [] = some (success, s)
each_rule op s (rule ∷ rules) = op s rule >>= λ (code, s').
    let more = each_rule op s' rules in if is_negative code then some (minus_one, s') else more

abbrev pub is_device_type : ℕ → Bool
is_device_type c = c == b'c' || c == b'b'

module _ (env : ℕ → Kernel) (st : State) where
  -- c_cgroups_dev_allow; `st` is the container's state
  unfoldable pub allow : Control → Text → Outcome
  allow s rule = do
    let d = from_rule_new rule
    busy ← list_match s.global_assigned d
    if is_some busy
        then some (success, s)
        else (add_allowed s d >>= λ s'. some (update_prog env st s'))

  -- c_cgroups_dev_assign
  unfoldable pub assign : Control → Text → Outcome
  assign s rule = do
    let d = from_rule_new rule
    busy ← list_match s.global_allowed d
    if is_some busy
        then some (minus_one, s)
        else (add_allowed s d >>= λ s'. add_assigned s' d >>= λ s''. some (update_prog env st s''))

  -- c_cgroups_dev_deny; the two global lists stay as they are
  unfoldable pub deny : Control → Text → Outcome
  deny s rule = do
    let d = from_rule_new rule
    matched ← list_match s.allowed d
    if not (is_some matched)
        then some (success, s)
        else (list_match s.assigned d >>= λ also. some (
            update_prog env st (record s {
              allowed = drop_match s.allowed matched;
              assigned = drop_match s.assigned also;
            })))

  -- c_cgroups_dev_allow_list and c_cgroups_dev_assign_list; a null list is no list
  unfoldable pub allow_list : Control → Option (List Text) → Outcome
  allow_list s none = some (success, s)
  allow_list s (some rules) = each_rule allow s rules

  unfoldable pub assign_list : Control → Option (List Text) → Outcome
  assign_list s none = some (success, s)
  assign_list s (some rules) = each_rule assign s rules

  -- c_cgroups_dev_device_allow
  unfoldable pub device_allow : Control → ℕ → ℤ → ℤ → Bool → Outcome
  device_allow s type major minor assigning =
      if not (is_device_type type)
      then some (minus_one, s)
      else if assigning
      then assign s (device_rule type major minor)
      else allow s (device_rule type major minor)

  -- c_cgroups_dev_device_deny
  unfoldable pub device_deny : Control → ℕ → ℤ → ℤ → Outcome
  device_deny s type major minor =
      if not (is_device_type type)
      then some (minus_one, s)
      else deny s (device_rule type major minor)

-- c_cgroups_dev_generic_whitelist
unfoldable pub generic_whitelist : List Text
generic_whitelist =
    codes "c 1:3 rwm"
    ∷ codes "c 1:5 rwm"
    ∷ codes "c 1:7 rwm"
    ∷ codes "c 1:8 rwm"
    ∷ codes "c 1:9 rwm"
    ∷ codes "c 5:2 rwm"
    ∷ codes "c 10:183 rwm"
    ∷ codes "c 10:200 rwm"
    ∷ codes "c 10:229 rwm"
    ∷ codes "c 136:* rwm"
    ∷ []

-- What start_post_clone reads from the hardware layer and from the container.
pub record Config : Type 0 where
  pub whitelist_base : Option (List Text)
  pub whitelist_priv : Option (List Text)
  pub privileged : Bool
  pub is_kvm : Bool
  pub dev_allow_list : Option (List Text)
  pub dev_assign_list : Option (List Text)

-- An early return of -COMPARTMENT_ERROR_CGROUPS.
unfoldable pub unless_failed : Outcome → (Control → Outcome) → Outcome
unless_failed r rest =
    r >>= λ (code, s). if is_negative code then some (error_cgroups, s) else rest s

-- c_cgroups_dev_start_post_clone. The last test compares with -1 alone.
unfoldable pub start_post_clone : (ℕ → Kernel) → State → Config → Control → Outcome
start_post_clone env st c s = unless_failed (allow_list env st s (some generic_whitelist)) λ s1.
    unless_failed (allow_list env st s1 c.whitelist_base) λ s2.
      unless_failed
        (if c.privileged then allow_list env st s2 c.whitelist_priv else some (success, s2))
        λ s3.
          unless_failed
            (if c.is_kvm then allow env st s3 (codes "c 10:232 rwm") else some (success, s3))
            λ s4. unless_failed (allow_list env st s4 c.dev_allow_list) λ s5.
              unless_failed (assign_list env st s5 c.dev_assign_list) λ s6.
                let (code, s7) =
                  bpf_prog_activate (env s6.clock) (record s6 { clock = s6.clock + 1 })
                    (bpf_prog_generate s6.allowed) in
                some ((if code ==ℤ minus_one then error_cgroups else success), s7)

-- c_cgroups_dev_cleanup
unfoldable pub remove_each : List Item → List Item → List Item
remove_each l [] = l
remove_each l (d ∷ ds) = remove_each (list_remove l d) ds

unfoldable pub cleanup : Control → Control
cleanup s = record s {
  bpf_prog = none;
  global_assigned = remove_each s.global_assigned s.assigned;
  assigned = [];
  global_allowed = remove_each s.global_allowed s.allowed;
  allowed = [];
}

-- c_cgroups_dev_is_dev_allowed
abbrev pub bpf_type : ℕ → ℕ
bpf_type c = if c == b'b' then dev_block else if c == b'c' then dev_char else 0

unfoldable pub allows_numbers : List Item → ℕ → ℤ → ℤ → Bool
allows_numbers [] type major minor = false
allows_numbers (d ∷ l) type major minor =
    let later = allows_numbers l type major minor in
    if not (d.type == type)
    then later
    else if d.major ==ℤ major && (d.minor ==ℤ minor || d.minor ==ℤ minus_one)
    then true
    else later

unfoldable pub is_dev_allowed : Control → ℕ → ℤ → ℤ → Bool
unfolding allows_numbers
is_dev_allowed s c major minor =
    if bpf_type c == 0
    then false
    else if is_negative major || is_negative minor
    then false
    else allows_numbers s.allowed (bpf_type c) major minor
