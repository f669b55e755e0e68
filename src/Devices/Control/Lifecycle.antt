-- ===== src/Devices/Control/Lifecycle.antt =====
-- An exclusive assignment from its grant to the container's cleanup, and the query for a device
-- (daemon/c_cgroups_dev.c).
use cml.Prelude.{
  ℕ, ℤ, pos, negsuc, minus_one, ◌≡◌, refl, true, false, ◌||◌, none, some, List, [], ◌∷◌, ◌==ℤ◌,
  ==ℤ_iff, ==ℤ_comm, arith, All, any,
}
use cml.Compartment.State.{State, is_up}
use cml.Devices.Item.{Item, acc_all}
use cml.Devices.Rule.{Text, from_rule_new}
use cml.Devices.Bpf.{bpf_prog_generate}
use cml.Devices.Bpf.Machine.{Access, Machine, run}
use cml.Devices.Bpf.Enforces.{IsContext, covers, number_fits, generate_enforces}
use cml.Devices.Control.{
  Kernel, Control, success, list_add, list_remove, remove_each, same_numbers, update_prog, assign,
  cleanup, bpf_type, allows_numbers, is_dev_allowed,
}
use cml.Devices.Control.Matching.{Apart, clash, first_clash, first_clash-none, list_match_lem}
use cml.Devices.Control.Changes.{add_allowed_lem, add_assigned_lem}

number_fits_eq : (v : ℤ) (k : ℕ) → (v ==ℤ pos k) ≡ true → number_fits v k ≡ true
number_fits_eq (pos n) k h = ground arith
number_fits_eq (negsuc n) k h = refl

number_fits_or : (v : ℤ) (k : ℕ) → (v ==ℤ pos k || v ==ℤ minus_one) ≡ true → number_fits v k ≡ true
number_fits_or (pos n) k h = ground arith
number_fits_or (negsuc n) k h = refl

allows_numbers-covers :
    (l : List Item) (type j k : ℕ) (a : Access)
    → a.type ≡ type
    → a.major ≡ j
    → a.minor ≡ k
    → All (λ d. d.access ≡ acc_all) l
    → allows_numbers l type (pos j) (pos k) ≡ true
    → any (covers a) l ≡ true
unfolding allows_numbers
allows_numbers-covers [] type j k a t p q all h = cc
allows_numbers-covers (d ∷ l) type j k a t p q all h = ground (
  arith,
  number_fits_eq d.major j,
  number_fits_or d.minor k,
  allows_numbers-covers l type j k a t p q all.1,
)

clash_self : (e d : Item) → clash e d ≡ false → same_numbers e d ≡ false
clash_self e d h = ground (arith, ==ℤ_comm e.minor d.minor)

list_remove-list_add : (l : List Item) (d : Item) → Apart l d → list_remove (list_add l d) d ≡ l
unfolding list_remove list_add
list_remove-list_add [] d a = ground (arith, ==ℤ_iff d.major d.major, ==ℤ_iff d.minor d.minor)
list_remove-list_add (e ∷ l) d a = ground (arith, clash_self e d a.0, list_remove-list_add l d a.1)

-- A device of a type that exists, for which the query says that it is allowed, is open to every
-- kind of access by the program of the container's rules, as long as these grant every access.
pub is_dev_allowed-enforced :
    (m : Machine) (s : Control) (c j k : ℕ) (a : Access)
    → IsContext a
    → a.type ≡ bpf_type c
    → a.major ≡ j
    → a.minor ≡ k
    → All (λ d. d.access ≡ acc_all) s.allowed
    → is_dev_allowed s c (pos j) (pos k) ≡ true
    → run m (bpf_prog_generate s.allowed) a ≡ some 1
unfolding is_dev_allowed
is_dev_allowed-enforced m s c j k a ctx t p q all h =
    let yes_rule : allows_numbers s.allowed (bpf_type c) (pos j) (pos k) ≡ true = ground arith in
    rw (generate_enforces m s.allowed a ctx)
      (rw (allows_numbers-covers s.allowed (bpf_type c) j k a t p q all yes_rule) refl)

-- The lists while a container has the rules `own`, of which it has all assigned, and no program.
abbrev pub holding : List Item → List Item → List Item → ℕ → Control
holding global_allowed global_assigned own clock = record {
  global_allowed = global_allowed;
  global_assigned = global_assigned;
  allowed = own;
  assigned = own;
  bpf_prog = none;
  clock = clock;
}

-- A rule that parses to `d`, for a container that is not up and has no rules and no program, while no
-- rule that is globally allowed overlaps with it.
module _ (env : ℕ → Kernel) (st : State) (down : is_up st ≡ false) (rule : Text) (d : Item)
    (parses : from_rule_new rule ≡ some d) (ga gs : List Item) (n : ℕ)
    (free : first_clash ga d ≡ none) where
  abbrev assigned_state : Control
  assigned_state = holding (list_add ga d) (list_add gs d) (d ∷ []) n

  assign_lem : assign env st (holding ga gs [] n) rule ≡ some (success, assigned_state)
  unfolding assign update_prog first_clash list_add
  assign_lem =
      rw (parses, list_match_lem ga d, free, add_allowed_lem (holding ga gs [] n) d)
        (rw (add_assigned_lem _ d, down) refl)

  -- A container that is not up and has neither rules nor a program is assigned a device whose rule
  -- parses and overlaps with none in the two global lists, and is then cleaned up: it ends in the
  -- state that it began in, both global lists included.
  pub cleanup-assign :
      first_clash gs d ≡ none
      → (s : Control) × (assign env st (holding ga gs [] n) rule ≡ some (success, s))
        × (cleanup s ≡ holding ga gs [] n)
  unfolding cleanup remove_each
  cleanup-assign free' = (
    assigned_state,
    assign_lem,
    rw
        (
          list_remove-list_add ga d (first_clash-none ga d free),
          list_remove-list_add gs d (first_clash-none gs d free'),
        )
        refl,
  )

  denied_state : Control
  denied_state = holding (list_add ga d) (list_add gs d) [] n
