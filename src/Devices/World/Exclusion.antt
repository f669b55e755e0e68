-- ===== src/Devices/World/Exclusion.antt =====
-- Over all runs of the device control (daemon/c_cgroups_dev.c), the rules that are exclusively assigned to
-- a container against those that another is allowed, as c_cgroups_dev_list_match compares them.
use cml.Prelude.{
  ℕ, zero, suc, ℤ, minus_one, not, ◌∙◌, if◌then◌else◌, ◌+◌, ◌≤◌, ◌≡◌, ◌≢◌, sym, ap, Bool, true,
  false, inl, inr, some, List, [], ◌∷◌, ◌++◌, get_elem?, set, get_elem?-set_self, get_elem?-set_ne,
  get_elem?-append_one, arith,
}
use native.Mathlib.Decide.{ℕ_discrete}
use cml.Compartment.State.{State}
use cml.Devices.Item.{Item}
use cml.Devices.Rule.{device_rule}
use cml.Devices.Control.{
  Kernel, Control, Outcome, allow, assign, deny, device_allow, device_deny, is_device_type,
}
use cml.Devices.Control.Matching.{count}
use cml.Devices.Control.Changes.{
  Change, Changes, done, next, Leads, allow-Leads, assign-Leads, deny-Leads, allow_list-Leads,
  start_post_clone-Leads, cleanup-Changes,
}
use cml.Devices.Control.Exclusive.{
  held, Excludes, Change-held, Change-assigned, Change-Excludes, NoClash-nil,
}
use cml.Devices.World.{
  Container, World, new_container, empty_world, focus, own_part, put, Op, allows, assigns, denies,
  allows_list, allows_device, denies_device, starts, cleans, run_op, Step, act, create, Reach, here,
}
use cml.Devices.World

total : (Container → ℕ) → List Container → ℕ
total f [] = 0
total f (c ∷ cs) = f c + total f cs

total-set :
    (f : Container → ℕ) (cs : List Container) (i : ℕ) (c v : Container)
    → get_elem? cs i ≡ some c
    → total f (set cs i v) + f c ≡ total f cs + f v
unfolding total
total-set f [] i c v h = cc
total-set f (x ∷ cs) zero c v h = ground arith
total-set f (x ∷ cs) (suc i) c v h = omega (arith, total-set f cs i c v h)

le-total :
    (f : Container → ℕ) (cs : List Container) (i : ℕ) (c : Container)
    → get_elem? cs i ≡ some c
    → f c ≤ total f cs
unfolding total
le-total f [] i c h = cc
le-total f (x ∷ cs) zero c h = ground arith
le-total f (x ∷ cs) (suc i) c h = omega (arith, le-total f cs i c h)

total-append :
    (f : Container → ℕ) (cs ds : List Container) → total f (cs ++ ds) ≡ total f cs + total f ds
unfolding total
total-append f [] ds = omega arith
total-append f (c ∷ cs) ds = omega (arith, total-append f cs ds)

abbrev held_by : Item → Container → ℕ
held_by d c = held d c.allowed c.assigned

abbrev assigned_to : Item → Container → ℕ
assigned_to d c = count d c.assigned

-- Two containers of a list exclude one another.
abbrev pub Exclusive : List Container → Type 0
Exclusive cs =
    (i j : ℕ) (c o : Container)
    → get_elem? cs i ≡ some c
    → get_elem? cs j ≡ some o
    → i ≢ j
    → Excludes c.assigned c.allowed o.assigned o.allowed

record Inv (w : World) : Type 0 where
  allowed_counted : (d : Item) → total (held_by d) w.containers ≤ count d w.global_allowed
  assigned_counted : (d : Item) → total (assigned_to d) w.containers ≤ count d w.global_assigned
  exclusive : Exclusive w.containers

-- One container among others, which account for `rest` and `rest'` entries of the global lists.
module _ (rest rest' : Item → ℕ) (Other : Container → Type 0)
    (counted : (o : Container) (d : Item) → Other o → held_by d o ≤ rest d)
    (counted' : (o : Container) (d : Item) → Other o → assigned_to d o ≤ rest' d) where
  record Within (s : Control) : Type 0 where
    allowed_counted : (d : Item) → rest d + held d s.allowed s.assigned ≤ count d s.global_allowed
    assigned_counted : (d : Item) → rest' d + count d s.assigned ≤ count d s.global_assigned
    exclusive : (o : Container) → Other o → Excludes s.assigned s.allowed o.assigned o.allowed

  Change-Within : {s u : Control} → Change s u → Within s → Within u
  Change-Within {s} {u} c h = record {
    allowed_counted = λ d. Change-held (rest d) d c (h.allowed_counted d);
    assigned_counted = λ d. Change-assigned (rest' d) d c (h.assigned_counted d);
    exclusive = λ o other.
        Change-Excludes o.assigned o.allowed
          (λ d. omega (arith, counted o d other, h.allowed_counted d))
          (λ d. omega (arith, counted o d other, h.allowed_counted d))
          (λ d. omega (arith, counted' o d other, h.assigned_counted d)) c (h.exclusive o other);
  }

  Changes-Within : {s u : Control} → Changes s u → Within s → Within u
  Changes-Within done h = h
  Changes-Within (next a c) h = Change-Within c (Changes-Within a h)

module _ (env : ℕ → Kernel) (st : State) where
  device_allow-Leads :
      (s : Control) (type : ℕ) (major minor : ℤ) (assigning : Bool)
      → Leads s (device_allow env st s type major minor assigning)
  unfolding device_allow
  device_allow-Leads s type major minor assigning = decided (is_device_type type) assigning
    where
      decided :
          (b a : Bool)
          → Leads s (
              if not b
              then some (minus_one, s)
              else if a
              then assign env st s (device_rule type major minor)
              else allow env st s (device_rule type major minor))
      decided false a = done
      decided true true = assign-Leads env st s (device_rule type major minor)
      decided true false = allow-Leads env st s (device_rule type major minor)

  device_deny-Leads :
      (s : Control) (type : ℕ) (major minor : ℤ) → Leads s (device_deny env st s type major minor)
  unfolding device_deny
  device_deny-Leads s type major minor = decided (is_device_type type)
    where
      decided :
          (b : Bool)
          → Leads s
              (if not b then some (minus_one, s) else deny env st s (device_rule type major minor))
      decided false = done
      decided true = deny-Leads env st s (device_rule type major minor)

  run_op-Leads : (op : Op) (s : Control) → Leads s (run_op env st op s)
  unfolding run_op
  run_op-Leads (allows rule) s = allow-Leads env st s rule
  run_op-Leads (assigns rule) s = assign-Leads env st s rule
  run_op-Leads (denies rule) s = deny-Leads env st s rule
  run_op-Leads (allows_list rules) s = allow_list-Leads env st s rules
  run_op-Leads (allows_device type major minor assigning) s =
      device_allow-Leads s type major minor assigning
  run_op-Leads (denies_device type major minor) s = device_deny-Leads s type major minor
  run_op-Leads (starts c) s = start_post_clone-Leads env st c s
  run_op-Leads cleans s = cleanup-Changes s

Leads-elim : {s v : Control} {code : ℤ} (r : Outcome) → Leads s r → r ≡ some (code, v) → Changes s v
Leads-elim {s} r l e = rw e at l

-- The place of one container in the list, and its neighbours.
module _ (w : World) (i : ℕ) (c : Container) (at : get_elem? w.containers i ≡ some c)
    (inv : Inv w) where
  abbrev Other : Container → Type 0
  Other o = (j : ℕ) × (i ≢ j) × (get_elem? w.containers j ≡ some o)

  abbrev others : List Container
  others = set w.containers i new_container

  counted_elsewhere : (f : Container → ℕ) (o : Container) → Other o → f o ≤ total f others
  counted_elsewhere f o (j, ne, e) =
      le-total f others j o (get_elem?-set_ne w.containers new_container ne ∙ e)

  abbrev held_elsewhere : Item → ℕ
  held_elsewhere d = total (held_by d) others

  abbrev assigned_elsewhere : Item → ℕ
  assigned_elsewhere d = total (assigned_to d) others

  focus-Within :
      Within held_elsewhere assigned_elsewhere Other
        (λ o d h. counted_elsewhere (held_by d) o h)
        (λ o d h. counted_elsewhere (assigned_to d) o h)
        (focus w c)
  unfolding count
  focus-Within = record {
    allowed_counted = λ d.
        omega
          (arith, total-set (held_by d) w.containers i c new_container at, inv.allowed_counted d);
    assigned_counted = λ d. omega (
      arith,
      total-set (assigned_to d) w.containers i c new_container at,
      inv.assigned_counted d,
    );
    exclusive = λ o h. inv.exclusive i h.0 c o at h.2 h.1;
  }

  moved_back :
      {s : Control}
      → Changes (focus w c) s
      → Within held_elsewhere assigned_elsewhere Other
          (λ o d h. counted_elsewhere (held_by d) o h)
          (λ o d h. counted_elsewhere (assigned_to d) o h)
          s
  moved_back a = Changes-Within held_elsewhere assigned_elsewhere Other _ _ a focus-Within

  at_place : (v d : Container) (j : ℕ) → i ≡ j → get_elem? (set w.containers i v) j ≡ some d → v ≡ d
  at_place v d j p h =
      cc (get_elem?-set_self w.containers i v c at, ap (get_elem? (set w.containers i v)) p)

  elsewhere :
      (v d : Container) (j : ℕ)
      → i ≢ j
      → get_elem? (set w.containers i v) j ≡ some d
      → get_elem? w.containers j ≡ some d
  elsewhere v d j p h = sym (get_elem?-set_ne w.containers v p) ∙ h

  put-Exclusive :
      (s : Control)
      → ((o : Container) → Other o → Excludes s.assigned s.allowed o.assigned o.allowed)
      → Exclusive (put w i s).containers
  put-Exclusive s x j k d o hj hk ne = elim (ℕ_discrete i j) [
    | yes p ↦
        let ik : i ≢ k = λ e. ne (sym p ∙ e) in
        rw (← at_place (own_part s) d j p hj) (x o (k, ik, elsewhere (own_part s) o k ik hk))
    | no p ↦ elim (ℕ_discrete i k) [
      | yes q ↦
          let y = x d (j, p, elsewhere (own_part s) d j p hj) in
          rw (← at_place (own_part s) o k q hk) (record { own = y.others; others = y.own })
      | no q ↦
          inv.exclusive j k d o (elsewhere (own_part s) d j p hj) (elsewhere (own_part s) o k q hk)
            ne
    ]
  ]

  put-Inv : {s : Control} → Changes (focus w c) s → Inv (put w i s)
  unfolding count
  put-Inv {s} a =
      let m = moved_back a in
      record {
        allowed_counted = λ d. omega (
          arith,
          total-set (held_by d) w.containers i c (own_part s) at,
          total-set (held_by d) w.containers i c new_container at,
          m.allowed_counted d,
        );
        assigned_counted = λ d. omega (
          arith,
          total-set (assigned_to d) w.containers i c (own_part s) at,
          total-set (assigned_to d) w.containers i c new_container at,
          m.assigned_counted d,
        );
        exclusive = put-Exclusive s m.exclusive;
      }

create-Exclusive : (cs : List Container) → Exclusive cs → Exclusive (cs ++ new_container ∷ [])
create-Exclusive cs x i j c o hi hj ne = elim (get_elem?-append_one cs i new_container c hi) [
  | inr p ↦ rw (← p) (record { own = tt; others = NoClash-nil o.assigned })
  | inl gi ↦ elim (get_elem?-append_one cs j new_container o hj) [
    | inr q ↦ rw (← q) (record { own = NoClash-nil c.assigned; others = tt })
    | inl gj ↦ x i j c o gi gj ne
  ]
]

create-Inv :
    (w : World) → Inv w → Inv (record w { containers = w.containers ++ new_container ∷ [] })
unfolding count total
create-Inv w inv = record {
  allowed_counted = λ d.
      omega
        (arith, total-append (held_by d) w.containers (new_container ∷ []), inv.allowed_counted d);
  assigned_counted = λ d. omega (
    arith,
    total-append (assigned_to d) w.containers (new_container ∷ []),
    inv.assigned_counted d,
  );
  exclusive = create-Exclusive w.containers inv.exclusive;
}

Step-Inv : {w u : World} → Step w u → Inv w → Inv u
Step-Inv {w} (act env st op i c code s at e f) inv =
    rw f (put-Inv w i c at inv (Leads-elim _ (run_op-Leads env st op (focus w c)) e))
Step-Inv {w} (create f) inv = rw f (create-Inv w inv)

Reach-Inv : {w u : World} → Reach w u → Inv w → Inv u
Reach-Inv here h = h
Reach-Inv (World.next r st) h = Step-Inv st (Reach-Inv r h)

empty-Inv : Inv empty_world
unfolding count total
empty-Inv = record {
  allowed_counted = λ d. omega arith;
  assigned_counted = λ d. omega arith;
  exclusive = λ i j c o h. cc;
}

-- Whatever operations are carried out on whatever containers, with any answers of the kernel: of
-- two different containers i and j, c_cgroups_dev_list_match finds no rule that the one is allowed
-- to overlap with a rule that is exclusively assigned to the other, in either direction. It takes -1
-- alone for a wildcard.
pub Reach-Excludes :
    {w : World} (i j : ℕ) (c o : Container)
    → Reach empty_world w
    → get_elem? w.containers i ≡ some c
    → get_elem? w.containers j ≡ some o
    → i ≢ j
    → Excludes c.assigned c.allowed o.assigned o.allowed
Reach-Excludes i j c o r = (Reach-Inv r empty-Inv).exclusive i j c o
