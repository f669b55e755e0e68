-- ===== src/Devices/Control/Changes.antt =====
-- The operations of daemon/c_cgroups_dev.c as chains of a few moves on the lists.
use cml.Prelude.{
  ℕ, ℤ, minus_one, ◌+◌, ◌≡◌, refl, Bool, true, false, Option, none, some, ◌>>=◌, List, [], ◌∷◌,
  if◌then◌else◌, arith, Bool-cases, Option-cases, inl, inr, is_some, not, is_negative,
}
use cml.Compartment.State.{State, is_up}
use cml.Devices.Item.{Item}
use cml.Devices.Rule.{Text, from_rule_new}
use cml.Devices.Bpf.{Insn, bpf_prog_generate}
use cml.Devices.Control.{
  Kernel, Control, Outcome, list_match, list_add, add_allowed, add_assigned, update_prog,
  bpf_prog_activate, success, allow, assign, deny, drop_match, each_rule, allow_list, assign_list,
  Config, start_post_clone, cleanup, unless_failed,
}
use cml.Devices.Control.Matching.{Apart, first_clash, list_match_lem, first_clash-none}

abbrev pub add_if : Bool → List Item → Item → List Item
add_if b l d = if b then list_add l d else l

pub data Change (s u : Control) : Type 0 where
  -- a rule is allowed, which no exclusive assignment overlaps with
  grant :
      (d : Item) (b : Bool)
      → Apart s.global_assigned d
      → u
        ≡ record s { global_allowed = list_add s.global_allowed d; allowed = add_if b s.allowed d }
      → Change s u
  -- a rule is assigned, which no rule that anyone is allowed overlaps with
  claim :
      (d : Item) (a b : Bool)
      → Apart s.global_allowed d
      → u ≡ record s {
        global_allowed = list_add s.global_allowed d;
        global_assigned = list_add s.global_assigned d;
        allowed = add_if a s.allowed d;
        assigned = add_if b s.assigned d;
      }
      → Change s u
  -- the container loses a rule from its own lists
  revoke :
      (m n : Option ℕ)
      → u ≡ record s { allowed = drop_match s.allowed m; assigned = drop_match s.assigned n }
      → Change s u
  -- the container gives all its rules back
  release : u ≡ cleanup s → Change s u
  -- only the program and the kernel's clock move
  reprogram :
      (p : Option (List Insn)) (c : ℕ) → u ≡ record s { bpf_prog = p; clock = c } → Change s u

pub data Changes (s : Control) : Control → Type 0 where
  done : Changes s s
  next : {t u : Control} → Changes s t → Change t u → Changes s u

Changes-trans : {s t u : Control} → Changes s t → Changes t u → Changes s u
Changes-trans a done = a
Changes-trans a (next b c) = next (Changes-trans a b) c

one : {s u : Control} → Change s u → Changes s u
one c = next done c

activate-Change :
    (k : Kernel) (s : Control) (p : List Insn) (c : ℕ)
    → Change s (bpf_prog_activate k (record s { clock = c }) p).1
unfolding bpf_prog_activate
activate-Change k s p c =
    reprogram (bpf_prog_activate k (record s { clock = c }) p).1.bpf_prog c (ground arith)

update_prog-Changes :
    (env : ℕ → Kernel) (st : State) (s : Control) → Changes s (update_prog env st s).1
unfolding update_prog
update_prog-Changes env st s = elim (Bool-cases (is_up st)) [
  | inl h ↦ rw h (one (activate-Change (env s.clock) s (bpf_prog_generate s.allowed) (s.clock + 1)))
  | inr h ↦ rw h done
]

-- Every outcome but a fault is reached by changes.
abbrev pub Leads : Control → Outcome → Type 0
Leads s none = Unit
Leads s (some (code, v)) = Changes s v

Leads-bind :
    (s : Control) (r : Outcome) (f : ℤ × Control → Outcome)
    → Leads s r
    → ((code : ℤ) (v : Control) → Leads v (f (code, v)))
    → Leads s (r >>= f)
Leads-bind s none f l k = tt
Leads-bind s (some (code, v)) f l k = extend (f (code, v)) (k code v)
  where
    extend : (o : Outcome) → Leads v o → Leads s o
    extend none m = tt
    extend (some (c, u)) m = Changes-trans l m

pub add_allowed_lem :
    (s : Control) (d : Item)
    → add_allowed s (some d)
      ≡ some (record s {
        global_allowed = list_add s.global_allowed d;
        allowed = add_if (not (is_some (first_clash s.allowed d))) s.allowed d;
      })
unfolding add_allowed
add_allowed_lem s d = rw (list_match_lem s.allowed d) (ground arith)

pub add_assigned_lem :
    (s : Control) (d : Item)
    → add_assigned s (some d)
      ≡ some (record s {
        global_assigned = list_add s.global_assigned d;
        assigned = add_if (not (is_some (first_clash s.assigned d))) s.assigned d;
      })
unfolding add_assigned
add_assigned_lem s d = rw (list_match_lem s.assigned d) (ground arith)

module _ (env : ℕ → Kernel) (st : State) where
  update : {s u : Control} → Change s u → Changes s (update_prog env st u).1
  update {u = u} c = Changes-trans (one c) (update_prog-Changes env st u)

  allow_rule :
      (s : Control) (d : Option Item)
      → Leads s (
          list_match s.global_assigned d >>= λ busy.
          if is_some busy
          then some (success, s)
          else (add_allowed s d >>= λ s'. some (update_prog env st s')))
  allow_rule s none = elim (Option-cases (list_match s.global_assigned none)) [
    | inl e ↦ rw e tt
    | inr (o, e) ↦
        rw e (elim (Option-cases o) [
          | inl f ↦ rw f (unfold add_allowed in tt)
          | inr (n, f) ↦ rw f done
        ])
  ]
  allow_rule s (some d) =
      rw (list_match_lem s.global_assigned d)
        (elim (Option-cases (first_clash s.global_assigned d)) [
          | inl f ↦ rw (f, add_allowed_lem s d) (update (grant d _ (first_clash-none _ d f) refl))
          | inr (n, f) ↦ rw f done
        ])

  pub allow-Leads : (s : Control) (rule : Text) → Leads s (allow env st s rule)
  unfolding allow
  allow-Leads s rule = allow_rule s (from_rule_new rule)

  assign_rule :
      (s : Control) (d : Option Item)
      → Leads s (
          list_match s.global_allowed d >>= λ busy.
          if is_some busy
          then some (minus_one, s)
          else (add_allowed s d >>= λ s'.
              add_assigned s' d >>= λ s''. some (update_prog env st s'')))
  assign_rule s none = elim (Option-cases (list_match s.global_allowed none)) [
    | inl e ↦ rw e tt
    | inr (o, e) ↦
        rw e (elim (Option-cases o) [
          | inl f ↦ rw f (unfold add_allowed in tt)
          | inr (n, f) ↦ rw f done
        ])
  ]
  assign_rule s (some d) =
      rw (list_match_lem s.global_allowed d) (elim (Option-cases (first_clash s.global_allowed d)) [
        | inl f ↦
            rw (f, add_allowed_lem s d)
              (rw (add_assigned_lem _ d) (update (claim d _ _ (first_clash-none _ d f) refl)))
        | inr (n, f) ↦ rw f done
      ])

  pub assign-Leads : (s : Control) (rule : Text) → Leads s (assign env st s rule)
  unfolding assign
  assign-Leads s rule = assign_rule s (from_rule_new rule)

  deny_rule :
      (s : Control) (d : Option Item) (m : Option ℕ)
      → Leads s (
          if not (is_some m)
          then some (success, s)
          else (list_match s.assigned d >>= λ also. some (
              update_prog env st (record s {
                allowed = drop_match s.allowed m;
                assigned = drop_match s.assigned also;
              }))))
  deny_rule s d none = done
  deny_rule s d (some m) = elim (Option-cases (list_match s.assigned d)) [
    | inl e ↦ rw e tt
    | inr (n, e) ↦ rw e (update (revoke (some m) n refl))
  ]

  pub deny-Leads : (s : Control) (rule : Text) → Leads s (deny env st s rule)
  unfolding deny
  deny-Leads s rule = elim (Option-cases (list_match s.allowed (from_rule_new rule))) [
    | inl e ↦ rw e tt
    | inr (m, e) ↦ rw e (deny_rule s (from_rule_new rule) m)
  ]

  pub each_rule-Leads :
      (op : Control → Text → Outcome)
      → ((s : Control) (rule : Text) → Leads s (op s rule))
      → (s : Control) (rules : List Text) → Leads s (each_rule op s rules)
  unfolding each_rule
  each_rule-Leads op step s [] = done
  each_rule-Leads op step s (rule ∷ rules) = Leads-bind s (op s rule) _ (step s rule) λ code v.
      elim (Bool-cases (is_negative code)) [
        | inl h ↦ rw h done
        | inr h ↦ rw h (each_rule-Leads op step v rules)
      ]

  pub allow_list-Leads :
      (s : Control) (rules : Option (List Text)) → Leads s (allow_list env st s rules)
  unfolding allow_list
  allow_list-Leads s none = done
  allow_list-Leads s (some rules) = each_rule-Leads (allow env st) allow-Leads s rules

  pub assign_list-Leads :
      (s : Control) (rules : Option (List Text)) → Leads s (assign_list env st s rules)
  unfolding assign_list
  assign_list-Leads s none = done
  assign_list-Leads s (some rules) = each_rule-Leads (assign env st) assign-Leads s rules

  unless-Leads :
      (s : Control) (r : Outcome) (rest : Control → Outcome)
      → Leads s r
      → ((v : Control) → Leads v (rest v))
      → Leads s (unless_failed r rest)
  unfolding unless_failed
  unless-Leads s r rest l k =
      Leads-bind s r _ l
        λ code v. elim (Bool-cases (is_negative code)) [ inl h ↦ rw h done | inr h ↦ rw h (k v) ]

  optional-Leads :
      (b : Bool) (s : Control) (r : Outcome)
      → Leads s r
      → Leads s (if b then r else some (success, s))
  optional-Leads true s r l = l
  optional-Leads false s r l = done

  pub start_post_clone-Leads : (c : Config) (s : Control) → Leads s (start_post_clone env st c s)
  unfolding start_post_clone
  start_post_clone-Leads c s = unless-Leads s _ _ (allow_list-Leads s _) λ s1.
      unless-Leads s1 _ _ (allow_list-Leads s1 c.whitelist_base) λ s2.
        unless-Leads s2 _ _
          (optional-Leads c.privileged s2 _ (allow_list-Leads s2 c.whitelist_priv))
          λ s3. unless-Leads s3 _ _ (optional-Leads c.is_kvm s3 _ (allow-Leads s3 _)) λ s4.
            unless-Leads s4 _ _ (allow_list-Leads s4 c.dev_allow_list) λ s5.
              unless-Leads s5 _ _ (assign_list-Leads s5 c.dev_assign_list) λ s6.
                one
                  (activate-Change (env s6.clock) s6 (bpf_prog_generate s6.allowed) (s6.clock + 1))

pub cleanup-Changes : (s : Control) → Changes s (cleanup s)
cleanup-Changes s = one (release refl)
