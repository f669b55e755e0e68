-- ===== src/Offsets/Users/Separate.antt =====
-- Containers with a user id range have ranges of their own (daemon/c_user.c).
use cml.Prelude.{
  ℕ, ℤ, pos, negsuc, ◌+◌, ◌*◌, ◌<◌, ◌≤◌, ◌≡◌, refl, sym, ap, ◌∙◌, ◌≢◌, ◌⊎◌, inl, inr, Bool, true,
  false, ◌&&◌, Option, some, List, [], ◌∷◌, ◌++◌, length, get_elem?, set, arith, get_elem?-set_self,
  get_elem?-set_ne, get_elem?-append_one, Bool-cases, ◌==ℤ◌, ==ℤ_iff, subst, ltb, leb, is_negative,
  ◌↔◌,
}
use native.Mathlib.Decide.{ℕ_discrete}
use cml.Offsets.Slots.{
  Table, Taken, slots, slots-some, length-slots-none, Taken-slots, get_elem?-bound, length-set,
}
use cml.Offsets.Users.{
  user_new, range_start, wrap_int, uid_max, max_uid_ranges, uid_ranges_start, uid_range,
}
use cml.Offsets.Users.Exclusive.{
  Member, Daemon, IsSane, applies, Step, created, started, cleaned, Reach, initial, next, Holds,
  Inv, Took, Kept, start-Outcome, start-idle, cleanup-frees, cleanup-idle,
}

-- What stands in a list after a write
set-cases :
    (l : List Member) (i j : ℕ) (m v n : Member)
    → get_elem? l i ≡ some m
    → get_elem? (set l i v) j ≡ some n
    → ((j ≡ i) × (v ≡ n)) ⊎ ((j ≢ i) × (get_elem? l j ≡ some n))
set-cases l i j m v n old h = elim (ℕ_discrete j i) [
  | yes e ↦ inl (
    e,
    some-inj
        (sym (get_elem?-set_self l i v m old) ∙ subst (λ k. get_elem? (set l i v) k ≡ some n) e h),
  )
  | no e ↦ inr (e, sym (get_elem?-set_ne l v (λ f. e (sym f))) ∙ h)
]
  where
    some-inj : {a b : Member} → some a ≡ some b → a ≡ b
    some-inj f = cc

nonzero : (code : ℤ) → code ≢ pos 0 → (code ==ℤ pos 0) ≡ false
nonzero code k = elim (Bool-cases (code ==ℤ pos 0)) [
  | inl e ↦ absurd (k ((==ℤ_iff code (pos 0)).0 e))
  | inr e ↦ e
]

module _ (max : ℕ) where
  -- One member is replaced, and the table.
  Inv-set :
      (d : Daemon) (i : ℕ) (m m' : Member) (t : Table)
      → Inv max d
      → get_elem? d.members i ≡ some m
      → ((j : ℕ) (n : Member)
          → j ≢ i
          → get_elem? d.members j ≡ some n
          → n.active ≡ true
          → Holds max t n × (m'.active ≡ true → m'.user.offset ≢ n.user.offset))
      → (m'.active ≡ true → Holds max t m')
      → IsSane m'.user.stored
      → length (slots max t) ≡ max
      → Inv max (record { table = t; members = set d.members i m' })
  Inv-set d i m m' t v old others self stored size = record {
    held = λ j n h a. elim (set-cases d.members i j m m' n old h) [
      | inl (e, f) ↦ subst (Holds max t) f (self (ap (λ x. x.active) f ∙ a))
      | inr (e, f) ↦ (others j n e f a).0
    ];
    apart = λ j k n o ne h1 h2 a1 a2. elim (set-cases d.members i j m m' n old h1) [
      | inl (e, f) ↦ elim (set-cases d.members i k m m' o old h2) [
        | inl (e', f') ↦ absurd (ne (e ∙ sym e'))
        | inr (e', f') ↦
            λ x. (others k o e' f' a2).1 (ap (λ y. y.active) f ∙ a1) (ap (λ y. y.user.offset) f ∙ x)
      ]
      | inr (e, f) ↦ elim (set-cases d.members i k m m' o old h2) [
        | inl (e', f') ↦ λ x.
            (others j n e f a1).1 (ap (λ y. y.active) f' ∙ a2) (ap (λ y. y.user.offset) f' ∙ sym x)
        | inr (e', f') ↦ v.apart j k n o ne f f' a1 a2
      ]
    ];
    sane = λ j n h. elim (set-cases d.members i j m m' n old h) [
      | inl (e, f) ↦ subst (λ y. IsSane y.user.stored) f stored
      | inr (e, f) ↦ v.sane j n f
    ];
    sized = size;
  }

  created-Inv :
      (d : Daemon) (m : Member)
      → Inv max d
      → m.active ≡ false
      → IsSane m.user.stored
      → Inv max (record d { members = d.members ++ m ∷ [] })
  created-Inv d m v idle stored = record {
    held = λ j n h a. elim (get_elem?-append_one d.members j m n h) [
      | inl f ↦ v.held j n f a
      | inr f ↦ absurd (differ (ap (λ y. y.active) f) a)
    ];
    apart = λ j k n o ne h1 h2 a1 a2. elim (get_elem?-append_one d.members j m n h1) [
      | inr f ↦ absurd (differ (ap (λ y. y.active) f) a1)
      | inl f ↦ elim (get_elem?-append_one d.members k m o h2) [
        | inr g ↦ absurd (differ (ap (λ y. y.active) g) a2)
        | inl g ↦ v.apart j k n o ne f g a1 a2
      ]
    ];
    sane = λ j n h. elim (get_elem?-append_one d.members j m n h) [
      | inl f ↦ v.sane j n f
      | inr f ↦ subst (λ y. IsSane y.user.stored) f stored
    ];
    sized = v.sized;
  }
    where
      differ : {b : Bool} → m.active ≡ b → b ≡ true → ⊥
      differ e f = cc

  -- A member keeps its slot while the slot stays in use.
  keep : {t t' : Table} {m : Member} → (h : Holds max t m) → Taken t' h.offset → Holds max t' m
  keep h k = record { offset = h.offset; is_offset = h.is_offset; taken = k; starts = h.starts }

  offsets-ne : {a b : ℤ} {i j : ℕ} → a ≡ pos i → b ≡ pos j → i ≢ j → a ≢ b
  offsets-ne e f ne x = ne (pos_inj (sym e ∙ x ∙ f))
    where
      pos_inj : {i j : ℕ} → pos i ≡ pos j → i ≡ j
      pos_inj h = cc

  Took-Inv :
      (d : Daemon) (i : ℕ) (m m' : Member) (t : Table)
      → Inv max d
      → get_elem? d.members i ≡ some m
      → Took max d.table m.user t m'.user
      → Inv max (record { table = t; members = set d.members i m' })
  Took-Inv d i m m' t v old k =
      let used = slots max d.table in
      rw k.now (
        Inv-set d i m m' (some (set used k.slot true)) v old
          (λ j n ne h a.
            let o = v.held j n h a in
            let busy = Taken-slots max d.table o.offset o.taken in
            let other : k.slot ≢ o.offset =
              λ e. free_ne busy (subst (λ s. get_elem? used s ≡ some false) e k.was_free) in
            (
              keep o (get_elem?-set_ne used true other ∙ busy),
              λ _. offsets-ne k.offset o.is_offset other,
            ))
          (λ _. record {
            offset = k.slot;
            is_offset = k.offset;
            taken = get_elem?-set_self used k.slot true false k.was_free;
            starts = k.starts;
          })
          k.stored (length_slots (set used k.slot true) ∙ length-set used k.slot true ∙ v.sized))
    where
      free_ne : {o : Option Bool} → o ≡ some true → o ≡ some false → ⊥
      free_ne e f = cc

      length_slots : (l : List Bool) → length (slots max (some l)) ≡ length l
      length_slots l = ap length (slots-some max l)

  Kept-Taken : {table t : Table} (i : ℕ) → Kept max table t → Taken table i → Taken t i
  Kept-Taken i (inl e) h = subst (λ x. Taken x i) (sym e) h
  Kept-Taken {table} i (inr e) h = subst (λ x. Taken x i) (sym e) (Taken-slots max table i h)

  Kept-sized :
      {table t : Table} → Kept max table t → length (slots max t) ≡ length (slots max table)
  Kept-sized (inl e) = ap (λ x. length (slots max x)) e
  Kept-sized {table} (inr e) =
      ap (λ x. length (slots max x)) e ∙ ap length (slots-some max (slots max table))

  -- A member is left without a range, and the slots stay.
  idle-Inv :
      (d : Daemon) (i : ℕ) (m m' : Member) (t : Table)
      → Inv max d
      → get_elem? d.members i ≡ some m
      → Kept max d.table t
      → m'.active ≡ false
      → IsSane m'.user.stored
      → Inv max (record { table = t; members = set d.members i m' })
  idle-Inv d i m m' t v old k idle stored =
      Inv-set d i m m' t v old
        (λ j n ne h a.
          let o = v.held j n h a in
          (keep o (Kept-Taken o.offset k o.taken), λ b. absurd (differ idle b)))
        (λ b. absurd (differ idle b)) stored (Kept-sized k ∙ v.sized)
    where
      differ : {b : Bool} → b ≡ false → b ≡ true → ⊥
      differ e f = cc

  -- A member gives its slot back.
  freed-Inv :
      (d : Daemon) (i : ℕ) (m m' : Member) (l : List Bool) (o : Holds max d.table m)
      → Inv max d
      → get_elem? d.members i ≡ some m
      → m.active ≡ true
      → m'.active ≡ false
      → IsSane m'.user.stored
      → d.table ≡ some l
      → Inv max (record { table = some (set l o.offset false); members = set d.members i m' })
  freed-Inv d i m m' l o v old act idle stored e =
      Inv-set d i m m' (some (set l o.offset false)) v old
        (λ j n ne h a.
          let p = v.held j n h a in
          let other : o.offset ≢ p.offset =
            λ f. v.apart j i n m ne h old a act (p.is_offset ∙ ap pos (sym f) ∙ sym o.is_offset) in
          let busy : get_elem? l p.offset ≡ some true = subst (λ x. Taken x p.offset) e p.taken in
          (keep p (get_elem?-set_ne l false other ∙ busy), λ b. absurd (differ idle b)))
        (λ b. absurd (differ idle b)) stored
        (ap length (slots-some max (set l o.offset false))
          ∙ length-set l o.offset false
          ∙ sym (ap length (slots-some max l))
          ∙ ap (λ x. length (slots max x)) (sym e)
          ∙ v.sized)
    where
      differ : {b : Bool} → b ≡ false → b ≡ true → ⊥
      differ e f = cc

  Step-Inv : {d e : Daemon} → 0 < max → Step max d e → Inv max d → Inv max e
  unfolding user_new
  Step-Inv z (created d stored u c s) v =
      created-Inv d (record { user = user_new stored u c; active = false }) v refl s
  Step-Inv z (started d i m writes r code t u old idle e) v = elim (Bool-cases (applies r m.user)) [
    | inr f ↦
        let (k1, k2) = start-idle max writes r d.table m.user code t u e f in
        rw f (
          idle-Inv d i m (record { user = u; active = false }) t v old (inl k1) refl
            (subst (λ x. IsSane x.stored) (sym k2) (v.sane i m old)))
    | inl f ↦ elim (start-Outcome max writes r d.table m.user code t u z (v.sane i m old) e f) [
      | inl (k, took) ↦ Took-Inv d i m _ t v old took
      | inr (k, refused) ↦
          rw (nonzero code k, f)
            (idle-Inv d i m (record { user = u; active = false }) t v old refused.kept refl
              (subst (λ x. IsSane x.stored) (sym refused.same) (v.sane i m old)))
    ]
  ]
  Step-Inv z (cleaned d i m r t old act e) v = elim (Bool-cases (applies r m.user)) [
    | inr f ↦ rw f (
        let same = cleanup-idle max r d.table t m.user e f in
        Inv-set d i m (record m { active = true }) t v old
          (λ j n ne h a.
            let o = v.held j n h a in
            (
              keep o (Kept-Taken o.offset (inl same) o.taken),
              λ _. v.apart i j m n (λ x. ne (sym x)) old h act a,
            ))
          (λ _.
            let o = v.held i m old act in
            record {
              offset = o.offset;
              is_offset = o.is_offset;
              taken = Kept-Taken o.offset (inl same) o.taken;
              starts = o.starts;
            })
          (v.sane i m old) (Kept-sized (inl same) ∙ v.sized))
    | inl f ↦
        let o = v.held i m old act in
        let (l, g, k) = cleanup-frees max r d.table t m.user o.offset e o.is_offset f in
        rw (f, k)
          (freed-Inv d i m (record m { active = false }) l o v old act refl (v.sane i m old) g)
  ]

  pub Reach-Inv : {d : Daemon} → 0 < max → Reach max d → Inv max d
  Reach-Inv z initial = record {
    held = λ i m h a. cc;
    apart = λ i j m n ne h1 h2 a1 a2. cc;
    sane = λ i m h. cc;
    sized = length-slots-none max;
  }
  Reach-Inv z (next r s) = Step-Inv z s (Reach-Inv z r)

-- The ids that a mapping from `uid_start` on takes in.
abbrev pub in_range : ℤ → ℕ → Bool
in_range (pos s) x = leb s x && ltb x (s + uid_max)
in_range (negsuc s) x = false

in_range-start :
    (o x : ℕ)
    → o < max_uid_ranges
    → in_range (range_start (pos o)) x ≡ true
    → (uid_ranges_start + o * uid_range ≤ x) × (x < uid_ranges_start + o * uid_range + uid_max)
unfolding range_start wrap_int
in_range-start o x h e = ground arith

-- In every run in which each clean-up follows a start that took a range, and in which no file holds
-- a negative number: two containers with a range share no user id.
pub Reach-Separate :
    {d : Daemon} (i j : ℕ) (m n : Member) (x : ℕ)
    → Reach max_uid_ranges d
    → i ≢ j
    → get_elem? d.members i ≡ some m
    → get_elem? d.members j ≡ some n
    → m.active ≡ true
    → n.active ≡ true
    → in_range m.user.uid_start x ≡ true
    → in_range n.user.uid_start x ≡ false
Reach-Separate {d} i j m n x r ne h1 h2 a1 a2 k = elim (Bool-cases (in_range n.user.uid_start x)) [
  | inr e ↦ e
  | inl e ↦
      let v = Reach-Inv max_uid_ranges (omega arith) r in
      let p = v.held i m h1 a1 in
      let q = v.held j n h2 a2 in
      let other : p.offset ≢ q.offset =
        λ f. v.apart i j m n ne h1 h2 a1 a2 (p.is_offset ∙ ap pos f ∙ sym q.is_offset) in
      let (p1, p2) =
        in_range-start p.offset x (Taken-bound v.sized p.taken)
          (subst (λ s. in_range s x ≡ true) p.starts k) in
      let (q1, q2) =
        in_range-start q.offset x (Taken-bound v.sized q.taken)
          (subst (λ s. in_range s x ≡ true) q.starts e) in
      absurd (other (omega arith))
]
  where
    Taken-bound :
        {o : ℕ}
        → length (slots max_uid_ranges d.table) ≡ max_uid_ranges
        → Taken d.table o
        → o < max_uid_ranges
    Taken-bound {o} s h =
        subst (λ k. o < k) s
          (get_elem?-bound (slots max_uid_ranges d.table) o true
            (Taken-slots max_uid_ranges d.table o h))

-- The first id of a slot is negative as an int from slot 21474 on, and not below.
pub range_start-negative :
    (o : ℕ) → o < max_uid_ranges → (is_negative (range_start (pos o)) ≡ true) ↔ (21474 ≤ o)
unfolding range_start wrap_int
range_start-negative o h = ground arith
