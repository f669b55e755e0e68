-- ===== src/Devices/Control/Exclusive.antt =====
-- One container's lists against the global ones and against those of another container.
use Prim.Native.Nat.{max}
use cml.Prelude.{
  ℕ, ◌+◌, ◌≤◌, ◌≡◌, ◌∙◌, Bool, true, false, Option, none, some, List, [], ◌∷◌, if◌then◌else◌, arith,
  All,
}
use cml.Devices.Item.{Item}
use cml.Devices.Control.{Control, drop_match, cleanup, same_numbers}
use cml.Devices.Control.Matching.{
  Apart, NoClash, clash, clash_comm, count, count-list_add, count-remove_at, count-remove_each,
  Apart-of_counted, All-list_add, All-remove_at,
}
use cml.Devices.Control.Changes.{Change, grant, claim, revoke, release, reprogram, add_if}

-- How many entries of the global lists a container accounts for.
abbrev pub held : Item → List Item → List Item → ℕ
held d allowed assigned = max (count d allowed) (count d assigned)

abbrev one_if : Bool → ℕ
one_if b = if b then 1 else 0

count-add_if :
    (d e : Item) (b : Bool) (l : List Item)
    → count d (add_if b l e) ≤ count d l + one_if (same_numbers e d)
count-add_if d e true l = omega (arith, count-list_add d e l)
count-add_if d e false l = omega arith

count-drop_match : (d : Item) (m : Option ℕ) (l : List Item) → count d (drop_match l m) ≤ count d l
count-drop_match d none l = omega arith
count-drop_match d (some n) l = count-remove_at d n l

All-add_if :
    (P : Item → Type 0) (b : Bool) (l : List Item) (d : Item) → All P l → P d → All P (add_if b l d)
All-add_if P true l d h p = All-list_add P l d h p
All-add_if P false l d h p = h

All-drop_match :
    (P : Item → Type 0) (m : Option ℕ) (l : List Item) → All P l → All P (drop_match l m)
All-drop_match P none l h = h
All-drop_match P (some n) l h = All-remove_at P n l h

-- A move of a container leaves enough entries in the global lists for the others: `rest` of the
-- entries with the numbers of `d` belong to them.
pub Change-held :
    {s u : Control} (rest : ℕ) (d : Item)
    → Change s u
    → rest + held d s.allowed s.assigned ≤ count d s.global_allowed
    → rest + held d u.allowed u.assigned ≤ count d u.global_allowed
unfolding cleanup count
Change-held {s} rest d (grant e b _ h) k =
    rw h (omega (arith, count-add_if d e b s.allowed, count-list_add d e s.global_allowed))
Change-held {s} rest d (claim e a b _ h) k = rw h (
    omega (
      arith,
      count-add_if d e a s.allowed,
      count-add_if d e b s.assigned,
      count-list_add d e s.global_allowed,
    ))
Change-held {s} rest d (revoke m n h) k =
    rw h (omega (arith, count-drop_match d m s.allowed, count-drop_match d n s.assigned))
Change-held {s} rest d (release h) k =
    rw h (omega (arith, count-remove_each d s.global_allowed s.allowed))
Change-held {s} rest d (reprogram p c h) k = rw h k

pub Change-assigned :
    {s u : Control} (rest : ℕ) (d : Item)
    → Change s u
    → rest + count d s.assigned ≤ count d s.global_assigned
    → rest + count d u.assigned ≤ count d u.global_assigned
unfolding cleanup count
Change-assigned {s} rest d (grant e b _ h) k = rw h k
Change-assigned {s} rest d (claim e a b _ h) k =
    rw h (omega (arith, count-add_if d e b s.assigned, count-list_add d e s.global_assigned))
Change-assigned {s} rest d (revoke m n h) k = rw h (omega (arith, count-drop_match d n s.assigned))
Change-assigned {s} rest d (release h) k =
    rw h (omega (arith, count-remove_each d s.global_assigned s.assigned))
Change-assigned {s} rest d (reprogram p c h) k = rw h k

-- Two containers exclude one another: what the one has assigned, the other is not allowed.
pub record Excludes (assigned allowed other_assigned other_allowed : List Item) : Type 0 where
  pub own : NoClash assigned other_allowed
  pub others : NoClash other_assigned allowed

-- One rule more that is apart from all of another list.
NoClash-right :
    (l k : List Item) (d : Item) (b : Bool) → Apart l d → NoClash l k → NoClash l (add_if b k d)
NoClash-right [] k d b a h = tt
NoClash-right (e ∷ l) k d b a h = (All-add_if _ b k d h.0 a.0, NoClash-right l k d b a.1 h.1)

Apart-left : (k : List Item) (d : Item) → Apart k d → All (λ e. clash d e ≡ false) k
Apart-left [] d a = tt
Apart-left (e ∷ k) d a = (clash_comm d e ∙ a.0, Apart-left k d a.1)

NoClash-drop : (l k : List Item) (m : Option ℕ) → NoClash l k → NoClash l (drop_match k m)
NoClash-drop [] k m h = tt
NoClash-drop (e ∷ l) k m h = (All-drop_match _ m k h.0, NoClash-drop l k m h.1)

pub NoClash-nil : (l : List Item) → NoClash l []
NoClash-nil [] = tt
NoClash-nil (e ∷ l) = (tt, NoClash-nil l)

-- A move keeps two containers exclusive, if the other's rules are counted in the global lists.
pub Change-Excludes :
    {s u : Control} (assigned allowed : List Item)
    → ((d : Item) → count d allowed ≤ count d s.global_allowed)
    → ((d : Item) → count d assigned ≤ count d s.global_allowed)
    → ((d : Item) → count d assigned ≤ count d s.global_assigned)
    → Change s u
    → Excludes s.assigned s.allowed assigned allowed
    → Excludes u.assigned u.allowed assigned allowed
unfolding cleanup
Change-Excludes {s} xs ys c1 c2 c3 (grant d b a h) x = rw h (record {
  own = x.own;
  others = NoClash-right xs s.allowed d b (Apart-of_counted xs s.global_assigned d c3 a) x.others;
})
Change-Excludes {s} xs ys c1 c2 c3 (claim d a b p h) x = rw h (record {
  own =
      All-add_if _ b s.assigned d x.own
        (Apart-left ys d (Apart-of_counted ys s.global_allowed d c1 p));
  others = NoClash-right xs s.allowed d a (Apart-of_counted xs s.global_allowed d c2 p) x.others;
})
Change-Excludes {s} xs ys c1 c2 c3 (revoke m n h) x = rw h (record {
  own = All-drop_match _ n s.assigned x.own;
  others = NoClash-drop xs s.allowed m x.others;
})
Change-Excludes {s} xs ys c1 c2 c3 (release h) x =
    rw h (record { own = tt; others = NoClash-nil xs })
Change-Excludes {s} xs ys c1 c2 c3 (reprogram p c h) x = rw h x
