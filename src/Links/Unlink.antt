-- ===== src/Links/Unlink.antt =====
-- What taking elements out does to the list (common/list.c).
use cml.Prelude.{
  ℕ, zero, suc, ◌+◌, ◌-◌, ◌≤◌, ◌≡◌, refl, sym, subst, ap, ◌∙◌, ◌⊎◌, inl, inr, true, false, Option,
  none, some, [], ◌∷◌, ◌++◌, arith, ◌==◌, length, if◌then◌else◌, is_some, Bool-cases, length-append,
  ==_iff,
}
use cml.Links.Heap.{Ptr, node, Heap, write, set_next, set_prev, load, write_self, write_ne}
use cml.Links.Ops.{
  contains_loop, list_contains, list_find, link_prev, link_next, list_unlink, list_remove,
}
use cml.Links.Seg.{
  Cells, ◌∉◌, first, last, Seg, IsList, SameOutside, frame, frame-write, glue, split, split-Apart,
  first-append, last-some, Apart, not-mem-middle, Untouched, same-Untouched,
}
use cml.Links.Grow.{set_next-last}

-- The search goes past the elements of a segment that are others.
pub contains-skip :
    (k j : ℕ) (h : Heap) (q : Ptr) (xs : Cells) (r : Ptr) (b : ℕ)
    → Seg h q xs r
    → b ∉ xs
    → k ≡ length xs + j
    → contains_loop k h (first xs r) b ≡ contains_loop j h r b
unfolding contains_loop
contains-skip k j h q [] r b s out n =
    let same : k ≡ j = omega arith in ap (λ x. contains_loop x h r b) same
contains-skip zero j h q ((a, d) ∷ xs) r b s out n = absurd (omega arith)
contains-skip (suc k) j h q ((a, d) ∷ xs) r b (e, _, s) out n =
    let other : (a == b) ≡ false = ground arith in
    rw (other, e) (contains-skip k j h (some a) xs r b s (ground arith) (omega arith))

-- The elements in front get a new successor, or the list a new head.
pub link_prev_lem :
    (h : Heap) (ys : Cells) (s r r' : Ptr)
    → Seg h none ys r
    → (g : Heap) × (link_prev h (first ys s) (last none ys) r' r' ≡ some (first ys r', g))
      × Seg g none ys r'
      × SameOutside ys h g
unfolding link_prev
link_prev_lem h [] s r r' t = (h, refl, tt, λ b o. refl)
link_prev_lem h ((b, c) ∷ ys) s r r' t =
    let (g, e, chain, same) = set_next-last h none b c ys r r' t in
    let (l, is_last) = last-some b ys in
    let linked : set_next h (some l) r' ≡ some g = ap (λ p. set_next h p r') (sym is_last) ∙ e in
    (g, rw (is_last, linked) refl, chain, same)

-- The element behind gets a new predecessor.
pub link_next_lem :
    (h : Heap) (q q' : Ptr) (zs : Cells)
    → Seg h q zs none
    → (g : Heap) × (link_next h (first zs none) q' ≡ some g) × Seg g q' zs none × SameOutside zs h g
unfolding link_next set_prev write
link_next_lem h q q' [] t = (h, refl, tt, λ b o. refl)
link_next_lem h q q' ((b, c) ∷ zs) (e, out, t) =
    let v = some (node c q' (first zs none)) in
    (
      write h b v,
      rw e refl,
      (ground arith, out, frame-write h b v (some b) zs none t out),
      ground arith,
    )

-- What list_unlink leaves: the list without the element, and the element freed.
abbrev pub Unlinked : Heap → Cells → ℕ → Cells → Option (Ptr × Heap) → Type 0
Unlinked h xs a ys result =
    (g : Heap) × (result ≡ some (first ys none, g))
    × IsList g ys
    × (g a ≡ none)
    × SameOutside xs h g

-- Unlinking an element of a list: the call returns, with fuel for the elements up to it, the head of
-- the list of the other elements in their order; it frees the element and changes nothing outside the
-- list.
pub list_unlink-IsList :
    (k : ℕ) (h : Heap) (ys : Cells) (a d : ℕ) (zs : Cells)
    → IsList h (ys ++ (a, d) ∷ zs)
    → suc (length ys) ≤ k
    → Unlinked h
        (ys ++ (a, d) ∷ zs)
        a
        (ys ++ zs)
        (list_unlink k h (first (ys ++ (a, d) ∷ zs) none) (some a))
unfolding list_unlink list_contains contains_loop write
list_unlink-IsList k h ys a d zs s n =
    let (front, (here, out, back)) = split h none ys ((a, d) ∷ zs) none s in
    let apart = split-Apart h none ys ((a, d) ∷ zs) none s in
    let new : a ∉ ys = ground (arith, apart a) in
    let member : contains_loop k h (first ys (some a)) a ≡ some true =
      contains-skip k (suc (k - suc (length ys))) h none ys (some a) a front new (omega arith)
      ∙ ground arith in
    let (g1, e1, front1, same1) = link_prev_lem h ys (some a) (some a) (first zs none) front in
    let here1 : g1 a ≡ some (node d (last none ys) (first zs none)) = same1 a new ∙ here in
    let back1 : Seg g1 (some a) zs none =
      frame h g1 (some a) zs none back (λ b i. same1 b ground (arith, apart b)) in
    let (g2, e2, back2, same2) = link_next_lem g1 (some a) (last none ys) zs back1 in
    let front2 : Seg g2 none ys (first zs none) =
      frame g1 g2 none ys (first zs none) front1 (λ b i. same2 b ground (arith, apart b)) in
    let g = write g2 a none in
    let apart' : Apart ys zs = λ b i. ground (arith, apart b i) in
    (
      g,
      rw (first-append ys ((a, d) ∷ zs) none, member, here, e1, here1, e2, first-append ys zs none)
          refl,
      glue g none ys zs none (frame-write g2 a none none ys (first zs none) front2 new)
          (frame-write g2 a none (last none ys) zs none back2 out) apart',
      write_self g2 a none,
      λ b o.
          let (oy, oa, oz) = not-mem-middle b ys a d zs o in
          write_ne g2 a b none oa ∙ same2 b oz ∙ same1 b oy,
    )

-- The list without the first element that holds the data
abbrev pub erase : Cells → ℕ → Cells
erase [] d = []
erase ((a, c) ∷ xs) d = if c == d then xs else (a, c) ∷ erase xs d

-- The first element that holds the data
abbrev pub find_cell : Cells → ℕ → Ptr
find_cell [] d = none
find_cell ((a, c) ∷ xs) d = if c == d then some a else find_cell xs d

pub list_find_lem :
    (k : ℕ) (h : Heap) (q : Ptr) (xs : Cells) (d : ℕ)
    → Seg h q xs none
    → length xs ≤ k
    → list_find k h (first xs none) d ≡ some (find_cell xs d)
unfolding list_find
list_find_lem k h q [] d s n = refl
list_find_lem zero h q ((a, c) ∷ xs) d s n = absurd (omega arith)
list_find_lem (suc k) h q ((a, c) ∷ xs) d (e, out, s) n =
    rw (e, list_find_lem k h (some a) xs d s (omega arith)) ground arith

-- Where the element stands
erase-cases :
    (xs : Cells) (d : ℕ)
    → ((find_cell xs d ≡ none) × (erase xs d ≡ xs))
      ⊎ ((ys zs : Cells) × (a : ℕ) × (find_cell xs d ≡ some a)
          × (xs ≡ ys ++ (a, d) ∷ zs)
          × (erase xs d ≡ ys ++ zs))
erase-cases [] d = inl (refl, refl)
erase-cases ((a, c) ∷ xs) d = elim (Bool-cases (c == d)) [
  | inl e ↦ inr ([], xs, a, rw e refl, ap (λ x. (a, x) ∷ xs) ((==_iff c d).0 e), rw e refl)
  | inr e ↦ elim (erase-cases xs d) [
    | inl (f, g) ↦ inl (rw e f, rw (e, g) refl)
    | inr (ys, zs, b, f, g, g') ↦
        inr ((a, c) ∷ ys, zs, b, rw e f, ap (λ l. (a, c) ∷ l) g, rw (e, g') refl)
  ]
]

-- Removing data from a list: the call returns, with enough fuel for the length of the list, the head
-- of the list without the first element that holds the data, and changes nothing outside the list;
-- that element is freed, and when no element holds the data the memory is as before.
pub list_remove-IsList :
    (k : ℕ) (h : Heap) (xs : Cells) (d : ℕ)
    → IsList h xs
    → length xs ≤ k
    → (g : Heap) × (list_remove k h (first xs none) d ≡ some (first (erase xs d) none, g))
      × IsList g (erase xs d)
      × Untouched xs h g
      × (load g (find_cell xs d) ≡ none)
      × ((is_some (find_cell xs d) ≡ true) ⊎ (g ≡ h))
unfolding list_remove list_unlink
list_remove-IsList k h xs d s n = elim (erase-cases xs d) [
  | inl (f, e) ↦ (
    h,
    rw (list_find_lem k h none xs d s n, f, e) refl,
    rw e s,
    λ b. inr refl,
    rw f refl,
    inr refl,
  )
  | inr (ys, zs, a, f, e, e') ↦
      let few : suc (length ys) ≤ k = omega (arith, ap length e, length-append ys ((a, d) ∷ zs)) in
      let (g, e1, chain, freed, same) =
        list_unlink-IsList k h ys a d zs (subst (λ x. IsList h x) e s) few in
      let result : list_unlink k h (first xs none) (some a) ≡ some (first (erase xs d) none, g) =
        subst (λ x. list_unlink k h (first x none) (some a) ≡ some (first (erase xs d) none, g))
          (sym e) (rw e' e1) in
      (
        g,
        rw (list_find_lem k h none xs d s n, f) result,
        rw e' chain,
        same-Untouched xs h g (λ b o. same b (subst (λ x. b ∉ x) e o)),
        rw f freed,
        inl (rw f refl),
      )
]
