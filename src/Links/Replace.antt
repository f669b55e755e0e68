-- ===== src/Links/Replace.antt =====
-- Replacing an element (common/list.c).
use cml.Prelude.{
  ℕ, suc, ◌-◌, ◌≤◌, ◌≡◌, refl, ◌∙◌, true, false, none, some, ◌∷◌, ◌++◌, arith, ◌==◌, length,
}
use cml.Links.Heap.{node, Heap, write, write_self, write_ne}
use cml.Links.Ops.{contains_loop, list_contains, list_replace}
use cml.Links.Seg.{
  Cells, ◌∉◌, first, last, Seg, IsList, frame, frame-write, glue, split, split-Apart, first-append,
  not-mem_of_none, Apart-sym, Apart-tail, Apart-cons, not-mem-middle, Untouched, same-Untouched,
}
use cml.Links.Unlink.{contains-skip, link_prev_lem, link_next_lem}

-- Replacing an element of a list by data at a new address: the call returns, with fuel for the elements
-- up to it, the head of a list with the new element in its place and all others as before; it frees
-- the old element and changes nothing else.
pub list_replace-IsList :
    (k : ℕ) (h : Heap) (a : ℕ) (ys : Cells) (b c : ℕ) (zs : Cells) (d : ℕ)
    → IsList h (ys ++ (b, c) ∷ zs)
    → h a ≡ none
    → suc (length ys) ≤ k
    → (g : Heap) × (list_replace k h a (first (ys ++ (b, c) ∷ zs) none) (some b) d
        ≡ some (first (ys ++ (a, d) ∷ zs) none, g))
      × IsList g (ys ++ (a, d) ∷ zs)
      × (g b ≡ none)
      × Untouched ((a, d) ∷ ys ++ (b, c) ∷ zs) h g
unfolding list_replace list_contains contains_loop write
list_replace-IsList k h a ys b c zs d s unused n =
    let (front, (here, out, back)) = split h none ys ((b, c) ∷ zs) none s in
    let apart = split-Apart h none ys ((b, c) ∷ zs) none s in
    let near = Apart-tail ys b c zs apart in
    let b_new : b ∉ ys = ground (arith, apart b) in
    let whole = not-mem_of_none h a none (ys ++ (b, c) ∷ zs) none s unused in
    let (ay, ab, az) = not-mem-middle a ys b c zs whole in
    let ba : (b == a) ≡ false = ground arith in
    let member : contains_loop k h (first ys (some b)) b ≡ some true =
      contains-skip k (suc (k - suc (length ys))) h none ys (some b) b front b_new (omega arith)
      ∙ ground arith in
    let v = some (node d (last none ys) (first zs none)) in
    let h' = write h a v in
    let front' = frame-write h a v none ys (some b) front ay in
    let back' = frame-write h a v (some b) zs none back az in
    let here' : h' b ≡ some (node c (last none ys) (first zs none)) = write_ne h a b v ba ∙ here in
    let (g1, e1, front1, same1) = link_prev_lem h' ys (some b) (some b) (some a) front' in
    let here1 = same1 b b_new ∙ here' in
    let back1 : Seg g1 (some b) zs none =
      frame h' g1 (some b) zs none back' (λ x i. same1 x (Apart-sym ys zs near x i)) in
    let (g2, e2, back2, same2) = link_next_lem g1 (some b) (some a) zs back1 in
    let front2 : Seg g2 none ys (some a) =
      frame g1 g2 none ys (some a) front1 (λ x i. same2 x (near x i)) in
    let new_cell : g2 a ≡ v = same2 a az ∙ same1 a ay ∙ write_self h a v in
    (
      write g2 b none,
      rw (first-append ys ((b, c) ∷ zs) none, member, here, e1)
          (rw here1 (rw (e2, first-append ys ((a, d) ∷ zs) none) refl)),
      glue (write g2 b none) none ys ((a, d) ∷ zs) none
          (frame-write g2 b none none ys (some a) front2 b_new)
          (write_ne g2 b a none ab ∙ new_cell, az, frame-write g2 b none (some a) zs none back2 out)
          (Apart-cons ys a d zs near ay),
      write_self g2 b none,
      same-Untouched ((a, d) ∷ ys ++ (b, c) ∷ zs) h (write g2 b none) (λ x o.
          let (oy, ob, oz) = not-mem-middle x ys b c zs (ground arith) in
          write_ne g2 b x none ob ∙ same2 x oz ∙ same1 x oy ∙ write_ne h a x v (ground arith)),
    )
