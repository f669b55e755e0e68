-- ===== src/Links/Grow.antt =====
-- What the list functions that do not take elements out do to the list (common/list.c).
use cml.Prelude.{
  ℕ, zero, suc, ◌≤◌, ◌≡◌, refl, sym, ap, ◌∙◌, Option, none, some, [], ◌∷◌, ◌++◌, arith, length,
  get_elem?,
}
use cml.Links.Heap.{Ptr, node, Heap, write, set_next, set_prev}
use cml.Links.Ops.{list_tail, list_length, list_append, list_prepend, list_nth, list_nth_data}
use cml.Links.Seg.{
  Cells, ◌∉◌, datas, first, last, Seg, IsList, SameOutside, frame-write, glue, has-append,
  last-some, not-mem_of_none, Untouched, same-Untouched,
}

pub list_tail_lem :
    (k : ℕ) (h : Heap) (q : Ptr) (xs : Cells)
    → Seg h q xs none
    → length xs ≤ k
    → list_tail k h (first xs none) ≡ some (last none xs)
unfolding list_tail
list_tail_lem k h q [] s n = refl
list_tail_lem zero h q ((a, d) ∷ xs) s n = absurd (omega arith)
list_tail_lem (suc k) h q ((a, d) ∷ []) (e, out, s) n = rw e refl
list_tail_lem (suc k) h q ((a, d) ∷ (b, c) ∷ xs) (e, out, s) n =
    rw e (list_tail_lem k h (some a) ((b, c) ∷ xs) s (omega arith))

-- The last element gets a new successor.
pub set_next-last :
    (h : Heap) (q : Ptr) (a d : ℕ) (xs : Cells) (r r' : Ptr)
    → Seg h q ((a, d) ∷ xs) r
    → (g : Heap) × (set_next h (last (some a) xs) r' ≡ some g)
      × Seg g q ((a, d) ∷ xs) r'
      × SameOutside ((a, d) ∷ xs) h g
unfolding set_next write
set_next-last h q a d [] r r' (e, out, s) =
    (write h a (some (node d q r')), rw e refl, (ground arith, refl, tt), ground arith)
set_next-last h q a d ((b, c) ∷ xs) r r' (e, out, s) =
    let (g, e', s', same) = set_next-last h (some a) b c xs r r' s in
    (g, e', (ground (arith, same a), out, s'), λ x o. same x (ground arith))

-- list_length counts the elements.
pub list_length_lem :
    (k : ℕ) (h : Heap) (q : Ptr) (xs : Cells)
    → Seg h q xs none
    → length xs ≤ k
    → list_length k h (first xs none) ≡ some (length xs)
unfolding list_length
list_length_lem k h q [] s n = refl
list_length_lem zero h q ((a, d) ∷ xs) s n = absurd (omega arith)
list_length_lem (suc k) h q ((a, d) ∷ xs) (e, out, s) n =
    rw (e, list_length_lem k h (some a) xs s (omega arith)) refl

-- list_nth_data gives the data pointer at a position, and null behind the end.
pub list_nth_data_lem :
    (h : Heap) (q : Ptr) (xs : Cells) (n : ℕ)
    → Seg h q xs none
    → list_nth_data h (first xs none) n ≡ some (get_elem? (datas xs) n)
unfolding list_nth_data list_nth
list_nth_data_lem h q [] n s = refl
list_nth_data_lem h q ((a, d) ∷ xs) zero (e, out, s) = rw e refl
list_nth_data_lem h q ((a, d) ∷ xs) (suc n) (e, out, s) = rw e (list_nth_data_lem h (some a) xs n s)

-- A list in new memory: a whole list of these cells, behind this pointer, and nothing else changed.
abbrev pub Yields : Heap → Cells → Cells → Option (Ptr × Heap) → Type 0
Yields h xs ys result =
    (g : Heap) × (result ≡ some (first ys none, g)) × IsList g ys × Untouched xs h g

-- Appending data to a list at a new address: the call returns, with enough fuel for the length of the
-- list, the head of a list that has the same elements and then the new one, and changes nothing
-- outside these elements.
pub list_append-IsList :
    (k : ℕ) (h : Heap) (a d : ℕ) (xs : Cells)
    → IsList h xs
    → length xs ≤ k
    → h a ≡ none
    → Yields h (xs ++ (a, d) ∷ []) (xs ++ (a, d) ∷ []) (list_append k h a (first xs none) d)
unfolding list_append list_tail write
list_append-IsList k h a d [] s n unused =
    let h' = write h a (some (node d none none)) in
    (write h' a (some (node d none none)), refl, (ground arith, refl, tt), λ x. ground arith)
list_append-IsList k h a d ((b, c) ∷ xs) s n unused =
    let ys = (b, c) ∷ xs in
    let new : a ∉ ys = not-mem_of_none h a none ys none s unused in
    let h' = write h a (some (node d none none)) in
    let s' : IsList h' ys = frame-write h a (some (node d none none)) none ys none s new in
    let (t, is_tail) = last-some b xs in
    let h'' = write h' a (some (node d (some t) none)) in
    let s'' : IsList h'' ys = frame-write h' a (some (node d (some t) none)) none ys none s' new in
    let (g, e, chain, same) = set_next-last h'' none b c xs none (some a) s'' in
    let tail : list_tail k h' (some b) ≡ some (some t) =
      list_tail_lem k h' none ys s' n ∙ ap some is_tail in
    let linked : set_next h'' (some t) (some a) ≡ some g =
      ap (λ p. set_next h'' p (some a)) (sym is_tail) ∙ e in
    let here : g a ≡ some (node d (some t) none) = same a new ∙ ground arith in
    (
      g,
      rw (tail, linked) refl,
      glue g none ys ((a, d) ∷ []) none chain (rw is_tail (here, refl, tt)) (ground (arith, new)),
      same-Untouched (ys ++ (a, d) ∷ []) h g
          (λ x o. ground (arith, same x, has-append x xs ((a, d) ∷ []))),
    )

-- Prepending likewise
pub list_prepend-IsList :
    (h : Heap) (a d : ℕ) (xs : Cells)
    → IsList h xs
    → h a ≡ none
    → Yields h ((a, d) ∷ xs) ((a, d) ∷ xs) (list_prepend h a (first xs none) d)
unfolding list_prepend write set_prev
list_prepend-IsList h a d [] s unused = (_, refl, (ground arith, refl, tt), λ x. ground arith)
list_prepend-IsList h a d ((b, c) ∷ xs) (e, out, s) unused =
    let first_cell = write h a (some (node d none (some b))) in
    let new : a ∉ (b, c) ∷ xs = not-mem_of_none h a none ((b, c) ∷ xs) none (e, out, s) unused in
    let here : first_cell b ≡ some (node c none (first xs none)) = ground arith in
    let s' = frame-write h a (some (node d none (some b))) (some b) xs none s (ground arith) in
    (
      write first_cell b (some (node c (some a) (first xs none))),
      rw here refl,
      (
        ground arith,
        new,
        (
          ground arith,
          out,
          frame-write first_cell b (some (node c (some a) (first xs none))) (some b) xs none s' out,
        ),
      ),
      λ x. ground arith,
    )
