-- ===== src/Links/Delete.antt =====
-- Freeing a whole list, and what joining two lists leaves behind (common/list.c).
use cml.Prelude.{
  ℕ, zero, suc, ◌+◌, ◌-◌, ◌≤◌, ◌≡◌, refl, sym, ap, ◌∙◌, true, false, none, some, [], ◌∷◌, arith,
  ◌==◌, length, if◌then◌else◌, Bool-cases, ==_iff, subst, inl, inr,
}
use cml.Links.Heap.{Ptr, Heap, write}
use cml.Links.Ops.{
  contains_loop, list_contains, list_length, link_prev, list_unlink, list_delete, list_join,
}
use cml.Links.Seg.{Cells, has, first, Seg, IsList, SameOutside, frame, Apart, Apart-sym, has-head}
use cml.Links.Grow.{set_next-last, list_tail_lem, list_length_lem}
use cml.Links.Unlink.{list_unlink-IsList, contains-skip, link_next_lem}

list_delete_parts :
    (k : ℕ) (h : Heap) (xs : Cells)
    → IsList h xs
    → length xs ≤ k
    → (g : Heap) × (list_delete k h (first xs none) ≡ some g)
      × ((b : ℕ) → has b xs ≡ true → g b ≡ none)
      × SameOutside xs h g
unfolding list_delete
list_delete_parts k h [] s n = (h, refl, λ b i. cc, λ b o. refl)
list_delete_parts zero h ((a, d) ∷ xs) s n = absurd (omega arith)
list_delete_parts (suc k) h ((a, d) ∷ xs) s n =
    let (g1, e1, chain, freed, same1) = list_unlink-IsList (suc k) h [] a d xs s (omega arith) in
    let (g, e, gone, same) = list_delete_parts k g1 xs chain (omega arith) in
    (
      g,
      rw (e1, e) refl,
      λ b i. elim (Bool-cases (b == a)) [
        | inl y ↦
            let b_a : b ≡ a = (==_iff b a).0 y in
            subst (λ x. g x ≡ none) (sym b_a) (same a s.1 ∙ freed)
        | inr y ↦ gone b (ground arith)
      ],
      λ b o. same b (ground arith) ∙ same1 b o,
    )

-- Deleting a list: the call returns, with enough fuel for the length of the list, with every element of
-- the list freed and nothing else changed.
pub list_delete-frees :
    (k : ℕ) (h : Heap) (xs : Cells)
    → IsList h xs
    → length xs ≤ k
    → (g : Heap) × (list_delete k h (first xs none) ≡ some g)
      × ((b : ℕ) → g b ≡ (if has b xs then none else h b))
list_delete-frees k h xs s n =
    let (g, e, gone, same) = list_delete_parts k h xs s n in
    (g, e, λ b. elim (Bool-cases (has b xs)) [ inl y ↦ rw y (gone b y) | inr y ↦ rw y (same b y) ])

-- The elements of a segment, counted on the way to its end
count-skip :
    (k j m : ℕ) (h : Heap) (q : Ptr) (xs : Cells) (r : Ptr)
    → Seg h q xs r
    → k ≡ length xs + j
    → list_length j h r ≡ some m
    → list_length k h (first xs r) ≡ some (length xs + m)
unfolding list_length
count-skip k j m h q [] r s n e =
    let same : k ≡ j = omega arith in ap (λ x. list_length x h r) same ∙ e ∙ ap some (omega arith)
count-skip zero j m h q ((a, d) ∷ xs) r s n e = absurd (omega arith)
count-skip (suc k) j m h q ((a, d) ∷ xs) r (here, out, s) n e =
    rw (here, count-skip k j m h (some a) xs r s (omega arith) e) (ap some (omega arith))

-- Joining two lists that share no element, neither empty: the call returns, with enough fuel for the
-- first, its head, and both lengths are counted from there; but unlinking the first element of the
-- second then returns the head of the rest of the second, without the first list.
pub join-unlink :
    (k j : ℕ) (h : Heap) (a d : ℕ) (xs : Cells) (b c : ℕ) (ys : Cells)
    → IsList h ((a, d) ∷ xs)
    → IsList h ((b, c) ∷ ys)
    → Apart ((a, d) ∷ xs) ((b, c) ∷ ys)
    → suc (length xs) ≤ k
    → suc (length xs) + suc (length ys) ≤ j
    → (g : Heap) × (list_join k h (some a) (some b) ≡ some (some a, g))
      × (list_length j g (some a) ≡ some (suc (length xs) + suc (length ys)))
      × (g' : Heap) × (list_unlink j g (some a) (some b) ≡ some (first ys none, g'))
unfolding list_join list_unlink list_contains contains_loop link_prev
join-unlink k j h a d xs b c ys s t apart n m =
    let (g, e, chain, same) = set_next-last h none a d xs none (some b) s in
    let tail = list_tail_lem k h none ((a, d) ∷ xs) s n in
    let apart' = Apart-sym ((a, d) ∷ xs) ((b, c) ∷ ys) apart in
    let other : has b ((a, d) ∷ xs) ≡ false = apart' b (has-head b c ys) in
    let t' : IsList g ((b, c) ∷ ys) =
      frame h g none ((b, c) ∷ ys) none t (λ x i. same x (apart' x i)) in
    let rest = list_length_lem (j - suc (length xs)) g none ((b, c) ∷ ys) t' (omega arith) in
    let few : j ≡ suc (length xs) + (j - suc (length xs)) = omega arith in
    let member : contains_loop j g (some a) b ≡ some true =
      contains-skip j (suc (j - suc (suc (length xs)))) g none ((a, d) ∷ xs) (some b) b chain other
        (omega arith)
      ∙ ground arith in
    let (g', e', _, _) = link_next_lem g (some b) none ys t'.2 in
    (
      g,
      rw (tail, e) refl,
      count-skip j (j - suc (length xs)) (suc (length ys)) g none ((a, d) ∷ xs) (some b) chain few
          rest,
      write g' b none,
      rw (member, t'.0) (rw t'.0 (rw e' refl)),
    )
