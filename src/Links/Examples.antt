-- ===== src/Links/Examples.antt =====
-- A list of two elements in a memory (common/list.c).
use cml.Prelude.{ℕ, ◌≡◌, refl, true, none, some, [], ◌∷◌, arith, ◌==◌, if◌then◌else◌, ◌⊎◌}
use cml.Links.Heap.{node, Heap, load}
use cml.Links.Ops.{list_append, list_remove, list_delete, list_replace}
use cml.Links.Seg.{Cells, IsList, Untouched, has}
use cml.Links.Grow.{Yields, list_append-IsList}
use cml.Links.Unlink.{list_remove-IsList}
use cml.Links.Delete.{list_delete-frees}
use cml.Links.Replace.{list_replace-IsList}

-- The list 1, 2 at the addresses 10 and 20, and another element
abbrev memory : Heap
memory a =
    if a == 10
    then some (node 1 none (some 20))
    else if a == 20
    then some (node 2 (some 10) none)
    else if a == 30
    then some (node 3 none none)
    else none

abbrev two_cells : Cells
two_cells = (10, 1) ∷ (20, 2) ∷ []

two_cells-IsList : IsList memory two_cells
two_cells-IsList = (refl, refl, (refl, refl, tt))

list_append-IsList_example :
    Yields memory
      ((10, 1) ∷ (20, 2) ∷ (40, 4) ∷ [])
      ((10, 1) ∷ (20, 2) ∷ (40, 4) ∷ [])
      (list_append 2 memory 40 (some 10) 4)
list_append-IsList_example =
    list_append-IsList 2 memory 40 4 two_cells two_cells-IsList (omega arith) refl

list_remove-IsList_example :
    (g : Heap) × (list_remove 2 memory (some 10) 1 ≡ some (some 20, g))
    × IsList g ((20, 2) ∷ [])
    × Untouched two_cells memory g
    × (load g (some 10) ≡ none)
    × ((true ≡ true) ⊎ (g ≡ memory))
list_remove-IsList_example = list_remove-IsList 2 memory two_cells 1 two_cells-IsList (omega arith)

list_delete-frees_example :
    (g : Heap) × (list_delete 2 memory (some 10) ≡ some g)
    × ((b : ℕ) → g b ≡ (if has b two_cells then none else memory b))
list_delete-frees_example = list_delete-frees 2 memory two_cells two_cells-IsList (omega arith)

list_replace-IsList_example :
    (g : Heap) × (list_replace 2 memory 40 (some 10) (some 20) 5 ≡ some (some 10, g))
    × IsList g ((10, 1) ∷ (40, 5) ∷ [])
    × (g 20 ≡ none)
    × Untouched ((40, 5) ∷ two_cells) memory g
list_replace-IsList_example =
    list_replace-IsList 2 memory 40 ((10, 1) ∷ []) 20 2 [] 5 two_cells-IsList refl (omega arith)
