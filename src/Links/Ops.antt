-- ===== src/Links/Ops.antt =====
-- The list functions (common/list.c). A loop has fuel, one step for each element that it looks at; none
-- is an access to memory that holds no element, or a loop without fuel. The address that malloc
-- gives is an argument.
use cml.Prelude.{ℕ, zero, suc, Bool, true, false, Option, none, some, ◌==◌, if◌then◌else◌, ◌>>=◌}
use cml.Links.Heap.{Ptr, node, Heap, write, set_next, set_prev}

abbrev pub same_ptr : Ptr → Ptr → Bool
same_ptr none none = true
same_ptr (some a) (some b) = a == b
same_ptr _ _ = false

-- list_tail
unfoldable pub list_tail : ℕ → Heap → Ptr → Option Ptr
list_tail k h none = some none
list_tail zero h (some a) = none
list_tail (suc k) h (some a) = do
  e ← h a
  let rest = list_tail k h e.next
  elim e.next [ none ↦ some (some a) | some b ↦ rest ]

-- list_contains, for an element that is not null in its loop
unfoldable pub contains_loop : ℕ → Heap → Ptr → ℕ → Option Bool
contains_loop k h none elem = some false
contains_loop zero h (some a) elem = none
contains_loop (suc k) h (some a) elem = do
  let rest = h a >>= λ e. contains_loop k h e.next elem
  if a == elem then some true else rest

unfoldable pub list_contains : ℕ → Heap → Ptr → Ptr → Option Bool
unfolding contains_loop
list_contains k h list none = some false
list_contains k h list (some elem) = contains_loop k h list elem

-- list_find
unfoldable pub list_find : ℕ → Heap → Ptr → ℕ → Option Ptr
list_find k h none d = some none
list_find zero h (some a) d = none
list_find (suc k) h (some a) d = do
  e ← h a
  let rest = list_find k h e.next d
  if e.content == d then some (some a) else rest

-- list_length; the count stays below 2 ^ 32 as every element takes more than one byte.
unfoldable pub list_length : ℕ → Heap → Ptr → Option ℕ
list_length k h none = some 0
list_length zero h (some a) = none
list_length (suc k) h (some a) = do e ← h a; rest ← list_length k h e.next; some (suc rest)

-- list_nth, which runs at most n times
unfoldable pub list_nth : Heap → Ptr → ℕ → Option Ptr
list_nth h none n = some none
list_nth h (some a) zero = some (some a)
list_nth h (some a) (suc n) = h a >>= λ e. list_nth h e.next n

unfoldable pub list_nth_data : Heap → Ptr → ℕ → Option (Option ℕ)
unfolding list_nth
list_nth_data h list n = do
  e ← list_nth h list n
  elim e [ none ↦ some none | some a ↦ (h a >>= λ v. some (some v.content)) ]

-- list_append
unfoldable pub list_append : ℕ → Heap → ℕ → Ptr → ℕ → Option (Ptr × Heap)
unfolding list_tail set_next write
list_append k h a list d = do
  let h' = write h a (some (node d none none))
  tail ← list_tail k h' list
  let g = write h' a (some (node d tail none))
  elim tail [
    | none ↦ some (some a, g)
    | some b ↦ (set_next g (some b) (some a) >>= λ g'. some (list, g'))
  ]

-- list_prepend
unfoldable pub list_prepend : Heap → ℕ → Ptr → ℕ → Option (Ptr × Heap)
unfolding set_prev write
list_prepend h a list d =
    let g = write h a (some (node d none list)) in
    elim list [
      | none ↦ some (some a, g)
      | some b ↦ (set_prev g (some b) (some a) >>= λ g'. some (some a, g'))
    ]

-- list_join
unfoldable pub list_join : ℕ → Heap → Ptr → Ptr → Option (Ptr × Heap)
unfolding list_tail set_next
list_join k h none append = some (append, h)
list_join k h (some a) none = some (some a, h)
list_join k h (some a) (some b) = do
  tail ← list_tail k h (some a)
  g ← set_next h tail (some b)
  some (some a, g)

-- The first test of list_unlink and of list_replace: with the head, the previous element or the head
-- is given a new successor.
unfoldable pub link_prev : Heap → Ptr → Ptr → Ptr → Ptr → Option (Ptr × Heap)
unfolding set_next
link_prev h list none new_head next = some (new_head, h)
link_prev h list (some b) new_head next = set_next h (some b) next >>= λ g. some (list, g)

-- The second test: the next element, if there is one, is given a new predecessor.
unfoldable pub link_next : Heap → Ptr → Ptr → Option Heap
unfolding set_prev
link_next h none prev = some h
link_next h (some b) prev = set_prev h (some b) prev

-- list_unlink
unfoldable pub list_unlink : ℕ → Heap → Ptr → Ptr → Option (Ptr × Heap)
unfolding list_contains link_prev link_next write
list_unlink k h list none = some (list, h)
list_unlink k h list (some a) = do
  member ← list_contains k h list (some a)
  let unlinked = do
    e ← h a
    linked ← link_prev h list e.prev e.next e.next
    e' ← linked.1 a
    g ← link_next linked.1 e'.next e'.prev
    some (linked.0, write g a none)
  if member then unlinked else some (list, h)

-- list_remove
unfoldable pub list_remove : ℕ → Heap → Ptr → ℕ → Option (Ptr × Heap)
unfolding list_unlink list_find
list_remove k h list d = list_find k h list d >>= λ e. list_unlink k h list e

-- list_delete
unfoldable pub list_delete : ℕ → Heap → Ptr → Option Heap
unfolding list_unlink
list_delete k h none = some h
list_delete zero h (some a) = none
list_delete (suc k) h (some a) = do
  rest ← list_unlink (suc k) h (some a) (some a)
  list_delete k rest.1 rest.0

-- list_replace
unfoldable pub list_replace : ℕ → Heap → ℕ → Ptr → Ptr → ℕ → Option (Ptr × Heap)
unfolding list_contains link_prev link_next write
list_replace k h a list none d = some (list, h)
list_replace k h a list (some b) d = do
  member ← list_contains k h list (some b)
  let replaced = do
    elem ← h b
    let h' = write h a (some (node d elem.prev elem.next))
    linked ← link_prev h' list elem.prev (some a) (some a)
    elem' ← linked.1 b
    g ← link_next linked.1 elem'.next (some a)
    some (linked.0, write g b none)
  if member then replaced else some (list, h)
