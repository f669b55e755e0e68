-- ===== src/Links/Heap.antt =====
-- The memory that list elements live in (common/list.h), and the writes to their fields.
use cml.Prelude.{ℕ, ◌≡◌, refl, false, arith, Option, none, some, ◌==◌, if◌then◌else◌, ◌>>=◌}

-- A null pointer is none.
abbrev pub Ptr : Type 0
Ptr = Option ℕ

-- struct list; `content` is its data pointer, a number.
pub record Node : Type 0 where
  pub content : ℕ
  pub prev : Ptr
  pub next : Ptr

abbrev pub node : ℕ → Ptr → Ptr → Node
node d p n = record { content = d; prev = p; next = n }

-- The elements that are allocated
abbrev pub Heap : Type 0
Heap = ℕ → Option Node

unfoldable pub write : Heap → ℕ → Option Node → Heap
write h a v b = if b == a then v else h b

pub write_self : (h : Heap) (a : ℕ) (v : Option Node) → write h a v a ≡ v
unfolding write
write_self h a v = ground arith

pub write_ne : (h : Heap) (a b : ℕ) (v : Option Node) → (b == a) ≡ false → write h a v b ≡ h b
unfolding write
write_ne h a b v o = rw o refl

-- Accesses through a pointer; none is an access to memory that holds no element.
abbrev pub load : Heap → Ptr → Option Node
load h none = none
load h (some a) = h a

unfoldable pub set_next : Heap → Ptr → Ptr → Option Heap
unfolding write
set_next h none v = none
set_next h (some a) v = h a >>= λ n. some (write h a (some (record n { next = v })))

unfoldable pub set_prev : Heap → Ptr → Ptr → Option Heap
unfolding write
set_prev h none v = none
set_prev h (some a) v = h a >>= λ n. some (write h a (some (record n { prev = v })))
