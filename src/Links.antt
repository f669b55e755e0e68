-- ===== src/Links.antt =====
-- The doubly linked lists (common/list.c).
pub mod Heap
pub mod Ops
pub mod Seg
pub mod Grow
pub mod Unlink
pub mod Delete
pub mod Replace
mod Examples
