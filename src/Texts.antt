-- ===== src/Texts.antt =====
-- The growing text buffer (common/str.c).
pub mod Str
pub mod Insert
pub mod Calls
pub mod Runs
pub mod Copies
pub mod Own
mod Examples
