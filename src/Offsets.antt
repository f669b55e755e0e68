-- ===== src/Offsets.antt =====
-- The slots that the daemon hands out to its containers: user id ranges and network addresses.
pub mod Slots
pub mod Users
pub mod Nets
mod Examples
