-- ===== src/Compartment.antt =====
-- The life cycle of a compartment (daemon/compartment.c).
pub mod State
pub mod Life
pub mod Start
pub mod Signals
pub mod Steps
pub mod Env
mod Examples
