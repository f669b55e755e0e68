-- ===== src/Events.antt =====
-- The timers and the signals of the event loop (common/event.c).
pub mod Time
pub mod Timers
pub mod Timeout
pub mod Weight
pub mod Expiry
pub mod Endless
pub mod Signals
pub mod Dispatched
mod Examples
