-- ===== src/Scd.antt =====
-- The tokens of the security token daemon and their lock (scd/).
pub mod Soft
pub mod Usb
pub mod Token
pub mod Lockout
pub mod Refused
pub mod Store
pub mod Stored
pub mod Guessing
mod Examples
