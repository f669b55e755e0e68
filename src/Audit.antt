-- ===== src/Audit.antt =====
-- The audit log (daemon/audit.c).
pub mod Log
pub mod Records
pub mod Queue
mod Examples
