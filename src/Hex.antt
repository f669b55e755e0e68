-- ===== src/Hex.antt =====
-- Bytes as hexadecimal text (common/hex.c).
pub mod Convert
pub mod RoundTrip
mod Examples
