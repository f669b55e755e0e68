-- ===== src/Attest.antt =====
-- Remote attestation: the measurements of the tpm daemon (tpm2d/ml.c) and their verification
-- (rattestation/).
pub mod Bytes
pub mod Hash
pub mod Measure
pub mod Containers
pub mod Binding
pub mod Agreement
pub mod Ima
pub mod Log
pub mod Unsigned
pub mod Overflow
pub mod Remains
pub mod Fuel
pub mod Quote
pub mod Led
pub mod Accepted
mod Examples
