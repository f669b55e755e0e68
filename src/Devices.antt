-- ===== src/Devices.antt =====
-- The device access control of containers (daemon/c_cgroups_dev.c).
pub mod Item
pub mod Rule
pub mod Bpf
pub mod Control
pub mod World
mod Examples
