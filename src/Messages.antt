-- ===== src/Messages.antt =====
-- Messages between the daemons: transfers through a file descriptor (common/fd.c) and the framing of
-- protobuf messages (common/protobuf.c).
pub mod Fd
pub mod Protobuf
pub mod Transfer
pub mod Delivery
pub mod Broken
mod Examples
