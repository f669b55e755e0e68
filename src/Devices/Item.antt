-- ===== src/Devices/Item.antt =====
-- A device rule as the code keeps it: c_cgroups_dev_item_t of daemon/c_cgroups_dev.c, and the
-- kernel's numbers for device types and accesses that the file uses.
use cml.Prelude.{ℕ, ℤ}

-- `major` and `minor` hold -1 for the wildcard, `type` is 0 for any type.
pub record Item : Type 0 where
  pub major : ℤ
  pub minor : ℤ
  pub type : ℕ
  pub access : ℕ

-- BPF_DEVCG_DEV_BLOCK and BPF_DEVCG_DEV_CHAR
abbrev pub dev_block : ℕ
dev_block = 1

abbrev pub dev_char : ℕ
dev_char = 2

-- BPF_DEVCG_ACC_MKNOD, BPF_DEVCG_ACC_READ and BPF_DEVCG_ACC_WRITE
abbrev pub acc_mknod : ℕ
acc_mknod = 1

abbrev pub acc_read : ℕ
acc_read = 2

abbrev pub acc_write : ℕ
acc_write = 4

abbrev pub acc_all : ℕ
acc_all = 7
