-- ===== src/Pseudo.antt =====
-- The file systems of the kernel without a disk: kernel/fs/devfs.c, sysfs.c and procfs.c. The bits
-- of `mode` that tell the kinds of files are not defined in the repository: they are constructors
-- here. `kmalloc` is taken to return memory.
pub mod Devfs
pub mod Sysfs
pub mod Procfs
mod Tests
use nix_core_os.Base.{ℕ}

-- `S_IFDIR`, `S_IFREG`, `S_IFCHR` and `S_IFBLK`
pub data Kind : Type 0 where
  directory regular character block : Kind

-- `inode_t`, with its mode in two parts.
pub record Inode : Type 0 where
  pub ino : ℕ
  pub kind : Kind
  pub permissions : ℕ
  pub size : ℕ
