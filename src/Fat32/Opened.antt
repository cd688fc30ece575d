-- ===== src/Fat32/Opened.antt =====
-- Reads of an open FAT32 file through kernel/fs/vfs.c.
use nix_core_os.Vfs.{Vfs}
