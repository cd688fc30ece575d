-- ===== src/Pseudo/Tests.antt =====
-- The three file systems at concrete names.
use nix_core_os.Base.{ℕ, ◌≡◌, ◌≢◌, ◌≤◌, refl, [], ◌∷◌, some, pos, codes, arith, take, drop}
use nix_core_os.Text.{strcmp}
use nix_core_os.Pseudo.{Inode, regular}
use nix_core_os.Pseudo.Sysfs.{Entry, sysfs_read, sysfs_write, sysfs_find_entry, find_from}
use nix_core_os.Pseudo.Sysfs.Writing.{sysfs_read-write}
use nix_core_os.Pseudo.Procfs.{procfs_lookup, procfs_read}
use nix_core_os.Pseudo.Procfs.Contents.{decimal, process_text, procfs_read-procfs_lookup}

abbrev buffer : ℕ → ℕ
buffer = λ i. 0

abbrev hostname : Entry
hostname = record { name = codes "hostname"; bytes = λ i. 97; size = 7 }

abbrev version : Entry
version = record { name = codes "version"; bytes = λ i. 35; size = 2 }

abbrev second : Inode
second = record { ino = 3; kind = regular; permissions = 420; size = 7 }

sysfs_read-write_example :
    let root = version ∷ hostname ∷ [] in
    let (root', printed, r) = sysfs_write buffer root second (codes "core") 5 in
    (r ≡ pos 4)
    × (sysfs_read root' second 4 5 ≡ (pos 4, codes "core"))
    × ((k : ℕ) → k ≤ 5 → k ≤ 7 → sysfs_read root' second k 0 ≡ sysfs_read root second k 0)
    × ((other : Inode) (count at : ℕ)
        → other.ino ≢ 3
        → sysfs_read root' other count at ≡ sysfs_read root other count at)
unfolding sysfs_find_entry find_from strcmp
sysfs_read-write_example =
    sysfs_read-write buffer (version ∷ hostname ∷ []) second hostname (codes "core") 5 refl refl
      (omega arith)

procfs_read-procfs_lookup_example :
    (inode : Inode) × (procfs_lookup (decimal buffer 42) ≡ some inode)
    × (procfs_read buffer 9 8 inode 4 6 ≡ some (take 4 (drop 6 (process_text (decimal buffer 42)))))
procfs_read-procfs_lookup_example =
    procfs_read-procfs_lookup buffer 9 8 42 4 6 (omega arith) (omega arith) (omega arith)
