-- ===== src/Fat32/Tests.antt =====
-- A volume with one sector in a cluster: the root directory in cluster 2, a file in the clusters 3
-- and 5.
use nix_core_os.Base.{
  ℕ, ◌+◌, ◌*◌, ◌%◌, ◌≡◌, refl, true, false, length, pos, negsuc, [], ◌∷◌, none, some, ◌==◌,
  if◌then◌else◌, arith, codes, put_bytes,
}
use nix_core_os.Text.{strcmp}
use nix_core_os.Fat32.{
  Fat, Inode, fat32_mount, fat32_get_root, fat32_read, fat32_lookup, lookup_in, search,
  read_cluster, read_from, read_sector, entry_named, entry_inode, first_sector,
}
use nix_core_os.Fat32.Entries.{directory_entries}
use nix_core_os.Fat32.Directory.{Says, fat32_lookup_lem}
use nix_core_os.Fat32.Content.{disk_of}
use nix_core_os.Vfs.{Operations, File, Vfs}
use nix_core_os.Fat32.Served.{fat32_read_lem}

abbrev heap : ℕ → ℕ
heap = λ i. 0

-- The directory has a volume name and the file.
abbrev directory : ℕ → ℕ
directory =
    put_bytes (put_bytes (put_bytes (λ i. 0) 0 (codes "NIXCORE    ")) 32 (codes "HELLO   TXT")) 58
      (3 ∷ 0 ∷ 88 ∷ 2 ∷ [])

abbrev sectors : ℕ → ℕ → ℕ
sectors lba i = if lba == 40 then directory i else (lba * 7 + i) % 251

abbrev volume : Fat
volume = record {
  bytes_per_sector = 512;
  sectors_per_cluster = 1;
  data_start = 40;
  root_cluster = 2;
  fat_table = λ c. if c == 3 then 5 else 0x0FFFFFFF;
}

abbrev hello : Inode
hello = record { ino = 3; is_directory = false; size = 600 }

-- Four bytes across the end of the first cluster.
fat32_read_lem_example :
    fat32_read heap (disk_of sectors) volume hello 4 510 ≡ 44 ∷ 45 ∷ 50 ∷ 51 ∷ []
unfolding first_sector
fat32_read_lem_example =
    fat32_read_lem heap sectors volume hello (3 ∷ 5 ∷ []) 4 510 refl (omega arith)
      (refl, omega arith, (refl, omega arith, omega arith)) (omega arith) (omega arith)

finds_hello :
    fat32_lookup 2 heap (disk_of sectors) volume (fat32_get_root volume) (codes "HELLO   TXT")
    ≡ some hello
unfolding fat32_lookup lookup_in search read_cluster read_from read_sector entry_named entry_inode
    first_sector strcmp fat32_get_root
finds_hello = refl

-- The entry for the file is behind the one for the volume's name.
fat32_lookup_lem_example :
    Says
      (codes "HELLO   TXT")
      (directory_entries sectors volume (2 ∷ []))
      (fat32_lookup 2 heap (disk_of sectors) volume (fat32_get_root volume) (codes "HELLO   TXT"))
unfolding fat32_get_root
fat32_lookup_lem_example =
    fat32_lookup_lem heap sectors volume (fat32_get_root volume) (codes "HELLO   TXT") (2 ∷ []) 2
      refl (ground arith) (refl, omega arith, omega arith) (omega arith)

-- The file system with its one volume, and the file open at offset 510.
abbrev mounted : Operations Unit Inode Unit
mounted = record {
  name = λ f. codes "fat32";
  mount = λ f s device. (s, pos 0);
  get_root = λ f s. (s, some (fat32_get_root volume));
  lookup = λ dir s name. (s, fat32_lookup 3 heap (disk_of sectors) volume dir name);
  has_ops = λ inode. true;
  read = λ inode s count offset.
      let bytes = fat32_read heap (disk_of sectors) volume inode count offset in
      (s, pos (length bytes), bytes);
  write = λ inode s buf offset. (s, negsuc 0);
}

abbrev opened : File Inode
opened = record { inode = hello; offset = 510; flags = 0; refcount = 1 }

abbrev system : Vfs Unit Inode Unit
system = record {
  filesystems = tt ∷ [];
  mounts = record { path = codes "/"; fs = tt } ∷ [];
  open_files = λ i. if i == 3 then some opened else none;
  store = tt;
}

-- A disk that cannot be read is not mounted.
no_disk : fat32_mount heap (λ lba. none) ≡ none
unfolding fat32_mount
no_disk = refl
