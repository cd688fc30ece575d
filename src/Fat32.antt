-- ===== src/Fat32.antt =====
-- kernel/fs/fat32.c: mounting, directories and files of FAT32. The disk is hardware, and a
-- parameter: what `ahci_read` of one sector gets from it, or nothing where it returns 0; `heap` is
-- what memory of `kmalloc` holds before. A byte of a name is a signed `char`, so that the test for
-- a deleted entry, `name[0] == 0xE5`, is never true.
pub mod Chain
pub mod Content
pub mod Served
pub mod Entries
pub mod Directory
pub mod Opened
mod Tests
use nix_core_os.Base.{
  ℕ, zero, suc, ◌+◌, ◌-◌, ◌*◌, ◌/◌, ◌%◌, ◌^◌, Bool, true, false, List, [], ◌∷◌, ◌++◌, Option, none,
  some, ltb, leb, ◌==◌, ◌&&◌, ◌||◌, not, if◌then◌else◌, ℤ, pos, negsuc, take, bytes_at, length,
}
use nix_core_os.Text.{strcmp, is_zero}

abbrev pub Disk : Type 0
Disk = ℕ → Option (ℕ → ℕ)

-- `fat32_data_t`, with the fields of the boot sector that are used.
pub record Fat : Type 0 where
  pub bytes_per_sector : ℕ
  pub sectors_per_cluster : ℕ
  pub data_start : ℕ
  pub root_cluster : ℕ
  pub fat_table : ℕ → ℕ

-- `inode_t`; `mode` says whether it is a directory.
pub record Inode : Type 0 where
  pub ino : ℕ
  pub is_directory : Bool
  pub size : ℕ

-- Clusters from here on end a chain.
abbrev pub end_of_chain : ℕ
end_of_chain = 0x0FFFFFF8

-- Words in memory, the lowest byte first.
abbrev pub word16 : (ℕ → ℕ) → ℕ → ℕ
word16 p a = p a + p (a + 1) * 256

abbrev pub word32 : (ℕ → ℕ) → ℕ → ℕ
word32 p a = word16 p a + word16 p (a + 2) * 2 ^ 16

-- `read_sectors(lba, 1, buf + at)`
pub read_sector : Disk → (ℕ → ℕ) → ℕ → ℕ → ℕ → ℕ
read_sector disk buf at lba = elim (disk lba) [
  | none ↦ buf
  | some sector ↦ λ i. if leb at i && ltb i (at + 512) then sector (i - at) else buf i
]

-- The loop that fills `fat_table`, with `n` sectors left from the i-th on.
pub fat_bytes : Disk → (ℕ → ℕ) → ℕ → ℕ → ℕ → ℕ → (ℕ → ℕ) → ℕ → ℕ
fat_bytes disk buffer start bytes i zero table = table
fat_bytes disk buffer start bytes i (suc n) table =
    let buffer' = read_sector disk buffer 0 ((start + i) % 2 ^ 32) in
    let copied : ℕ → ℕ = elim (disk ((start + i) % 2 ^ 32)) [
      | none ↦ table
      | some sector ↦ λ j.
          if leb (i * bytes) j && ltb j (i * bytes + bytes)
          then buffer' (j - i * bytes)
          else table j
    ] in
    fat_bytes disk buffer' start bytes (suc i) n copied

-- `none` stands for -1.
pub fat32_mount : (ℕ → ℕ) → Disk → Option Fat
fat32_mount heap disk = elim (disk 0) [
  | none ↦ none
  | some boot ↦
      let bytes = word16 boot 11 in
      let start = word16 boot 14 in
      let fat_size = word32 boot 36 in
      let table = fat_bytes disk heap start bytes 0 fat_size heap in
      some (record {
        bytes_per_sector = bytes;
        sectors_per_cluster = boot 13;
        data_start = (start + boot 16 * fat_size) % 2 ^ 32;
        root_cluster = word32 boot 44;
        fat_table = λ c. word32 table (4 * c);
      })
]

pub fat32_get_root : Fat → Inode
fat32_get_root fat = record { ino = fat.root_cluster; is_directory = true; size = 0 }

-- `data_start + (cluster - 2) * sectors_per_cluster`, in 32 bits.
pub first_sector : Fat → ℕ → ℕ
first_sector fat cluster =
    (fat.data_start + (cluster + (2 ^ 32 - 2)) * fat.sectors_per_cluster) % 2 ^ 32

-- The loop that reads the sectors of a cluster, with `n` left from the i-th on.
pub read_from : Disk → Fat → ℕ → ℕ → ℕ → (ℕ → ℕ) → ℕ → ℕ
read_from disk fat sector i zero buf = buf
read_from disk fat sector i (suc n) buf =
    read_from disk fat sector (suc i) n
      (read_sector disk buf (i * fat.bytes_per_sector) ((sector + i) % 2 ^ 32))

pub read_cluster : (ℕ → ℕ) → Disk → Fat → ℕ → ℕ → ℕ
read_cluster heap disk fat cluster =
    read_from disk fat (first_sector fat cluster) 0 fat.sectors_per_cluster heap

-- `strcmp(entry_name, name) == 0`, for the eleven bytes up to the first zero.
abbrev pub to_zero : List ℕ → List ℕ
to_zero [] = []
to_zero (c ∷ s) = if c == 0 then [] else c ∷ to_zero s

pub entry_named : (ℕ → ℕ) → ℕ → List ℕ → Bool
entry_named p at name = is_zero (strcmp (to_zero (bytes_at p at 11)) name)

pub entry_inode : (ℕ → ℕ) → ℕ → Inode
entry_inode p at = record {
  ino = word16 p (at + 20) * 2 ^ 16 + word16 p (at + 26);
  is_directory = not (p (at + 11) / 16 % 2 == 0);
  size = word32 p (at + 28);
}

-- What the search of a cluster ends with.
pub data Found : Type 0 where
  found : Inode → Found
  end_of_directory next_cluster : Found

-- The entries from `at` on, with `n` left.
pub search : (ℕ → ℕ) → List ℕ → ℕ → ℕ → Found
search p name at zero = next_cluster
search p name at (suc n) = elim (p at == 0) [
  | true ↦ end_of_directory
  | false ↦ elim (entry_named p at name) [
    | true ↦ found (entry_inode p at)
    | false ↦ search p name (at + 32) n
  ]
]

abbrev pub cluster_size : Fat → ℕ
cluster_size fat = fat.sectors_per_cluster * fat.bytes_per_sector

-- The loop over the clusters, on fuel: a chain may be a circle.
pub lookup_in : ℕ → (ℕ → ℕ) → Disk → Fat → List ℕ → ℕ → Option Inode
lookup_in zero heap disk fat name cluster = none
lookup_in (suc fuel) heap disk fat name cluster = elim (leb end_of_chain cluster) [
  | true ↦ none
  | false ↦
      elim (search (read_cluster heap disk fat cluster) name 0 ((cluster_size fat + 31) / 32)) [
        | found inode ↦ some inode
        | end_of_directory ↦ none
        | next_cluster ↦ lookup_in fuel heap disk fat name (fat.fat_table cluster)
      ]
]

pub fat32_lookup : ℕ → (ℕ → ℕ) → Disk → Fat → Inode → List ℕ → Option Inode
fat32_lookup fuel heap disk fat dir name = lookup_in fuel heap disk fat name dir.ino

-- The loop that skips `n` clusters; `none` is the return from it.
pub skip_clusters : Fat → ℕ → ℕ → Option ℕ
skip_clusters fat zero cluster = some cluster
skip_clusters fat (suc n) cluster =
    let next = fat.fat_table cluster in
    elim (leb end_of_chain next) [ true ↦ none | false ↦ skip_clusters fat n next ]

-- The loop that reads, with `left` bytes to go. Each round reads a byte at least, so that the bytes
-- to go are enough fuel.
pub read_loop : ℕ → (ℕ → ℕ) → Disk → Fat → ℕ → ℕ → ℕ → List ℕ
read_loop zero heap disk fat cluster start_offset left = []
read_loop (suc fuel) heap disk fat cluster start_offset left =
    elim ((left == 0) || leb end_of_chain cluster) [
      | true ↦ []
      | false ↦
          let room = cluster_size fat - start_offset in
          let to_read = if ltb left room then left else room in
          bytes_at (read_cluster heap disk fat cluster) start_offset to_read
          ++ read_loop fuel heap disk fat (fat.fat_table cluster) 0 (left - to_read)
    ]

-- The bytes that are read; their number is the result. An offset and count are words of 64 bits.
pub fat32_read : (ℕ → ℕ) → Disk → Fat → Inode → ℕ → ℕ → List ℕ
fat32_read heap disk fat inode count offset =
    if leb inode.size offset
    then []
    else let count' =
        if ltb inode.size ((offset + count) % 2 ^ 64) then inode.size - offset else count in
      elim (skip_clusters fat (offset / cluster_size fat) inode.ino) [
        | none ↦ []
        | some cluster ↦ read_loop count' heap disk fat cluster (offset % cluster_size fat) count'
      ]
