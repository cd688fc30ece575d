-- ===== src/Pseudo/Devfs.antt =====
-- kernel/fs/devfs.c: devices by name, and what they read and write. Block devices read and write
-- nothing yet, as the code says. The state is the list of nodes, the last added first.
pub mod Devices
use nix_core_os.Base.{
  ℕ, zero, suc, ◌+◌, ◌*◌, ◌/◌, ◌%◌, ◌^◌, Bool, true, false, List, [], ◌∷◌, Option, none, some, ◌==◌,
  ◌||◌, if◌then◌else◌, ℤ, pos, negsuc, replicate, codes, length,
}
use nix_core_os.Text.{strcmp, is_zero}
use nix_core_os.Format.{rand}
use nix_core_os.Pseudo.{Inode, Kind, directory, character, block}

-- `devfs_node_t`
pub record Node : Type 0 where
  pub name : List ℕ
  pub type : Kind
  pub major : ℕ
  pub minor : ℕ

-- The nodes that are added, from the first; the result is 0.
abbrev pub devices : List Node
devices =
    record { name = codes "null"; type = character; major = 1; minor = 3 }
    ∷ record { name = codes "zero"; type = character; major = 1; minor = 5 }
    ∷ record { name = codes "random"; type = character; major = 1; minor = 8 }
    ∷ record { name = codes "urandom"; type = character; major = 1; minor = 9 }
    ∷ record { name = codes "sda"; type = block; major = 8; minor = 0 }
    ∷ record { name = codes "sda1"; type = block; major = 8; minor = 1 }
    ∷ record { name = codes "sda2"; type = block; major = 8; minor = 2 }
    ∷ []

abbrev add_nodes : List Node → List Node → List Node
add_nodes [] root = root
add_nodes (node ∷ nodes) root = add_nodes nodes (node ∷ root)

pub devfs_mount : List Node → List Node × ℤ
devfs_mount root = (add_nodes devices root, pos 0)

abbrev pub devfs_get_root : Inode
devfs_get_root = record { ino = 1; kind = directory; permissions = 493; size = 0 }

-- Permissions 0666.
pub devfs_lookup : List Node → List ℕ → Option Inode
devfs_lookup [] name = none
devfs_lookup (node ∷ root) name =
    if is_zero (strcmp node.name name)
    then some (record {
      ino = node.major * 256 + node.minor;
      kind = node.type;
      permissions = 438;
      size = 0;
    })
    else devfs_lookup root name

-- The bytes of the loop over `rand`, and its seed behind.
pub random_bytes : ℕ → ℕ → ℕ × List ℕ
random_bytes zero seed = (seed, [])
random_bytes (suc n) seed =
    let (seed', r) = rand seed in
    let (seed'', bytes) = random_bytes n seed' in (seed'', r % 256 ∷ bytes)

-- The seed behind, the result and the bytes that are stored.
pub devfs_read : ℕ → Inode → ℕ → ℕ → ℕ × ℤ × List ℕ
devfs_read seed inode count offset =
    let major = inode.ino / 256 in
    let minor = inode.ino % 256 in
    let (seed', bytes) = random_bytes count seed in
    if major == 1
    then if minor == 3
      then (seed, pos 0, [])
      else if minor == 5
      then (seed, pos count, replicate count 0)
      else if (minor == 8) || minor == 9
      then (seed', pos count, bytes)
      else (seed, negsuc 0, [])
    else if major == 8
    then (seed, pos 0, [])
    else (seed, negsuc 0, [])

pub devfs_write : Inode → List ℕ → ℕ → ℤ
devfs_write inode buf offset =
    let major = inode.ino / 256 in
    let minor = inode.ino % 256 in
    if major == 1
    then if minor == 3 then pos (length buf) else negsuc 0
    else if major == 8
    then pos (length buf)
    else negsuc 0
