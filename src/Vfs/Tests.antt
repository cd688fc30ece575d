-- ===== src/Vfs/Tests.antt =====
-- A file system with one directory, "docs", and a file in it, "todo"; it keeps no state. Inode 0 is
-- the root, 1 the directory, 2 the file.
use nix_core_os.Base.{
  ℕ, ◌≡◌, ◌≢◌, ◌<◌, ◌≤◌, refl, true, List, [], ◌∷◌, Option, none, some, ◌==◌, if◌then◌else◌, ◌&&◌,
  pos, negsuc, arith, length, drop, take, codes, ◌⊎◌,
}
use nix_core_os.Text.{strcmp, is_zero}
use nix_core_os.Vfs.{
  Operations, File, Vfs, strncmp, find_filesystem, vfs_mount, vfs_lookup, lookup_from, walk, step,
  vfs_open,
}
use nix_core_os.Vfs.Walk.{vfs_mount-lookup}
use nix_core_os.Vfs.Files.{opened, vfs_open_lem}

abbrev todo : List ℕ
todo = codes "sleep"

abbrev find : ℕ → List ℕ → Option ℕ
find i name =
    if (i == 0) && is_zero (strcmp name (codes "docs"))
    then some 1
    else if (i == 1) && is_zero (strcmp name (codes "todo"))
    then some 2
    else none

abbrev flat : Operations Unit ℕ Unit
flat = record {
  name = λ f. codes "flat";
  mount = λ f s device. (s, pos 0);
  get_root = λ f s. (s, some 0);
  lookup = λ i s name. (s, find i name);
  has_ops = λ i. true;
  read = λ i s count offset.
      (s, pos (length (take count (drop offset todo))), take count (drop offset todo));
  write = λ i s buf offset. (s, negsuc 0);
}

abbrev table : ℕ → Option (File ℕ)
table i = if i == 3 then some (record { inode = 2; offset = 1; flags = 0; refcount = 1 }) else none

abbrev system : Vfs Unit ℕ Unit
system = record {
  filesystems = tt ∷ [];
  mounts = record { path = codes "/dev"; fs = tt } ∷ record { path = []; fs = tt } ∷ [];
  open_files = table;
  store = tt;
}

vfs_mount-lookup_example :
    let (v, r) = vfs_mount flat system (codes "disk") (codes "/mnt") (codes "flat") in
    (r ≡ pos 0) × (vfs_lookup flat v (codes "/mnt/docs/todo") ≡ (tt, some 2))
unfolding find_filesystem strcmp
vfs_mount-lookup_example =
    vfs_mount-lookup flat system (codes "disk") (codes "/mnt") (codes "flat") tt tt tt 0
      (codes "docs" ∷ codes "todo" ∷ []) (ground arith) refl refl refl (ground arith)

vfs_open_lem_example :
    let (v', r) = vfs_open flat system (codes "/docs/todo") 0 in
    ((fd : ℕ) × (r ≡ pos fd)
      × (3 ≤ fd)
      × (fd < 256)
      × (table fd ≡ none)
      × ((j : ℕ) → 3 ≤ j → j < fd → table j ≢ none)
      × ((j : ℕ) → v'.open_files j ≡ (if j == fd then some (opened flat 2 0) else table j)))
    ⊎ ((r ≡ negsuc 0)
        × ((j : ℕ) → 3 ≤ j → j < 256 → table j ≢ none)
        × ((j : ℕ) → v'.open_files j ≡ table j))
unfolding vfs_lookup lookup_from strncmp walk step strcmp
vfs_open_lem_example = vfs_open_lem flat system (codes "/docs/todo") 0 tt 2 refl
