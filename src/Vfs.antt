-- ===== src/Vfs.antt =====
-- kernel/fs/vfs.c: file systems, mounts, the walk along a path, and open files. The operations that a file
-- system installs are a parameter, with a state of their own; `kmalloc` is taken to return memory, and
-- a path component to fit its 256 bytes.
pub mod Walk
pub mod Files
mod Tests
use nix_core_os.Base.{
  ℕ, zero, suc, ◌+◌, ◌-◌, Bool, true, false, List, [], ◌∷◌, ◌++◌, Option, none, some, ltb, leb,
  ◌==◌, ◌&&◌, not, if◌then◌else◌, ℤ, pos, negsuc, length, drop, get_or,
}
use nix_core_os.Text.{strcmp, is_zero}

-- `filesystem_operations_t`, `inode_operations_t` and `file_operations_t`, over file systems `F`, inodes `I` and
-- the state `S` of all file systems. `read` and `write` are the members of `file_operations_t`, which are
-- called through `inode->ops`. `has_ops` is `inode->fs && inode->fs->ops`.
pub record Operations (F I S : Type 0) : Type 0 where
  pub name : F → List ℕ
  pub mount : F → S → List ℕ → S × ℤ
  pub get_root : F → S → S × Option I
  pub lookup : I → S → List ℕ → S × Option I
  pub has_ops : I → Bool
  pub read : I → S → ℕ → ℕ → S × ℤ × List ℕ
  pub write : I → S → List ℕ → ℕ → S × ℤ

-- `mount_t`
pub record Mount (F : Type 0) : Type 0 where
  pub path : List ℕ
  pub fs : F

-- `file_t`
pub record File (I : Type 0) : Type 0 where
  pub inode : I
  pub offset : ℕ
  pub flags : ℕ
  pub refcount : ℕ

-- The static variables, and the state of the file systems.
pub record Vfs (F I S : Type 0) : Type 0 where
  pub filesystems : List F
  pub mounts : List (Mount F)
  pub open_files : ℕ → Option (File I)
  pub store : S

-- Whether `strncmp` of this file returns 0.
unfoldable pub strncmp : List ℕ → List ℕ → ℕ → Bool
strncmp s t zero = true
strncmp [] [] (suc n) = true
strncmp [] (d ∷ t) (suc n) = false
strncmp (c ∷ s) [] (suc n) = false
strncmp (c ∷ s) (d ∷ t) (suc n) = if c == d then strncmp s t n else false

abbrev pub skip_slash : List ℕ → List ℕ
skip_slash [] = []
skip_slash (c ∷ p) = if c == 47 then p else c ∷ p

module _ {F I S : Type 0} (ops : Operations F I S) where
  pub vfs_register_filesystem : Vfs F I S → Option F → Vfs F I S × ℤ
  vfs_register_filesystem v none = (v, negsuc 0)
  vfs_register_filesystem v (some fs) = (record v { filesystems = fs ∷ v.filesystems }, pos 0)

  pub vfs_init : Vfs F I S → Option F → Option F → Option F → Option F → Vfs F I S
  vfs_init v fat32 ext2 devfs procfs =
      let v0 = record v { open_files = λ i. if ltb i 256 then none else v.open_files i } in
      let v1 = (vfs_register_filesystem v0 fat32).0 in
      let v2 = (vfs_register_filesystem v1 ext2).0 in
      let v3 = (vfs_register_filesystem v2 devfs).0 in (vfs_register_filesystem v3 procfs).0

  pub find_filesystem : List F → List ℕ → Option F
  find_filesystem [] fstype = none
  find_filesystem (fs ∷ r) fstype =
      if is_zero (strcmp (ops.name fs) fstype) then some fs else find_filesystem r fstype

  -- `path` is copied into the 1024 bytes of the mount without a check, and must be shorter.
  pub vfs_mount : Vfs F I S → List ℕ → List ℕ → List ℕ → Vfs F I S × ℤ
  vfs_mount v device path fstype = elim (find_filesystem v.filesystems fstype) [
    | none ↦ (v, negsuc 0)
    | some fs ↦
        let (store, r) = ops.mount fs v.store device in
        if is_zero r
        then (
          record v { mounts = record { path = path; fs = fs } ∷ v.mounts; store = store },
          pos 0,
        )
        else (record v { store = store }, negsuc 0)
  ]

  -- `if (i > 0)` behind a component.
  pub step : S → I → List ℕ → S × Option I
  step store current [] = (store, some current)
  step store current (c ∷ component) = ops.lookup current store (c ∷ component)

  -- The loop over the path, with the part of the component that has been read. `component` has 256
  -- bytes and is filled without a check, so a component must be shorter.
  pub walk : List ℕ → List ℕ → S → I → S × Option I
  walk [] component store current = step store current component
  walk (c ∷ p) component store current = elim (c == 47) [
    | false ↦ walk p (component ++ c ∷ []) store current
    | true ↦
        let (store', found) = step store current component in
        elim found [ none ↦ (store', none) | some next ↦ walk p [] store' next ]
  ]

  -- The loop over the mounts.
  pub lookup_from : List (Mount F) → S → List ℕ → S × Option I
  lookup_from [] store path = (store, none)
  lookup_from (m ∷ r) store path =
      let len = length m.path in
      elim (strncmp path m.path len) [
        | false ↦ lookup_from r store path
        | true ↦
            let (store', root) = ops.get_root m.fs store in
            elim root [
              | none ↦ (store', none)
              | some inode ↦ walk (skip_slash (drop len path)) [] store' inode
            ]
      ]

  pub vfs_lookup : Vfs F I S → List ℕ → S × Option I
  vfs_lookup v path = lookup_from v.mounts v.store path

  -- The search for a descriptor from `i` on, with `n` left.
  pub free_file : (ℕ → Option (File I)) → ℕ → ℕ → Option ℕ
  free_file files i zero = none
  free_file files i (suc n) = elim (files i) [ none ↦ some i | some f ↦ free_file files (suc i) n ]

  -- A file that is not there is not created, whatever the flags say.
  pub vfs_open : Vfs F I S → List ℕ → ℕ → Vfs F I S × ℤ
  vfs_open v path flags =
      let (store, found) = vfs_lookup v path in
      elim found [
        | none ↦ (record v { store = store }, negsuc 0)
        | some inode ↦ elim (free_file v.open_files 3 253) [
          | none ↦ (record v { store = store }, negsuc 0)
          | some fd ↦ (
            record v {
              store = store;
              open_files = λ i.
                  if i == fd
                  then some (record { inode = inode; offset = 0; flags = flags; refcount = 1 })
                  else v.open_files i;
            },
            pos fd,
          )
        ]
      ]

  -- `fd < 0 || fd >= 256 || !open_files[fd]`
  pub file_at : Vfs F I S → ℤ → Option (ℕ × File I)
  file_at v (negsuc n) = none
  file_at v (pos n) =
      if ltb n 256 then elim (v.open_files n) [ none ↦ none | some f ↦ some (n, f) ] else none

  -- The file is freed if nothing else refers to it.
  pub vfs_close : Vfs F I S → ℤ → Vfs F I S × ℤ
  vfs_close v fd = elim (file_at v fd) [
    | none ↦ (v, negsuc 0)
    | some (n, f) ↦ (record v { open_files = λ i. if i == n then none else v.open_files i }, pos 0)
  ]

  -- `if (bytes > 0) file->offset += bytes;`
  abbrev pub advance : Vfs F I S → ℕ → File I → S → ℤ → Vfs F I S
  advance v n f store (negsuc m) = record v { store = store }
  advance v n f store (pos m) = record v {
    store = store;
    open_files = λ i. if i == n then some (record f { offset = f.offset + m }) else v.open_files i;
  }

  pub vfs_read : Vfs F I S → ℤ → ℕ → Vfs F I S × ℤ × List ℕ
  vfs_read v fd count = elim (file_at v fd) [
    | none ↦ (v, negsuc 0, [])
    | some (n, f) ↦
        let (store, bytes, buf) = ops.read f.inode v.store count f.offset in
        if ops.has_ops f.inode then (advance v n f store bytes, bytes, buf) else (v, negsuc 0, [])
  ]

  pub vfs_write : Vfs F I S → ℤ → List ℕ → Vfs F I S × ℤ
  vfs_write v fd buf = elim (file_at v fd) [
    | none ↦ (v, negsuc 0)
    | some (n, f) ↦
        let (store, bytes) = ops.write f.inode v.store buf f.offset in
        if ops.has_ops f.inode then (advance v n f store bytes, bytes) else (v, negsuc 0)
  ]
