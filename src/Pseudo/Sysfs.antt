-- ===== src/Pseudo/Sysfs.antt =====
-- kernel/fs/sysfs.c: entries with text, found by name or number. `heap` is what memory of `kmalloc`
-- holds before; a file that is written beyond its end keeps it between. A byte behind the end is
-- not read.
pub mod Writing
use nix_core_os.Base.{
  ℕ, zero, suc, ◌+◌, ◌-◌, ◌*◌, ◌/◌, ◌%◌, ◌^◌, Bool, true, false, List, [], ◌∷◌, ◌++◌, Option, none,
  some, ltb, leb, ◌==◌, if◌then◌else◌, ℤ, pos, negsuc, codes, length, take, bytes_at, put_bytes,
  put_byte, get_or,
}
use nix_core_os.Text.{strcmp, is_zero}
use nix_core_os.Pseudo.{Inode, directory, regular}

-- `sysfs_entry_t`; its type is always `S_IFREG`.
pub record Entry : Type 0 where
  pub name : List ℕ
  pub bytes : ℕ → ℕ
  pub size : ℕ

abbrev pub new_entry : (ℕ → ℕ) → List ℕ → List ℕ → Entry
new_entry heap name text = record {
  name = name;
  bytes = put_bytes heap 0 (text ++ 0 ∷ []);
  size = length text;
}

pub sysfs_add_entry : (ℕ → ℕ) → List Entry → List ℕ → List ℕ → List Entry
sysfs_add_entry heap root name text = new_entry heap name text ∷ root

abbrev add_entries : (ℕ → ℕ) → List (List ℕ × List ℕ) → List Entry → List Entry
add_entries heap [] root = root
add_entries heap ((name, text) ∷ rest) root =
    add_entries heap rest (sysfs_add_entry heap root name text)

-- The names and texts of the entries, from the first.
abbrev pub system_entries : List (List ℕ × List ℕ)
system_entries =
    (codes "kernel_version", codes "1.0.0")
    ∷ (codes "hostname", codes "nixcore")
    ∷ (codes "ostype", codes "NixCore")
    ∷ (codes "osrelease", codes "1.0.0")
    ∷ (codes "version", codes "#1 SMP PREEMPT Wed Apr 16 00:00:00 UTC 2026")
    ∷ (codes "power_state", codes "on")
    ∷ (codes "power_control", codes "shutdown reboot suspend")
    ∷ (codes "cpu_online", codes "0-3")
    ∷ (codes "cpu_present", codes "0-3")
    ∷ (codes "cpu_possible", codes "0-3")
    ∷ (codes "mem_total", codes "16777216")
    ∷ (codes "mem_free", codes "8388608")
    ∷ []

pub sysfs_mount : (ℕ → ℕ) → List Entry → List Entry × ℤ
sysfs_mount heap root = (add_entries heap system_entries root, pos 0)

abbrev pub sysfs_get_root : Inode
sysfs_get_root = record { ino = 1; kind = directory; permissions = 493; size = 0 }

-- The loop, with the number of the next entry. Permissions 0644.
pub lookup_from : List Entry → ℕ → List ℕ → Option Inode
lookup_from [] ino name = none
lookup_from (entry ∷ root) ino name =
    if is_zero (strcmp entry.name name)
    then some (record { ino = ino; kind = regular; permissions = 420; size = entry.size })
    else lookup_from root (suc ino) name

pub sysfs_lookup : List Entry → List ℕ → Option Inode
sysfs_lookup root name = lookup_from root 2 name

-- The loop of `sysfs_find_entry`, with the number of the next entry.
unfoldable pub find_from : List Entry → ℕ → ℕ → Option Entry
find_from [] current_ino ino = none
find_from (entry ∷ root) current_ino ino =
    if current_ino == ino then some entry else find_from root (suc current_ino) ino

unfoldable pub sysfs_find_entry : List Entry → ℕ → Option Entry
sysfs_find_entry root ino = find_from root 2 ino

-- The result and the bytes that are stored.
pub sysfs_read : List Entry → Inode → ℕ → ℕ → ℤ × List ℕ
sysfs_read root inode count offset = elim (sysfs_find_entry root inode.ino) [
  | none ↦ (negsuc 0, [])
  | some entry ↦
      if leb entry.size offset
      then (pos 0, [])
      else let count' =
          if ltb entry.size ((offset + count) % 2 ^ 64) then entry.size - offset else count in
        (pos count', bytes_at entry.bytes offset count')
]

-- What `power_control` prints, for the bytes of a command up to its first zero.
abbrev to_zero : List ℕ → List ℕ
to_zero [] = []
to_zero (c ∷ s) = if c == 0 then [] else c ∷ to_zero s

pub power_control : List ℕ → List ℕ
power_control cmd =
    if is_zero (strcmp cmd (codes "shutdown"))
    then codes "System shutting down...\n"
    else if is_zero (strcmp cmd (codes "reboot"))
    then codes "System rebooting...\n"
    else if is_zero (strcmp cmd (codes "suspend"))
    then codes "System suspending...\n"
    else []

-- An entry with `buf` written at `offset`.
pub updated : (ℕ → ℕ) → Entry → List ℕ → ℕ → Entry
updated heap entry buf offset =
    let end = (offset + length buf) % 2 ^ 64 in
    let grown : Entry =
      if ltb entry.size end
      then record entry {
        bytes = λ i. if ltb i entry.size then entry.bytes i else heap i;
        size = end;
      }
      else entry in
    record grown { bytes = put_byte (put_bytes grown.bytes offset buf) grown.size 0 }

-- The entries with the one of a number replaced.
abbrev pub replace_from : List Entry → ℕ → ℕ → Entry → List Entry
replace_from [] current_ino ino entry' = []
replace_from (entry ∷ root) current_ino ino entry' =
    if current_ino == ino
    then entry' ∷ root
    else entry ∷ replace_from root (suc current_ino) ino entry'

-- The entries behind, what is printed, and the result.
pub sysfs_write : (ℕ → ℕ) → List Entry → Inode → List ℕ → ℕ → List Entry × List ℕ × ℤ
sysfs_write heap root inode buf offset = elim (sysfs_find_entry root inode.ino) [
  | none ↦ (root, [], negsuc 0)
  | some entry ↦
      if is_zero (strcmp entry.name (codes "power_control"))
      then (root, power_control (to_zero (take 63 buf)), pos (length (take 63 buf)))
      else (replace_from root 2 inode.ino (updated heap entry buf offset), [], pos (length buf))
]
