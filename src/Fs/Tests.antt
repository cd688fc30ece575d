-- ===== src/Fs/Tests.antt =====
-- A table with a root, a directory and a file in it.
use nix_core_os.Base.{
  ℕ, zero, suc, ◌+◌, ◌%◌, ◌<◌, ◌≡◌, refl, ◌≢◌, ap, false, List, [], ◌∷◌, Option, none, some, ℤ, pos,
  negsuc, arith, inl, inr, length, get_elem?, replicate,
}
use mathlib.Core.Path.{subst}
use nix_core_os.Alloc.Kheap.{memory_init}
use nix_core_os.Text.{strcmp, strncpy}
use nix_core_os.Text.Compare.{IsText}
use nix_core_os.Fs.{
  Node, Fs, Kind, find_file, find_from, matches, same_int, create, get_system_time,
  filesystem_save_to_disk, write_file, write_at, put_content, with_content, read_file, delete_file,
  delete_at, taken_out, change_directory, max_files,
}
use nix_core_os.Fs.Find.{Named}
use nix_core_os.Fs.Content.{read_file-write_file}
use nix_core_os.Fs.Delete.{Deleted, delete_file-Deleted}
use nix_core_os.Fs.Walk.{IsDirectory, IsTree, Stays, change_directory-Stays}

abbrev entry : List ℕ → Kind → ℤ → Option ℕ → Node
entry name kind parent content = record {
  name = name;
  kind = kind;
  size = 0;
  parent_index = parent;
  permissions = 493;
  owner = [];
  group = [];
  created = 60;
  modified = 60;
  content = content;
}

-- "/", "d" in it, "e" in "d", and the file "f" in "e" with its content at 8192.
abbrev fs : Fs
fs = record {
  files =
      entry (47 ∷ []) Kind.directory (negsuc 0) none
      ∷ entry (100 ∷ []) Kind.directory (pos 0) none
      ∷ entry (101 ∷ []) Kind.directory (pos 1) none
      ∷ entry (102 ∷ []) Kind.regular (pos 2) (some 8192)
      ∷ [];
  current_dir = pos 2;
  dirty = false;
  time_counter = 60;
  heap = memory_init;
  mem = λ a. a % 256;
  layout = record { disk_buffer = 65536; table_size = 24576; image = λ files current_dir mem i. 0 };
}

letter-IsText : (c : ℕ) → c ≢ 0 → IsText (c ∷ [])
letter-IsText c h = (h, tt)

fs-Named : Named fs.files
fs-Named zero f h =
    subst (λ x. IsText x) (ap (λ o. elim o [ none ↦ [] | some y ↦ y.name ]) h)
      (letter-IsText 47 (λ e. absurd (omega arith)))
fs-Named (suc zero) f h =
    subst (λ x. IsText x) (ap (λ o. elim o [ none ↦ [] | some y ↦ y.name ]) h)
      (letter-IsText 100 (λ e. absurd (omega arith)))
fs-Named (suc (suc zero)) f h =
    subst (λ x. IsText x) (ap (λ o. elim o [ none ↦ [] | some y ↦ y.name ]) h)
      (letter-IsText 101 (λ e. absurd (omega arith)))
fs-Named (suc (suc (suc zero))) f h =
    subst (λ x. IsText x) (ap (λ o. elim o [ none ↦ [] | some y ↦ y.name ]) h)
      (letter-IsText 102 (λ e. absurd (omega arith)))
fs-Named (suc (suc (suc (suc n)))) f h = absurd (ground arith)

finds : find_file fs (102 ∷ []) (pos 2) ≡ some 3
unfolding find_file find_from matches same_int strcmp
finds = refl

abbrev with_g : Fs
with_g = (create Kind.regular 420 fs (103 ∷ []) (pos 2)).0

creates : create Kind.regular 420 fs (103 ∷ []) (pos 2) ≡ (with_g, pos 4)
unfolding create find_file find_from matches same_int strcmp strncpy get_system_time
    filesystem_save_to_disk
creates = refl

below :
    (i : ℕ) (f : Node) → 0 < i → get_elem? fs.files i ≡ some f → IsDirectory fs.files f.parent_index
below zero f h e = absurd (omega arith)
below (suc zero) f h e =
    subst (λ x. IsDirectory fs.files x)
      (ap (λ o. elim o [ none ↦ pos 0 | some y ↦ y.parent_index ]) e) (_, refl, refl)
below (suc (suc zero)) f h e =
    subst (λ x. IsDirectory fs.files x)
      (ap (λ o. elim o [ none ↦ pos 0 | some y ↦ y.parent_index ]) e) (_, refl, refl)
below (suc (suc (suc zero))) f h e =
    subst (λ x. IsDirectory fs.files x)
      (ap (λ o. elim o [ none ↦ pos 0 | some y ↦ y.parent_index ]) e) (_, refl, refl)
below (suc (suc (suc (suc n)))) f h e = absurd (ground arith)

fs-IsTree : IsTree fs.files
fs-IsTree = record { root = (_, refl, refl); parents = λ i f h e. below i f h e }

change_directory-Stays_example :
    (fs' : Fs) × (r : ℤ) × (change_directory [] 256 fs (46 ∷ 46 ∷ []) ≡ some (fs', r))
    × Stays fs fs' r
change_directory-Stays_example =
    change_directory-Stays 256 fs (46 ∷ 46 ∷ []) fs-IsTree (_, refl, refl) (omega arith)

-- The directory "d" is deleted.
abbrev without_d : Fs
without_d = (taken_out fs 1).0

deletes : delete_file fs (pos 1) ≡ some (without_d, pos 0)
unfolding delete_file delete_at taken_out filesystem_save_to_disk
deletes = refl

delete_file-Deleted_example : (n : ℕ) × (◌≡◌ {A = ℤ} (pos 1) (pos n)) × Deleted fs without_d n
delete_file-Deleted_example = delete_file-Deleted fs without_d (pos 1) deletes

-- Sixteen bytes from the address 256 on are written to "f".
abbrev written_f : Fs
written_f = (write_file fs (pos 3) 256 16).0

writes : write_file fs (pos 3) 256 16 ≡ (written_f, pos 0)
unfolding write_file write_at put_content with_content get_system_time filesystem_save_to_disk
writes = refl

abbrev f_after : Node
f_after = record (entry (102 ∷ []) Kind.regular (pos 2) (some 8192)) { size = 16; modified = 120 }

at_f : get_elem? written_f.files 3 ≡ some f_after
unfolding write_file write_at put_content with_content get_system_time filesystem_save_to_disk
at_f = refl

read_file-write_file_example :
    let (fs'', r) = read_file written_f (pos 3) 512 100 in
    (r ≡ pos 16)
    × ((k : ℕ) → k < 16 → fs''.mem (512 + k) ≡ (256 + k) % 256)
    × (fs''.mem (512 + 16) ≡ 0)
read_file-write_file_example =
    read_file-write_file fs written_f 3 256 16 512 100 8192 f_after writes at_f refl (omega arith)
      (omega arith) (omega arith) (inr (omega arith)) (inr (omega arith)) (inl (omega arith))

-- 32 times the letter "a"
abbrev long_name : List ℕ
long_name = replicate 32 97

letters-IsText : (n : ℕ) → IsText (replicate n 97)
letters-IsText zero = tt
letters-IsText (suc n) = (λ e. absurd (omega arith), letters-IsText n)

abbrev with_long : Fs
with_long = (create Kind.regular 420 fs long_name (pos 2)).0

creates_long : create Kind.regular 420 fs long_name (pos 2) ≡ (with_long, pos 4)
unfolding create find_file find_from matches same_int strcmp strncpy get_system_time
    filesystem_save_to_disk
creates_long = refl

four_entries : length with_long.files < max_files
unfolding create find_file find_from matches same_int strcmp strncpy get_system_time
    filesystem_save_to_disk
four_entries = omega arith
