-- ===== src/Fs.antt =====
-- fs/filesystem.c: the table of files and directories. It is built with the 32-bit kernel, with the heap
-- of lib/memory.c and the strings of lib/string.c. The sectors of the disk are not part of the state.
-- `filesystem_save_to_disk` copies the table over what lies behind a buffer of 512 bytes: the bytes of
-- memory that it overwrites are those of the model, and the variables of this state, and the headers
-- of the heap's blocks, are taken to lie elsewhere.
pub mod Find
pub mod Create
pub mod Content
pub mod Delete
pub mod Walk
mod Tests
use nix_core_os.Base.{
  ℕ, zero, suc, ◌+◌, ◌-◌, ◌*◌, ◌/◌, ◌%◌, ◌^◌, Bool, true, false, List, [], ◌∷◌, ◌++◌, Option, none,
  some, leb, ltb, ◌==◌, ◌&&◌, ◌||◌, not, if◌then◌else◌, ℤ, pos, negsuc, length, set, get_elem?,
  drop, map,
}
use nix_core_os.Mem.{Mem, store, copy_bytes, fill_bytes}
use nix_core_os.Alloc.Kheap.{Heap, kmalloc, kfree}
use nix_core_os.Text.{strcmp, strncpy, strtok, is_zero, head}

abbrev pub max_files : ℕ
max_files = 256

abbrev pub max_file_size : ℕ
max_file_size = 4096

abbrev pub max_filename : ℕ
max_filename = 32

abbrev pub max_path : ℕ
max_path = 256

-- FILE_TYPE_REGULAR and FILE_TYPE_DIRECTORY
pub data Kind : Type 0 where
  regular directory : Kind

abbrev pub is_directory : Kind → Bool
is_directory Kind.regular = false
is_directory Kind.directory = true

-- `file_node_t`; a string is the list of its bytes, and `content` a pointer.
pub record Node : Type 0 where
  pub name : List ℕ
  pub kind : Kind
  pub size : ℕ
  pub parent_index : ℤ
  pub permissions : ℕ
  pub owner : List ℕ
  pub group : List ℕ
  pub created : ℕ
  pub modified : ℕ
  pub content : Option ℕ

-- Where the compiler puts `disk_buffer`, `sizeof(filesystem_t)`, and the bytes that a copy of `fs` reads: those
-- of the table, with what memory holds in the entries from `file_count` on.
pub record Layout : Type 0 where
  pub disk_buffer : ℕ
  pub table_size : ℕ
  pub image : List Node → ℤ → Mem → ℕ → ℕ

-- `filesystem_t`, with the part of `files` below `file_count`; the file's other static variables; the
-- heap and the memory that it calls on.
pub record Fs : Type 0 where
  pub files : List Node
  pub current_dir : ℤ
  pub dirty : Bool
  pub time_counter : ℕ
  pub heap : Heap
  pub mem : Mem
  pub layout : Layout

-- "nixuser"
abbrev pub nixuser : List ℕ
nixuser = 110 ∷ 105 ∷ 120 ∷ 117 ∷ 115 ∷ 101 ∷ 114 ∷ []

abbrev pub slash : List ℕ
slash = 47 ∷ []

pub same_int : ℤ → ℤ → Bool
same_int (pos a) (pos b) = a == b
same_int (negsuc a) (negsuc b) = a == b
same_int _ _ = false

-- `fs.files[i]` for an index that has been compared with 0 and `file_count`.
abbrev pub node : List Node → ℤ → Option Node
node files (pos i) = get_elem? files i
node files (negsuc i) = none

pub get_system_time : Fs → Fs × ℕ
get_system_time fs = let t = (fs.time_counter + 60) % 2 ^ 32 in (record fs { time_counter = t }, t)

-- The two marks and the table, which go to `disk_buffer` and, without a check, over what lies behind it.
pub table_image : Fs → Mem
table_image fs a =
    let l = fs.layout in
    if leb l.disk_buffer a && ltb a (l.disk_buffer + 2 + l.table_size)
    then if a == l.disk_buffer
      then 0xAA
      else if a == l.disk_buffer + 1
      then 0x55
      else l.image fs.files fs.current_dir fs.mem (a - (l.disk_buffer + 2))
    else fs.mem a

-- The sectors that are written then are not part of this state.
pub filesystem_save_to_disk : Fs → Fs
filesystem_save_to_disk fs =
    if fs.dirty then record fs { mem = table_image fs; dirty = false } else fs

abbrev pub saved : Fs → Fs
saved fs = filesystem_save_to_disk (record fs { dirty = true })

-- `fs.files[i].parent_index == parent_dir && strcmp(fs.files[i].name, name) == 0`
pub matches : List ℕ → ℤ → Node → Bool
matches name parent_dir f = same_int f.parent_index parent_dir && is_zero (strcmp f.name name)

-- The loop of `find_file` from index `i` on; `none` stands for -1.
pub find_from : ℕ → List Node → List ℕ → ℤ → Option ℕ
find_from i [] name parent_dir = none
find_from i (f ∷ r) name parent_dir =
    if matches name parent_dir f then some i else find_from (i + 1) r name parent_dir

pub find_file : Fs → List ℕ → ℤ → Option ℕ
find_file fs name parent_dir = find_from 0 fs.files name parent_dir

-- `create_file` and `create_directory` differ in the type and the permissions.
pub create : Kind → ℕ → Fs → List ℕ → ℤ → Fs × ℤ
create kind permissions fs name parent_dir =
    if leb max_files (length fs.files)
    then (fs, negsuc 0)
    else elim (find_file fs name parent_dir) [
      | some i ↦ (fs, negsuc 1)
      | none ↦
          let (timed, t) = get_system_time fs in
          let file : Node = record {
            name = strncpy name (max_filename - 1);
            kind = kind;
            size = 0;
            parent_index = parent_dir;
            permissions = permissions;
            owner = nixuser;
            group = nixuser;
            created = t;
            modified = t;
            content = none;
          } in
          (saved (record timed { files = fs.files ++ file ∷ [] }), pos (length fs.files))
    ]

-- 0644
pub create_file : Fs → List ℕ → ℤ → Fs × ℤ
create_file = create Kind.regular 420

-- 0755
pub create_directory : Fs → List ℕ → ℤ → Fs × ℤ
create_directory = create Kind.directory 493

abbrev pub set_node : Fs → ℕ → Node → Fs
set_node fs i f = record fs { files = set fs.files i f }

-- `if (file->content == NULL) { ... }`: the state and the pointer, `none` if there is no memory.
pub with_content : Fs → ℕ → Node → Fs × Option ℕ
with_content fs i f = elim f.content [
  | some p ↦ (fs, some p)
  | none ↦
      let (heap, o) = kmalloc fs.heap max_file_size in
      elim o [
        | none ↦ (record fs { heap = heap }, none)
        | some p ↦ (
          record fs {
            heap = heap;
            mem = fill_bytes fs.mem p 0 max_file_size;
            files = set fs.files i (record f { content = some p });
          },
          some p,
        )
      ]
]

-- The rest of `write_file`, once the content is there. The data are given by their address.
pub put_content : Fs × Option ℕ → ℕ → Node → ℕ → ℕ → Fs × ℤ
put_content (fs, none) i f src size = (fs, negsuc 3)
put_content (fs, some p) i f src size =
    let (timed, t) = get_system_time (record fs { mem = copy_bytes fs.mem p src size }) in
    (saved (set_node timed i (record f { content = some p; size = size; modified = t })), pos 0)

abbrev pub clip : ℕ → ℕ
clip size = if ltb max_file_size size then max_file_size else size

pub write_at : Fs → ℕ → ℕ → ℕ → Fs × ℤ
write_at fs i src size = elim (get_elem? fs.files i) [
  | none ↦ (fs, negsuc 0)
  | some f ↦
      if is_directory f.kind
      then (fs, negsuc 1)
      else put_content (with_content fs i f) i f src (clip size)
]

pub write_file : Fs → ℤ → ℕ → ℕ → Fs × ℤ
write_file fs (negsuc i) src size = (fs, negsuc 0)
write_file fs (pos i) src size = write_at fs i src size

-- `memcpy(buffer, file->content, n); buffer[n] = '\0'; return n;`
pub copy_out : Fs → ℕ → ℕ → ℕ → Fs × ℤ
copy_out fs p buffer n =
    (record fs { mem = store (copy_bytes fs.mem buffer p n) (buffer + n) 0 }, pos n)

pub read_file : Fs → ℤ → ℕ → ℕ → Fs × ℤ
read_file fs i buffer buffer_size =
    let limit = (buffer_size + (2 ^ 32 - 1)) % 2 ^ 32 in
    let nothing = record fs { mem = store fs.mem buffer 0 } in
    elim (node fs.files i) [
      | none ↦ (fs, negsuc 0)
      | some f ↦ if is_directory f.kind then (fs, negsuc 1) else elim f.content [
        | none ↦ (nothing, pos 0)
        | some p ↦
            if f.size == 0
            then (nothing, pos 0)
            else copy_out fs p buffer (if ltb limit f.size then limit else f.size)
      ]
    ]

-- `for (i = file_index; i < fs.file_count - 1; i++) fs.files[i] = fs.files[i + 1]; fs.file_count--;`
pub remove_at : ℕ → List Node → List Node
remove_at i [] = []
remove_at zero (f ∷ r) = r
remove_at (suc i) (f ∷ r) = f ∷ remove_at i r

-- The parent's index after the file at `i` has gone.
pub reindexed : ℕ → ℤ → ℤ
reindexed i (negsuc p) = negsuc p
reindexed i (pos p) = if p == i then negsuc 0 else if ltb i p then pos (p - 1) else pos p

-- `current_dir` after the file at `i` has gone.
pub moved_dir : ℕ → ℤ → ℤ
moved_dir i (negsuc d) = negsuc d
moved_dir i (pos d) = if d == i then pos 0 else if ltb i d then pos (d - 1) else pos d

abbrev pub relink : ℕ → Node → Node
relink i f = record f { parent_index = reindexed i f.parent_index }

pub taken_out : Fs → ℕ → Fs × ℤ
taken_out fs i = (
  saved (record fs {
    files = map (relink i) (remove_at i fs.files);
    current_dir = moved_dir i fs.current_dir;
  }),
  pos 0,
)

-- The outer `none` is the `none` of `kfree`.
pub delete_at : Fs → ℕ → Option (Fs × ℤ)
delete_at fs i = elim (get_elem? fs.files i) [
  | none ↦ some (fs, negsuc 0)
  | some f ↦ elim f.content [
    | none ↦ some (taken_out fs i)
    | some p ↦ elim (kfree fs.heap p) [
      | none ↦ none
      | some h ↦ some (taken_out (record fs { heap = h }) i)
    ]
  ]
]

pub delete_file : Fs → ℤ → Option (Fs × ℤ)
delete_file fs (negsuc i) = some (fs, negsuc 0)
delete_file fs (pos i) = delete_at fs i

-- `dir_index == -1 || fs.files[dir_index].type != FILE_TYPE_DIRECTORY`
pub step_into : Fs → List ℕ → ℤ → Option ℤ
step_into fs token current = elim (find_file fs token current) [
  | none ↦ none
  | some i ↦ elim (get_elem? fs.files i) [
    | none ↦ none
    | some f ↦ if is_directory f.kind then some (pos i) else none
  ]
]

-- The string that a call of `strtok` with a null argument goes on with. After the last token `last` is
-- null as well, and the string is read at the address 0: `at_null` is what stands there.
abbrev pub next_text : List ℕ → Option (List ℕ) → List ℕ
next_text at_null last = elim last [ none ↦ at_null | some l ↦ l ]

-- The loop over the tokens of an absolute path, on fuel: the outer `none` is the end of the fuel, the
-- inner one the result -1.
pub walk_path : List ℕ → Fs → ℕ → ℤ → Option (List ℕ) × Option (List ℕ) → Option (Option ℤ)
walk_path at_null fs fuel current (none, last) = some (some current)
walk_path at_null fs zero current (some token, last) = none
walk_path at_null fs (suc fuel) current (some token, last) = elim (step_into fs token current) [
  | none ↦ some none
  | some d ↦ walk_path at_null fs fuel d (strtok (next_text at_null last) slash)
]

-- The branch of `change_directory` for a path that starts with a slash.
pub change_absolute : List ℕ → ℕ → Fs → List ℕ → Option (Fs × ℤ)
change_absolute at_null fuel fs path =
    let path_copy = strncpy (drop 1 path) (max_path - 1) in
    elim (walk_path at_null fs fuel (pos 0) (strtok path_copy slash)) [
      | none ↦ none
      | some none ↦ some (fs, negsuc 0)
      | some (some d) ↦ some (record fs { current_dir = d }, pos 0)
    ]

-- The branch for a name in the current directory.
pub change_relative : Fs → List ℕ → Fs × ℤ
change_relative fs path = elim (find_file fs path fs.current_dir) [
  | none ↦ (fs, negsuc 0)
  | some i ↦ elim (get_elem? fs.files i) [
    | none ↦ (fs, negsuc 0)
    | some f ↦
        if is_directory f.kind then (record fs { current_dir = pos i }, pos 0) else (fs, negsuc 1)
  ]
]

-- The branch for "..": `none` stands for a read of `files` at the index -1.
pub change_up : Fs → Option (Fs × ℤ)
change_up fs =
    if same_int fs.current_dir (pos 0)
    then some (fs, pos 0)
    else elim (node fs.files fs.current_dir) [
      | none ↦ none
      | some f ↦ some (record fs { current_dir = f.parent_index }, pos 0)
    ]

-- `none` is the end of the fuel, or the read at the index -1.
pub change_directory : List ℕ → ℕ → Fs → List ℕ → Option (Fs × ℤ)
change_directory at_null fuel fs path =
    if is_zero (strcmp path (46 ∷ 46 ∷ []))
    then change_up fs
    else if is_zero (strcmp path (46 ∷ []))
    then some (fs, pos 0)
    else if is_zero (strcmp path slash)
    then some (record fs { current_dir = pos 0 }, pos 0)
    else if head path == 47
    then change_absolute at_null fuel fs path
    else some (change_relative fs path)
