-- ===== src/Fs/Content.antt =====
-- Writing and reading the bytes of a file.
use nix_core_os.Base.{
  ℕ, zero, suc, ◌+◌, ◌-◌, ◌%◌, ◌^◌, ◌≤◌, ◌<◌, ◌≡◌, refl, ◌≢◌, ◌∙◌, sym, ap, true, false, List, [],
  ◌∷◌, none, some, leb, ltb, ◌&&◌, ◌==◌, ◌⊎◌, ℤ, pos, negsuc, arith, Bool-cases, Option-cases, inl,
  inr, length, get_elem?, set, get_elem?-set_self, get_elem?-set_ne, length-set,
}
use mathlib.Core.Path.{subst}
use nix_core_os.Mem.{Mem, copy_bytes, fill_bytes}
use nix_core_os.Mem.Copy.{copy_bytes_lem}
use nix_core_os.Mem.Fill.{fill_bytes_lem}
use nix_core_os.Mem.Words.{moved_inside}
use nix_core_os.Alloc.Kheap.{kmalloc}
use nix_core_os.Fs.{
  Node, Fs, Layout, table_image, Kind, is_directory, clip, max_file_size, write_file, write_at,
  put_content, with_content, read_file, copy_out, filesystem_save_to_disk, get_system_time,
}

-- An address that the copy of the table to `disk_buffer` does not reach.
abbrev pub IsSpared : Layout → ℕ → Type 0
IsSpared l a = (a < l.disk_buffer) ⊎ (l.disk_buffer + 2 + l.table_size ≤ a)

table_image-IsSpared : (fs : Fs) (a : ℕ) → IsSpared fs.layout a → table_image fs a ≡ fs.mem a
unfolding table_image
table_image-IsSpared fs a h =
    let apart : (leb fs.layout.disk_buffer a
          && ltb a (fs.layout.disk_buffer + 2 + fs.layout.table_size))
        ≡ false =
      ground arith in
    rw apart refl

-- What a successful write leaves: the file's entry with its content at the address `content`, and the
-- memory, copied from `source`, in which a new content has been cleared.
pub record Written (fs fs' : Fs) (i src size : ℕ) : Type 0 where
  pub content : ℕ
  pub source : Mem
  pub file : Node
  pub entry : get_elem? fs'.files i ≡ some file
  pub holds : (file.content ≡ some content) × (file.size ≡ clip size) × (file.kind ≡ Kind.regular)
  -- But for the bytes from `disk_buffer` on that the table has been copied to.
  pub memory :
      (a : ℕ) → IsSpared fs.layout a → fs'.mem a ≡ copy_bytes source content src (clip size) a
  pub cleared : (source ≡ fs.mem) ⊎ (source ≡ fill_bytes fs.mem content 0 max_file_size)
  pub others : (j : ℕ) → i ≢ j → get_elem? fs'.files j ≡ get_elem? fs.files j

regular_kind : (k : Kind) → is_directory k ≡ false → k ≡ Kind.regular
regular_kind Kind.regular e = refl
regular_kind Kind.directory e = absurd (ground arith)

in_range : (l : List Node) (i : ℕ) (f : Node) → get_elem? l i ≡ some f → i < length l
in_range [] i f e = absurd (ground arith)
in_range (g ∷ l) zero f e = omega arith
in_range (g ∷ l) (suc i) f e = omega (arith, in_range l i f e)

-- The copy into a content that is there.
put-Written :
    (fs s fs' : Fs) (n src size p : ℕ) (f : Node)
    → n < length s.files
    → f.kind ≡ Kind.regular
    → s.layout ≡ fs.layout
    → (s.mem ≡ fs.mem) ⊎ (s.mem ≡ fill_bytes fs.mem p 0 max_file_size)
    → ((j : ℕ) → n ≢ j → get_elem? s.files j ≡ get_elem? fs.files j)
    → put_content (s, some p) n f src (clip size) ≡ (fs', pos 0)
    → Written fs fs' n src size
unfolding put_content get_system_time filesystem_save_to_disk
put-Written fs s fs' n src size p f lt reg at mem others e =
    let t = (s.time_counter + 60) % 2 ^ 32 in
    let file : Node = record f { content = some p; size = clip size; modified = t } in
    let files : set s.files n file ≡ fs'.files = ap (λ x. x.0.files) e in
    let copied : Fs = record s {
      mem = copy_bytes s.mem p src (clip size);
      time_counter = t;
      files = set s.files n file;
      dirty = true;
    } in
    let after : table_image copied ≡ fs'.mem = ap (λ x. x.0.mem) e in
    record {
      content = p;
      source = s.mem;
      file = file;
      entry = subst (λ l. get_elem? l n ≡ some file) files (get_elem?-set_self s.files n file lt);
      holds = (refl, refl, reg);
      memory = λ a spared.
          ap (λ m. m a) (sym after)
          ∙ table_image-IsSpared copied a (subst (λ l. IsSpared l a) (sym at) spared);
      cleared = mem;
      others = λ j ne.
          subst (λ l. get_elem? l j ≡ get_elem? fs.files j) files
            (get_elem?-set_ne s.files file ne ∙ others j ne);
    }

written :
    (fs fs' : Fs) (n src size : ℕ) (f : Node)
    → get_elem? fs.files n ≡ some f
    → f.kind ≡ Kind.regular
    → put_content (with_content fs n f) n f src (clip size) ≡ (fs', pos 0)
    → Written fs fs' n src size
unfolding put_content with_content
written fs fs' n src size f there reg e =
    let lt = in_range fs.files n f there in
    elim (Option-cases f.content) [
      | inr (p, old) ↦
          let at_p : with_content fs n f ≡ (fs, some p) = rw (old, with_content) refl in
          put-Written fs fs fs' n src size p f lt reg refl (inl refl) (λ j ne. refl)
            (subst (λ x. put_content x n f src (clip size) ≡ (fs', pos 0)) at_p e)
      | inl empty ↦ elim (Option-cases (kmalloc fs.heap max_file_size).1) [
        | inl none_left ↦
            let at_none : with_content fs n f
                ≡ (record fs { heap = (kmalloc fs.heap max_file_size).0 }, none) =
              rw (empty, none_left, with_content) refl in
            absurd (
              ground
                (arith, subst (λ x. put_content x n f src (clip size) ≡ (fs', pos 0)) at_none e))
        | inr (p, new) ↦
            let s : Fs = record fs {
              heap = (kmalloc fs.heap max_file_size).0;
              mem = fill_bytes fs.mem p 0 max_file_size;
              files = set fs.files n (record f { content = some p });
            } in
            let at_p : with_content fs n f ≡ (s, some p) = rw (empty, new, with_content) refl in
            put-Written fs s fs' n src size p f
              (omega (arith, length-set fs.files n (record f { content = some p }), lt)) reg refl
              (inr refl) (λ j ne. get_elem?-set_ne fs.files (record f { content = some p }) ne)
              (subst (λ x. put_content x n f src (clip size) ≡ (fs', pos 0)) at_p e)
      ]
    ]

-- A successful write stores the first 4096 bytes at most of the data as the content of the file and
-- their number as its size, and changes no other entry of the table.
pub write_file-Written :
    (fs fs' : Fs) (i : ℤ) (src size : ℕ)
    → write_file fs i src size ≡ (fs', pos 0)
    → (n : ℕ) × (i ≡ pos n) × Written fs fs' n src size
unfolding write_file write_at
write_file-Written fs fs' (negsuc n) src size e = absurd (ground arith)
write_file-Written fs fs' (pos n) src size e = elim (Option-cases (get_elem? fs.files n)) [
  | inl empty ↦ absurd (ground arith)
  | inr (f, there) ↦ elim (Bool-cases (is_directory f.kind)) [
    | inl dir ↦ absurd (ground arith)
    | inr reg ↦
        (n, refl, written fs fs' n src size f there (regular_kind f.kind reg) (ground arith))
  ]
]

read_regular :
    (fs : Fs) (n buffer buffer_size p : ℕ) (f : Node)
    → get_elem? fs.files n ≡ some f
    → f.content ≡ some p
    → f.kind ≡ Kind.regular
    → 0 < f.size
    → f.size < buffer_size
    → buffer_size < 2 ^ 32
    → read_file fs (pos n) buffer buffer_size ≡ copy_out fs p buffer f.size
unfolding read_file
read_regular fs n buffer buffer_size p f there full reg some_bytes room word =
    let limit : ltb ((buffer_size + (2 ^ 32 - 1)) % 2 ^ 32) f.size ≡ false = ground arith in
    let more : (f.size == 0) ≡ false = ground arith in
    rw (there, read_file) (rw (reg, read_file) (rw (full, read_file) (rw more (rw limit refl))))

read-Written :
    (fs fs' : Fs) (n src size buffer buffer_size : ℕ) (w : Written fs fs' n src size)
    → 0 < clip size
    → clip size < buffer_size
    → buffer_size < 2 ^ 32
    → read_file fs' (pos n) buffer buffer_size ≡ copy_out fs' w.content buffer (clip size)
read-Written fs fs' n src size buffer buffer_size w some_bytes room word =
    let (c, k, reg) = w.holds in
    read_regular fs' n buffer buffer_size w.content w.file w.entry c reg (rw k some_bytes)
      (rw k room) word
    ∙ ap (copy_out fs' w.content buffer) k

clip_le : (size : ℕ) → clip size ≤ max_file_size
clip_le size = ground arith

-- The content of a file at an address is not reached by it.
abbrev pub Keeps : Layout → ℕ → Type 0
Keeps l p = (p + max_file_size ≤ l.disk_buffer) ⊎ (l.disk_buffer + 2 + l.table_size ≤ p)

-- A byte of the new content is the byte of the data.
content_byte :
    (fs fs' : Fs) (n src size k : ℕ) (w : Written fs fs' n src size)
    → (w.content + max_file_size ≤ src) ⊎ (src + clip size ≤ w.content)
    → Keeps fs.layout w.content
    → k < clip size
    → fs'.mem (w.content + k) ≡ fs.mem (src + k)
content_byte fs fs' n src size k w apart keeps lt =
    let p = w.content in
    let upto : clip size ≤ max_file_size = ground arith in
    let copied : fs'.mem (p + k) ≡ w.source (src + k) =
      w.memory (p + k) (ground (arith, keeps, upto))
      ∙ copy_bytes_lem w.source p src (clip size) (p + k) (ground (arith, apart, upto))
      ∙ moved_inside w.source p src (clip size) k lt in
    elim w.cleared [
      | inl e ↦ copied ∙ ap (λ m. m (src + k)) e
      | inr e ↦
          copied
          ∙ ap (λ m. m (src + k)) e
          ∙ fill_bytes_lem fs.mem p 0 max_file_size (src + k)
          ∙ ground (arith, apart, upto)
    ]

read_back :
    (fs fs' : Fs) (n src size buffer buffer_size : ℕ) (w : Written fs fs' n src size)
    → 0 < clip size
    → clip size < buffer_size
    → buffer_size < 2 ^ 32
    → (w.content + max_file_size ≤ src) ⊎ (src + clip size ≤ w.content)
    → (w.content + max_file_size ≤ buffer) ⊎ (buffer + clip size < w.content)
    → Keeps fs.layout w.content
    → let (fs'', r) = read_file fs' (pos n) buffer buffer_size in
      (r ≡ pos (clip size))
      × ((k : ℕ) → k < clip size → fs''.mem (buffer + k) ≡ fs.mem (src + k))
      × (fs''.mem (buffer + clip size) ≡ 0)
unfolding copy_out
read_back fs fs' n src size buffer buffer_size w some_bytes room word apart_src apart_buf keeps =
    let e = read-Written fs fs' n src size buffer buffer_size w some_bytes room word in
    rw e (
      refl,
      λ k lt.
          let here : (buffer + k == buffer + clip size) ≡ false = ground arith in
          rw here (
            copy_bytes_lem fs'.mem buffer w.content (clip size) (buffer + k)
              (ground (arith, apart_buf, clip_le size))
            ∙ moved_inside fs'.mem buffer w.content (clip size) k lt
            ∙ content_byte fs fs' n src size k w apart_src keeps lt),
      ground arith,
    )

-- Reading back what a successful write has stored: `read_file` returns the number of bytes written, and
-- the buffer holds those bytes of the data and a zero behind them. The data are not empty and shorter
-- than the buffer, and the file's content shares no bytes with the data or the buffer, nor with what the
-- copy of the table to `disk_buffer` overwrites, where no variable of the model and no header of the
-- heap lies either.
pub read_file-write_file :
    (fs fs' : Fs) (n src size buffer buffer_size p : ℕ) (f : Node)
    → write_file fs (pos n) src size ≡ (fs', pos 0)
    → get_elem? fs'.files n ≡ some f
    → f.content ≡ some p
    → 0 < clip size
    → clip size < buffer_size
    → buffer_size < 2 ^ 32
    → (p + max_file_size ≤ src) ⊎ (src + clip size ≤ p)
    → (p + max_file_size ≤ buffer) ⊎ (buffer + clip size < p)
    → Keeps fs.layout p
    → let (fs'', r) = read_file fs' (pos n) buffer buffer_size in
      (r ≡ pos (clip size))
      × ((k : ℕ) → k < clip size → fs''.mem (buffer + k) ≡ fs.mem (src + k))
      × (fs''.mem (buffer + clip size) ≡ 0)
read_file-write_file fs fs' n src size buffer buffer_size p f e there full a b c d g keeps =
    let (m, same, v) = write_file-Written fs fs' (pos n) src size e in
    let w : Written fs fs' n src size = subst (λ x. Written fs fs' x src size) (ground arith) v in
    let entries : f ≡ w.file = ground (arith, there, w.entry) in
    let at_p : p ≡ w.content = ground (arith, ap (λ x. x.content) entries, full, w.holds.0) in
    read_back fs fs' n src size buffer buffer_size w a b c
      (subst (λ x. (x + max_file_size ≤ src) ⊎ (src + clip size ≤ x)) at_p d)
      (subst (λ x. (x + max_file_size ≤ buffer) ⊎ (buffer + clip size < x)) at_p g)
      (subst (Keeps fs.layout) at_p keeps)
