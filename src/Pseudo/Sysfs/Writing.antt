-- ===== src/Pseudo/Sysfs/Writing.antt =====
-- What is written to an entry is read from it.
use nix_core_os.Base.{
  ℕ, suc, ◌+◌, ◌%◌, ◌^◌, ◌≤◌, ◌<◌, ◌≡◌, ◌≢◌, refl, ap, sym, ◌∙◌, true, false, List, [], ◌∷◌, some,
  ltb, leb, ◌==◌, if◌then◌else◌, pos, codes, length, bytes_at, put_bytes, put_byte, bytes_at-cong,
  bytes_at-put_bytes, put_bytes-below, arith, Bool-cases, inl, inr,
}
use nix_core_os.Text.{strcmp, is_zero}
use nix_core_os.Pseudo.{Inode}
use nix_core_os.Pseudo.Sysfs.{
  Entry, sysfs_read, sysfs_write, sysfs_find_entry, find_from, replace_from, updated,
}

found_replaced :
    (root : List Entry) (c ino : ℕ) (entry entry' : Entry)
    → find_from root c ino ≡ some entry
    → find_from (replace_from root c ino entry') c ino ≡ some entry'
unfolding find_from
found_replaced [] c ino entry entry' e = ground arith
found_replaced (first ∷ root) c ino entry entry' e = elim (Bool-cases (c == ino)) [
  | inl h ↦ rw h (rw h refl)
  | inr h ↦
      let later : find_from (first ∷ root) c ino ≡ find_from root (suc c) ino =
        rw (find_from, h) refl in
      rw h (rw (find_from, h) (found_replaced root (suc c) ino entry entry' (sym later ∙ e)))
]

found_other :
    (root : List Entry) (c ino other : ℕ) (entry' : Entry)
    → other ≢ ino
    → find_from (replace_from root c ino entry') c other ≡ find_from root c other
unfolding find_from
found_other [] c ino other entry' d = refl
found_other (first ∷ root) c ino other entry' d = elim (Bool-cases (c == ino)) [
  | inl h ↦ let no : (c == other) ≡ false = ground arith in rw h (rw no refl)
  | inr h ↦ elim (Bool-cases (c == other)) [
    | inl g ↦ rw h (rw g refl)
    | inr g ↦ rw h (rw g (found_other root (suc c) ino other entry' d))
  ]
]

-- A read within an entry.
read_within :
    (root : List Entry) (inode : Inode) (entry : Entry) (count offset : ℕ)
    → sysfs_find_entry root inode.ino ≡ some entry
    → offset + count ≤ entry.size
    → offset + count < 2 ^ 64
    → sysfs_read root inode count offset ≡ (pos count, bytes_at entry.bytes offset count)
unfolding sysfs_read
read_within root inode entry count offset e h k =
    rw (sysfs_read, e)
      (elim (Bool-cases (leb entry.size offset)) [
        | inl past ↦
            let nothing_left : count ≡ 0 = ground (arith, past) in rw (past, nothing_left) refl
        | inr f ↦
            let whole : ltb entry.size ((offset + count) % 2 ^ 64) ≡ false = ground arith in
            rw (f, whole) refl
      ])

written :
    (p : ℕ → ℕ) (buf : List ℕ) (offset size : ℕ)
    → offset + length buf ≤ size
    → bytes_at (put_byte (put_bytes p offset buf) size 0) offset (length buf) ≡ buf
written p buf offset size h =
    bytes_at-cong (put_bytes p offset buf) (put_byte (put_bytes p offset buf) size 0) offset
      (length buf) (λ i k l. ground arith)
    ∙ bytes_at-put_bytes p offset buf

before :
    (p : ℕ → ℕ) (buf : List ℕ) (offset size i : ℕ)
    → i < offset
    → i < size
    → put_byte (put_bytes p offset buf) size 0 i ≡ p i
before p buf offset size i h k =
    let other : (i == size) ≡ false = ground arith in rw other (put_bytes-below p offset buf i h)

-- The bytes of an entry that is written, and its size.
updated_lem :
    (heap : ℕ → ℕ) (entry : Entry) (buf : List ℕ) (offset : ℕ)
    → offset + length buf < 2 ^ 64
    → let entry' = updated heap entry buf offset in
      (offset + length buf ≤ entry'.size)
      × (entry.size ≤ entry'.size)
      × (bytes_at entry'.bytes offset (length buf) ≡ buf)
      × ((i : ℕ) → i < offset → i < entry.size → entry'.bytes i ≡ entry.bytes i)
unfolding updated
updated_lem heap entry buf offset fits =
    let end : (offset + length buf) % 2 ^ 64 ≡ offset + length buf = omega arith in
    elim (Bool-cases (ltb entry.size (offset + length buf))) [
      | inl g ↦
          let size = offset + length buf in
          let bytes : ℕ → ℕ = λ i. if ltb i entry.size then entry.bytes i else heap i in
          rw (end, g)
            (
              omega arith,
              ground (arith, g),
              written bytes buf offset size (omega arith),
              λ i h k.
                  let inside : ltb i entry.size ≡ true = ground arith in
                  before bytes buf offset size i h (omega arith) ∙ rw inside refl,
            )
      | inr g ↦
          let within : offset + length buf ≤ entry.size = ground (arith, g) in
          rw (end, g)
            (
              within,
              omega arith,
              written entry.bytes buf offset entry.size within,
              λ i h k. before entry.bytes buf offset entry.size i h k,
            )
    ]

-- An entry is found by its number in the entries with another in its place.
find-replace :
    (root : List Entry) (ino : ℕ) (entry entry' : Entry)
    → sysfs_find_entry root ino ≡ some entry
    → let root' = replace_from root 2 ino entry' in
      (sysfs_find_entry root' ino ≡ some entry')
      × ((other : ℕ) → other ≢ ino → sysfs_find_entry root' other ≡ sysfs_find_entry root other)
unfolding sysfs_find_entry
find-replace root ino entry entry' e =
    (found_replaced root 2 ino entry entry' e, λ other d. found_other root 2 ino other entry' d)

reads_alike :
    (root root' : List Entry) (other : Inode) (count at : ℕ)
    → sysfs_find_entry root' other.ino ≡ sysfs_find_entry root other.ino
    → sysfs_read root' other count at ≡ sysfs_read root other count at
unfolding sysfs_read
reads_alike root root' other count at e = rw (sysfs_read, e) refl

sysfs_write-plain :
    (heap : ℕ → ℕ) (root : List Entry) (inode : Inode) (entry : Entry) (buf : List ℕ) (offset : ℕ)
    → sysfs_find_entry root inode.ino ≡ some entry
    → is_zero (strcmp entry.name (codes "power_control")) ≡ false
    → sysfs_write heap root inode buf offset
      ≡ (replace_from root 2 inode.ino (updated heap entry buf offset), [], pos (length buf))
unfolding sysfs_write
sysfs_write-plain heap root inode entry buf offset e plain = rw (sysfs_write, e, plain) refl

-- What is written is read back, and the part of the entry before it and all other entries read as
-- before, if the entry is not `power_control` and the offset and the length do not wrap around.
pub sysfs_read-write :
    (heap : ℕ → ℕ) (root : List Entry) (inode : Inode) (entry : Entry) (buf : List ℕ) (offset : ℕ)
    → sysfs_find_entry root inode.ino ≡ some entry
    → is_zero (strcmp entry.name (codes "power_control")) ≡ false
    → offset + length buf < 2 ^ 64
    → let (root', printed, r) = sysfs_write heap root inode buf offset in
      (r ≡ pos (length buf))
      × (sysfs_read root' inode (length buf) offset ≡ (pos (length buf), buf))
      × ((k : ℕ)
          → k ≤ offset
          → k ≤ entry.size
          → sysfs_read root' inode k 0 ≡ sysfs_read root inode k 0)
      × ((other : Inode) (count at : ℕ)
          → other.ino ≢ inode.ino
          → sysfs_read root' other count at ≡ sysfs_read root other count at)
sysfs_read-write heap root inode entry buf offset e plain fits =
    let entry' = updated heap entry buf offset in
    let root' = replace_from root 2 inode.ino entry' in
    let (here, others) = find-replace root inode.ino entry entry' e in
    let (covers, grows, same, kept) = updated_lem heap entry buf offset fits in
    rw (sysfs_write-plain heap root inode entry buf offset e plain) (
      refl,
      read_within root' inode entry' (length buf) offset here covers fits
          ∙ ap (λ l. (pos (length buf), l)) same,
      λ k below within.
          read_within root' inode entry' k 0 here (omega arith) (omega arith)
          ∙ ap (λ l. (pos k, l))
              (bytes_at-cong entry.bytes entry'.bytes 0 k
                (λ i _ h. kept i (omega arith) (omega arith)))
          ∙ sym (read_within root inode entry k 0 e (omega arith) (omega arith)),
      λ other count at d. reads_alike root root' other count at (others other.ino d),
    )
