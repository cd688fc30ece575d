-- ===== src/Fat32/Content.antt =====
-- What a cluster holds, on a disk whose sectors can all be read.
use nix_core_os.Base.{
  ℕ, zero, suc, ◌+◌, ◌-◌, ◌*◌, ◌/◌, ◌%◌, ◌^◌, ◌≤◌, ◌<◌, ◌≡◌, refl, ◌∙◌, ap, true, false, List, [],
  ◌∷◌, ◌++◌, some, leb, ltb, arith, length, drop, take, bytes_at, bytes_at-cong, inl, inr,
  Bool-cases,
}
use nix_core_os.Fat32.{Disk, Fat, read_sector, read_from, read_cluster, first_sector, cluster_size}

-- The disk whose sectors are these.
abbrev pub disk_of : (ℕ → ℕ → ℕ) → Disk
disk_of sectors = λ lba. some (sectors lba)

-- Byte `i` of a cluster that starts at a sector.
abbrev pub cluster_byte : (ℕ → ℕ → ℕ) → ℕ → ℕ → ℕ
cluster_byte sectors first i = sectors ((first + i / 512) % 2 ^ 32) (i % 512)

-- The content of a chain of clusters.
abbrev pub content : (ℕ → ℕ → ℕ) → Fat → List ℕ → List ℕ
content sectors fat [] = []
content sectors fat (c ∷ cs) =
    bytes_at (cluster_byte sectors (first_sector fat c)) 0 (cluster_size fat)
    ++ content sectors fat cs

read_sector-inside :
    (sectors : ℕ → ℕ → ℕ) (buf : ℕ → ℕ) (at lba j : ℕ)
    → at ≤ j
    → j < at + 512
    → read_sector (disk_of sectors) buf at lba j ≡ sectors lba (j - at)
unfolding read_sector
read_sector-inside sectors buf at lba j h k =
    let a : leb at j ≡ true = ground arith in
    let b : ltb j (at + 512) ≡ true = ground arith in rw (read_sector, a, b) refl

read_sector-outside :
    (sectors : ℕ → ℕ → ℕ) (buf : ℕ → ℕ) (at lba j : ℕ)
    → j < at
    → read_sector (disk_of sectors) buf at lba j ≡ buf j
unfolding read_sector
read_sector-outside sectors buf at lba j h =
    let a : leb at j ≡ false = ground arith in rw (read_sector, a) refl

read_from-before :
    (sectors : ℕ → ℕ → ℕ) (fat : Fat) (first i n : ℕ) (buf : ℕ → ℕ) (j : ℕ)
    → fat.bytes_per_sector ≡ 512
    → j < i * 512
    → read_from (disk_of sectors) fat first i n buf j ≡ buf j
unfolding read_from
read_from-before sectors fat first i zero buf j e h = refl
read_from-before sectors fat first i (suc n) buf j e h =
    rw (read_from, e, read_from-before sectors fat first (suc i) n _ j e (omega arith))
      (read_sector-outside sectors buf (i * 512) ((first + i) % 2 ^ 32) j h)

read_from-here :
    (sectors : ℕ → ℕ → ℕ) (fat : Fat) (first i n : ℕ) (buf : ℕ → ℕ) (j : ℕ)
    → fat.bytes_per_sector ≡ 512
    → i * 512 ≤ j
    → j < (i + n) * 512
    → read_from (disk_of sectors) fat first i n buf j ≡ cluster_byte sectors first j
unfolding read_from
read_from-here sectors fat first i zero buf j e h k = absurd (omega arith)
read_from-here sectors fat first i (suc n) buf j e h k =
    let buf' = read_sector (disk_of sectors) buf (i * 512) ((first + i) % 2 ^ 32) in
    elim (Bool-cases (ltb j (suc i * 512))) [
      | inl t ↦
          let low : j < suc i * 512 = ground (arith, t) in
          let q : j / 512 ≡ i = omega arith in
          let r : j % 512 ≡ j - i * 512 = omega arith in
          rw (e, read_from-before sectors fat first (suc i) n buf' j e low)
            (rw (q, r)
              (read_sector-inside sectors buf (i * 512) ((first + i) % 2 ^ 32) j h (omega arith)))
      | inr f ↦
          let high : suc i * 512 ≤ j = ground (arith, f) in
          rw e (read_from-here sectors fat first (suc i) n buf' j e high (omega arith))
    ]

-- A cluster that is read holds the bytes of its sectors.
pub read_cluster_lem :
    (heap : ℕ → ℕ) (sectors : ℕ → ℕ → ℕ) (fat : Fat) (c a n : ℕ)
    → fat.bytes_per_sector ≡ 512
    → a + n ≤ cluster_size fat
    → bytes_at (read_cluster heap (disk_of sectors) fat c) a n
      ≡ bytes_at (cluster_byte sectors (first_sector fat c)) a n
unfolding read_cluster
read_cluster_lem heap sectors fat c a n e h =
    let size : cluster_size fat ≡ fat.sectors_per_cluster * 512 =
      ap (λ b. fat.sectors_per_cluster * b) e in
    bytes_at-cong (cluster_byte sectors (first_sector fat c))
      (read_cluster heap (disk_of sectors) fat c) a n
      (λ i k l.
        read_from-here sectors fat (first_sector fat c) 0 fat.sectors_per_cluster heap i e
          (omega arith) (omega arith))

pub length-bytes_at : (p : ℕ → ℕ) (a n : ℕ) → length (bytes_at p a n) ≡ n
length-bytes_at p a zero = refl
length-bytes_at p a (suc n) = ap suc (length-bytes_at p (a + 1) n)

-- Part of the bytes before a list.
pub take-bytes_at :
    (p : ℕ → ℕ) (a n k : ℕ) (l : List ℕ) → k ≤ n → take k (bytes_at p a n ++ l) ≡ bytes_at p a k
take-bytes_at p a n zero l h = refl
take-bytes_at p a zero (suc k) l h = absurd (omega arith)
take-bytes_at p a (suc n) (suc k) l h =
    ap (λ t. p a ∷ t) (take-bytes_at p (a + 1) n k l (omega arith))

pub drop-bytes_at :
    (p : ℕ → ℕ) (a n k : ℕ) (l : List ℕ)
    → k ≤ n
    → drop k (bytes_at p a n ++ l) ≡ bytes_at p (a + k) (n - k) ++ l
drop-bytes_at p a n zero l h =
    let e : a + 0 ≡ a = omega arith in let f : n - 0 ≡ n = omega arith in rw (e, f) refl
drop-bytes_at p a zero (suc k) l h = absurd (omega arith)
drop-bytes_at p a (suc n) (suc k) l h =
    let e : a + 1 + k ≡ a + suc k = omega arith in
    let f : n - k ≡ suc n - suc k = omega arith in
    drop-bytes_at p (a + 1) n k l (omega arith)
    ∙ ap (λ b. bytes_at p b (n - k) ++ l) e
    ∙ ap (λ b. bytes_at p (a + suc k) b ++ l) f

pub take_past_bytes_at :
    (p : ℕ → ℕ) (a n k : ℕ) (l : List ℕ)
    → n ≤ k
    → take k (bytes_at p a n ++ l) ≡ bytes_at p a n ++ take (k - n) l
take_past_bytes_at p a zero k l h = let e : k - 0 ≡ k = omega arith in rw e refl
take_past_bytes_at p a (suc n) zero l h = absurd (omega arith)
take_past_bytes_at p a (suc n) (suc k) l h =
    let f : k - n ≡ suc k - suc n = omega arith in
    ap (λ t. p a ∷ t)
      (take_past_bytes_at p (a + 1) n k l (omega arith)
        ∙ ap (λ b. bytes_at p (a + 1) n ++ take b l) f)
