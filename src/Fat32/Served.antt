-- ===== src/Fat32/Served.antt =====
-- A read of a file returns the bytes of its content.
use nix_core_os.Base.{
  ℕ, zero, suc, ◌+◌, ◌-◌, ◌*◌, ◌/◌, ◌%◌, ◌^◌, ◌≤◌, ◌<◌, ◌≡◌, refl, ◌∙◌, sym, ap, true, false, List,
  [], ◌∷◌, ◌++◌, drop-take, take-take, drop-all, some, leb, ltb, ◌==◌, if◌then◌else◌, arith, length,
  drop, take, bytes_at, inl, inr, Bool-cases, take_nil, drop_nil, drop-add, length-append,
  length-take,
}
use mathlib.Core.List.{append-nil}
use native.Mathlib.Nat.{div-add-mod', mod-lt, div-lt_iff_lt-mul}
use nix_core_os.Fat32.{
  Fat, Inode, end_of_chain, first_sector, cluster_size, read_loop, fat32_read, skip_clusters,
}
use nix_core_os.Fat32.Chain.{IsChain, skip_clusters_lem}
use nix_core_os.Fat32.Content.{
  disk_of, cluster_byte, content, read_cluster_lem, take-bytes_at, drop-bytes_at,
  take_past_bytes_at, length-bytes_at,
}

-- One cluster of the content: what is read of it, and what is left.
cluster_part :
    (p : ℕ → ℕ) (size start left : ℕ) (rest : List ℕ)
    → start < size
    → let to_read = if ltb left (size - start) then left else size - start in
      take left (drop start (bytes_at p 0 size ++ rest))
      ≡ bytes_at p start to_read ++ take (left - to_read) rest
cluster_part p size start left rest h = elim (Bool-cases (ltb left (size - start))) [
  | inl t ↦
      let low : left ≤ size - start = ground (arith, t) in
      let none_left : left - left ≡ 0 = omega arith in
      rw (t, none_left, drop-bytes_at p 0 size start rest (omega arith))
        (take-bytes_at p (0 + start) (size - start) left rest low
          ∙ ap (λ a. bytes_at p a left) (omega arith)
          ∙ sym (append-nil (bytes_at p start left)))
  | inr f ↦
      let high : size - start ≤ left = ground (arith, f) in
      rw (f, drop-bytes_at p 0 size start rest (omega arith))
        (take_past_bytes_at p (0 + start) (size - start) left rest high
          ∙ ap (λ a. bytes_at p a (size - start) ++ take (left - (size - start)) rest)
              (omega arith))
]

content-cons :
    (sectors : ℕ → ℕ → ℕ) (fat : Fat) (c : ℕ) (cs : List ℕ)
    → length (content sectors fat (c ∷ cs)) ≡ cluster_size fat + length (content sectors fat cs)
content-cons sectors fat c cs =
    length-append (bytes_at (cluster_byte sectors (first_sector fat c)) 0 (cluster_size fat))
      (content sectors fat cs)
    ∙ ap (λ n. n + length (content sectors fat cs))
        (length-bytes_at (cluster_byte sectors (first_sector fat c)) 0 (cluster_size fat))

length-content :
    (sectors : ℕ → ℕ → ℕ) (fat : Fat) (cs : List ℕ)
    → length (content sectors fat cs) ≡ length cs * cluster_size fat
length-content sectors fat [] = omega arith
length-content sectors fat (c ∷ cs) =
    let e = length-content sectors fat cs in content-cons sectors fat c cs ∙ omega arith

drop-content :
    (sectors : ℕ → ℕ → ℕ) (fat : Fat) (n : ℕ) (cs : List ℕ)
    → drop (n * cluster_size fat) (content sectors fat cs) ≡ content sectors fat (drop n cs)
drop-content sectors fat zero cs = let e : 0 * cluster_size fat ≡ 0 = omega arith in rw e refl
drop-content sectors fat (suc n) [] = drop_nil (suc n * cluster_size fat)
drop-content sectors fat (suc n) (c ∷ cs) =
    let p = cluster_byte sectors (first_sector fat c) in
    let size = cluster_size fat in
    let rest = content sectors fat cs in
    let e : suc n * size ≡ size + n * size = omega arith in
    let z : size - size ≡ 0 = omega arith in
    ap (λ k. drop k (bytes_at p 0 size ++ rest)) e
    ∙ drop-add size (n * size) (bytes_at p 0 size ++ rest)
    ∙ ap (drop (n * size)) (
        drop-bytes_at p 0 size size rest (omega arith)
        ∙ ap (λ k. bytes_at p (0 + size) k ++ rest) z)
    ∙ drop-content sectors fat n cs

read_loop_lem :
    (heap : ℕ → ℕ) (sectors : ℕ → ℕ → ℕ) (fat : Fat) (cs : List ℕ) (fuel c start left : ℕ)
    → fat.bytes_per_sector ≡ 512
    → IsChain fat c cs
    → start < cluster_size fat
    → left ≤ fuel
    → read_loop fuel heap (disk_of sectors) fat c start left
      ≡ take left (drop start (content sectors fat cs))
unfolding read_loop
read_loop_lem heap sectors fat cs zero c start zero e chain h k = refl
read_loop_lem heap sectors fat cs zero c start (suc left) e chain h k = absurd (omega arith)
read_loop_lem heap sectors fat cs (suc fuel) c start zero e chain h k = refl
read_loop_lem heap sectors fat [] (suc fuel) c start (suc left) e chain h k =
    let ends : leb end_of_chain c ≡ true = ground (arith, chain) in
    let more : (suc left == 0) ≡ false = ground arith in
    rw (read_loop, more, ends) (sym (ap (take (suc left)) (drop_nil start)))
read_loop_lem heap sectors fat (d ∷ cs) (suc fuel) c start (suc left) e (same, below, rest) h k =
    let goes : leb end_of_chain c ≡ false = ground (arith, below) in
    let more : (suc left == 0) ≡ false = ground arith in
    let size = cluster_size fat in
    let p = cluster_byte sectors (first_sector fat c) in
    let to_read = if ltb (suc left) (size - start) then suc left else size - start in
    let some_read : 1 ≤ to_read = ground arith in
    let within : start + to_read ≤ size = ground arith in
    rw (read_loop, more, goes, sym same)
      (ap
          (λ l.
            l ++ read_loop fuel heap (disk_of sectors) fat (fat.fat_table c) 0 (suc left - to_read))
          (read_cluster_lem heap sectors fat c start to_read e within)
        ∙ ap (λ l. bytes_at p start to_read ++ l)
            (read_loop_lem heap sectors fat cs fuel (fat.fat_table c) 0 (suc left - to_read) e rest
              (omega arith) (omega arith))
        ∙ sym (cluster_part p size start (suc left) (content sectors fat cs) h))

-- The walk to the cluster of an offset, and the read from there.
read_at :
    (heap : ℕ → ℕ) (sectors : ℕ → ℕ → ℕ) (fat : Fat) (cs : List ℕ) (c offset count : ℕ)
    → fat.bytes_per_sector ≡ 512
    → 0 < cluster_size fat
    → IsChain fat c cs
    → offset < length (content sectors fat cs)
    → (d : ℕ) × (skip_clusters fat (offset / cluster_size fat) c ≡ some d)
      × (read_loop count heap (disk_of sectors) fat d (offset % cluster_size fat) count
          ≡ take count (drop offset (content sectors fat cs)))
read_at heap sectors fat cs c offset count e full chain h =
    let size = cluster_size fat in
    let n = offset / size in
    let all = content sectors fat cs in
    let more : offset < length cs * size = omega (arith, length-content sectors fat cs) in
    let (d, skips, chain') = skip_clusters_lem fat n c cs chain ((div-lt_iff_lt-mul full).1 more) in
    (
      d,
      skips,
      read_loop_lem heap sectors fat (drop n cs) count d (offset % size) count e chain'
            (mod-lt offset full) (omega arith)
          ∙ ap (λ l. take count (drop (offset % size) l)) (sym (drop-content sectors fat n cs))
          ∙ ap (take count) (
              sym (drop-add (n * size) (offset % size) all)
              ∙ ap (λ o. drop o all) (div-add-mod' offset size)),
    )

-- A read of a file whose clusters form a chain that covers its size, from a disk whose sectors of
-- 512 bytes can be read: as many bytes as are asked for and are left before the end of the file,
-- which are the bytes of the file's content from the offset on. The offset and the count do not
-- wrap around.
pub fat32_read_lem :
    (heap : ℕ → ℕ) (sectors : ℕ → ℕ → ℕ) (fat : Fat) (inode : Inode) (cs : List ℕ)
    (count offset : ℕ)
    → fat.bytes_per_sector ≡ 512
    → 0 < fat.sectors_per_cluster
    → IsChain fat inode.ino cs
    → inode.size ≤ length (content sectors fat cs)
    → offset + count < 2 ^ 64
    → fat32_read heap (disk_of sectors) fat inode count offset
      ≡ take count (drop offset (take inode.size (content sectors fat cs)))
unfolding fat32_read
fat32_read_lem heap sectors fat inode cs count offset e sectors_there chain covers fits =
    let size = cluster_size fat in
    let all = content sectors fat cs in
    let full : 0 < size =
      let e' : size ≡ fat.sectors_per_cluster * 512 = ap (λ b. fat.sectors_per_cluster * b) e in
      omega arith in
    elim (Bool-cases (leb inode.size offset)) [
      | inl past ↦
          let h : inode.size ≤ offset = ground (arith, past) in
          let none_left : length (take inode.size all) ≤ offset =
            omega (arith, length-take inode.size all) in
          rw past (
            sym
              (ap (take count) (drop-all offset (take inode.size all) none_left) ∙ take_nil count))
      | inr f ↦
          let within : offset < inode.size = ground (arith, f) in
          let count' =
            if ltb inode.size ((offset + count) % 2 ^ 64) then inode.size - offset else count in
          let (d, skips, reads) =
            read_at heap sectors fat cs inode.ino offset count' e full chain (omega arith) in
          let no_wrap : (offset + count) % 2 ^ 64 ≡ offset + count = omega arith in
          let same : count'
              ≡ (if ltb (inode.size - offset) count then inode.size - offset else count) =
            ground arith in
          rw (f, skips)
            (reads
              ∙ ap (λ k. take k (drop offset all)) same
              ∙ sym (
                  ap (take count) (drop-take offset inode.size all)
                  ∙ take-take count (inode.size - offset) (drop offset all)))
    ]
