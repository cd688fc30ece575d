-- ===== src/Fat32/Directory.antt =====
-- What a lookup in a directory finds, as a statement about the entries.
use nix_core_os.Base.{
  ℕ, zero, suc, ◌+◌, ◌*◌, ◌/◌, ◌<◌, ◌≤◌, ◌≡◌, ◌≢◌, ◌⊎◌, ◌∙◌, sym, refl, ap, List, [], ◌∷◌, ◌++◌,
  Option, none, some, ◌==◌, arith, length, bytes_at, inl, inr, Bool-cases,
}
use mathlib.Core.Path.{subst}
use nix_core_os.Text.Compare.{IsText}
use nix_core_os.Fat32.{
  Fat, Inode, Found, found, end_of_directory, next_cluster, entry_named, search, read_cluster,
  cluster_size, first_sector, fat32_lookup,
}
use nix_core_os.Fat32.Chain.{IsChain, look_through, fat32_lookup-IsChain}
use nix_core_os.Fat32.Content.{disk_of, cluster_byte, read_cluster_lem}
use nix_core_os.Fat32.Entries.{
  entries, directory_entries, byte, IsNamed, inode_of, named, other_name, inode_lem,
}

-- Entries that neither end the directory nor have the name.
abbrev pub ArePassed : List ℕ → List (List ℕ) → Type 0
ArePassed name [] = Unit
ArePassed name (e ∷ es) = (byte e 0 ≢ 0) × (¬ (IsNamed name e)) × ArePassed name es

-- What a lookup says of the entries: the first one that has the name, if no entry before it ends the
-- directory, and nothing otherwise.
abbrev pub Says : List ℕ → List (List ℕ) → Option Inode → Type 0
Says name es r =
    ((before after : List (List ℕ)) × (e : List ℕ) × (es ≡ before ++ e ∷ after)
      × ArePassed name before
      × (byte e 0 ≢ 0)
      × IsNamed name e
      × (r ≡ some (inode_of e)))
    ⊎ ((before after : List (List ℕ)) × (es ≡ before ++ after)
        × ArePassed name before
        × ((after ≡ [])
            ⊎ ((e : List ℕ) × (more : List (List ℕ)) × (after ≡ e ∷ more) × (byte e 0 ≡ 0)))
        × (r ≡ none))

pass :
    (name e : List ℕ) (es : List (List ℕ)) (r : Option Inode)
    → byte e 0 ≢ 0
    → ¬ (IsNamed name e)
    → Says name es r
    → Says name (e ∷ es) r
pass name e es r live other (inl (before, after, f, same, passed, h, n, is)) =
    inl (e ∷ before, after, f, ap (λ l. e ∷ l) same, (live, other, passed), h, n, is)
pass name e es r live other (inr (before, after, same, passed, ends, is)) =
    inr (e ∷ before, after, ap (λ l. e ∷ l) same, (live, other, passed), ends, is)

-- The search of a cluster, and what the clusters behind it say.
abbrev behind : Found → Option Inode → Option Inode
behind f x = elim f [ found inode ↦ some inode | end_of_directory ↦ none | next_cluster ↦ x ]

search-Says :
    (p : ℕ → ℕ) (name : List ℕ) (at n : ℕ) (es : List (List ℕ)) (x : Option Inode)
    → IsText name
    → Says name es x
    → Says name (entries p at n ++ es) (behind (search p name at n) x)
unfolding search
search-Says p name at zero es x text says = says
search-Says p name at (suc n) es x text says =
    let e = bytes_at p at 32 in
    let more = entries p (at + 32) n ++ es in
    elim (Bool-cases (p at == 0)) [
      | inl end ↦
          let z : p at ≡ 0 = ground arith in
          rw (search, end) (inr ([], e ∷ more, refl, tt, inr (e, more, refl, z), refl))
      | inr on ↦
          let live : p at ≢ 0 = ground arith in
          elim (Bool-cases (entry_named p at name)) [
            | inl hit ↦
                rw (search, on, hit)
                  (inl (
                    [],
                    more,
                    e,
                    refl,
                    tt,
                    live,
                    named p at name text hit,
                    ap some (inode_lem p at),
                  ))
            | inr miss ↦
                rw (search, on, miss)
                  (pass name e more _ live (other_name p at name text miss)
                    (search-Says p name (at + 32) n es x text says))
          ]
    ]

entries-read_cluster :
    (heap : ℕ → ℕ) (sectors : ℕ → ℕ → ℕ) (fat : Fat) (c at n : ℕ)
    → fat.bytes_per_sector ≡ 512
    → at + 32 * n ≤ cluster_size fat
    → entries (read_cluster heap (disk_of sectors) fat c) at n
      ≡ entries (cluster_byte sectors (first_sector fat c)) at n
entries-read_cluster heap sectors fat c at zero e h = refl
entries-read_cluster heap sectors fat c at (suc n) e h =
    ap (λ b. b ∷ entries (read_cluster heap (disk_of sectors) fat c) (at + 32) n)
      (read_cluster_lem heap sectors fat c at 32 e (omega arith))
    ∙ ap (λ l. bytes_at (cluster_byte sectors (first_sector fat c)) at 32 ∷ l)
        (entries-read_cluster heap sectors fat c (at + 32) n e (omega arith))

look_through-Says :
    (heap : ℕ → ℕ) (sectors : ℕ → ℕ → ℕ) (fat : Fat) (name cs : List ℕ)
    → fat.bytes_per_sector ≡ 512
    → IsText name
    → Says name (directory_entries sectors fat cs) (look_through heap (disk_of sectors) fat name cs)
look_through-Says heap sectors fat name [] e text = inr ([], [], refl, tt, inl refl, refl)
look_through-Says heap sectors fat name (c ∷ cs) e text =
    let p = read_cluster heap (disk_of sectors) fat c in
    let size : cluster_size fat ≡ fat.sectors_per_cluster * 512 =
      ap (λ b. fat.sectors_per_cluster * b) e in
    let n : (cluster_size fat + 31) / 32 ≡ cluster_size fat / 32 = omega (arith, size) in
    let same : entries p 0 ((cluster_size fat + 31) / 32)
        ≡ entries (cluster_byte sectors (first_sector fat c)) 0 (cluster_size fat / 32) =
      ap (entries p 0) n
      ∙ entries-read_cluster heap sectors fat c 0 (cluster_size fat / 32) e (omega arith) in
    subst
      (λ l.
        Says name (l ++ directory_entries sectors fat cs)
          (look_through heap (disk_of sectors) fat name (c ∷ cs)))
      same
      (search-Says p name 0 ((cluster_size fat + 31) / 32) (directory_entries sectors fat cs)
        (look_through heap (disk_of sectors) fat name cs) text
        (look_through-Says heap sectors fat name cs e text))

-- The lookup of a name without zeros in a directory whose clusters form a chain, on a disk whose
-- sectors of 512 bytes can be read, with more fuel than there are clusters. In the entries of 32 bytes
-- of these clusters it finds the first one that has the name, and returns its first cluster, size and
-- kind, if no entry before it starts with a zero; otherwise it returns nothing.
pub fat32_lookup_lem :
    (heap : ℕ → ℕ) (sectors : ℕ → ℕ → ℕ) (fat : Fat) (dir : Inode) (name cs : List ℕ) (fuel : ℕ)
    → fat.bytes_per_sector ≡ 512
    → IsText name
    → IsChain fat dir.ino cs
    → length cs < fuel
    → Says name
        (directory_entries sectors fat cs)
        (fat32_lookup fuel heap (disk_of sectors) fat dir name)
fat32_lookup_lem heap sectors fat dir name cs fuel e text chain h =
    subst (Says name (directory_entries sectors fat cs))
      (sym (fat32_lookup-IsChain heap (disk_of sectors) fat dir name cs fuel chain h))
      (look_through-Says heap sectors fat name cs e text)
