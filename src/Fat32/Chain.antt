-- ===== src/Fat32/Chain.antt =====
-- The chain of clusters of a file, and the walk along it.
use nix_core_os.Base.{
  ℕ, zero, suc, ◌+◌, ◌/◌, ◌≤◌, ◌<◌, ◌≡◌, refl, ◌∙◌, ap, true, false, List, [], ◌∷◌, Option, none,
  some, leb, arith, length, drop,
}
use nix_core_os.Fat32.{
  Disk, Fat, Inode, Found, end_of_chain, skip_clusters, lookup_in, fat32_lookup, search,
  read_cluster, cluster_size, found, next_cluster, end_of_directory,
}

-- The clusters of a chain, from its first on.
abbrev pub IsChain : Fat → ℕ → List ℕ → Type 0
IsChain fat c [] = end_of_chain ≤ c
IsChain fat c (d ∷ cs) = (c ≡ d) × (c < end_of_chain) × IsChain fat (fat.fat_table c) cs

pub IsChain-below :
    (fat : Fat) (c : ℕ) (cs : List ℕ)
    → IsChain fat c cs
    → 0 < length cs
    → leb end_of_chain c ≡ false
IsChain-below fat c [] chain h = absurd (omega (arith, h))
IsChain-below fat c (d ∷ cs) (e, below, rest) h = ground (arith, below)

-- Skipping stays within a chain.
pub skip_clusters_lem :
    (fat : Fat) (n c : ℕ) (cs : List ℕ)
    → IsChain fat c cs
    → n < length cs
    → (d : ℕ) × (skip_clusters fat n c ≡ some d) × IsChain fat d (drop n cs)
unfolding skip_clusters
skip_clusters_lem fat zero c cs chain h = (c, refl, chain)
skip_clusters_lem fat (suc n) c [] chain h = absurd (omega (arith, h))
skip_clusters_lem fat (suc n) c (d ∷ cs) (e, below, rest) h =
    let (d', ends, chain') = skip_clusters_lem fat n (fat.fat_table c) cs rest (omega arith) in
    (d', rw (skip_clusters, IsChain-below fat (fat.fat_table c) cs rest (omega arith)) ends, chain')

-- The search of one cluster after the other.
abbrev pub look_through : (ℕ → ℕ) → Disk → Fat → List ℕ → List ℕ → Option Inode
look_through heap disk fat name [] = none
look_through heap disk fat name (c ∷ cs) =
    elim (search (read_cluster heap disk fat c) name 0 ((cluster_size fat + 31) / 32)) [
      | found inode ↦ some inode
      | end_of_directory ↦ none
      | next_cluster ↦ look_through heap disk fat name cs
    ]

-- Two searches that go on alike end alike.
behind_lem :
    (f : Found) (x y : Option Inode)
    → x ≡ y
    → (elim f as (λ g. Option Inode) [
      | found inode ↦ some inode
      | end_of_directory ↦ none
      | next_cluster ↦ x
    ])
      ≡ (elim f as (λ g. Option Inode) [
        | found inode ↦ some inode
        | end_of_directory ↦ none
        | next_cluster ↦ y
      ])
behind_lem (found inode) x y e = refl
behind_lem end_of_directory x y e = refl
behind_lem next_cluster x y e = e

lookup_in-IsChain :
    (heap : ℕ → ℕ) (disk : Disk) (fat : Fat) (name cs : List ℕ) (fuel c : ℕ)
    → IsChain fat c cs
    → length cs < fuel
    → lookup_in fuel heap disk fat name c ≡ look_through heap disk fat name cs
unfolding lookup_in
lookup_in-IsChain heap disk fat name cs zero c chain h = absurd (omega (arith, h))
lookup_in-IsChain heap disk fat name [] (suc fuel) c chain h =
    let ends : leb end_of_chain c ≡ true = ground (arith, chain) in rw (lookup_in, ends) refl
lookup_in-IsChain heap disk fat name (d ∷ cs) (suc fuel) c (e, below, rest) h =
    let goes : leb end_of_chain c ≡ false = ground (arith, below) in
    let later =
      lookup_in-IsChain heap disk fat name cs fuel (fat.fat_table c) rest (omega (arith, h)) in
    rw (lookup_in, goes)
      (behind_lem (search (read_cluster heap disk fat c) name 0 ((cluster_size fat + 31) / 32)) _ _
          later
        ∙ ap (λ b. look_through heap disk fat name (b ∷ cs)) e)

-- The lookup of a name in a directory whose chain ends: with more fuel than it has clusters, it is the
-- search of its clusters in order, up to the one that has the name or the mark of the end.
pub fat32_lookup-IsChain :
    (heap : ℕ → ℕ) (disk : Disk) (fat : Fat) (dir : Inode) (name cs : List ℕ) (fuel : ℕ)
    → IsChain fat dir.ino cs
    → length cs < fuel
    → fat32_lookup fuel heap disk fat dir name ≡ look_through heap disk fat name cs
unfolding fat32_lookup
fat32_lookup-IsChain heap disk fat dir name cs fuel chain h =
    lookup_in-IsChain heap disk fat name cs fuel dir.ino chain h
