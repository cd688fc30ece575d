-- ===== src/Alloc/Kheap/Invariant.antt =====
-- What every call of the kernel heap preserves.
use nix_core_os.Base.{
  ℕ, ◌+◌, ◌-◌, ◌≤◌, ◌≡◌, refl, inl, inr, true, false, List, [], ◌∷◌, none, some, ◌==◌, arith,
  Bool-cases, Option-cases,
}
use mathlib.Core.Path.{subst}
use nix_core_os.Alloc.Blocks.{Block, find, used_sum}
use nix_core_os.Alloc.Blocks.Tiling.{Tiles, place-Tiles}
use nix_core_os.Alloc.Blocks.Contents.{used_sum-place}
use nix_core_os.Alloc.Blocks.Coalesced.{
  Coalesced, place-Coalesced, release-Coalesced, release-Tiles, used_sum-release,
}
use nix_core_os.Alloc.Kheap.Fit.{best_fit_lem}
use nix_core_os.Alloc.Kheap.{
  Heap, heap_start, heap_size, header, memory_init, align4, best_fit, grant, kmalloc, kfree,
  take_back,
}

-- The blocks tile the heap, no two free ones are neighbours, and the counters are right.
pub record IsValid (h : Heap) : Type 0 where
  pub tiles : Tiles header heap_start h.blocks (heap_start + heap_size)
  pub coalesced : Coalesced false h.blocks
  pub used : h.memory_used ≡ used_sum h.blocks
  pub peak : h.memory_used ≤ h.memory_peak

pub memory_init-IsValid : IsValid memory_init
unfolding memory_init used_sum
memory_init-IsValid = record {
  tiles = omega arith;
  coalesced = (refl, tt);
  used = refl;
  peak = omega arith;
}

used_sum-le : (a e : ℕ) (bs : List Block) → Tiles header a bs e → a + used_sum bs ≤ e
unfolding used_sum
used_sum-le a e [] t = omega arith
used_sum-le a e (b ∷ r) t = ground (arith, used_sum-le (b.addr + header + b.size) e r t.1)

-- The bytes in use never exceed the heap, so no sum of `kmalloc` wraps.
pub memory_used-le : {h : Heap} → IsValid h → h.memory_used ≤ heap_size
memory_used-le {h} v = omega (arith, used_sum-le heap_start _ h.blocks v.tiles)

pub grant-IsValid :
    {h : Heap} (size : ℕ) (b : Block)
    → IsValid h
    → find b.addr h.blocks ≡ some b
    → b.free ≡ true
    → size ≤ b.size
    → IsValid (grant h size b).0
unfolding grant
grant-IsValid {h} size b v f free fits =
    let t = place-Tiles header 4 size b.addr heap_start _ h.blocks v.tiles in
    let u = used_sum-place header 4 size b.addr h.blocks b f free in
    let l = used_sum-le heap_start (heap_start + heap_size) _ t in
    record {
      tiles = t;
      coalesced = place-Coalesced header 4 size b.addr false h.blocks b f free v.coalesced;
      used = ground (arith, u, l);
      peak = ground arith;
    }

-- `kmalloc` keeps the heap valid, whatever it returns.
pub kmalloc-IsValid : {h : Heap} (n : ℕ) → IsValid h → IsValid (kmalloc h n).0
unfolding kmalloc
kmalloc-IsValid {h} n v = elim (Option-cases (best_fit (align4 n) h.blocks none 0xFFFFFFFF)) [
  | inl e ↦ rw (e, kmalloc) v
  | inr (b, e) ↦
      let l = best_fit_lem (align4 n) heap_start _ h.blocks b v.tiles e in
      rw (e, kmalloc) (grant-IsValid (align4 n) b v l.0 l.1 l.2)
]

pub take_back-IsValid :
    {h : Heap} (a : ℕ) (b : Block)
    → IsValid h
    → find a h.blocks ≡ some b
    → IsValid (take_back h a b)
unfolding take_back
take_back-IsValid {h} a b v f = record {
  tiles = release-Tiles header a heap_start _ h.blocks v.tiles;
  coalesced =
      release-Coalesced header a heap_start _ h.blocks b v.tiles (omega arith) f v.coalesced;
  used = ground (arith, used_sum-release header a heap_start _ h.blocks b v.tiles (omega arith) f);
  peak = ground arith;
}

-- `kfree` of a pointer to a block keeps the heap valid, also if the block is free already.
pub kfree-IsValid : {h h' : Heap} (p : ℕ) → IsValid h → kfree h p ≡ some h' → IsValid h'
unfolding kfree
kfree-IsValid {h} {h'} p v e = elim (Bool-cases (p == 0)) [
  | inl null ↦ let same : h ≡ h' = ground arith in subst IsValid same v
  | inr ptr ↦ elim (Option-cases (find (p - header) h.blocks)) [
    | inl n ↦ ground arith
    | inr (b, f) ↦ subst IsValid (ground arith) (take_back-IsValid (p - header) b v f)
  ]
]
