-- ===== src/Alloc/Kheap/Fit.antt =====
-- What the best-fit loop of `kmalloc` finds.
use nix_core_os.Base.{
  ℕ, ◌+◌, ◌^◌, ◌≤◌, ◌<◌, ◌≡◌, ◌≢◌, ◌⊎◌, inl, true, List, [], ◌∷◌, Option, none, some, arith,
}
use nix_core_os.Alloc.Blocks.{Block, find}
use nix_core_os.Alloc.Blocks.Tiling.{Tiles, find-bounds}
use nix_core_os.Alloc.Kheap.{header, best_fit}

-- `best_size` is the size of the best block so far.
abbrev Tracks : Option Block → ℕ → Type 0
Tracks none s = Unit {0}
Tracks (some x) s = x.size ≡ s

best_fit-free :
    (size : ℕ) (bs : List Block) (best : Option Block) (s : ℕ) (b : Block)
    → best_fit size bs best s ≡ some b
    → (best ≡ some b) ⊎ ((b.free ≡ true) × (size ≤ b.size) × (b.size < s))
unfolding best_fit
best_fit-free size [] best s b h = inl h
best_fit-free size (c ∷ r) best s b h =
    ground (arith, best_fit-free size r (some c) c.size b, best_fit-free size r best s b)

best_fit-found :
    (size a e : ℕ) (bs : List Block) (best : Option Block) (s : ℕ) (b : Block)
    → Tiles header a bs e
    → best_fit size bs best s ≡ some b
    → (best ≡ some b) ⊎ (find b.addr bs ≡ some b)
unfolding best_fit find
best_fit-found size a e [] best s b t h = inl h
best_fit-found size a e (c ∷ r) best s b t h = ground (
  arith,
  best_fit-found size (c.addr + header + c.size) e r (some c) c.size b t.1,
  best_fit-found size (c.addr + header + c.size) e r best s b t.1,
  find-bounds header b.addr (c.addr + header + c.size) e r b t.1,
)

best_fit-le :
    (size : ℕ) (bs : List Block) (best : Option Block) (s : ℕ) (b : Block)
    → Tracks best s
    → best_fit size bs best s ≡ some b
    → b.size ≤ s
unfolding best_fit
best_fit-le size [] best s b k h = ground arith
best_fit-le size (c ∷ r) best s b k h =
    ground (arith, best_fit-le size r (some c) c.size b, best_fit-le size r best s b)

best_fit_least :
    (size : ℕ) (bs : List Block) (best : Option Block) (s : ℕ) (b : Block) (q : ℕ) (c : Block)
    → Tracks best s
    → best_fit size bs best s ≡ some b
    → find q bs ≡ some c
    → c.free ≡ true
    → size ≤ c.size
    → b.size ≤ c.size
unfolding best_fit find
best_fit_least size [] best s b q c k h f free fits = ground arith
best_fit_least size (d ∷ r) best s b q c k h f free fits = ground (
  arith,
  best_fit_least size r (some d) d.size b q c,
  best_fit_least size r best s b q c,
  best_fit-le size r (some d) d.size b,
  best_fit-le size r best s b,
)

best_fit-some :
    (size : ℕ) (bs : List Block) (b : Block) (s : ℕ) → best_fit size bs (some b) s ≢ none
unfolding best_fit
best_fit-some size [] b s h = cc
best_fit-some size (c ∷ r) b s h =
    ground (arith, best_fit-some size r c c.size, best_fit-some size r b s)

best_fit-none :
    (size : ℕ) (bs : List Block) (s q : ℕ) (c : Block)
    → best_fit size bs none s ≡ none
    → find q bs ≡ some c
    → c.free ≡ true
    → c.size < s
    → c.size < size
unfolding best_fit find
best_fit-none size [] s q c h f free below = ground arith
best_fit-none size (d ∷ r) s q c h f free below =
    ground (arith, best_fit-none size r s q c, best_fit-some size r d d.size)

-- A block that the loop returns is in the list and free, is large enough, and no other free block
-- that is large enough is smaller.
pub best_fit_lem :
    (size a e : ℕ) (bs : List Block) (b : Block)
    → Tiles header a bs e
    → best_fit size bs none 0xFFFFFFFF ≡ some b
    → (find b.addr bs ≡ some b)
      × (b.free ≡ true)
      × (size ≤ b.size)
      × ((q : ℕ) (c : Block) → find q bs ≡ some c → c.free ≡ true → size ≤ c.size → b.size ≤ c.size)
best_fit_lem size a e bs b t h = (
  ground (arith, best_fit-found size a e bs none _ b t h),
  ground (arith, best_fit-free size bs none _ b h),
  ground (arith, best_fit-free size bs none _ b h),
  λ q c. best_fit_least size bs none _ b q c tt h,
)

-- If the loop finds nothing, every free block of the heap is too small.
pub best_fit-none_lem :
    (size a e : ℕ) (bs : List Block)
    → Tiles header a bs e
    → e < 2 ^ 32
    → best_fit size bs none 0xFFFFFFFF ≡ none
    → (q : ℕ) (c : Block) → find q bs ≡ some c
    → c.free ≡ true
    → c.size < size
best_fit-none_lem size a e bs t below h q c f free =
    best_fit-none size bs _ q c h f free (omega (arith, find-bounds header q a e bs c t f))
