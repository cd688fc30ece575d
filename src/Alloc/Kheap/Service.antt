-- ===== src/Alloc/Kheap/Service.antt =====
-- What the kernel heap promises its callers.
use nix_core_os.Base.{
  ℕ, ◌+◌, ◌-◌, ◌%◌, ◌^◌, ◌≤◌, ◌<◌, ◌≡◌, refl, sym, ap, ◌∙◌, ◌≢◌, ◌⊎◌, inl, inr, true, false, none,
  some, arith, Option-cases,
}
use mathlib.Core.Path.{subst, subst₂}
use nix_core_os.Alloc.Blocks.{Block, find, place, used_sum, release}
use nix_core_os.Alloc.Blocks.Contents.{served, used_sum-place, find-place_self, find-place_ne}
use nix_core_os.Alloc.Blocks.Coalesced.{release-place, used_sum-release, find-release}
use nix_core_os.Alloc.Kheap.Fit.{best_fit_lem}
use nix_core_os.Alloc.Kheap.{
  Heap, heap_start, header, align4, best_fit, grant, kmalloc, kfree, take_back,
}
use nix_core_os.Alloc.Blocks.Tiling.{find_disjoint}
use nix_core_os.Alloc.Kheap.Fit.{best_fit-none_lem}
use nix_core_os.Alloc.Kheap.Invariant.{
  IsValid, take_back-IsValid, kmalloc-IsValid, memory_used-le, grant-IsValid,
}

-- What a successful `kmalloc` gives: a block at `a`, with the pointer behind its header.
pub record Serves (h : Heap) (n : ℕ) (h' : Heap) (p : ℕ) : Type 0 where
  pub a : ℕ
  pub old : Block
  pub block : Block
  pub pointer : p ≡ a + header
  pub was_free : (find a h.blocks ≡ some old) × (old.free ≡ true)
  pub now_used : (find a h'.blocks ≡ some block) × (block.free ≡ false)
  -- `align4 n` is `n`, rounded up to a multiple of 4.
  pub rounded : (n ≤ align4 n) × (align4 n < n + 4) × (align4 n % 4 ≡ 0)
  pub room : (n ≤ block.size) × (align4 n ≤ block.size) × (block.size ≤ old.size)
  -- Best fit: no free block that is large enough is smaller than the one that was taken.
  pub best :
      (q : ℕ) (c : Block)
      → find q h.blocks ≡ some c
      → c.free ≡ true
      → align4 n ≤ c.size
      → old.size ≤ c.size
  -- Every block in use stays as it is, and does not overlap the new one.
  pub kept :
      (q : ℕ) (c : Block)
      → find q h.blocks ≡ some c
      → c.free ≡ false
      → (find q h'.blocks ≡ some c) × ((a + header + block.size ≤ q) ⊎ (q + header + c.size ≤ a))
  pub counted : h'.memory_used ≡ h.memory_used + block.size

align4_lem : (n : ℕ) → n + 3 < 2 ^ 32 → (n ≤ align4 n) × (align4 n < n + 4) × (align4 n % 4 ≡ 0)
unfolding align4
align4_lem n h = (omega arith, omega arith, omega arith)

grant-Serves :
    {h : Heap} (n : ℕ) (b : Block)
    → n + 3 < 2 ^ 32
    → IsValid h
    → best_fit (align4 n) h.blocks none 0xFFFFFFFF ≡ some b
    → Serves h n (grant h (align4 n) b).0 (grant h (align4 n) b).1
unfolding grant
grant-Serves {h} n b small v e =
    let up = align4_lem n small in
    let (f, free, fits, least) = best_fit_lem (align4 n) heap_start _ h.blocks b v.tiles e in
    let w = grant-IsValid (align4 n) b v f free fits in
    record {
      a = b.addr;
      old = b;
      block = record { addr = b.addr; size = served header 4 (align4 n) b; free = false };
      pointer = refl;
      was_free = (f, free);
      now_used = (find-place_self header 4 (align4 n) b.addr h.blocks b f, refl);
      rounded = up;
      room = (ground (arith, up.0), ground arith, ground arith);
      best = least;
      kept = λ q c g used.
          let ne : q ≢ b.addr = λ same. ground arith in
          (
            find-place_ne header 4 (align4 n) b.addr q heap_start _ h.blocks c v.tiles (omega arith)
                ne g,
            ground (arith, find_disjoint header b.addr q heap_start _ h.blocks b c v.tiles f g),
          );
      counted = ground (
        arith,
        used_sum-place header 4 (align4 n) b.addr h.blocks b f free,
        w.used,
        memory_used-le w,
      );
    }

-- On a valid heap, for a request of less than 2^32 - 3 bytes, a pointer that `kmalloc` returns is a
-- fresh block with room for the request, rounded up to a multiple of 4 bytes, taken from the smallest free block that is large enough; the blocks in use
-- are unchanged and do not overlap it, and its size is added to the bytes in use.
pub kmalloc-Serves :
    {h h' : Heap} (n : ℕ) {p : ℕ}
    → n + 3 < 2 ^ 32
    → IsValid h
    → kmalloc h n ≡ (h', some p)
    → Serves h n h' p
unfolding kmalloc
kmalloc-Serves {h} {h'} n {p} small v e =
    elim (Option-cases (best_fit (align4 n) h.blocks none 0xFFFFFFFF)) [
      | inl f ↦ absurd (ground arith)
      | inr (b, f) ↦
          let e1 : (grant h (align4 n) b).0 ≡ h' = ground arith in
          let e2 : (grant h (align4 n) b).1 ≡ p = ground arith in
          subst₂ (Serves h n) e1 e2 (grant-Serves n b small v f)
    ]

-- If `kmalloc` fails on a valid heap, the heap is unchanged and every free block is smaller than the
-- rounded request.
pub kmalloc-none :
    {h h' : Heap} (n : ℕ)
    → IsValid h
    → kmalloc h n ≡ (h', none)
    → (h' ≡ h)
      × ((q : ℕ) (c : Block) → find q h.blocks ≡ some c → c.free ≡ true → c.size < align4 n)
unfolding kmalloc
kmalloc-none {h} {h'} n v e = elim (Option-cases (best_fit (align4 n) h.blocks none 0xFFFFFFFF)) [
  | inl f ↦
      (ground arith, best_fit-none_lem (align4 n) heap_start _ h.blocks v.tiles (omega arith) f)
  | inr (b, f) ↦ absurd (ground arith)
]

blocks-grant :
    (h : Heap) (size : ℕ) (b : Block)
    → (grant h size b).0.blocks ≡ place header 4 size b.addr h.blocks
unfolding grant
blocks-grant h size b = refl

pointer-grant : (h : Heap) (size : ℕ) (b : Block) → (grant h size b).1 ≡ b.addr + header
unfolding grant
pointer-grant h size b = refl

blocks-take_back :
    (h : Heap) (a : ℕ) (b : Block) → (take_back h a b).blocks ≡ release header a h.blocks
unfolding take_back
blocks-take_back h a b = refl

-- Releasing what `kmalloc` has just returned gives back the list of blocks and the count of bytes in
-- use that were there before the call.
pub kfree-kmalloc :
    {h h' : Heap} (n : ℕ) {p : ℕ}
    → IsValid h
    → kmalloc h n ≡ (h', some p)
    → (h'' : Heap) × (kfree h' p ≡ some h'')
      × (h''.blocks ≡ h.blocks)
      × (h''.memory_used ≡ h.memory_used)
unfolding kmalloc kfree
kfree-kmalloc {h} {h'} n {p} v e =
    elim (Option-cases (best_fit (align4 n) h.blocks none 0xFFFFFFFF)) [
      | inl f ↦ absurd (ground arith)
      | inr (b, f) ↦
          let (f1, free, fits, least) = best_fit_lem (align4 n) heap_start _ h.blocks b v.tiles f in
          let block : Block = record {
            addr = b.addr;
            size = served header 4 (align4 n) b;
            free = false;
          } in
          let grown : grant h (align4 n) b ≡ (h', p) = ground arith in
          let blocks : h'.blocks ≡ place header 4 (align4 n) b.addr h.blocks =
            sym (ap (λ r. r.0.blocks) grown) ∙ blocks-grant h (align4 n) b in
          let found : find b.addr h'.blocks ≡ some block =
            rw blocks (find-place_self header 4 (align4 n) b.addr h.blocks b f1) in
          let back : release header b.addr h'.blocks ≡ h.blocks = rw blocks (
            release-place header 4 (align4 n) b.addr heap_start _ h.blocks b v.tiles (omega arith)
              f1 free v.coalesced) in
          let w =
            take_back-IsValid b.addr block (subst IsValid (ap (λ r. r.0) e) (kmalloc-IsValid n v))
              found in
          let ptr : p ≡ b.addr + header =
            sym (ap (λ r. r.1) grown) ∙ pointer-grant h (align4 n) b in
          (
            take_back h' b.addr block,
            ground (arith, found),
            blocks-take_back h' b.addr block ∙ back,
            w.used ∙ ap used_sum (blocks-take_back h' b.addr block ∙ back) ∙ sym v.used,
          )
    ]

-- Freeing a block in use takes its size off the bytes in use and leaves every other block in use as
-- it was.
pub kfree-keeps :
    {h h' : Heap} (a : ℕ) (b : Block)
    → IsValid h
    → find a h.blocks ≡ some b
    → b.free ≡ false
    → kfree h (a + header) ≡ some h'
    → (h'.memory_used + b.size ≡ h.memory_used)
      × ((q : ℕ) (c : Block)
          → find q h.blocks ≡ some c
          → c.free ≡ false
          → a ≢ q
          → find q h'.blocks ≡ some c)
unfolding kfree
kfree-keeps {h} {h'} a b v f used e =
    let back : a + header - header ≡ a = omega arith in
    let grown : take_back h a b ≡ h' = ground (arith, back) in
    let blocks : h'.blocks ≡ release header a h.blocks =
      sym (ap (λ r. r.blocks) grown) ∙ blocks-take_back h a b in
    let w = subst IsValid grown (take_back-IsValid a b v f) in
    (
      ground (
        arith,
        blocks,
        w.used,
        used_sum-release header a heap_start _ h.blocks b v.tiles (omega arith) f,
      ),
      λ q c g live ne. rw blocks (find-release header a q h.blocks c g live ne),
    )

-- A request of 2^32 - 3 bytes or more is rounded to 0 by the wrap of `size + 3`, so it succeeds
-- whenever any block is free.
pub kmalloc_wraps :
    {h : Heap} (n q : ℕ) (c : Block)
    → IsValid h
    → 2 ^ 32 - 3 ≤ n
    → n < 2 ^ 32
    → find q h.blocks ≡ some c
    → c.free ≡ true
    → (h' : Heap) × (p : ℕ) × (kmalloc h n ≡ (h', some p))
unfolding kmalloc
kmalloc_wraps {h} n q c v lo hi f free =
    let zero_size : align4 n ≡ 0 = align4-zero n lo hi in
    elim (Option-cases (best_fit (align4 n) h.blocks none 0xFFFFFFFF)) [
      | inl e ↦ absurd (
          omega (
            arith,
            best_fit-none_lem (align4 n) heap_start _ h.blocks v.tiles (omega arith) e q c f free,
            zero_size,
          ))
      | inr (b, e) ↦ ((grant h (align4 n) b).0, (grant h (align4 n) b).1, rw (e, kmalloc) refl)
    ]
  where
    align4-zero : (n : ℕ) → 2 ^ 32 - 3 ≤ n → n < 2 ^ 32 → align4 n ≡ 0
    align4-zero n lo hi = unfold align4 in omega arith
