-- ===== src/Alloc/Malloc/Service.antt =====
-- What malloc and free promise their callers.
use nix_core_os.Base.{
  ℕ, ◌+◌, ◌-◌, ◌≤◌, ◌<◌, ◌≡◌, refl, ap, ◌∙◌, ◌≢◌, ◌⊎◌, inl, inr, true, false, List, none, some,
  arith, Option-cases,
}
use nix_core_os.Alloc.Blocks.{Block, find, place, release}
use nix_core_os.Alloc.Blocks.Coalesced.{release-place, find-release}
use nix_core_os.Alloc.Malloc.{Arena, header, align8, first_fit, started, malloc, free}
use nix_core_os.Alloc.Blocks.Tiling.{find_disjoint}
use nix_core_os.Alloc.Blocks.Contents.{served, find-place_self, find-place_ne}
use nix_core_os.Alloc.Malloc.Invariant.{
  IsValid, first_fit_lem, first_fit-none, started-some, free-Freed,
}

-- What a successful `malloc` gives: a block at `a`, with the pointer behind its header.
pub record Serves (base : ℕ) (s : Arena) (n : ℕ) (s' : Arena) (p : ℕ) : Type 0 where
  pub a : ℕ
  pub old : Block
  pub block : Block
  pub pointer : p ≡ a + header
  pub was_free : (find a (started base s) ≡ some old) × (old.free ≡ true)
  pub now_used : (find a (started base s') ≡ some block) × (block.free ≡ false)
  pub room : align8 n ≤ block.size
  -- First fit: every free block before the one that was taken is too small.
  pub first :
      (q : ℕ) (c : Block)
      → find q (started base s) ≡ some c
      → c.free ≡ true
      → q < a
      → c.size < align8 n
  -- Every block in use stays as it is, and does not overlap the new one.
  pub kept :
      (q : ℕ) (c : Block)
      → find q (started base s) ≡ some c
      → c.free ≡ false
      → (find q (started base s') ≡ some c)
        × ((a + header + block.size ≤ q) ⊎ (q + header + c.size ≤ a))
  pub same_mem : s'.mem ≡ s.mem
  pub blocks : s'.blocks ≡ some (place header 8 (align8 n) a (started base s))

-- On a valid arena a pointer that `malloc` returns is a fresh block with room for the request rounded
-- up to 8 bytes, taken from the first free block that is large enough; the blocks in use and the bytes
-- of memory are unchanged, and no block in use overlaps the new one.
pub malloc-Serves :
    {base : ℕ} {s s' : Arena} (n : ℕ) {p : ℕ}
    → IsValid base s
    → malloc base s n ≡ (s', some p)
    → Serves base s n s' p
unfolding malloc
malloc-Serves {base} {s} {s'} n {p} v e =
    elim (Option-cases (first_fit (align8 n) (started base s))) [
      | inl f ↦ absurd (ground arith)
      | inr (b, f) ↦
          let t = v.laid.tiles in
          let (g, free, fits, first) = first_fit_lem (align8 n) base _ (started base s) b t f in
          let blocks : s'.blocks ≡ some (place header 8 (align8 n) b.addr (started base s)) =
            ground arith in
          let now = started-some base s' _ blocks in
          record {
            a = b.addr;
            old = b;
            block = record { addr = b.addr; size = served header 8 (align8 n) b; free = false };
            pointer = ground arith;
            was_free = (g, free);
            now_used =
                (rw now (find-place_self header 8 (align8 n) b.addr (started base s) b g), refl);
            room = ground arith;
            first = first;
            kept = λ q c h used.
                let ne : q ≢ b.addr = λ same. ground arith in
                (
                  rw now (
                      find-place_ne header 8 (align8 n) b.addr q base _ (started base s) c t
                        (omega arith) ne h),
                  ground (arith, find_disjoint header b.addr q base _ (started base s) b c t g h),
                );
            same_mem = ground arith;
            blocks = blocks;
          }
    ]

-- `malloc` of a positive size fails only if every free block is smaller than the rounded request.
pub malloc-none :
    (base : ℕ) (s : Arena) {s' : Arena} (n : ℕ)
    → 0 < n
    → malloc base s n ≡ (s', none)
    → (started base s' ≡ started base s)
      × ((q : ℕ) (c : Block) → find q (started base s) ≡ some c → c.free ≡ true → c.size < align8 n)
unfolding malloc
malloc-none base s {s'} n h e = elim (Option-cases (first_fit (align8 n) (started base s))) [
  | inl f ↦ (
    started-some base s' (started base s) (ground arith),
    λ q c. first_fit-none (align8 n) (started base s) q c f,
  )
  | inr (b, f) ↦ absurd (ground arith)
]

free_found :
    (s : Arena) (p a : ℕ) (bs : List Block) (b : Block)
    → s.blocks ≡ some bs
    → p - header ≡ a
    → find a bs ≡ some b
    → free s (some p) ≡ some (record s { blocks = some (release header a bs) })
unfolding free
free_found s p a bs b e back f = ground arith

-- Freeing what `malloc` has just returned succeeds and gives back the list of blocks.
pub free-malloc :
    {base : ℕ} {s s' : Arena} (n : ℕ) {p : ℕ}
    → IsValid base s
    → malloc base s n ≡ (s', some p)
    → (s'' : Arena) × (free s' (some p) ≡ some s'')
      × (started base s'' ≡ started base s)
      × (s''.mem ≡ s.mem)
free-malloc {base} {s} {s'} n {p} v e =
    let g = malloc-Serves n v e in
    let back : p - header ≡ g.a = omega (arith, g.pointer) in
    let bs' = place header 8 (align8 n) g.a (started base s) in
    let now = started-some base s' bs' g.blocks in
    let found : find g.a bs' ≡ some g.block = rw (← now) g.now_used.0 in
    let s'' : Arena = record s' { blocks = some (release header g.a bs') } in
    (
      s'',
      free_found s' p g.a bs' g.block g.blocks back found,
      started-some base s'' (release header g.a bs') refl
          ∙ release-place header 8 (align8 n) g.a base _ (started base s) g.old v.laid.tiles
              (omega arith) g.was_free.0 g.was_free.1 v.laid.coalesced,
      g.same_mem,
    )

-- Freeing a block leaves every other block in use, and all bytes, as they were.
pub free-keeps :
    (base : ℕ) (s s' : Arena) (p : ℕ)
    → free s (some p) ≡ some s'
    → (s'.mem ≡ s.mem)
      × ((q : ℕ) (c : Block)
          → find q (started base s) ≡ some c
          → c.free ≡ false
          → p - header ≢ q
          → find q (started base s') ≡ some c)
free-keeps base s s' p e =
    let f = free-Freed p e in
    (
      ap (λ r. r.mem) f.result,
      λ q c g used ne. rw (started-some base s' _ (ap (λ r. r.blocks) f.result)) (
          find-release header (p - header) q f.bs c (rw (started-some base s f.bs f.blocks) at g)
            used ne),
    )
