-- ===== src/Alloc/Blocks/Contents.antt =====
-- What the list operations do to the block that they are called for, and to the others.
use nix_core_os.Base.{
  ℕ, ◌+◌, ◌≤◌, ◌<◌, ◌≡◌, refl, ◌≢◌, inl, inr, true, false, List, [], ◌∷◌, none, some, arith, leb,
  ◌==◌, if◌then◌else◌, Bool-cases,
}
use nix_core_os.Alloc.Blocks.{Block, find, used_sum, place, set_free, merge_next, merge_prev}
use nix_core_os.Alloc.Blocks.Tiling.{Tiles, find_below, find-bounds}

-- The size that a free block has once it serves a request of `n` bytes.
abbrev pub served : ℕ → ℕ → ℕ → Block → ℕ
served hdr m n b = if leb (n + hdr + m) b.size then n else b.size

module _ (hdr : ℕ) where
  pub used_sum-place :
      (m n p : ℕ) (bs : List Block) (b : Block)
      → find p bs ≡ some b
      → b.free ≡ true
      → used_sum (place hdr m n p bs) ≡ served hdr m n b + used_sum bs
  unfolding find used_sum place
  used_sum-place m n p [] b h f = ground arith
  used_sum-place m n p (c ∷ r) b h f = ground (arith, used_sum-place m n p r b)

  pub find-place_self :
      (m n p : ℕ) (bs : List Block) (b : Block)
      → find p bs ≡ some b
      → find p (place hdr m n p bs)
        ≡ some (record { addr = p; size = served hdr m n b; free = false })
  unfolding find place
  find-place_self m n p [] b h = ground arith
  find-place_self m n p (c ∷ r) b h = ground (arith, find-place_self m n p r b)

  pub find-place_ne :
      (m n p q a e : ℕ) (bs : List Block) (c : Block)
      → Tiles hdr a bs e
      → 0 < hdr
      → q ≢ p
      → find q bs ≡ some c
      → find q (place hdr m n p bs) ≡ some c
  unfolding find place
  find-place_ne m n p q a e [] c t k ne h = ground arith
  find-place_ne m n p q a e (b ∷ r) c t k ne h = ground (
    arith,
    find-bounds hdr q (b.addr + hdr + b.size) e r c t.1,
    find-place_ne m n p q (b.addr + hdr + b.size) e r c t.1,
  )

  pub used_sum-set_free :
      (p : ℕ) (bs : List Block) (b : Block)
      → find p bs ≡ some b
      → used_sum (set_free p bs) + (if b.free then 0 else b.size) ≡ used_sum bs
  unfolding find used_sum set_free
  used_sum-set_free p [] b h = ground arith
  used_sum-set_free p (c ∷ r) b h = ground (arith, used_sum-set_free p r b)

  pub used-le_used_sum :
      (p : ℕ) (bs : List Block) (b : Block)
      → find p bs ≡ some b
      → (if b.free then 0 else b.size) ≤ used_sum bs
  unfolding find used_sum
  used-le_used_sum p [] b h = ground arith
  used-le_used_sum p (c ∷ r) b h = ground (arith, used-le_used_sum p r b)

  pub find-set_free :
      (p q : ℕ) (bs : List Block) (b : Block)
      → find q bs ≡ some b
      → find q (set_free p bs) ≡ some (if p == q then record b { free = true } else b)
  unfolding find set_free
  find-set_free p q [] b h = ground arith
  find-set_free p q (c ∷ r) b h = ground (arith, find-set_free p q r b)

  pub used_sum-merge_next :
      (p : ℕ) (bs : List Block) (b : Block)
      → find p bs ≡ some b
      → b.free ≡ true
      → used_sum (merge_next hdr p bs) ≡ used_sum bs
  unfolding find used_sum merge_next
  used_sum-merge_next p [] b h f = ground arith
  used_sum-merge_next p (c ∷ []) b h f = ground arith
  used_sum-merge_next p (c ∷ d ∷ r) b h f = ground (arith, used_sum-merge_next p (d ∷ r) b)

  pub merge_prev_absent : (p : ℕ) (bs : List Block) → find p bs ≡ none → merge_prev hdr p bs ≡ bs
  unfolding find merge_prev
  merge_prev_absent p [] h = refl
  merge_prev_absent p (c ∷ []) h = refl
  merge_prev_absent p (c ∷ d ∷ r) h = ground (arith, merge_prev_absent p (d ∷ r))

  pub used_sum-merge_prev :
      (p a e : ℕ) (bs : List Block) (b : Block)
      → Tiles hdr a bs e
      → 0 < hdr
      → find p bs ≡ some b
      → b.free ≡ true
      → used_sum (merge_prev hdr p bs) ≡ used_sum bs
  unfolding find used_sum merge_prev
  used_sum-merge_prev p a e [] b t k h f = ground arith
  used_sum-merge_prev p a e (c ∷ []) b t k h f = ground arith
  used_sum-merge_prev p a e (c ∷ d ∷ r) b t k h f = ground (
    arith,
    used_sum-merge_prev p (c.addr + hdr + c.size) e (d ∷ r) b t.1,
    find_below hdr p (c.addr + hdr + c.size) e (d ∷ r) t.1,
    merge_prev_absent p (d ∷ r),
  )

  -- Joining blocks touches no block that is in use: it stays where it is.
  pub find-merge_next :
      (p q : ℕ) (bs : List Block) (c : Block)
      → find q bs ≡ some c
      → c.free ≡ false
      → p ≢ q
      → find q (merge_next hdr p bs) ≡ some c
  unfolding find merge_next
  find-merge_next p q [] c h f ne = ground arith
  find-merge_next p q (b ∷ []) c h f ne = ground arith
  find-merge_next p q (b ∷ d ∷ r) c h f ne = ground (arith, find-merge_next p q (d ∷ r) c)

  pub find-merge_prev :
      (p q : ℕ) (bs : List Block) (c : Block)
      → find q bs ≡ some c
      → c.free ≡ false
      → p ≢ q
      → find q (merge_prev hdr p bs) ≡ some c
  unfolding find merge_prev
  find-merge_prev p q [] c h f ne = ground arith
  find-merge_prev p q (b ∷ []) c h f ne = ground arith
  find-merge_prev p q (b ∷ d ∷ r) c h f ne = ground (arith, find-merge_prev p q (d ∷ r) c)

  -- The block at `p` stays free while its successor is joined to it.
  pub find-merge_next_self :
      (p : ℕ) (bs : List Block) (b : Block)
      → find p bs ≡ some b
      → (c : Block) × (find p (merge_next hdr p bs) ≡ some c) × (c.free ≡ b.free)
  unfolding find merge_next
  find-merge_next_self p [] b h = absurd (ground arith)
  find-merge_next_self p (d ∷ []) b h = (d, ground arith, ground arith)
  find-merge_next_self p (d ∷ e ∷ r) b h = elim (Bool-cases (d.addr == p)) [
    | inl here ↦ elim (Bool-cases e.free) [
      | inl joined ↦ (record d { size = d.size + (hdr + e.size) }, ground arith, ground arith)
      | inr apart ↦ (d, ground arith, ground arith)
    ]
    | inr further ↦
        let (c, x, y) = find-merge_next_self p (e ∷ r) b (ground arith) in
        (c, ground arith, ground arith)
  ]
