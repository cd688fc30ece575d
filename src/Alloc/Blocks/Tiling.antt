-- ===== src/Alloc/Blocks/Tiling.antt =====
-- The blocks cover the heap without gap or overlap, and the list operations keep that.
use nix_core_os.Base.{ℕ, ◌+◌, ◌≤◌, ◌<◌, ◌≡◌, refl, ◌≢◌, ◌⊎◌, List, [], ◌∷◌, none, some, arith}
use nix_core_os.Alloc.Blocks.{Block, find, place, set_free, merge_next, merge_prev}

module _ (hdr : ℕ) where
  -- The blocks of the list lie end to end from address `a` to address `e`.
  abbrev pub Tiles : ℕ → List Block → ℕ → Type 0
  Tiles a [] e = a ≡ e
  Tiles a (b ∷ r) e = (b.addr ≡ a) × Tiles (b.addr + hdr + b.size) r e

  pub Tiles-le : (a e : ℕ) (bs : List Block) → Tiles a bs e → a ≤ e
  Tiles-le a e [] t = omega arith
  Tiles-le a e (b ∷ r) t = omega (arith, Tiles-le (b.addr + hdr + b.size) e r t.1)

  -- A block that is found lies inside the heap.
  pub find-bounds :
      (p a e : ℕ) (bs : List Block) (b : Block)
      → Tiles a bs e
      → find p bs ≡ some b
      → (b.addr ≡ p) × (a ≤ p) × (p + hdr + b.size ≤ e)
  unfolding find
  find-bounds p a e [] b t h = ground arith
  find-bounds p a e (c ∷ r) b t h = ground (
    arith,
    Tiles-le (c.addr + hdr + c.size) e r t.1,
    find-bounds p (c.addr + hdr + c.size) e r b t.1,
  )

  pub place-Tiles :
      (m n p a e : ℕ) (bs : List Block) → Tiles a bs e → Tiles a (place hdr m n p bs) e
  unfolding place
  place-Tiles m n p a e [] t = t
  place-Tiles m n p a e (b ∷ r) t =
      ground (arith, place-Tiles m n p (b.addr + hdr + b.size) e r t.1)

  pub set_free-Tiles : (p a e : ℕ) (bs : List Block) → Tiles a bs e → Tiles a (set_free p bs) e
  unfolding set_free
  set_free-Tiles p a e [] t = t
  set_free-Tiles p a e (b ∷ r) t = ground (arith, set_free-Tiles p (b.addr + hdr + b.size) e r t.1)

  pub merge_next-Tiles :
      (p a e : ℕ) (bs : List Block) → Tiles a bs e → Tiles a (merge_next hdr p bs) e
  unfolding merge_next
  merge_next-Tiles p a e [] t = t
  merge_next-Tiles p a e (b ∷ []) t = ground arith
  merge_next-Tiles p a e (b ∷ c ∷ r) t =
      ground (arith, merge_next-Tiles p (b.addr + hdr + b.size) e (c ∷ r) t.1)

  pub merge_prev-Tiles :
      (p a e : ℕ) (bs : List Block) → Tiles a bs e → Tiles a (merge_prev hdr p bs) e
  unfolding merge_prev
  merge_prev-Tiles p a e [] t = t
  merge_prev-Tiles p a e (b ∷ []) t = t
  merge_prev-Tiles p a e (b ∷ c ∷ r) t =
      ground (arith, merge_prev-Tiles p (b.addr + hdr + b.size) e (c ∷ r) t.1)

  -- Below the first block there is none.
  pub find_below : (p a e : ℕ) (bs : List Block) → Tiles a bs e → p < a → find p bs ≡ none
  unfolding find
  find_below p a e [] t h = refl
  find_below p a e (b ∷ r) t h = ground (arith, find_below p (b.addr + hdr + b.size) e r t.1)

  -- Two blocks in the list do not overlap, headers included.
  pub find_disjoint :
      (p q a e : ℕ) (bs : List Block) (b c : Block)
      → Tiles a bs e
      → find p bs ≡ some b
      → find q bs ≡ some c
      → p ≢ q
      → (p + hdr + b.size ≤ q) ⊎ (q + hdr + c.size ≤ p)
  unfolding find
  find_disjoint p q a e [] b c t hp hq ne = ground arith
  find_disjoint p q a e (d ∷ r) b c t hp hq ne = ground (
    arith,
    find-bounds p (d.addr + hdr + d.size) e r b t.1,
    find-bounds q (d.addr + hdr + d.size) e r c t.1,
    find_disjoint p q (d.addr + hdr + d.size) e r b c t.1,
  )
