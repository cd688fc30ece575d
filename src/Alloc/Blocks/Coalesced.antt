-- ===== src/Alloc/Blocks/Coalesced.antt =====
-- No two neighbouring blocks are both free, and the list operations keep that.
use nix_core_os.Base.{
  ℕ, ◌+◌, ◌<◌, ◌≡◌, refl, ◌≢◌, Bool, true, false, List, [], ◌∷◌, none, some, arith, ◌==◌,
  if◌then◌else◌, ◌&&◌,
}
use nix_core_os.Alloc.Blocks.{
  Block, find, used_sum, place, set_free, merge_next, merge_prev, release,
}
use nix_core_os.Alloc.Blocks.Tiling.{
  Tiles, find_below, set_free-Tiles, merge_next-Tiles, merge_prev-Tiles,
}
use nix_core_os.Alloc.Blocks.Contents.{
  merge_prev_absent, find-merge_next_self, find-set_free, find-merge_next, find-merge_prev,
  used_sum-merge_prev, used_sum-merge_next, used_sum-set_free,
}

-- `prev` says whether the block in front of the list is free.
abbrev pub Coalesced : Bool → List Block → Type 0
Coalesced prev [] = Unit {0}
Coalesced prev (b ∷ r) = (prev && b.free ≡ false) × Coalesced b.free r

module _ (hdr : ℕ) where
  pub place-Coalesced :
      (m n p : ℕ) (prev : Bool) (bs : List Block) (b : Block)
      → find p bs ≡ some b
      → b.free ≡ true
      → Coalesced prev bs
      → Coalesced prev (place hdr m n p bs)
  unfolding find place
  place-Coalesced m n p prev [] b h f c = tt
  place-Coalesced m n p prev (d ∷ []) b h f c = ground arith
  place-Coalesced m n p prev (d ∷ e ∷ r) b h f c =
      ground (arith, place-Coalesced m n p d.free (e ∷ r) b)

  -- A block carved out of a free one takes its rest back when it is released.
  merge_next-set_free-place :
      (m n p : ℕ) (prev : Bool) (bs : List Block) (b : Block)
      → find p bs ≡ some b
      → b.free ≡ true
      → Coalesced prev bs
      → merge_next hdr p (set_free p (place hdr m n p bs)) ≡ bs
  unfolding find place set_free merge_next
  merge_next-set_free-place m n p prev [] b h f c = refl
  merge_next-set_free-place m n p prev (d ∷ []) b h f c = ground arith
  merge_next-set_free-place m n p prev (d ∷ g ∷ r) b h f c =
      ground (arith, merge_next-set_free-place m n p d.free (g ∷ r) b)

  merge_prev_free :
      (p a e : ℕ) (prev : Bool) (bs : List Block) (b : Block)
      → Tiles hdr a bs e
      → 0 < hdr
      → find p bs ≡ some b
      → b.free ≡ true
      → Coalesced prev bs
      → merge_prev hdr p bs ≡ bs
  unfolding find merge_prev
  merge_prev_free p a e prev [] b t k h f c = refl
  merge_prev_free p a e prev (d ∷ []) b t k h f c = refl
  merge_prev_free p a e prev (d ∷ g ∷ r) b t k h f c = ground (
    arith,
    merge_prev_free p (d.addr + hdr + d.size) e d.free (g ∷ r) b t.1,
    find_below hdr p (d.addr + hdr + d.size) e (g ∷ r) t.1,
    merge_prev_absent hdr p (g ∷ r),
  )

  -- Allocating from a free block and releasing it again gives the same list.
  pub release-place :
      (m n p a e : ℕ) (bs : List Block) (b : Block)
      → Tiles hdr a bs e
      → 0 < hdr
      → find p bs ≡ some b
      → b.free ≡ true
      → Coalesced false bs
      → release hdr p (place hdr m n p bs) ≡ bs
  unfolding release
  release-place m n p a e bs b t k h f c =
      rw (merge_next-set_free-place m n p false bs b h f c)
        (merge_prev_free p a e false bs b t k h f c)

-- As `Coalesced`, but the block at `p` may have a free block in front of it.
abbrev CoalescedBut : ℕ → Bool → List Block → Type 0
CoalescedBut p prev [] = Unit {0}
CoalescedBut p prev (b ∷ r) =
    ((if b.addr == p then false else prev && b.free) ≡ false) × CoalescedBut p b.free r

but_of_Coalesced :
    (p : ℕ) (prev : Bool) (bs : List Block) → Coalesced prev bs → CoalescedBut p prev bs
but_of_Coalesced p prev [] c = tt
but_of_Coalesced p prev (b ∷ r) c = ground (arith, but_of_Coalesced p b.free r)

Coalesced-of_but :
    (p : ℕ) (prev : Bool) (bs : List Block)
    → find p bs ≡ none
    → CoalescedBut p prev bs
    → Coalesced prev bs
unfolding find
Coalesced-of_but p prev [] h c = tt
Coalesced-of_but p prev (b ∷ r) h c = ground (arith, Coalesced-of_but p b.free r)

module _ (hdr : ℕ) where
  merge_next-CoalescedBut :
      (p : ℕ) (prev : Bool) (bs : List Block)
      → Coalesced prev bs
      → CoalescedBut p prev (merge_next hdr p (set_free p bs))
  unfolding set_free merge_next
  merge_next-CoalescedBut p prev [] c = tt
  merge_next-CoalescedBut p prev (d ∷ []) c = ground arith
  merge_next-CoalescedBut p prev (d ∷ g ∷ []) c =
      ground (arith, merge_next-CoalescedBut p d.free (g ∷ []))
  merge_next-CoalescedBut p prev (d ∷ g ∷ h ∷ r) c =
      ground (arith, merge_next-CoalescedBut p d.free (g ∷ h ∷ r), but_of_Coalesced p h.free r)

  merge_prev-Coalesced :
      (p a e : ℕ) (prev : Bool) (b : Block) (r : List Block) (x : Block)
      → Tiles hdr a (b ∷ r) e
      → 0 < hdr
      → find p (b ∷ r) ≡ some x
      → x.free ≡ true
      → (prev && b.free) ≡ false
      → CoalescedBut p prev (b ∷ r)
      → Coalesced prev (merge_prev hdr p (b ∷ r))
  unfolding find merge_prev
  merge_prev-Coalesced p a e prev b [] x t k h f q c = ground arith
  merge_prev-Coalesced p a e prev b (d ∷ []) x t k h f q c = ground arith
  merge_prev-Coalesced p a e prev b (d ∷ g ∷ r) x t k h f q c = ground (
    arith,
    merge_prev-Coalesced p (b.addr + hdr + b.size) e b.free d (g ∷ r) x t.1,
    find_below hdr p (b.addr + hdr + b.size) e (d ∷ g ∷ r) t.1,
    find_below hdr p (d.addr + hdr + d.size) e (g ∷ r) t.1.1,
    merge_prev_absent hdr p (d ∷ g ∷ r),
    Coalesced-of_but p d.free (g ∷ r),
    Coalesced-of_but p g.free r,
  )

  merge_prev-Coalesced_from_start :
      (p a e : ℕ) (bs : List Block) (x : Block)
      → Tiles hdr a bs e
      → 0 < hdr
      → find p bs ≡ some x
      → x.free ≡ true
      → CoalescedBut p false bs
      → Coalesced false (merge_prev hdr p bs)
  unfolding merge_prev
  merge_prev-Coalesced_from_start p a e [] x t k h f c = tt
  merge_prev-Coalesced_from_start p a e (b ∷ r) x t k h f c =
      merge_prev-Coalesced p a e false b r x t k h f refl c

  -- Releasing a block leaves no two free neighbours.
  pub release-Coalesced :
      (p a e : ℕ) (bs : List Block) (b : Block)
      → Tiles hdr a bs e
      → 0 < hdr
      → find p bs ≡ some b
      → Coalesced false bs
      → Coalesced false (release hdr p bs)
  unfolding release
  release-Coalesced p a e bs b t k h c =
      let (x, found, eq) =
        find-merge_next_self hdr p (set_free p bs) (record b { free = true })
          (ground (arith, find-set_free hdr p p bs b)) in
      merge_prev-Coalesced_from_start p a e (merge_next hdr p (set_free p bs)) x
        (merge_next-Tiles hdr p a e _ (set_free-Tiles hdr p a e bs t)) k found eq
        (merge_next-CoalescedBut p false bs c)

  pub release-Tiles :
      (p a e : ℕ) (bs : List Block) → Tiles hdr a bs e → Tiles hdr a (release hdr p bs) e
  unfolding release
  release-Tiles p a e bs t =
      merge_prev-Tiles hdr p a e _ (merge_next-Tiles hdr p a e _ (set_free-Tiles hdr p a e bs t))

  -- Releasing takes the size of the block off the bytes in use, if it was in use.
  pub used_sum-release :
      (p a e : ℕ) (bs : List Block) (b : Block)
      → Tiles hdr a bs e
      → 0 < hdr
      → find p bs ≡ some b
      → used_sum (release hdr p bs) + (if b.free then 0 else b.size) ≡ used_sum bs
  unfolding release
  used_sum-release p a e bs b t k h =
      let freed : find p (set_free p bs) ≡ some (record b { free = true }) =
        ground (arith, find-set_free hdr p p bs b) in
      let (x, found, eq) =
        find-merge_next_self hdr p (set_free p bs) (record b { free = true }) freed in
      omega (
        arith,
        used_sum-merge_prev hdr p a e _ x
            (merge_next-Tiles hdr p a e _ (set_free-Tiles hdr p a e bs t)) k found eq,
        used_sum-merge_next hdr p _ _ freed refl,
        used_sum-set_free hdr p bs b h,
      )

  -- A block in use elsewhere stays where it is.
  pub find-release :
      (p q : ℕ) (bs : List Block) (c : Block)
      → find q bs ≡ some c
      → c.free ≡ false
      → p ≢ q
      → find q (release hdr p bs) ≡ some c
  unfolding release
  find-release p q bs c h f ne =
      find-merge_prev hdr p q _ c
        (find-merge_next hdr p q _ c (ground (arith, find-set_free hdr p q bs c)) f ne) f ne
