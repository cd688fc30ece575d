-- ===== src/Alloc/Blocks.antt =====
-- The linked list of heap blocks that both allocators keep: `memory_block_t` of include/memory.h
-- and `heap_block_t` of lib/libc/libc.c. The list holds the blocks in the order of their `next`
-- pointers; `addr` is the address of the block's header, and `hdr` the size of a header.
pub mod Tiling
pub mod Contents
pub mod Coalesced
use nix_core_os.Base.{
  ℕ, ◌+◌, ◌-◌, ◌≡◌, Bool, true, false, List, [], ◌∷◌, Option, none, some, leb, ◌==◌, if◌then◌else◌,
}

pub record Block : Type 0 where
  pub addr : ℕ
  pub size : ℕ
  pub free : Bool

-- The block whose header is at an address.
unfoldable pub find : ℕ → List Block → Option Block
find a [] = none
find a (b ∷ r) = if b.addr == a then some b else find a r

-- The bytes held by blocks that are in use.
unfoldable pub used_sum : List Block → ℕ
used_sum [] = 0
used_sum (b ∷ r) = (if b.free then 0 else b.size) + used_sum r

-- `block->free = true`, at the block whose header is at address `a`.
unfoldable pub set_free : ℕ → List Block → List Block
set_free a [] = []
set_free a (b ∷ r) = if b.addr == a then record b { free = true } ∷ r else b ∷ set_free a r

module _ (hdr : ℕ) where
  -- What becomes of a free block that serves a request of `size` bytes: its front part, with the
  -- rest as a new free block if at least `min_rest` bytes remain behind a header.
  unfoldable pub carve : ℕ → ℕ → Block → List Block → List Block
  carve min_rest size b r =
      if leb (size + hdr + min_rest) b.size
      then record b { size = size; free = false }
        ∷ record { addr = b.addr + hdr + size; size = b.size - size - hdr; free = true }
        ∷ r
      else record b { free = false } ∷ r

  -- `carve` at the block whose header is at address `a`.
  unfoldable pub place : ℕ → ℕ → ℕ → List Block → List Block
  unfolding carve
  place min_rest size a [] = []
  place min_rest size a (b ∷ r) =
      if b.addr == a then carve min_rest size b r else b ∷ place min_rest size a r

  -- Both coalescing steps join a block with the one behind it if that is free.
  unfoldable pub join : Block → List Block → List Block
  join b [] = b ∷ []
  join b (c ∷ r) = if c.free then record b { size = b.size + (hdr + c.size) } ∷ r else b ∷ c ∷ r

  -- `if (block->next && block->next->free)`: the block at address `a` absorbs its successor.
  unfoldable pub merge_next : ℕ → List Block → List Block
  unfolding join
  merge_next a [] = []
  merge_next a (b ∷ r) = if b.addr == a then join b r else b ∷ merge_next a r

  -- The walk to the block whose `next` is the block at `a`; if it is free it absorbs that block.
  unfoldable pub merge_prev : ℕ → List Block → List Block
  merge_prev a [] = []
  merge_prev a (b ∷ []) = b ∷ []
  merge_prev a (b ∷ c ∷ r) =
      if c.addr == a
      then (if b.free then record b { size = b.size + (hdr + c.size) } ∷ r else b ∷ c ∷ r)
      else b ∷ merge_prev a (c ∷ r)

  -- Setting a block free, then joining it with its two neighbours.
  unfoldable pub release : ℕ → List Block → List Block
  release p bs = merge_prev p (merge_next p (set_free p bs))
