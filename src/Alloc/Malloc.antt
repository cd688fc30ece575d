-- ===== src/Alloc/Malloc.antt =====
-- lib/libc/libc.c: malloc, free, calloc and realloc, a first-fit allocator on an arena of 16 MB that
-- the first call takes from `kmalloc`. The C library is built for 64 bits, so `size_t` has 64 bits and
-- a block's header takes 24 bytes. The address that `kmalloc` returns is the parameter `base`.
pub mod Invariant
pub mod Service
pub mod Realloc
mod Tests
use nix_core_os.Base.{
  ℕ, ◌+◌, ◌-◌, ◌*◌, ◌/◌, ◌%◌, ◌^◌, ◌≡◌, Bool, true, false, not, ◌&&◌, List, [], ◌∷◌, Option, none,
  some, leb, ltb, ◌==◌, if◌then◌else◌,
}
use nix_core_os.Alloc.Blocks.{Block, find, place, release}
use nix_core_os.Mem.{Mem, memcpy, memset}

-- sizeof(heap_block_t)
abbrev pub header : ℕ
header = 24

abbrev pub arena_size : ℕ
arena_size = 16 * 1024 * 1024

-- `size_t` wraps.
abbrev pub u64 : ℕ → ℕ
u64 n = n % 2 ^ 64

-- `heap_start` as the list that it heads, `none` before the first call, and the bytes in the blocks.
pub record Arena : Type 0 where
  pub blocks : Option (List Block)
  pub mem : Mem

-- `(size + 7) & ~7`
unfoldable pub align8 : ℕ → ℕ
align8 size = u64 (size + 7) / 8 * 8

-- The walk of `malloc` to the first free block that is large enough.
pub first_fit : ℕ → List Block → Option Block
first_fit size [] = none
first_fit size (b ∷ r) = if b.free && leb size b.size then some b else first_fit size r

-- `if (ptr) { memset(ptr, 0, total); }`
pub zeroed : Arena × Option ℕ → ℕ → Arena × Option ℕ
zeroed (s, none) total = (s, none)
zeroed (s, some p) total = (record s { mem = memset s.mem p 0 total }, some p)

module _ (base : ℕ) where
  -- The list of blocks, made by the first call.
  pub started : Arena → List Block
  started s = elim s.blocks [
    | none ↦ record { addr = base; size = arena_size - header; free = true } ∷ []
    | some bs ↦ bs
  ]

  -- A null pointer is `none`.
  pub malloc : Arena → ℕ → Arena × Option ℕ
  unfolding first_fit started
  malloc s n = if n == 0 then (s, none) else elim (first_fit (align8 n) (started s)) [
    | none ↦ (record s { blocks = some (started s) }, none)
    | some b ↦ (
      record s { blocks = some (place header 8 (align8 n) b.addr (started s)) },
      some (b.addr + header),
    )
  ]

  -- `nmemb * size` wraps before `malloc` sees it.
  pub calloc : Arena → ℕ → ℕ → Arena × Option ℕ
  calloc s nmemb size = let total = u64 (nmemb * size) in zeroed (malloc s total) total

-- The blocks after `free` of a pointer; `none` where no block belongs to the pointer, so that the C
-- code would write into memory that is no header.
pub free : Arena → Option ℕ → Option Arena
free s none = some s
free s (some p) = elim s.blocks [
  | none ↦ none
  | some bs ↦ elim (find (p - header) bs) [
    | none ↦ none
    | some b ↦ some (record s { blocks = some (release header (p - header) bs) })
  ]
]

-- `*block` for a pointer: its header in the list.
pub block_of : Arena → ℕ → Option Block
block_of s p = elim s.blocks [ none ↦ none | some bs ↦ find (p - header) bs ]

-- `memcpy(new_ptr, ptr, block->size); free(ptr);`, if the new block could be had.
pub move_block : Arena × Option ℕ → ℕ → ℕ → Option (Arena × Option ℕ)
move_block (s, none) p size = some (s, none)
move_block (s, some q) p size = elim (free (record s { mem = memcpy s.mem q p size }) (some p)) [
  | none ↦ none
  | some s' ↦ some (s', some q)
]

module _ (base : ℕ) where
  -- `none` as in `free`.
  pub realloc : Arena → Option ℕ → ℕ → Option (Arena × Option ℕ)
  realloc s none n = some (malloc base s n)
  realloc s (some p) n =
      if n == 0
      then elim (free s (some p)) [ none ↦ none | some s' ↦ some (s', none) ]
      else elim (block_of s p) [
        | none ↦ none
        | some b ↦ if leb n b.size then some (s, some p) else move_block (malloc base s n) p b.size
      ]
