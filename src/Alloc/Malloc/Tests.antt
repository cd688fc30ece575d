-- ===== src/Alloc/Malloc/Tests.antt =====
-- Runs of the C library's allocator, and the theorems at concrete arenas.
use nix_core_os.Base.{ℕ, ◌+◌, ◌%◌, ◌≡◌, refl, true, false, [], ◌∷◌, none, some, arith}
use nix_core_os.Alloc.Blocks.{find, place, set_free, merge_next, merge_prev, release}
use nix_core_os.Mem.{memcpy}
use nix_core_os.Alloc.Malloc.{Arena, align8, malloc, free, block_of, realloc, move_block}
use nix_core_os.Alloc.Malloc.Invariant.{IsValid, null-IsValid, malloc-IsValid}
use nix_core_os.Alloc.Malloc.Realloc.{Grown, realloc-Grown}

abbrev base : ℕ
base = 0x300000

abbrev fresh : Arena
fresh = record { blocks = none; mem = λ a. a % 256 }

-- After `malloc(5)` on the fresh arena.
abbrev one_block : Arena
one_block = record fresh {
  blocks = some (
      record { addr = base; size = 8; free = false }
      ∷ record { addr = base + 32; size = 0xFFFFC8; free = true }
      ∷ []);
}

-- After a second `malloc(9)`.
abbrev two_blocks : Arena
two_blocks = record fresh {
  blocks = some (
      record { addr = base; size = 8; free = false }
      ∷ record { addr = base + 32; size = 16; free = false }
      ∷ record { addr = base + 72; size = 0xFFFFA0; free = true }
      ∷ []);
}

fresh-IsValid : IsValid base fresh
fresh-IsValid = null-IsValid base fresh refl (omega arith)

malloc_first : malloc base fresh 5 ≡ (one_block, some (base + 24))
unfolding malloc place align8
malloc_first = refl

malloc_second : malloc base one_block 9 ≡ (two_blocks, some (base + 56))
unfolding malloc place align8
malloc_second = refl

malloc_too_large : malloc base one_block 0x1000000 ≡ (one_block, none)
unfolding malloc place align8
malloc_too_large = refl

one_block-IsValid : IsValid base one_block
unfolding malloc place align8
one_block-IsValid = malloc-IsValid 5 fresh-IsValid

two_blocks-IsValid : IsValid base two_blocks
unfolding malloc place align8
two_blocks-IsValid = malloc-IsValid 9 one_block-IsValid

free_first :
    free one_block (some (base + 24))
    ≡ some
        (record fresh { blocks = some (record { addr = base; size = 0xFFFFE8; free = true } ∷ []) })
unfolding free find release set_free merge_next merge_prev
free_first = refl

-- After `realloc` of the first block to 20 bytes, which moves it behind the second.
abbrev moved_block : Arena
moved_block = record {
  blocks = some (
      record { addr = base; size = 8; free = true }
      ∷ record { addr = base + 32; size = 16; free = false }
      ∷ record { addr = base + 72; size = 24; free = false }
      ∷ record { addr = base + 120; size = 0xFFFF70; free = true }
      ∷ []);
  mem = memcpy two_blocks.mem (base + 96) (base + 24) 8;
}

realloc_moves : realloc base two_blocks (some (base + 24)) 20 ≡ some (moved_block, some (base + 96))
unfolding realloc move_block malloc place align8 free block_of find release set_free merge_next
    merge_prev
realloc_moves = refl

realloc-Grown_example :
    Grown base two_blocks
      (base + 24)
      (record { addr = base; size = 8; free = false })
      moved_block
      (base + 96)
realloc-Grown_example =
    realloc-Grown (base + 24) 20 (base + 96) (record { addr = base; size = 8; free = false })
      two_blocks-IsValid (λ x. omega arith) (omega arith) (omega arith)
      (unfold block_of find in refl) refl realloc_moves
