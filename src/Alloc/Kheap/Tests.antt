-- ===== src/Alloc/Kheap/Tests.antt =====
-- Runs of the kernel heap, and the theorems at concrete heaps.
use nix_core_os.Base.{ℕ, ◌-◌, ◌^◌, ◌≡◌, refl, true, false, [], ◌∷◌, none, some, arith}
use nix_core_os.Alloc.Blocks.{find, place, used_sum, set_free, merge_next, merge_prev}
use nix_core_os.Alloc.Blocks.{release}
use nix_core_os.Alloc.Kheap.{Heap, memory_init, kmalloc, kfree}
use nix_core_os.Alloc.Kheap.Invariant.{IsValid, memory_init-IsValid, kmalloc-IsValid, kfree-IsValid}
use nix_core_os.Alloc.Kheap.Service.{Serves, kmalloc-Serves, kfree-kmalloc, kmalloc_wraps}

-- After `kmalloc(5)` on the fresh heap.
abbrev one_block : Heap
one_block = record {
  blocks =
      record { addr = 0x100000; size = 8; free = false }
      ∷ record { addr = 0x100014; size = 0xFFFE0; free = true }
      ∷ [];
  memory_used = 8;
  memory_peak = 8;
}

one_block-IsValid : IsValid one_block
unfolding used_sum
one_block-IsValid = record {
  tiles = omega arith;
  coalesced = (refl, (refl, tt));
  used = refl;
  peak = omega arith;
}

kmalloc_first : kmalloc memory_init 5 ≡ (one_block, some 0x10000C)
unfolding kmalloc memory_init place
kmalloc_first = refl

kmalloc_too_large : kmalloc one_block 0x100000 ≡ (one_block, none)
unfolding kmalloc place
kmalloc_too_large = refl

kmalloc-IsValid_example : IsValid (kmalloc memory_init 5).0
kmalloc-IsValid_example = kmalloc-IsValid 5 memory_init-IsValid

kfree_first : kfree one_block 0x10000C ≡ some (record memory_init { memory_peak = 8 })
unfolding kfree memory_init find release set_free merge_next merge_prev
kfree_first = refl

kfree-IsValid_example : IsValid (record memory_init { memory_peak = 8 })
kfree-IsValid_example = kfree-IsValid 0x10000C one_block-IsValid kfree_first

kmalloc-Serves_example : Serves memory_init 5 one_block 0x10000C
kmalloc-Serves_example = kmalloc-Serves 5 (omega arith) memory_init-IsValid kmalloc_first

kfree-kmalloc_example :
    (h : Heap) × (kfree one_block 0x10000C ≡ some h)
    × (h.blocks ≡ memory_init.blocks)
    × (h.memory_used ≡ memory_init.memory_used)
kfree-kmalloc_example = kfree-kmalloc 5 memory_init-IsValid kmalloc_first

kmalloc_wraps_example : (h : Heap) × (p : ℕ) × (kmalloc one_block (2 ^ 32 - 1) ≡ (h, some p))
unfolding find
kmalloc_wraps_example =
    kmalloc_wraps (2 ^ 32 - 1) 0x100014 (record { addr = 0x100014; size = 0xFFFE0; free = true })
      one_block-IsValid (omega arith) (omega arith) refl refl
