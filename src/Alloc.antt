-- ===== src/Alloc.antt =====
-- The block-list allocators: lib/memory.c (kernel heap) and lib/libc/libc.c (malloc and free).
pub mod Blocks
pub mod Kheap
pub mod Malloc
