-- ===== src/Mm.antt =====
-- kernel/mm/mm.c: physical pages and page tables.
pub mod Bits
pub mod Pmm
pub mod Vmm
