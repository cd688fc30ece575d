-- ===== src/Alloc/Kheap.antt =====
-- lib/memory.c: the kernel heap, a best-fit allocator on a fixed megabyte. The kernel is built for
-- 32 bits (Makefile, -m32), so `size_t` has 32 bits, and a block's header takes 12 bytes.
pub mod Invariant
pub mod Fit
pub mod Service
mod Tests
use nix_core_os.Base.{
  ℕ, ◌+◌, ◌-◌, ◌*◌, ◌/◌, ◌%◌, ◌^◌, ◌≡◌, Bool, true, false, not, ◌&&◌, List, [], ◌∷◌, Option, none,
  some, leb, ltb, ◌==◌, if◌then◌else◌,
}
use nix_core_os.Alloc.Blocks.{Block, find, place}
use nix_core_os.Alloc.Blocks.{release}

-- The file's static variables: `heap_start` as the list that it heads.
pub record Heap : Type 0 where
  pub blocks : List Block
  pub memory_used : ℕ
  pub memory_peak : ℕ

abbrev pub heap_start : ℕ
heap_start = 0x100000

abbrev pub heap_size : ℕ
heap_size = 0x100000

-- sizeof(memory_block_t)
abbrev pub header : ℕ
header = 12

-- `size_t` and unsigned arithmetic wrap.
abbrev pub u32 : ℕ → ℕ
u32 n = n % 2 ^ 32

pub memory_init : Heap
memory_init = record {
  blocks = record { addr = heap_start; size = heap_size - header; free = true } ∷ [];
  memory_used = 0;
  memory_peak = 0;
}

-- `(size + 3) & ~3`
pub align4 : ℕ → ℕ
align4 size = u32 (size + 3) / 4 * 4

-- The loop of `kmalloc` over the list: the best block so far, and its size.
pub best_fit : ℕ → List Block → Option Block → ℕ → Option Block
best_fit size [] best best_size = best
best_fit size (b ∷ r) best best_size =
    let better = b.free && leb size b.size && ltb b.size best_size in
    best_fit size r (if better then some b else best) (if better then b.size else best_size)

-- The rest of `kmalloc`, once a block is found; the result is the pointer.
pub grant : Heap → ℕ → Block → Heap × ℕ
grant h size b =
    let served = if leb (size + header + 4) b.size then size else b.size in
    let used = u32 (h.memory_used + served) in
    (
      record {
        blocks = place header 4 size b.addr h.blocks;
        memory_used = used;
        memory_peak = if ltb h.memory_peak used then used else h.memory_peak;
      },
      b.addr + header,
    )

-- A null pointer is `none`.
pub kmalloc : Heap → ℕ → Heap × Option ℕ
unfolding best_fit grant align4
kmalloc h n = elim (best_fit (align4 n) h.blocks none 0xFFFFFFFF) [
  | none ↦ (h, none)
  | some b ↦ let (h', p) = grant h (align4 n) b in (h', some p)
]

-- The rest of `kfree`, for the block `b` at address `a`.
pub take_back : Heap → ℕ → Block → Heap
take_back h a b = record h {
  blocks = release header a h.blocks;
  memory_used =
      if not b.free && leb b.size h.memory_used then h.memory_used - b.size else h.memory_used;
}

-- `none` stands for a pointer that no block of the list belongs to: the C code would then write
-- into memory that is no header.
pub kfree : Heap → ℕ → Option Heap
unfolding take_back
kfree h ptr = if ptr == 0 then some h else elim (find (ptr - header) h.blocks) [
  | none ↦ none
  | some b ↦ some (take_back h (ptr - header) b)
]

pub memory_get_free : Heap → ℕ
memory_get_free h = u32 (heap_size + 2 ^ 32 - h.memory_used)
