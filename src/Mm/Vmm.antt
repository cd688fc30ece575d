-- ===== src/Mm/Vmm.antt =====
-- kernel/mm/mm.c: page tables, the early kernel heap and page faults.
pub mod Typed
pub mod Step
pub mod Walk
pub mod Map
mod Tests
use Prim.Native.Nat.{bit_or}
use nix_core_os.Base.{
  ℕ, zero, suc, ◌+◌, ◌-◌, ◌*◌, ◌/◌, ◌%◌, ◌^◌, ◌≡◌, Bool, true, false, List, [], ◌∷◌, Option, none,
  some, leb, ltb, ◌==◌, if◌then◌else◌,
}
use nix_core_os.Mm.Pmm.{Pmm, take_page, pmm_free_page, page_size}

-- The state of the file: the page allocator, the address of the kernel's top table, and memory as
-- 64-bit words at their addresses.
pub record Mm : Type 0 where
  pub pmm : Pmm
  pub kernel_pml4 : ℕ
  pub word : ℕ → ℕ

abbrev pub write : (ℕ → ℕ) → ℕ → ℕ → ℕ → ℕ
write m p v a = if a == p then v else m a

-- `for (k = 0; k < 512; k++) ptr[k] = 0;`, with `n` rounds left.
unfoldable pub clear_words : (ℕ → ℕ) → ℕ → ℕ → ℕ → ℕ
clear_words m p zero = m
clear_words m p (suc n) = clear_words (write m p 0) (p + 8) n

-- The page at the address 0 is taken and cleared like any other, but its address is the null pointer.
pub pmm_alloc_page : Mm → Mm × Option ℕ
pmm_alloc_page s =
    let (p, page) = take_page s.pmm in
    elim page [
      | none ↦ (record s { pmm = p }, none)
      | some a ↦
          (record s { pmm = p; word = clear_words s.word a 512 }, if a == 0 then none else some a)
    ]

-- The index of an address in a table of a level: `(vaddr >> (12 + 9 * l)) & 0x1FF`.
abbrev pub index : ℕ → ℕ → ℕ
index shift vaddr = vaddr / 2 ^ shift % 512

-- The address of an entry of a table.
abbrev pub slot : ℕ → ℕ → ℕ
slot table i = table + 8 * i

-- PAGE_PRESENT | PAGE_WRITE | PAGE_USER. A page's address is a multiple of 4096, so that `|` of the
-- two is their sum.
abbrev pub table_flags : ℕ
table_flags = 7

-- One "get or create" block of `vmm_map_page`: the address of the table that an entry points to. An
-- entry is present if its lowest bit is set, and `& ~0xFFF` clears its low twelve bits.
pub next_table : Mm → ℕ → ℕ → Mm × Option ℕ
next_table s table i =
    if s.word (slot table i) % 2 == 0
    then (let (s', page) = pmm_alloc_page s in
        elim page [
          | none ↦ (s', none)
          | some a ↦ (
            record s' { word = write s'.word (slot table i) (a + table_flags) },
            some ((a + table_flags) / 4096 * 4096),
          )
        ])
    else (s, some (s.word (slot table i) / 4096 * 4096))

-- `true` stands for the result 0 and `false` for -1. The address space is given by its `pml4`, and
-- `none` is a null pointer. The flush of the TLB has no part of this state.
pub vmm_map_page : Mm → Option ℕ → ℕ → ℕ → ℕ → Mm × Bool
vmm_map_page s space vaddr paddr flags =
    let pml4 : ℕ = elim space [ none ↦ s.kernel_pml4 | some t ↦ t ] in
    let (s3, pdp) = next_table s pml4 (index 39 vaddr) in
    elim pdp [
      | none ↦ (s3, false)
      | some t3 ↦
          let (s2, pd) = next_table s3 t3 (index 30 vaddr) in
          elim pd [
            | none ↦ (s2, false)
            | some t2 ↦
                let (s1, pt) = next_table s2 t2 (index 21 vaddr) in
                elim pt [
                  | none ↦ (s1, false)
                  | some t1 ↦ (
                    record s1 {
                      word = write s1.word (slot t1 (index 12 vaddr)) (bit_or paddr flags);
                    },
                    true,
                  )
                ]
          ]
    ]

-- What the processor reads for an address: the entry of the last table, `none` if a table on the way
-- is not present.
unfoldable pub walk : (ℕ → ℕ) → ℕ → ℕ → Option ℕ
walk word pml4 vaddr =
    let e4 = word (slot pml4 (index 39 vaddr)) in
    if e4 % 2 == 0
    then none
    else (let e3 = word (slot (e4 / 4096 * 4096) (index 30 vaddr)) in
        if e3 % 2 == 0
        then none
        else (let e2 = word (slot (e3 / 4096 * 4096) (index 21 vaddr)) in
            if e2 % 2 == 0 then none else some (word (slot (e2 / 4096 * 4096) (index 12 vaddr)))))

-- What `page_fault_handler` does: whether the fault was served (else the processor halts).
pub page_fault_handler : Mm → ℕ → ℕ → Mm × Bool
page_fault_handler s error_code addr =
    if error_code % 2 == 0
    then (let (s', page) = pmm_alloc_page s in
        elim page [
          | none ↦ (s', false)
          | some a ↦ ((vmm_map_page s' none (addr / 4096 * 4096) a table_flags).0, true)
        ])
    else (s, false)

-- The bump allocator of this file: the pointer, and `heap_ptr` after the call.
unfoldable pub bump_kmalloc : ℕ → ℕ → ℕ × ℕ
bump_kmalloc heap_ptr size =
    let rounded = (size + 15) % 2 ^ 64 / 16 * 16 in (heap_ptr, (heap_ptr + rounded) % 2 ^ 64)
