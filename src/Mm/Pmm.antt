-- ===== src/Mm/Pmm.antt =====
-- kernel/mm/mm.c: the page bitmap.
pub mod Scan
pub mod Alloc
pub mod Init
mod Tests
use nix_core_os.Base.{
  ℕ, zero, suc, ◌+◌, ◌-◌, ◌*◌, ◌/◌, ◌%◌, ◌^◌, ◌≡◌, Bool, true, false, List, [], ◌∷◌, Option, none,
  some, leb, ltb, ◌==◌, if◌then◌else◌, get_or, set, replicate,
}
use nix_core_os.Mm.Bits.{test_bit, set_bit, clear_bit}

-- `pmm_t`; the length of the list is `bitmap_size`.
pub record Pmm : Type 0 where
  pub total_pages : ℕ
  pub free_pages : ℕ
  pub bitmap : List ℕ

abbrev pub page_size : ℕ
page_size = 4096

abbrev pub full_word : ℕ
full_word = 0xFFFFFFFFFFFFFFFF

-- The loop over the bits of a word, from `j` on with `n` bits left.
unfoldable pub find_bit : ℕ → ℕ → ℕ → Option ℕ
find_bit w j zero = none
find_bit w j (suc n) = let rest = find_bit w (j + 1) n in if test_bit w j == 0 then some j else rest

-- The loop over the words, from index `i` on.
unfoldable pub scan : ℕ → List ℕ → Option (ℕ × ℕ)
scan i [] = none
scan i (w ∷ r) =
    let rest = scan (i + 1) r in
    if w == full_word then rest else elim (find_bit w 0 64) [ none ↦ rest | some j ↦ some (i, j) ]

-- `pmm.bitmap[i] |= (1ULL << j)` and its inverse; a word out of range is not there to be changed.
unfoldable pub mark_used : ℕ → ℕ → List ℕ → List ℕ
mark_used i j ws = set ws i (set_bit (get_or ws i 0) j)

unfoldable pub mark_free : ℕ → ℕ → List ℕ → List ℕ
mark_free i j ws = set ws i (clear_bit (get_or ws i 0) j)

-- The bitmap part of `pmm_alloc_page`: the address of the page that has been taken. That the address 0 is
-- the null pointer, so that a caller is told of no page, is in `pmm_alloc_page` of Mm.Vmm.
unfoldable pub take_page : Pmm → Pmm × Option ℕ
take_page p = if p.free_pages == 0 then (p, none) else elim (scan 0 p.bitmap) [
  | none ↦ (p, none)
  | some (i, j) ↦ (
    record p { bitmap = mark_used i j p.bitmap; free_pages = p.free_pages - 1 },
    some ((i * 64 + j) * page_size),
  )
]

-- `pmm_free_page`; `free_pages++` is a 64-bit sum.
unfoldable pub pmm_free_page : Pmm → ℕ → Pmm
pmm_free_page p addr =
    let page_num = addr / page_size in
    record p {
      bitmap = mark_free (page_num / 64) (page_num % 64) p.bitmap;
      free_pages = (p.free_pages + 1) % 2 ^ 64;
    }

-- `for (i = 0; i < 256; i++) { ... |= ...; pmm.free_pages--; }`, with `n` rounds left.
unfoldable pub mark_low : ℕ → ℕ → Pmm → Pmm
mark_low i zero p = p
mark_low i (suc n) p = mark_low (i + 1) n (record p {
  bitmap = mark_used (i / 64) (i % 64) p.bitmap;
  free_pages = (p.free_pages + (2 ^ 64 - 1)) % 2 ^ 64;
})

-- The first part of `mm_init`: the bitmap of `mem_size` bytes with the first megabyte in use.
unfoldable pub init : ℕ → Pmm
init mem_size =
    let total = mem_size / page_size in
    mark_low 0 256
      (record { total_pages = total; free_pages = total; bitmap = replicate ((total + 63) / 64) 0 })
