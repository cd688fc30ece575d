-- ===== src/Mm/Pmm/Tests.antt =====
-- Runs of the page allocator, and the theorems at a concrete machine.
use nix_core_os.Base.{ℕ, ◌*◌, ◌≡◌, refl, some, arith, [], ◌∷◌}
use nix_core_os.Mm.Bits.{test_bit, set_bit}
use nix_core_os.Mm.Pmm.{Pmm, scan, find_bit, mark_used, take_page, pmm_free_page, page_size}
use nix_core_os.Mm.Pmm.Alloc.{IsValid, count_free, Takes, take_page-Takes, pmm_free_page_twice}

-- Five pages, of which pages 0, 1 and 3 are in use.
abbrev five : Pmm
five = record { total_pages = 5; free_pages = 2; bitmap = 0b01011 ∷ [] }

five-IsValid : IsValid five
unfolding count_free test_bit
five-IsValid = record { counted = refl; covered = omega arith; small = omega arith }

take_page_runs :
    take_page five ≡ (record five { free_pages = 1; bitmap = 0b01111 ∷ [] }, some 0x2000)
unfolding take_page scan find_bit mark_used test_bit set_bit
take_page_runs = refl

take_page-Takes_example :
    (k : ℕ) × (q : Pmm) × (take_page five ≡ (q, some (k * page_size))) × Takes five k q
take_page-Takes_example = take_page-Takes five five-IsValid (omega arith)

pmm_free_page_twice_example : ¬ IsValid (pmm_free_page five (2 * page_size))
pmm_free_page_twice_example =
    pmm_free_page_twice five 2 five-IsValid (omega arith) (omega arith) (unfold test_bit in refl)
