-- ===== src/Mm/Vmm/Tests.antt =====
-- A run of the page mapping, and its theorem at a concrete machine.
use nix_core_os.Base.{ℕ, ◌≡◌, refl, some, arith, [], ◌∷◌, true, ◌==◌, if◌then◌else◌}
use nix_core_os.Mm.Bits.{test_bit, set_bit}
use nix_core_os.Mm.Pmm.{scan, find_bit, mark_used, take_page}
use nix_core_os.Mm.Pmm.Alloc.{count_free}
use nix_core_os.Mm.Vmm.{Mm, next_table, vmm_map_page, pmm_alloc_page, clear_words, walk}
use nix_core_os.Mm.Vmm.Typed.{Typed}
use nix_core_os.Mm.Vmm.Map.{Maps, vmm_map_page-Maps}

-- Ten pages, of which page 1 is an empty top table.
abbrev start : Mm
start = record {
  pmm = record { total_pages = 10; free_pages = 8; bitmap = 0b11 ∷ [] };
  kernel_pml4 = 4096;
  word = λ a. 0;
}

abbrev level : ℕ → ℕ
level x = if x == 1 then 4 else 0

start-Typed : Typed level start
unfolding count_free test_bit
start-Typed = record {
  pages = record { counted = refl; covered = omega arith; small = omega arith };
  in_use = λ t h. let one : t ≡ 1 = ground arith in rw one refl;
  down = λ t i d l p. absurd (omega arith);
  single = λ t i u j d e l k p q same. absurd (omega arith);
}

abbrev mapped : Mm
unfolding vmm_map_page
mapped = (vmm_map_page start (some 4096) 0x8000_1234_5000 0x7000 3).0

map_runs : vmm_map_page start (some 4096) 0x8000_1234_5000 0x7000 3 ≡ (mapped, true)
unfolding vmm_map_page next_table pmm_alloc_page take_page scan find_bit test_bit clear_words
    mark_used set_bit
map_runs = refl

walk_runs : walk mapped.word 4096 0x8000_1234_5678 ≡ some 0x7003
unfolding walk vmm_map_page next_table pmm_alloc_page take_page scan find_bit test_bit clear_words
    mark_used set_bit
walk_runs = refl

vmm_map_page-Maps_example : Maps level start 1 0x8000_1234_5000 0x7003 mapped
vmm_map_page-Maps_example =
    vmm_map_page-Maps level start 1 0x8000_1234_5000 0x7000 3 start-Typed refl map_runs
