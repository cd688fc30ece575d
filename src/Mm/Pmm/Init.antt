-- ===== src/Mm/Pmm/Init.antt =====
-- What `mm_init` makes of the bitmap.
use nix_core_os.Base.{
  ℕ, zero, suc, ◌+◌, ◌-◌, ◌*◌, ◌/◌, ◌%◌, ◌^◌, ◌≤◌, ◌<◌, ◌≡◌, refl, ◌≢◌, sym, ◌==◌, if◌then◌else◌,
  arith, List, length, replicate, length-replicate,
}
use nix_core_os.Mm.Bits.{test_bit}
use nix_core_os.Mm.Pmm.{Pmm, mark_used, init, mark_low, page_size}
use nix_core_os.Mm.Pmm.Scan.{page_bit, page_bit-mark_used}
use nix_core_os.Mm.Pmm.Alloc.{
  count_free, count_free_change, length-mark_used, count_free-le, IsValid,
}

test_bit-zero : (k : ℕ) → test_bit 0 k ≡ 0
unfolding test_bit
test_bit-zero zero = refl
test_bit-zero (suc k) = test_bit-zero k

page_bit-replicate : (m k : ℕ) → k < 64 * m → page_bit (replicate m 0) k ≡ 0
page_bit-replicate zero k h = absurd (omega arith)
page_bit-replicate (suc m) k h = ground (arith, test_bit-zero k, page_bit-replicate m (k - 64))

count_free-all : (ws : List ℕ) (n : ℕ) → ((k : ℕ) → k < n → page_bit ws k ≡ 0) → count_free ws n ≡ n
unfolding count_free
count_free-all ws zero h = refl
count_free-all ws (suc n) h =
    omega (arith, count_free-all ws n (λ k l. h k (omega arith)), h n (omega arith))

-- One round of the loop.
abbrev use_page : Pmm → ℕ → Pmm
use_page p i = record p {
  bitmap = mark_used (i / 64) (i % 64) p.bitmap;
  free_pages = (p.free_pages + (2 ^ 64 - 1)) % 2 ^ 64;
}

use_page-bit :
    (p : Pmm) (i k : ℕ)
    → i < 64 * length p.bitmap
    → page_bit (use_page p i).bitmap k ≡ (if i == k then 1 else page_bit p.bitmap k)
use_page-bit p i k h =
    let parts : i / 64 * 64 + i % 64 ≡ i = omega arith in
    ground
      (arith, parts, page_bit-mark_used p.bitmap (i / 64) (i % 64) k (omega arith) (omega arith))

use_page-IsValid :
    (p : Pmm) (i : ℕ)
    → IsValid p
    → i < p.total_pages
    → page_bit p.bitmap i ≡ 0
    → IsValid (use_page p i)
use_page-IsValid p i v h free =
    let inside : i < 64 * length p.bitmap = omega (arith, v.covered) in
    let ws = (use_page p i).bitmap in
    let others : (x : ℕ) → x ≢ i → page_bit ws x ≡ page_bit p.bitmap x =
      λ x d. ground (arith, use_page-bit p i x inside) in
    let used : page_bit ws i ≡ 1 = ground (arith, use_page-bit p i i inside) in
    let c = count_free_change p.bitmap ws p.total_pages i others in
    let c' : count_free ws p.total_pages + 1 ≡ p.free_pages =
      ground (arith, c, used, free, h, v.counted) in
    record {
      counted = omega (arith, c', v.counted, v.small, count_free-le p.bitmap p.total_pages);
      covered = omega (arith, v.covered, length-mark_used (i / 64) (i % 64) p.bitmap);
      small = v.small;
    }

mark_low-IsValid :
    (i n : ℕ) (p : Pmm)
    → IsValid p
    → i + n ≤ p.total_pages
    → ((k : ℕ) → i ≤ k → k < p.total_pages → page_bit p.bitmap k ≡ 0)
    → ((k : ℕ) → k < i → page_bit p.bitmap k ≡ 1)
    → let q = mark_low i n p in
      IsValid q
      × (q.total_pages ≡ p.total_pages)
      × ((k : ℕ) → k < i + n → page_bit q.bitmap k ≡ 1)
      × ((k : ℕ) → i + n ≤ k → k < p.total_pages → page_bit q.bitmap k ≡ 0)
unfolding mark_low
mark_low-IsValid i zero p v h free used =
    (v, refl, λ k l. used k (omega arith), λ k l u. free k (omega arith) u)
mark_low-IsValid i (suc n) p v h free used =
    let inside : i < 64 * length p.bitmap = omega (arith, v.covered) in
    let rest =
      mark_low-IsValid (i + 1) n (use_page p i)
        (use_page-IsValid p i v (omega arith) (free i (omega arith) (omega arith))) (omega arith)
        (λ k l u. ground (arith, use_page-bit p i k inside, free k))
        (λ k l. ground (arith, use_page-bit p i k inside, used k)) in
    (rest.0, rest.1, λ k l. rest.2 k (omega arith), λ k l u. rest.3 k (omega arith) u)

-- From 1 MB of memory on, `mm_init` leaves a valid bitmap in which exactly the pages of the first
-- megabyte are in use, so that 256 pages fewer than the machine has are free.
pub init-IsValid :
    (mem_size : ℕ)
    → 256 * page_size ≤ mem_size
    → mem_size < 2 ^ 64
    → let p = init mem_size in
      IsValid p
      × (p.total_pages ≡ mem_size / page_size)
      × ((k : ℕ) → k < 256 → page_bit p.bitmap k ≡ 1)
      × ((k : ℕ) → 256 ≤ k → k < p.total_pages → page_bit p.bitmap k ≡ 0)
unfolding init
init-IsValid mem_size large small =
    let total = mem_size / page_size in
    let m = (total + 63) / 64 in
    let empty = λ (k : ℕ) (h : k < total). page_bit-replicate m k (omega arith) in
    let start : Pmm = record { total_pages = total; free_pages = total; bitmap = replicate m 0 } in
    let v : IsValid start = record {
      counted = sym (count_free-all (replicate m 0) total empty);
      covered = omega (arith, length-replicate m (let z : ℕ = 0 in z));
      small = omega arith;
    } in
    let r =
      mark_low-IsValid 0 256 start v (omega arith) (λ k l u. empty k u)
        (λ k l. absurd (omega arith)) in
    (r.0, r.1, r.2, λ k l u. r.3 k l (omega (arith, r.1)))
