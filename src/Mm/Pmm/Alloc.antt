-- ===== src/Mm/Pmm/Alloc.antt =====
-- What the page allocator promises, and the count of free pages.
use nix_core_os.Base.{
  ℕ, zero, suc, ◌+◌, ◌-◌, ◌*◌, ◌/◌, ◌%◌, ◌^◌, ◌≤◌, ◌<◌, ◌≡◌, refl, ◌≢◌, ◌∙◌, sym, ap, none, some,
  ltb, ◌==◌, if◌then◌else◌, arith, Bool-cases, Option-cases, inl, inr, List, [], ◌∷◌, length,
  length-set,
}
use nix_core_os.Mm.Bits.{test_bit-le}
use nix_core_os.Mm.Pmm.{Pmm, scan, mark_used, mark_free, take_page, pmm_free_page, page_size}
use nix_core_os.Mm.Pmm.Scan.{
  page_bit, scan_lem, scan_first, scan-none, page_bit-mark_used, page_bit-mark_free,
}

-- How many of the first `n` pages are free.
unfoldable pub count_free : List ℕ → ℕ → ℕ
count_free ws zero = 0
count_free ws (suc n) = count_free ws n + (1 - page_bit ws n)

-- `free_pages` is the number of free pages among the `total_pages` of the machine.
pub record IsValid (p : Pmm) : Type 0 where
  pub counted : p.free_pages ≡ count_free p.bitmap p.total_pages
  pub covered : p.total_pages ≤ 64 * length p.bitmap
  pub small : p.total_pages < 2 ^ 64

-- Some page below `n` is free if the count is not 0.
pub count_free-pos :
    (ws : List ℕ) (n k : ℕ) → ((x : ℕ) → x < k → page_bit ws x ≡ 1) → n ≤ k → count_free ws n ≡ 0
unfolding count_free
count_free-pos ws zero k all h = refl
count_free-pos ws (suc n) k all h =
    omega (arith, all n (omega arith), count_free-pos ws n k all (omega arith))

-- Changing one bit changes the count by that bit.
pub count_free_change :
    (ws vs : List ℕ) (n k : ℕ)
    → ((x : ℕ) → x ≢ k → page_bit vs x ≡ page_bit ws x)
    → count_free vs n + (if ltb k n then 1 - page_bit ws k else 0)
      ≡ count_free ws n + (if ltb k n then 1 - page_bit vs k else 0)
unfolding count_free
count_free_change ws vs zero k same = ground arith
count_free_change ws vs (suc n) k same = elim (Bool-cases (n == k)) [
  | inl here ↦
      let at_k : n ≡ k = ground arith in
      ground (arith, count_free_change ws vs n k same, ap (page_bit ws) at_k, ap (page_bit vs) at_k)
  | inr further ↦ ground (arith, count_free_change ws vs n k same, same n)
]

pub page_bit-le : (ws : List ℕ) (k : ℕ) → page_bit ws k ≤ 1
page_bit-le [] k = omega arith
page_bit-le (w ∷ r) k = ground (arith, test_bit-le w k, page_bit-le r (k - 64))

pub length-mark_used : (i j : ℕ) (ws : List ℕ) → length (mark_used i j ws) ≡ length ws
unfolding mark_used
length-mark_used i j ws = length-set ws i _

length-free : (p : Pmm) (a : ℕ) → length (pmm_free_page p a).bitmap ≡ length p.bitmap
unfolding pmm_free_page mark_free
length-free p a = length-set p.bitmap (a / page_size / 64) _

total-free : (p : Pmm) (a : ℕ) → (pmm_free_page p a).total_pages ≡ p.total_pages
unfolding pmm_free_page
total-free p a = refl

pub count_free-le : (ws : List ℕ) (n : ℕ) → count_free ws n ≤ n
unfolding count_free
count_free-le ws zero = omega arith
count_free-le ws (suc n) = omega (arith, count_free-le ws n)

-- The count is below the number of pages if one of them is in use.
count_free-lt : (ws : List ℕ) (n k : ℕ) → k < n → page_bit ws k ≡ 1 → count_free ws n < n
unfolding count_free
count_free-lt ws zero k h used = absurd (omega arith)
count_free-lt ws (suc n) k h used = elim (Bool-cases (k == n)) [
  | inl here ↦
      let at_n : k ≡ n = ground arith in omega (arith, ap (page_bit ws) at_n, count_free-le ws n)
  | inr further ↦ omega (arith, count_free-lt ws n k (ground arith) used)
]

-- What `pmm_alloc_page` has done when it returns page number `k`.
pub record Takes (p : Pmm) (k : ℕ) (q : Pmm) : Type 0 where
  pub existed : k < p.total_pages
  pub was_free : page_bit p.bitmap k ≡ 0
  pub lowest : (x : ℕ) → x < k → page_bit p.bitmap x ≡ 1
  pub now_used : page_bit q.bitmap k ≡ 1
  pub others : (x : ℕ) → x ≢ k → page_bit q.bitmap x ≡ page_bit p.bitmap x
  pub valid : IsValid q
  pub counted : q.free_pages + 1 ≡ p.free_pages

take_page-some :
    (p : Pmm) (i j : ℕ)
    → IsValid p
    → p.free_pages ≢ 0
    → scan 0 p.bitmap ≡ some (i, j)
    → Takes p
        (i * 64 + j)
        (record p { bitmap = mark_used i j p.bitmap; free_pages = p.free_pages - 1 })
take_page-some p i j v ne f =
    let (l, inside, bit, free) = scan_lem 0 p.bitmap i j f in
    let zero_off : i - 0 ≡ i = omega arith in
    let inside' : i < length p.bitmap = omega (arith, inside) in
    let free' : page_bit p.bitmap (i * 64 + j) ≡ 0 = rw zero_off at free in
    let marked = λ (x : ℕ). page_bit-mark_used p.bitmap i j x inside' bit in
    let lowest : (x : ℕ) → x < i * 64 + j → page_bit p.bitmap x ≡ 1 =
      λ x h. scan_first 0 p.bitmap i j x f (rw zero_off h) in
    let others : (x : ℕ)
        → x ≢ i * 64 + j
        → page_bit (mark_used i j p.bitmap) x ≡ page_bit p.bitmap x =
      λ x d. ground (arith, marked x) in
    let used : page_bit (mark_used i j p.bitmap) (i * 64 + j) ≡ 1 =
      ground (arith, marked (i * 64 + j)) in
    let existed : i * 64 + j < p.total_pages = elim (Bool-cases (ltb (i * 64 + j) p.total_pages)) [
      | inl t ↦ ground arith
      | inr t ↦ absurd (
          omega (
            arith,
            ne,
            v.counted,
            count_free-pos p.bitmap p.total_pages (i * 64 + j) lowest (ground arith),
          ))
    ] in
    let change =
      count_free_change p.bitmap (mark_used i j p.bitmap) p.total_pages (i * 64 + j) others in
    record {
      existed = existed;
      was_free = free';
      lowest = lowest;
      now_used = used;
      others = others;
      valid = record {
        counted = ground (arith, change, used, free', existed, v.counted);
        covered = ground (arith, v.covered, length-mark_used i j p.bitmap);
        small = v.small;
      };
      counted = omega (arith, ne);
    }

-- On a valid bitmap with a free page `pmm_alloc_page` returns the lowest free page, which exists; it
-- marks exactly that page as used, and the count of free pages stays right.
pub take_page-Takes :
    (p : Pmm)
    → IsValid p
    → p.free_pages ≢ 0
    → (k : ℕ) × (q : Pmm) × (take_page p ≡ (q, some (k * page_size))) × Takes p k q
unfolding take_page
take_page-Takes p v ne = elim (Option-cases (scan 0 p.bitmap)) [
  | inl none_left ↦ absurd (
      ne (
        v.counted
        ∙ count_free-pos p.bitmap p.total_pages p.total_pages
            (λ x h. scan-none 0 p.bitmap x none_left) (omega arith)))
  | inr ((i, j), f) ↦ (
    i * 64 + j,
    record p { bitmap = mark_used i j p.bitmap; free_pages = p.free_pages - 1 },
    ground (arith, f),
    take_page-some p i j v ne f,
  )
]

-- With no free page it returns null and changes nothing.
pub take_page_exhausted : (p : Pmm) → p.free_pages ≡ 0 → take_page p ≡ (p, none)
unfolding take_page
take_page_exhausted p e = ground arith

free_change :
    (p : Pmm) (k : ℕ)
    → k < 64 * length p.bitmap
    → (x : ℕ)
    → page_bit (pmm_free_page p (k * page_size)).bitmap x
      ≡ (if k == x then 0 else page_bit p.bitmap x)
unfolding pmm_free_page
free_change p k h x =
    let number : k * page_size / page_size ≡ k = omega arith in
    let parts : k / 64 * 64 + k % 64 ≡ k = omega arith in
    rw number (
      ground
        (arith, parts, page_bit-mark_free p.bitmap (k / 64) (k % 64) x (omega arith) (omega arith)))

free_count :
    (p : Pmm) (k : ℕ)
    → IsValid p
    → k < p.total_pages
    → p.free_pages + 1 < 2 ^ 64
    → ((pmm_free_page p (k * page_size)).free_pages ≡ p.free_pages + 1)
      × (count_free (pmm_free_page p (k * page_size)).bitmap p.total_pages
          ≡ p.free_pages + page_bit p.bitmap k)
free_count p k v h small =
    let q = (pmm_free_page p (k * page_size)).bitmap in
    let same : (x : ℕ) → x ≢ k → page_bit q x ≡ page_bit p.bitmap x =
      λ x d. ground (arith, free_change p k (omega (arith, v.covered)) x) in
    let at_k : page_bit q k ≡ 0 = ground (arith, free_change p k (omega (arith, v.covered)) k) in
    (
      unfold pmm_free_page in omega arith,
      ground (
        arith,
        v.counted,
        h,
        at_k,
        page_bit-le p.bitmap k,
        count_free_change p.bitmap q p.total_pages k same,
      ),
    )

-- Freeing a page in use makes exactly that page free and keeps the count right.
pub pmm_free_page-IsValid :
    (p : Pmm) (k : ℕ)
    → IsValid p
    → k < p.total_pages
    → page_bit p.bitmap k ≡ 1
    → let q = pmm_free_page p (k * page_size) in
      IsValid q
      × (q.free_pages ≡ p.free_pages + 1)
      × ((x : ℕ) → page_bit q.bitmap x ≡ (if k == x then 0 else page_bit p.bitmap x))
pmm_free_page-IsValid p k v h used =
    let q = pmm_free_page p (k * page_size) in
    let c =
      free_count p k v h
        (omega (arith, v.small, v.counted, count_free-lt p.bitmap p.total_pages k h used)) in
    let total = total-free p (k * page_size) in
    (
      record {
        counted =
            c.0 ∙ sym (ap (count_free q.bitmap) total ∙ c.1 ∙ ap (λ x. p.free_pages + x) used);
        covered = omega (arith, v.covered, total, length-free p (k * page_size));
        small = omega (arith, v.small, total);
      },
      c.0,
      free_change p k (omega (arith, v.covered)),
    )

-- Freeing a page that is free already counts it twice: the bitmap is no longer valid.
pub pmm_free_page_twice :
    (p : Pmm) (k : ℕ)
    → IsValid p
    → k < p.total_pages
    → p.free_pages + 1 < 2 ^ 64
    → page_bit p.bitmap k ≡ 0
    → ¬ IsValid (pmm_free_page p (k * page_size))
pmm_free_page_twice p k v h small free w =
    let c = free_count p k v h small in
    let q = pmm_free_page p (k * page_size) in
    absurd
      (omega (arith, c, w.counted, free, ap (count_free q.bitmap) (total-free p (k * page_size))))
