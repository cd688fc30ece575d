-- ===== src/Mm/Pmm/Scan.antt =====
-- The bitmap as one row of bits, and what the search finds in it.
use nix_core_os.Base.{
  ℕ, zero, suc, ◌+◌, ◌-◌, ◌*◌, ◌≤◌, ◌<◌, ◌≡◌, refl, none, some, ltb, ◌==◌, if◌then◌else◌, arith,
  List, [], ◌∷◌, length,
}
use nix_core_os.Mm.Bits.{test_bit, test_bit-set_bit, test_bit-clear_bit, test_bit_ones, test_bit-le}
use nix_core_os.Mm.Pmm.{find_bit, scan, mark_used, mark_free}

-- The bit of page `k`; beyond the bitmap every bit reads as 1.
abbrev pub page_bit : List ℕ → ℕ → ℕ
page_bit [] k = 1
page_bit (w ∷ r) k = if ltb k 64 then test_bit w k else page_bit r (k - 64)

find_bit_lem : (w j n b : ℕ) → find_bit w j n ≡ some b → (j ≤ b) × (b < j + n) × (test_bit w b ≡ 0)
unfolding find_bit
find_bit_lem w j zero b h = absurd (ground arith)
find_bit_lem w j (suc n) b h = ground (arith, find_bit_lem w (j + 1) n b)

find_bit_first : (w j n b k : ℕ) → find_bit w j n ≡ some b → j ≤ k → k < b → test_bit w k ≡ 1
unfolding find_bit
find_bit_first w j zero b k h l u = absurd (ground arith)
find_bit_first w j (suc n) b k h l u =
    ground (arith, find_bit_first w (j + 1) n b k, test_bit-le w j, test_bit-le w k)

find_bit-none : (w j n k : ℕ) → find_bit w j n ≡ none → j ≤ k → k < j + n → test_bit w k ≡ 1
unfolding find_bit
find_bit-none w j zero k h l u = absurd (omega arith)
find_bit-none w j (suc n) k h l u =
    ground (arith, find_bit-none w (j + 1) n k, test_bit-le w j, test_bit-le w k)

-- The search finds the first bit that is 0.
pub scan_lem :
    (i : ℕ) (ws : List ℕ) (a b : ℕ)
    → scan i ws ≡ some (a, b)
    → (i ≤ a) × (a - i < length ws) × (b < 64) × (page_bit ws ((a - i) * 64 + b) ≡ 0)
unfolding scan
scan_lem i [] a b h = absurd (ground arith)
scan_lem i (w ∷ r) a b h = ground (arith, scan_lem (i + 1) r a b, find_bit_lem w 0 64 b)

pub scan_first :
    (i : ℕ) (ws : List ℕ) (a b k : ℕ)
    → scan i ws ≡ some (a, b)
    → k < (a - i) * 64 + b
    → page_bit ws k ≡ 1
unfolding scan
scan_first i [] a b k h l = refl
scan_first i (w ∷ r) a b k h l = ground (
  arith,
  scan_lem (i + 1) r a b,
  scan_first (i + 1) r a b (k - 64),
  find_bit_first w 0 64 b k,
  find_bit_lem w 0 64 b,
  find_bit-none w 0 64 k,
  test_bit_ones 64 k,
)

pub scan-none : (i : ℕ) (ws : List ℕ) (k : ℕ) → scan i ws ≡ none → page_bit ws k ≡ 1
unfolding scan
scan-none i [] k h = refl
scan-none i (w ∷ r) k h =
    ground (arith, scan-none (i + 1) r (k - 64), find_bit-none w 0 64 k, test_bit_ones 64 k)

pub page_bit-mark_used :
    (ws : List ℕ) (i j k : ℕ)
    → i < length ws
    → j < 64
    → page_bit (mark_used i j ws) k ≡ (if i * 64 + j == k then 1 else page_bit ws k)
unfolding mark_used
page_bit-mark_used [] i j k h l = absurd (omega arith)
page_bit-mark_used (w ∷ r) zero j k h l = ground (arith, test_bit-set_bit w j k)
page_bit-mark_used (w ∷ r) (suc i) j k h l = ground (arith, page_bit-mark_used r i j (k - 64))

pub page_bit-mark_free :
    (ws : List ℕ) (i j k : ℕ)
    → i < length ws
    → j < 64
    → page_bit (mark_free i j ws) k ≡ (if i * 64 + j == k then 0 else page_bit ws k)
unfolding mark_free
page_bit-mark_free [] i j k h l = absurd (omega arith)
page_bit-mark_free (w ∷ r) zero j k h l = ground (arith, test_bit-clear_bit w j k)
page_bit-mark_free (w ∷ r) (suc i) j k h l = ground (arith, page_bit-mark_free r i j (k - 64))
