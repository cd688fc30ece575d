-- ===== src/Mm/Bits.antt =====
-- Single bits of a word: `w & (1ULL << j)`, `w |= 1ULL << j` and `w &= ~(1ULL << j)`.
use native.Mathlib.Nat.{pow-suc}
use nix_core_os.Base.{
  ℕ, zero, suc, ◌+◌, ◌-◌, ◌*◌, ◌/◌, ◌%◌, ◌^◌, ◌≤◌, ◌<◌, ◌≡◌, ◌==◌, if◌then◌else◌, arith,
}

-- The bit of `w` at place `j`, 0 or 1.
unfoldable pub test_bit : ℕ → ℕ → ℕ
test_bit w zero = w % 2
test_bit w (suc j) = test_bit (w / 2) j

unfoldable pub set_bit : ℕ → ℕ → ℕ
set_bit w zero = w / 2 * 2 + 1
set_bit w (suc j) = set_bit (w / 2) j * 2 + w % 2

unfoldable pub clear_bit : ℕ → ℕ → ℕ
clear_bit w zero = w / 2 * 2
clear_bit w (suc j) = clear_bit (w / 2) j * 2 + w % 2

pub test_bit-le : (w j : ℕ) → test_bit w j ≤ 1
unfolding test_bit
test_bit-le w zero = omega arith
test_bit-le w (suc j) = test_bit-le (w / 2) j

pub test_bit-set_bit : (w j k : ℕ) → test_bit (set_bit w j) k ≡ (if j == k then 1 else test_bit w k)
unfolding test_bit set_bit
test_bit-set_bit w zero zero = omega arith
test_bit-set_bit w zero (suc k) =
    let half : (w / 2 * 2 + 1) / 2 ≡ w / 2 = omega arith in rw half (ground arith)
test_bit-set_bit w (suc j) zero = ground arith
test_bit-set_bit w (suc j) (suc k) =
    let half : (set_bit (w / 2) j * 2 + w % 2) / 2 ≡ set_bit (w / 2) j = omega arith in
    rw half (ground (arith, test_bit-set_bit (w / 2) j k))

pub test_bit-clear_bit :
    (w j k : ℕ) → test_bit (clear_bit w j) k ≡ (if j == k then 0 else test_bit w k)
unfolding test_bit clear_bit
test_bit-clear_bit w zero zero = omega arith
test_bit-clear_bit w zero (suc k) =
    let half : (w / 2 * 2) / 2 ≡ w / 2 = omega arith in rw half (ground arith)
test_bit-clear_bit w (suc j) zero = ground arith
test_bit-clear_bit w (suc j) (suc k) =
    let half : (clear_bit (w / 2) j * 2 + w % 2) / 2 ≡ clear_bit (w / 2) j = omega arith in
    rw half (ground (arith, test_bit-clear_bit (w / 2) j k))

ones_pos : (n : ℕ) → 1 ≤ 2 ^ n
ones_pos zero = omega arith
ones_pos (suc n) = omega (arith, pow-suc 2 n, ones_pos n)

-- A word of `n` ones has every bit set.
pub test_bit_ones : (n j : ℕ) → j < n → test_bit (2 ^ n - 1) j ≡ 1
unfolding test_bit
test_bit_ones zero j h = absurd (omega arith)
test_bit_ones (suc n) zero h = ground (arith, pow-suc 2 n, ones_pos n)
test_bit_ones (suc n) (suc j) h =
    let half : (2 ^ suc n - 1) / 2 ≡ 2 ^ n - 1 = omega (arith, pow-suc 2 n, ones_pos n) in
    rw half (test_bit_ones n j (omega arith))
