-- ===== src/Mem/Words.antt =====
-- Loads and stores of eight bytes.
use nix_core_os.Base.{
  ℕ, zero, suc, ◌+◌, ◌-◌, ◌/◌, ◌%◌, ◌^◌, ◌≤◌, ◌<◌, ◌≡◌, ap, ◌⊎◌, ◌&&◌, leb, ltb, if◌then◌else◌,
  arith,
}
use native.Mathlib.Nat.{add-zero}
use nix_core_os.Mem.{Mem, load64, store64, spread}

-- The memory after `n` bytes from `s` have been moved to `d` at once.
abbrev pub moved : Mem → ℕ → ℕ → ℕ → Mem
moved m d s n a = if leb d a && ltb a (d + n) then m (s + (a - d)) else m a

pub moved_inside : (m : Mem) (d s n i : ℕ) → i < n → moved m d s n (d + i) ≡ m (s + i)
moved_inside m d s n i h = let back : d + i - d ≡ i = omega arith in rw back (ground arith)

pub moved_outside : (m : Mem) (d s n a : ℕ) → (a < d) ⊎ (d + n ≤ a) → moved m d s n a ≡ m a
moved_outside m d s n a h = ground arith

-- The byte of a word at a place.
load64_byte :
    (m : Mem) (s i : ℕ) → ((x : ℕ) → m x < 256) → i < 8 → load64 m s / 256 ^ i % 256 ≡ m (s + i)
unfolding load64
load64_byte m s zero b h = omega (
  arith,
  b s,
  b (s + 1),
  b (s + 2),
  b (s + 3),
  b (s + 4),
  b (s + 5),
  b (s + 6),
  b (s + 7),
  ap m (add-zero s),
)
load64_byte m s (suc zero) b h =
    omega (arith, b s, b (s + 1), b (s + 2), b (s + 3), b (s + 4), b (s + 5), b (s + 6), b (s + 7))
load64_byte m s (suc (suc zero)) b h =
    omega (arith, b s, b (s + 1), b (s + 2), b (s + 3), b (s + 4), b (s + 5), b (s + 6), b (s + 7))
load64_byte m s (suc (suc (suc zero))) b h =
    omega (arith, b s, b (s + 1), b (s + 2), b (s + 3), b (s + 4), b (s + 5), b (s + 6), b (s + 7))
load64_byte m s (suc (suc (suc (suc zero)))) b h =
    omega (arith, b s, b (s + 1), b (s + 2), b (s + 3), b (s + 4), b (s + 5), b (s + 6), b (s + 7))
load64_byte m s (suc (suc (suc (suc (suc zero))))) b h =
    omega (arith, b s, b (s + 1), b (s + 2), b (s + 3), b (s + 4), b (s + 5), b (s + 6), b (s + 7))
load64_byte m s (suc (suc (suc (suc (suc (suc zero)))))) b h =
    omega (arith, b s, b (s + 1), b (s + 2), b (s + 3), b (s + 4), b (s + 5), b (s + 6), b (s + 7))
load64_byte m s (suc (suc (suc (suc (suc (suc (suc zero))))))) b h =
    omega (arith, b s, b (s + 1), b (s + 2), b (s + 3), b (s + 4), b (s + 5), b (s + 6), b (s + 7))
load64_byte m s (suc (suc (suc (suc (suc (suc (suc (suc i)))))))) b h = absurd (omega arith)

-- A word that is loaded and stored again moves its eight bytes.
pub store64-load64 :
    (m : Mem) (d s a : ℕ) → ((x : ℕ) → m x < 256) → store64 m d (load64 m s) a ≡ moved m d s 8 a
unfolding store64
store64-load64 m d s a b = ground (arith, load64_byte m s (a - d) b)

-- Memory still holds bytes after a store.
pub store64-byte : (m : Mem) (d v : ℕ) → ((x : ℕ) → m x < 256) → (x : ℕ) → store64 m d v x < 256
unfolding store64
store64-byte m d v b x = ground (arith, b x)

-- The pattern that `memset` builds has the byte at every place.
pub spread_byte : (c i : ℕ) → i < 8 → spread c / 256 ^ i % 256 ≡ c % 256
unfolding spread
spread_byte c zero h = omega arith
spread_byte c (suc zero) h = omega arith
spread_byte c (suc (suc zero)) h = omega arith
spread_byte c (suc (suc (suc zero))) h = omega arith
spread_byte c (suc (suc (suc (suc zero)))) h = omega arith
spread_byte c (suc (suc (suc (suc (suc zero))))) h = omega arith
spread_byte c (suc (suc (suc (suc (suc (suc zero)))))) h = omega arith
spread_byte c (suc (suc (suc (suc (suc (suc (suc zero))))))) h = omega arith
spread_byte c (suc (suc (suc (suc (suc (suc (suc (suc i)))))))) h = absurd (omega arith)
