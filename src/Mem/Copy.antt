-- ===== src/Mem/Copy.antt =====
-- What the copy loops leave in memory.
use nix_core_os.Base.{
  ℕ, zero, suc, ◌+◌, ◌-◌, ◌*◌, ◌/◌, ◌%◌, ◌≤◌, ◌<◌, ◌≡◌, ◌∙◌, ◌⊎◌, inl, inr, ◌&&◌, ltb, ◌==◌, arith,
  Bool-cases,
}
use nix_core_os.Mem.{
  Mem, store, load64, store64, copy_bytes, copy_words, memcpy, copy_down, memmove,
}
use nix_core_os.Mem.Words.{moved, store64-byte, store64-load64}

-- Two ranges of `n` bytes have no byte in common.
abbrev pub Apart : ℕ → ℕ → ℕ → Type 0
Apart d s n = (d + n ≤ s) ⊎ (s + n ≤ d)

-- Upwards the loop is right if the target starts at or before the source, or is apart from it.
pub copy_bytes_lem :
    (m : Mem) (d s n a : ℕ) → (d ≤ s) ⊎ (s + n ≤ d) → copy_bytes m d s n a ≡ moved m d s n a
unfolding copy_bytes
copy_bytes_lem m d s zero a h = ground arith
copy_bytes_lem m d s (suc n) a h =
    copy_bytes_lem (store m d (m s)) (d + 1) (s + 1) n a (omega arith) ∙ ground arith

-- Downwards it is right if the target starts at or behind the source.
copy_down_lem : (m : Mem) (d s n a : ℕ) → s ≤ d → copy_down m d s n a ≡ moved m d s n a
unfolding copy_down
copy_down_lem m d s zero a h = ground arith
copy_down_lem m d s (suc n) a h =
    copy_down_lem (store m (d + n) (m (s + n))) d s n a h ∙ ground arith

-- Copying words is copying bytes, for memory that holds bytes.
copy_words_lem :
    (m : Mem) (d s k a : ℕ)
    → ((x : ℕ) → m x < 256)
    → (d ≤ s) ⊎ (s + 8 * k ≤ d)
    → copy_words m d s k a ≡ moved m d s (8 * k) a
unfolding copy_words
copy_words_lem m d s zero a b h = ground arith
copy_words_lem m d s (suc k) a b h =
    copy_words_lem (store64 m d (load64 m s)) (d + 8) (s + 8) k a (store64-byte m d (load64 m s) b)
      (omega arith)
    ∙ ground (arith, store64-load64 m d s a b, store64-load64 m d s (s + 8 + (a - (d + 8))) b)

-- `memcpy` of the C library moves the `n` bytes and leaves the rest of memory as it was, on the word
-- path as on the byte path, if the source is not overwritten before it is read.
pub memcpy_lem :
    (m : Mem) (d s n a : ℕ)
    → ((x : ℕ) → m x < 256)
    → (d ≤ s) ⊎ (s + n ≤ d)
    → memcpy m d s n a ≡ moved m d s n a
unfolding memcpy
memcpy_lem m d s n a b h = elim (Bool-cases ((d % 8 == 0) && (s % 8 == 0))) [
  | inl aligned ↦
      let k = n / 8 in
      rw aligned (
        copy_bytes_lem (copy_words m d s k) (d + 8 * k) (s + 8 * k) (n % 8) a (omega arith)
        ∙ ground (
          arith,
          copy_words_lem m d s k a b (omega arith),
          copy_words_lem m d s k (s + 8 * k + (a - (d + 8 * k))) b (omega arith),
        ))
  | inr other ↦ rw other (copy_bytes_lem m d s n a h)
]

-- `memmove` moves the `n` bytes and leaves the rest of memory as it was, however the two ranges
-- overlap.
pub memmove_lem : (m : Mem) (d s n a : ℕ) → memmove m d s n a ≡ moved m d s n a
unfolding memmove
memmove_lem m d s n a = elim (Bool-cases (ltb d s)) [
  | inl below ↦ rw below (copy_bytes_lem m d s n a (ground arith))
  | inr above ↦ rw above (copy_down_lem m d s n a (ground arith))
]
