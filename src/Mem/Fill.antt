-- ===== src/Mem/Fill.antt =====
-- What the fill loops leave in memory, and what the searches of memory find.
use nix_core_os.Base.{
  ℕ, zero, suc, ◌+◌, ◌-◌, ◌*◌, ◌/◌, ◌%◌, ◌<◌, ◌≡◌, refl, ◌∙◌, inl, inr, ◌&&◌, leb, ltb, ◌==◌,
  if◌then◌else◌, arith, Bool-cases, pos, sub_ℕ-eq-zero, ◌↔◌,
}
use native.Mathlib.Nat.{add-zero}
use nix_core_os.Mem.{Mem, store, store64, fill_bytes, fill_words, spread, memset, memcmp}
use nix_core_os.Mem.Words.{spread_byte}

-- The memory after the `n` bytes from `p` have been set to `v`.
abbrev pub filled : Mem → ℕ → ℕ → ℕ → Mem
filled m p v n a = if leb p a && ltb a (p + n) then v else m a

pub fill_bytes_lem : (m : Mem) (p c n a : ℕ) → fill_bytes m p c n a ≡ filled m p (c % 256) n a
unfolding fill_bytes
fill_bytes_lem m p c zero a = ground arith
fill_bytes_lem m p c (suc n) a = fill_bytes_lem (store m p (c % 256)) (p + 1) c n a ∙ ground arith

fill_words_lem :
    (m : Mem) (p c k a : ℕ) → fill_words m p (spread c) k a ≡ filled m p (c % 256) (8 * k) a
unfolding fill_words store64
fill_words_lem m p c zero a = ground arith
fill_words_lem m p c (suc k) a =
    fill_words_lem (store64 m p (spread c)) (p + 8) c k a ∙ ground (arith, spread_byte c (a - p))

-- `memset` of the C library sets exactly the `n` bytes from `p`, each to the low byte of `c`, on the
-- word path as on the byte path.
pub memset_lem : (m : Mem) (p c n a : ℕ) → memset m p c n a ≡ filled m p (c % 256) n a
unfolding memset
memset_lem m p c n a = elim (Bool-cases ((p % 8 == 0) && leb 8 n)) [
  | inl aligned ↦ rw aligned (
      fill_bytes_lem (fill_words m p (spread c) (n / 8)) (p + 8 * (n / 8)) c (n % 8) a
      ∙ ground (arith, fill_words_lem m p c (n / 8) a))
  | inr other ↦ rw other (fill_bytes_lem m p c n a)
]

memcmp_agree :
    (m : Mem) (p q n : ℕ) → memcmp m p q n ≡ pos 0 → (i : ℕ) → i < n → m (p + i) ≡ m (q + i)
unfolding memcmp
memcmp_agree m p q zero h i l = absurd (omega arith)
memcmp_agree m p q (suc n) h zero l =
    ground (arith, sub_ℕ-eq-zero (m p) (m q), add-zero p, add-zero q)
memcmp_agree m p q (suc n) h (suc i) l =
    let next_p : p + 1 + i ≡ p + suc i = omega arith in
    let next_q : q + 1 + i ≡ q + suc i = omega arith in
    let rest : memcmp m (p + 1) (q + 1) n ≡ pos 0 = ground (arith, sub_ℕ-eq-zero (m p) (m q)) in
    rw (next_p, next_q) at (memcmp_agree m (p + 1) (q + 1) n rest i (omega arith))

memcmp_same :
    (m : Mem) (p q n : ℕ) → ((i : ℕ) → i < n → m (p + i) ≡ m (q + i)) → memcmp m p q n ≡ pos 0
unfolding memcmp
memcmp_same m p q zero h = refl
memcmp_same m p q (suc n) h =
    let rest = memcmp_same m (p + 1) (q + 1) n λ i l.
      let next_p : p + 1 + i ≡ p + suc i = omega arith in
      let next_q : q + 1 + i ≡ q + suc i = omega arith in
      rw (next_p, next_q) (h (suc i) (omega arith)) in
    ground (arith, rest, h 0, add-zero p, add-zero q)

-- `memcmp` returns 0 exactly if the two ranges hold the same bytes.
pub memcmp-eq-zero_iff :
    (m : Mem) (p q n : ℕ) → (memcmp m p q n ≡ pos 0) ↔ ((i : ℕ) → i < n → m (p + i) ≡ m (q + i))
memcmp-eq-zero_iff m p q n = (memcmp_agree m p q n, memcmp_same m p q n)
