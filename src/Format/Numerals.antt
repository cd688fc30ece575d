-- ===== src/Format/Numerals.antt =====
-- The string that `itoa` and `uitoa` build.
use mathlib.Core.List.{reverse, reverse-cons}
use nix_core_os.Base.{
  ℕ, zero, suc, ◌+◌, ◌-◌, ◌/◌, ◌%◌, ◌≤◌, ◌<◌, ◌≡◌, ◌≢◌, refl, ◌∙◌, sym, ap, true, false, List, [],
  ◌∷◌, ◌++◌, leb, ◌==◌, ◌&&◌, if◌then◌else◌, arith, length, Bool-cases, inl, inr, ◌⊎◌, bytes_at,
  put_byte, put_bytes, put_bytes-below, bytes_at-put_bytes, bytes_at-append, put_byte-here,
}
use nix_core_os.Format.{digit_char, put_digits, swap, put_numeral}

-- The numeral of `value`, the lowest first.
unfoldable pub numeral : ℕ → ℕ → ℕ → List ℕ
numeral zero value base = []
numeral (suc fuel) value base =
    let rest = numeral fuel (value / base) base in
    digit_char (value % base) ∷ (if value / base == 0 then [] else rest)

put_digits_lem :
    (fuel : ℕ) (str : ℕ → ℕ) (ptr value base : ℕ)
    → put_digits fuel str ptr value base
      ≡ (put_bytes str ptr (numeral fuel value base), ptr + length (numeral fuel value base))
unfolding put_digits numeral
put_digits_lem zero str ptr value base = let e : ptr + 0 ≡ ptr = omega arith in rw e refl
put_digits_lem (suc fuel) str ptr value base = elim (Bool-cases (value / base == 0)) [
  | inl e ↦ rw (e, put_digits, numeral) (let f : ptr + 1 ≡ suc ptr = omega arith in rw f refl)
  | inr e ↦
      let str' = put_byte str ptr (digit_char (value % base)) in
      let f : ptr + suc (length (numeral fuel (value / base) base))
          ≡ suc ptr + length (numeral fuel (value / base) base) =
        omega arith in
      rw (e, put_digits, numeral)
        (put_digits_lem fuel str' (suc ptr) (value / base) base ∙ rw f refl)
]

swap_lem :
    (fuel : ℕ) (str : ℕ → ℕ) (low ptr i : ℕ)
    → ptr ≤ low + fuel
    → swap fuel str low ptr i ≡ (if leb low i && leb i ptr then str (low + ptr - i) else str i)
unfolding swap
swap_lem zero str low ptr i h = ground arith
swap_lem (suc fuel) str low ptr i h = ground (
  arith,
  swap_lem fuel (put_byte (put_byte str low (str ptr)) ptr (str low)) (suc low) (ptr - 1) i
      (omega arith),
)

-- Memory read upwards, against memory that is read downwards.
reversed :
    (w m : ℕ → ℕ) (a c n : ℕ)
    → ((j : ℕ) → j < n → w (c + n - 1 - j) ≡ m (a + j))
    → bytes_at w c n ≡ reverse (bytes_at m a n)
reversed w m a c zero same = refl
reversed w m a c (suc n) same =
    let last : w (c + n) ≡ m a = ap w (omega arith) ∙ same 0 (omega arith) ∙ ap m (omega arith) in
    let e : suc n ≡ n + 1 = omega arith in
    ap (bytes_at w c) e
    ∙ bytes_at-append w c n 1
    ∙ ap (λ l. l ++ w (c + n) ∷ [])
        (reversed w m (a + 1) c n
          (λ j h. ap w (omega arith) ∙ same (suc j) (omega arith) ∙ ap m (omega arith)))
    ∙ ap (λ v. reverse (bytes_at m (a + 1) n) ++ v ∷ []) last
    ∙ sym (reverse-cons (m a) (bytes_at m (a + 1) n))

pub numeral-length :
    (fuel v base : ℕ)
    → (length (numeral fuel v base) ≤ fuel) × (0 < fuel → 0 < length (numeral fuel v base))
unfolding numeral
numeral-length zero v base = (omega arith, λ h. omega arith)
numeral-length (suc fuel) v base =
    (ground (arith, (numeral-length fuel (v / base) base).0), λ h. omega arith)

turned :
    (m : ℕ → ℕ) (low n j : ℕ)
    → j < n
    → let i = low + n - 1 - j in
      (if leb low i && leb i (low + n - 1) then m (low + (low + n - 1) - i) else m i) ≡ m (low + j)
turned m low n j h =
    let inside : (leb low (low + n - 1 - j) && leb (low + n - 1 - j) (low + n - 1)) ≡ true =
      ground arith in
    rw inside (ap m (omega arith))

outside :
    (m : ℕ → ℕ) (low n i : ℕ)
    → (i < low) ⊎ (low + n ≤ i)
    → 0 < n
    → (if leb low i && leb i (low + n - 1) then m (low + (low + n - 1) - i) else m i) ≡ m i
outside m low n i h p =
    let out : (leb low i && leb i (low + n - 1)) ≡ false = ground arith in rw out refl

put_byte-other : (p : ℕ → ℕ) (a c i : ℕ) → i ≢ a → put_byte p a c i ≡ p i
put_byte-other p a c i h = ground arith

-- The digits, the highest first.
abbrev pub numerals : ℕ → ℕ → List ℕ
numerals value base = reverse (numeral 32 value base)

-- What `put_numeral` writes.
pub put_numeral_lem :
    (str : ℕ → ℕ) (low value base : ℕ)
    → let l = numeral 32 value base in
      let w = put_numeral str low value base in
      (bytes_at w low (length l) ≡ numerals value base)
      × (w (low + length l) ≡ 0)
      × ((i : ℕ) → i < low → w i ≡ str i)
unfolding put_numeral
put_numeral_lem str low value base =
    let l = numeral 32 value base in
    let n = length l in
    let (long, some_digit) = numeral-length 32 value base in
    let positive : 0 < n = some_digit (omega arith) in
    let Q = put_bytes str low l in
    let m = put_byte Q (low + n) 0 in
    let w = swap 32 m low (low + n - 1) in
    let at : (i : ℕ)
        → w i ≡ (if leb low i && leb i (low + n - 1) then m (low + (low + n - 1) - i) else m i) =
      λ i. swap_lem 32 m low (low + n - 1) i (omega arith) in
    rw (put_digits_lem 32 str low value base) (
      reversed w Q low low n (λ j h.
            at (low + n - 1 - j)
            ∙ turned m low n j h
            ∙ put_byte-other Q (low + n) 0 (low + j) (λ e. omega arith))
          ∙ ap reverse (bytes_at-put_bytes str low l),
      at (low + n)
          ∙ outside m low n (low + n) (inr (omega arith)) positive
          ∙ put_byte-here Q (low + n) 0,
      λ i h.
          at i
          ∙ outside m low n i (inl h) positive
          ∙ put_byte-other Q (low + n) 0 i (λ e. omega arith)
          ∙ put_bytes-below str low l i h,
    )
