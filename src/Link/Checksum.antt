-- ===== src/Link/Checksum.antt =====
-- The Internet checksum: a receiver that sums the words of a message with its checksum gets no error.
use nix_core_os.Base.{
  ℕ, zero, suc, ◌+◌, ◌-◌, ◌*◌, ◌%◌, ◌^◌, ◌<◌, ◌≡◌, refl, ◌∙◌, List, [], ◌∷◌, ◌++◌, arith, length,
}
use nix_core_os.Link.{le16, sum_words, fold_sum, checksum}

-- The sum of the 16-bit words, without a bound.
abbrev pub words : List ℕ → ℕ
words [] = 0
words (a ∷ []) = a
words (a ∷ b ∷ r) = a + 256 * b + words r

sum_words_lem : (sum : ℕ) (l : List ℕ) → sum < 2 ^ 32 → sum_words sum l ≡ (sum + words l) % 2 ^ 32
unfolding sum_words
sum_words_lem sum [] h = omega arith
sum_words_lem sum (a ∷ []) h = refl
sum_words_lem sum (a ∷ b ∷ r) h =
    sum_words_lem ((sum + (a + 256 * b)) % 2 ^ 32) r (omega arith) ∙ omega arith

-- Folding keeps the sum modulo 2^16 - 1, and only 0 folds to 0.
record Folded (s f : ℕ) : Type 0 where
  small : f < 2 ^ 16
  same : f % 65535 ≡ s % 65535
  not_lost : 0 < s → 0 < f
  not_made : s ≡ 0 → f ≡ 0

fold_sum-Folded : (s : ℕ) → s < 2 ^ 32 → Folded s (fold_sum 3 s)
unfolding fold_sum
fold_sum-Folded s h = ground arith

checksum_lem :
    (l : List ℕ) → words l < 2 ^ 32 → (f : ℕ) × Folded (words l) f × (checksum l ≡ 65535 - f)
unfolding checksum
checksum_lem l h =
    let e = sum_words_lem 0 l (omega arith) in
    let s : sum_words 0 l ≡ words l = omega (arith, e) in
    let f = fold_sum-Folded (words l) h in (fold_sum 3 (words l), f, rw s (omega (arith, f.small)))

-- A part of even length in front.
words-append :
    (k : ℕ) (pre rest : List ℕ) → length pre ≡ 2 * k → words (pre ++ rest) ≡ words pre + words rest
words-append k [] rest h = omega arith
words-append k (a ∷ []) rest h = absurd (omega arith)
words-append zero (a ∷ b ∷ pre) rest h = absurd (omega arith)
words-append (suc k) (a ∷ b ∷ pre) rest h = omega (arith, words-append k pre rest (omega arith))

-- If the checksum of a message whose checksum field is zero is put into that field, at an even place, then
-- the checksum of the whole is 0. The words of the message sum to less than 2^32 - 2^16.
pub checksum_verifies :
    (k : ℕ) (pre rest : List ℕ)
    → length pre ≡ 2 * k
    → words (pre ++ (0 ∷ 0 ∷ rest)) < 2 ^ 32 - 2 ^ 16
    → checksum (pre ++ (le16 (checksum (pre ++ (0 ∷ 0 ∷ rest))) ++ rest)) ≡ 0
checksum_verifies k pre rest even small =
    let (f, a, b) = checksum_lem (pre ++ (0 ∷ 0 ∷ rest)) (omega arith) in
    let c = checksum (pre ++ (0 ∷ 0 ∷ rest)) in
    let before = words-append k pre (0 ∷ 0 ∷ rest) even in
    let after = words-append k pre (le16 c ++ rest) even in
    let total : words (pre ++ (le16 c ++ rest)) ≡ words (pre ++ (0 ∷ 0 ∷ rest)) + c =
      omega (arith, before, after, b) in
    let (g, d, e) = checksum_lem (pre ++ (le16 c ++ rest)) (omega (arith, total, b)) in
    let some_words : 0 < words (pre ++ (le16 c ++ rest)) =
      ground (arith, total, b, a.small, a.same, a.not_made) in
    e ∙ omega (arith, total, b, a.small, a.same, d.small, d.same, d.not_lost some_words)
