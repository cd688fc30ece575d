-- ===== src/Text/Compare.antt =====
-- Comparison and search of strings.
use nix_core_os.Base.{
  ℕ, zero, suc, ◌<◌, ◌≤◌, ◌≡◌, refl, ◌≢◌, ◌↔◌, sym, ap, true, false, List, [], ◌∷◌, ◌++◌, some,
  ◌==◌, ◌&&◌, ℤ, pos, negsuc, sub_ℕ, sub_ℕ-eq-zero, arith, Bool-cases, inl, inr, length, take,
}
use nix_core_os.Text.{
  head, strlen, strcmp, strncmp, strncmp_loop, strstr, strstr_loop, is_zero, strncpy,
}

-- A string holds no zero.
abbrev pub IsText : List ℕ → Type 0
IsText [] = Unit {0}
IsText (c ∷ s) = (c ≢ 0) × IsText s

to_equal : (s t : List ℕ) → IsText s → IsText t → strcmp s t ≡ pos 0 → s ≡ t
unfolding strcmp
to_equal [] [] hs ht e = refl
to_equal [] (d ∷ t) hs ht e = absurd (ht.0 (sym (sub_ℕ-eq-zero 0 d e)))
to_equal (c ∷ s) [] hs ht e = absurd (hs.0 (sub_ℕ-eq-zero c 0 e))
to_equal (c ∷ s) (d ∷ t) hs ht e = elim (Bool-cases (c == d)) [
  | inl f ↦
      let g : c ≡ d = ground arith in
      let r = to_equal s t hs.1 ht.1 (ground arith) in rw (g, r) refl
  | inr f ↦ absurd (ground (arith, sub_ℕ-eq-zero c d))
]

same : (t : List ℕ) → strcmp t t ≡ pos 0
unfolding strcmp
same [] = refl
same (c ∷ t) = ground (arith, same t)

-- `strcmp` returns 0 exactly for equal strings.
pub strcmp-eq-zero_iff : (s t : List ℕ) → IsText s → IsText t → (strcmp s t ≡ pos 0) ↔ (s ≡ t)
strcmp-eq-zero_iff s t hs ht = (to_equal s t hs ht, λ e. rw e (same t))

loop_prefix : (p s t : List ℕ) → strncmp_loop (p ++ s) (p ++ t) (length p) ≡ sub_ℕ (head s) (head t)
unfolding strncmp_loop
loop_prefix [] [] t = refl
loop_prefix [] (c ∷ s) t = refl
loop_prefix (c ∷ p) s t = ground (arith, loop_prefix p s t)

-- On strings that agree in their first `n` bytes, with `n` not 0, `strncmp` over `n` bytes returns the
-- difference of the bytes that follow, which it should not read.
pub strncmp_reads_on :
    (p s t : List ℕ) → 0 < length p → strncmp (p ++ s) (p ++ t) (length p) ≡ sub_ℕ (head s) (head t)
unfolding strncmp
strncmp_reads_on p s t h = ground (arith, loop_prefix p s t)

-- A comparison over the length of the second string asks for equal strings.
loop_whole : (s t : List ℕ) → IsText s → IsText t → strncmp_loop s t (strlen t) ≡ pos 0 → s ≡ t
unfolding strncmp_loop strlen
loop_whole [] [] hs ht e = refl
loop_whole (c ∷ s) [] hs ht e = absurd (hs.0 (sub_ℕ-eq-zero c 0 (ground arith)))
loop_whole [] (d ∷ t) hs ht e = absurd (ht.0 (sym (sub_ℕ-eq-zero 0 d (ground arith))))
loop_whole (c ∷ s) (d ∷ t) hs ht e = elim (Bool-cases (c == d)) [
  | inl f ↦
      let g : c ≡ d = ground arith in
      let r = loop_whole s t hs.1 ht.1 (ground arith) in rw (g, r) refl
  | inr f ↦ absurd (ground (arith, sub_ℕ-eq-zero c d))
]

pub zero_of : (z : ℤ) → is_zero z ≡ true → z ≡ pos 0
zero_of (pos zero) h = refl
zero_of (pos (suc n)) h = ground arith
zero_of (negsuc n) h = ground arith

empty : (t : List ℕ) → (strlen t == 0) ≡ true → t ≡ []
unfolding strlen
empty [] f = refl
empty (c ∷ t) f = ground arith

found :
    (s needle rest : List ℕ)
    → IsText s
    → IsText needle
    → (strlen needle == 0) ≡ false
    → strstr_loop s needle ≡ some rest
    → rest ≡ needle
unfolding strstr_loop strncmp
found [] needle rest hs ht f e = ground arith
found (c ∷ s) needle rest hs ht f e =
    elim (Bool-cases ((c == head needle) && is_zero (strncmp (c ∷ s) needle (strlen needle)))) [
      | inl g ↦
          let z : is_zero (strncmp_loop (c ∷ s) needle (strlen needle)) ≡ true = ground arith in
          let w = loop_whole (c ∷ s) needle hs ht (zero_of _ z) in ground arith
      | inr g ↦ found s needle rest hs.1 ht f (ground arith)
    ]

-- `strstr` finds a needle that is not empty only at the end of the haystack.
pub strstr_only_end :
    (haystack needle rest : List ℕ)
    → IsText haystack
    → IsText needle
    → needle ≢ []
    → strstr haystack needle ≡ some rest
    → rest ≡ needle
unfolding strstr
strstr_only_end haystack needle rest hs ht ne e = elim (Bool-cases (strlen needle == 0)) [
  | inl f ↦ absurd (ne (empty needle f))
  | inr f ↦ found haystack needle rest hs ht f (ground arith)
]

-- `strncpy` keeps the first bytes.
pub strncpy-take : (s : List ℕ) (n : ℕ) → strncpy s n ≡ take n s
unfolding strncpy
strncpy-take s zero = refl
strncpy-take [] (suc n) = refl
strncpy-take (c ∷ s) (suc n) = ap (λ r. c ∷ r) (strncpy-take s n)

pub strncpy-length : (s : List ℕ) (n : ℕ) → length (strncpy s n) ≤ n
unfolding strncpy
strncpy-length s zero = omega arith
strncpy-length [] (suc n) = omega arith
strncpy-length (c ∷ s) (suc n) = omega (arith, strncpy-length s n)
