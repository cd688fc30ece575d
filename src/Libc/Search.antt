-- ===== src/Libc/Search.antt =====
-- What the searches find.
use nix_core_os.Base.{
  ℕ, zero, suc, ◌<◌, ◌≡◌, ◌≢◌, ◌⊎◌, refl, ◌∙◌, ap, true, false, List, [], ◌∷◌, ◌++◌, none, some,
  ◌==◌, arith, length, drop, Bool-cases, inl, inr,
}
use nix_core_os.Libc.{begins, strstr_loop, strstr}

-- `begins` is the test for a prefix.
begins_lem : (h n : List ℕ) → begins h n ≡ true → (rest : List ℕ) × (h ≡ n ++ rest)
unfolding begins
begins_lem h [] e = (h, refl)
begins_lem [] (d ∷ n) e = ground arith
begins_lem (c ∷ h) (d ∷ n) e =
    let same : c ≡ d = ground arith in
    let (rest, q) = begins_lem h n (ground arith) in (rest, rw same (ap (λ t. d ∷ t) q))

begins-append : (n rest : List ℕ) → begins (n ++ rest) n ≡ true
unfolding begins
begins-append [] rest = refl
begins-append (d ∷ n) rest =
    let same : (d == d) ≡ true = ground arith in rw (same, begins-append n rest) refl

shifted :
    (h n : List ℕ) (c k : ℕ)
    → begins (c ∷ h) n ≡ false
    → ((j : ℕ) → j < k → begins (drop j h) n ≡ false)
    → (j : ℕ) → j < suc k
    → begins (drop j (c ∷ h)) n ≡ false
shifted h n c k e before zero l = e
shifted h n c k e before (suc j) l = before j (omega arith)

loop_lem :
    (h n : List ℕ)
    → ((k : ℕ) × (k < length h)
        × (strstr_loop h n ≡ some (drop k h))
        × (begins (drop k h) n ≡ true)
        × ((j : ℕ) → j < k → begins (drop j h) n ≡ false))
      ⊎ ((strstr_loop h n ≡ none) × ((j : ℕ) → j < length h → begins (drop j h) n ≡ false))
unfolding strstr_loop
loop_lem [] n = inr (refl, λ j h. absurd (omega arith))
loop_lem (c ∷ h) n = elim (Bool-cases (begins (c ∷ h) n)) [
  | inl e ↦ inl (0, omega arith, rw (strstr_loop, e) refl, e, λ j k. absurd (omega arith))
  | inr e ↦ elim (loop_lem h n) [
    | inl (k, l, a, b, before) ↦
        inl (suc k, omega arith, rw (strstr_loop, e) a, b, shifted h n c k e before)
    | inr (a, before) ↦
        inr (rw (strstr_loop, e) a, λ j l. shifted h n c (length h) e before j (omega arith))
  ]
]

not_there : (s n : List ℕ) → begins s n ≡ false → (rest : List ℕ) → s ≢ n ++ rest
not_there s n e rest q =
    let yes' : begins s n ≡ true = ap (λ t. begins t n) q ∙ begins-append n rest in ground arith

-- For a needle that is not empty, `strstr` of the C library returns the first place of the haystack that
-- begins with the needle, or null if no place does.
pub strstr-first :
    (haystack : List ℕ) (d : ℕ) (n : List ℕ)
    → ((k : ℕ) × (k < length haystack)
        × (strstr haystack (d ∷ n) ≡ some (drop k haystack))
        × ((rest : List ℕ) × (drop k haystack ≡ (d ∷ n) ++ rest))
        × ((j : ℕ) → j < k → (rest : List ℕ) → drop j haystack ≢ (d ∷ n) ++ rest))
      ⊎ ((strstr haystack (d ∷ n) ≡ none)
          × ((j : ℕ) → j < length haystack → (rest : List ℕ) → drop j haystack ≢ (d ∷ n) ++ rest))
unfolding strstr
strstr-first haystack d n = elim (loop_lem haystack (d ∷ n)) [
  | inl (k, l, a, b, before) ↦ inl (
    k,
    l,
    a,
    begins_lem (drop k haystack) (d ∷ n) b,
    λ j h. not_there (drop j haystack) (d ∷ n) (before j h),
  )
  | inr (a, before) ↦ inr (a, λ j h. not_there (drop j haystack) (d ∷ n) (before j h))
]
