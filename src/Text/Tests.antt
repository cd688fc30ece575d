-- ===== src/Text/Tests.antt =====
-- The string functions on small strings.
use nix_core_os.Base.{ℕ, ◌≡◌, refl, List, [], ◌∷◌, Option, none, some, arith, ◌⊎◌}
use nix_core_os.Text.{
  strncmp, strncmp_loop, strstr, strstr_loop, strlen, strtok, strspn, strpbrk, one_of,
  utf8_to_ascii,
}
use nix_core_os.Text.Compare.{IsText}
use nix_core_os.Text.Tokens.{Delims, Cut, strtok-Cut}
use nix_core_os.Text.Utf8.{Moves, utf8_to_ascii-Moves}

-- "ab" and "abc"
abbrev ab : List ℕ
ab = 97 ∷ 98 ∷ []

abbrev abc : List ℕ
abc = 97 ∷ 98 ∷ 99 ∷ []

ab-IsText : IsText ab
ab-IsText = (λ e. absurd (omega arith), (λ e. absurd (omega arith), tt))

abc-IsText : IsText abc
abc-IsText =
    (λ e. absurd (omega arith), (λ e. absurd (omega arith), (λ e. absurd (omega arith), tt)))

-- The first two bytes of "abc" and "ab" agree, and the result is the third byte.
finds_end : strstr abc (98 ∷ 99 ∷ []) ≡ some (98 ∷ 99 ∷ [])
unfolding strstr strstr_loop strncmp strncmp_loop strlen
finds_end = refl

-- "ab" is not found in "abc".
misses : strstr abc ab ≡ none
unfolding strstr strstr_loop strncmp strncmp_loop strlen
misses = refl

cuts : strtok abc (98 ∷ []) ≡ (some (97 ∷ []), some (99 ∷ []))
unfolding strtok strspn strpbrk one_of
cuts = refl

strtok-Cut_example :
    ((◌≡◌ {A = Option (List ℕ)} (some (97 ∷ [])) none) × Delims (98 ∷ []) abc)
    ⊎ ((token : List ℕ) × (◌≡◌ {A = Option (List ℕ)} (some (97 ∷ [])) (some token))
        × Cut abc (98 ∷ []) token (some (99 ∷ [])))
strtok-Cut_example = strtok-Cut abc (98 ∷ []) (some (97 ∷ [])) (some (99 ∷ [])) abc-IsText cuts

utf8_to_ascii-Moves_example : Moves ab (utf8_to_ascii ab).0 (utf8_to_ascii ab).1
utf8_to_ascii-Moves_example = utf8_to_ascii-Moves ab ab-IsText (λ e. ground (arith, e))
