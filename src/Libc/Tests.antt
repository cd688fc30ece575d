-- ===== src/Libc/Tests.antt =====
-- A search, and a line of words.
use nix_core_os.Base.{ℕ, ◌<◌, ◌≡◌, ◌≢◌, ◌⊎◌, refl, List, ◌++◌, none, some, codes, drop}
use nix_core_os.Libc.{strstr, strtok, skip_delimiters, delimits, strchr, cut}
use nix_core_os.Libc.Search.{strstr-first}

strstr-first_example :
    ((k : ℕ) × (k < 6)
      × (strstr (codes "a == b") (codes "==") ≡ some (drop k (codes "a == b")))
      × ((rest : List ℕ) × (drop k (codes "a == b") ≡ codes "==" ++ rest))
      × ((j : ℕ) → j < k → (rest : List ℕ) → drop j (codes "a == b") ≢ codes "==" ++ rest))
    ⊎ ((strstr (codes "a == b") (codes "==") ≡ none)
        × ((j : ℕ) → j < 6 → (rest : List ℕ) → drop j (codes "a == b") ≢ codes "==" ++ rest))
strstr-first_example = strstr-first (codes "a == b") 61 (codes "=")

words : strtok (some (codes "  set x")) (codes " ") ≡ (some (codes "set"), some (codes "x"))
unfolding strtok skip_delimiters delimits strchr cut
words = refl
