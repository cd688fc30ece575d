-- ===== src/Libc.antt =====
-- lib/libc/libc.c: the string functions of the C library, on strings as the lists of their bytes before the
-- terminating zero.
pub mod Search
mod Tests
use nix_core_os.Base.{
  ℕ, zero, suc, ◌+◌, ◌-◌, Bool, true, false, List, [], ◌∷◌, ◌++◌, Option, none, some, ◌==◌,
  if◌then◌else◌, ℤ, pos, sub_ℕ, drop,
}
use nix_core_os.Text.{head}

-- The string in `dest`, which has room for `n` bytes and is closed by a zero behind them.
pub strncpy : List ℕ → ℕ → List ℕ
strncpy src zero = []
strncpy [] (suc n) = []
strncpy (c ∷ src) (suc n) = c ∷ strncpy src n

pub strcat : List ℕ → List ℕ → List ℕ
strcat dest src = dest ++ src

pub strncat : List ℕ → List ℕ → ℕ → List ℕ
strncat dest src n = dest ++ strncpy src n

pub strncmp : List ℕ → List ℕ → ℕ → ℤ
strncmp s1 s2 zero = pos 0
strncmp [] s2 (suc n) = sub_ℕ 0 (head s2)
strncmp (c ∷ s1) [] (suc n) = sub_ℕ c 0
strncmp (c ∷ s1) (d ∷ s2) (suc n) = if c == d then strncmp s1 s2 n else sub_ℕ c d

-- The terminating zero is found too.
pub strchr : List ℕ → ℕ → Option (List ℕ)
strchr [] c = if c == 0 then some [] else none
strchr (d ∷ s) c = if d == c then some (d ∷ s) else strchr s c

-- With the last place found so far.
pub strrchr_from : List ℕ → ℕ → Option (List ℕ) → Option (List ℕ)
strrchr_from [] c last = if c == 0 then some [] else last
strrchr_from (d ∷ s) c last = strrchr_from s c (if d == c then some (d ∷ s) else last)

pub strrchr : List ℕ → ℕ → Option (List ℕ)
strrchr s c = strrchr_from s c none

-- `while (*h && *n && *h == *n)`, and whether the needle is at its end then.
pub begins : List ℕ → List ℕ → Bool
begins h [] = true
begins [] (d ∷ n) = false
begins (c ∷ h) (d ∷ n) = if c == d then begins h n else false

pub strstr_loop : List ℕ → List ℕ → Option (List ℕ)
strstr_loop [] needle = none
strstr_loop (c ∷ h) needle =
    let rest = strstr_loop h needle in if begins (c ∷ h) needle then some (c ∷ h) else rest

pub strstr : List ℕ → List ℕ → Option (List ℕ)
strstr haystack [] = some haystack
strstr haystack (d ∷ needle) = strstr_loop haystack (d ∷ needle)

-- `strchr(delim, c)` for a byte that is not zero.
pub delimits : List ℕ → ℕ → Bool
delimits delim c = elim (strchr delim c) [ none ↦ false | some s ↦ true ]

pub skip_delimiters : List ℕ → List ℕ → List ℕ
skip_delimiters [] delim = []
skip_delimiters (c ∷ s) delim =
    let rest = skip_delimiters s delim in if delimits delim c then rest else c ∷ s

-- The token, and what is behind it.
pub cut : List ℕ → List ℕ → List ℕ × List ℕ
cut [] delim = ([], [])
cut (c ∷ s) delim =
    let (token, rest) = cut s delim in if delimits delim c then ([], c ∷ s) else (c ∷ token, rest)

-- The token and `strtok_saveptr` after the call; `saveptr` is `str`, or the pointer as it was before if
-- that is null.
pub strtok : Option (List ℕ) → List ℕ → Option (List ℕ) × Option (List ℕ)
strtok none delim = (none, none)
strtok (some saveptr) delim = elim (skip_delimiters saveptr delim) [
  | [] ↦ (none, some [])
  | c ∷ s ↦ let (token, rest) = cut (c ∷ s) delim in (some token, some (drop 1 rest))
]
