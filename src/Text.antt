-- ===== src/Text.antt =====
-- lib/string.c: strings. A string is the list of its bytes before the terminating zero; a pointer into
-- a string is the rest of the list from there on.
pub mod Compare
pub mod Tokens
pub mod Utf8
mod Tests
use nix_core_os.Base.{
  ℕ, zero, suc, ◌+◌, ◌-◌, ◌*◌, ◌/◌, ◌%◌, Bool, true, false, List, [], ◌∷◌, Option, none, some, leb,
  ltb, ◌==◌, ◌&&◌, ◌||◌, not, if◌then◌else◌, ℤ, pos, sub_ℕ, length, take, drop, get_or,
}

-- `*str`, the terminating zero included.
abbrev pub head : List ℕ → ℕ
head [] = 0
head (c ∷ s) = c

pub strlen : List ℕ → ℕ
strlen [] = 0
strlen (c ∷ s) = strlen s + 1

-- The bytes of `dest` before its first zero, after `n` bytes have been written; `dest` has room for
-- `n` bytes, and is closed by a zero behind them.
unfoldable pub strncpy : List ℕ → ℕ → List ℕ
strncpy src zero = []
strncpy [] (suc n) = []
strncpy (c ∷ src) (suc n) = c ∷ strncpy src n

unfoldable pub strcmp : List ℕ → List ℕ → ℤ
strcmp [] t = sub_ℕ 0 (head t)
strcmp (c ∷ s) [] = sub_ℕ c 0
strcmp (c ∷ s) (d ∷ t) = if c == d then strcmp s t else sub_ℕ c d

-- The loop of `strncmp` and the difference that it ends with.
pub strncmp_loop : List ℕ → List ℕ → ℕ → ℤ
strncmp_loop s t zero = sub_ℕ (head s) (head t)
strncmp_loop [] t (suc n) = sub_ℕ 0 (head t)
strncmp_loop (c ∷ s) [] (suc n) = sub_ℕ c 0
strncmp_loop (c ∷ s) (d ∷ t) (suc n) = if c == d then strncmp_loop s t n else sub_ℕ c d

pub strncmp : List ℕ → List ℕ → ℕ → ℤ
strncmp s t n = if n == 0 then pos 0 else strncmp_loop s t n

unfoldable pub strchr : List ℕ → ℕ → Option (List ℕ)
strchr [] c = none
strchr (d ∷ s) c = if d == c then some (d ∷ s) else strchr s c

-- The loop of `strrchr`, with the last place found so far.
pub strrchr_from : List ℕ → ℕ → Option (List ℕ) → Option (List ℕ)
strrchr_from [] c last = last
strrchr_from (d ∷ s) c last = strrchr_from s c (if d == c then some (d ∷ s) else last)

pub strrchr : List ℕ → ℕ → Option (List ℕ)
strrchr s c = strrchr_from s c none

abbrev pub is_zero : ℤ → Bool
is_zero (pos zero) = true
is_zero _ = false

-- The loop of `strstr`.
pub strstr_loop : List ℕ → List ℕ → Option (List ℕ)
strstr_loop [] needle = none
strstr_loop (c ∷ s) needle =
    if (c == head needle) && is_zero (strncmp (c ∷ s) needle (strlen needle))
    then some (c ∷ s)
    else strstr_loop s needle

pub strstr : List ℕ → List ℕ → Option (List ℕ)
strstr haystack needle = if strlen needle == 0 then some haystack else strstr_loop haystack needle

-- `while (*a && *a != *str) a++;`: whether the byte is one of `accept`.
unfoldable pub one_of : ℕ → List ℕ → Bool
one_of c [] = false
one_of c (a ∷ accept) = (a == c) || one_of c accept

unfoldable pub strspn : List ℕ → List ℕ → ℕ
strspn [] accept = 0
strspn (c ∷ s) accept = if one_of c accept then suc (strspn s accept) else 0

unfoldable pub strpbrk : List ℕ → List ℕ → Option (List ℕ)
strpbrk [] accept = none
strpbrk (c ∷ s) accept = if one_of c accept then some (c ∷ s) else strpbrk s accept

-- The token and the static `last` after the call, `none` for null; `str` is the argument, or what `last`
-- points to if that is null. The end of a token that no delimiter follows is looked for with `strchr`,
-- which returns null for the terminating zero.
unfoldable pub strtok : List ℕ → List ℕ → Option (List ℕ) × Option (List ℕ)
strtok str delim =
    let token = drop (strspn str delim) str in
    if head token == 0 then (none, some token) else elim (strpbrk token delim) [
      | none ↦ (some token, strchr token 0)
      | some rest ↦ (some (take (length token - length rest) token), some (drop 1 rest))
    ]

-- The two switch statements of `utf8_to_ascii`, as tables of the cases and their results.
abbrev pub ascii_cases : List (ℕ × ℕ)
ascii_cases =
    (0x2500, 45)
    ∷ (0x2501, 45)
    ∷ (0x2504, 45)
    ∷ (0x2505, 45)
    ∷ (0x2550, 45)
    ∷ (0x2502, 124)
    ∷ (0x2503, 124)
    ∷ (0x2506, 124)
    ∷ (0x2507, 124)
    ∷ (0x2551, 124)
    ∷ (0x250C, 43)
    ∷ (0x2510, 43)
    ∷ (0x2514, 43)
    ∷ (0x2518, 43)
    ∷ (0x251C, 43)
    ∷ (0x2524, 43)
    ∷ (0x252C, 43)
    ∷ (0x2534, 43)
    ∷ (0x253C, 43)
    ∷ (0x2554, 43)
    ∷ (0x2557, 43)
    ∷ (0x255A, 43)
    ∷ (0x255D, 43)
    ∷ (0x2560, 43)
    ∷ (0x2563, 43)
    ∷ (0x2566, 43)
    ∷ (0x2569, 43)
    ∷ (0x256C, 43)
    ∷ (0x2580, 35)
    ∷ (0x2584, 35)
    ∷ (0x2588, 35)
    ∷ (0x2591, 35)
    ∷ (0x2592, 35)
    ∷ (0x2593, 35)
    ∷ (0x00AB, 60)
    ∷ (0x00BB, 62)
    ∷ (0x2013, 45)
    ∷ (0x2014, 45)
    ∷ (0x2018, 39)
    ∷ (0x2019, 39)
    ∷ (0x2032, 39)
    ∷ (0x201C, 34)
    ∷ (0x201D, 34)
    ∷ (0x2033, 34)
    ∷ (0x2022, 42)
    ∷ (0x2026, 46)
    ∷ []

-- `cyrillic_map`
abbrev pub cyrillic_map : List ℕ
cyrillic_map =
    65 ∷ 66 ∷ 86 ∷ 71 ∷ 68 ∷ 69 ∷ 69 ∷ 90 ∷ 90 ∷ 73 ∷ 73 ∷ 75 ∷ 76 ∷ 77 ∷ 78 ∷ 79 ∷ 80 ∷ 82 ∷ 83
    ∷ 84 ∷ 85 ∷ 70 ∷ 72 ∷ 67 ∷ 67 ∷ 83 ∷ 83 ∷ 39 ∷ 89 ∷ 39 ∷ 69 ∷ 85 ∷ 65 ∷ 66 ∷ 86 ∷ 71 ∷ 68 ∷ 69
    ∷ 101 ∷ 122 ∷ 122 ∷ 105 ∷ 105 ∷ 107 ∷ 108 ∷ 109 ∷ 110 ∷ 111 ∷ 112 ∷ 114 ∷ 115 ∷ 116 ∷ 117 ∷ 102
    ∷ 104 ∷ 99 ∷ 99 ∷ 115 ∷ 115 ∷ 39 ∷ 121 ∷ 39 ∷ 101 ∷ 117 ∷ []

pub case_of : List (ℕ × ℕ) → ℕ → Option ℕ
case_of [] c = none
case_of ((k, v) ∷ r) c = if k == c then some v else case_of r c

-- The character for a code point; 63 is a question mark.
pub ascii_of : ℕ → ℕ
ascii_of codepoint = elim (case_of ascii_cases codepoint) [
  | some v ↦ v
  | none ↦
      if leb 0x0410 codepoint && leb codepoint 0x044F
      then get_or cyrillic_map (codepoint - 0x0410) 63
      else 63
]

-- The character, and `*text` after the call. A byte `s[i]` is read only if those before it are not
-- zero. The masks and shifts of bytes are written as divisions, and the `|` of fields that do not
-- overlap as sums.
pub utf8_to_ascii : List ℕ → ℕ × List ℕ
utf8_to_ascii text =
    let s0 = get_or text 0 0 in
    let s1 = get_or text 1 0 in
    let s2 = get_or text 2 0 in
    let s3 = get_or text 3 0 in
    if s0 == 0
    then (0, text)
    else if ltb s0 0x80
    then (s0, drop 1 text)
    else if (s0 / 32 == 6) && not (s1 == 0)
    then (ascii_of (s0 % 32 * 64 + s1 % 64), drop 2 text)
    else if (s0 / 16 == 14) && not (s1 == 0) && not (s2 == 0)
    then (ascii_of (s0 % 16 * 4096 + s1 % 64 * 64 + s2 % 64), drop 3 text)
    else if (s0 / 8 == 30) && not (s1 == 0) && not (s2 == 0) && not (s3 == 0)
    then (ascii_of (s0 % 8 * 262144 + s1 % 64 * 4096 + s2 % 64 * 64 + s3 % 64), drop 4 text)
    else (63, drop 1 text)
