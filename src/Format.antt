-- ===== src/Format.antt =====
-- lib/printf.c and the conversions of lib/libc/libc.c: numbers printed and read, and the formatted output of
-- both. Buffers have room for what is written; integers are those of C in their range.
pub mod Numerals
pub mod Reading
pub mod Printf
mod Tests
use nix_core_os.Base.{
  ℕ, zero, suc, ◌+◌, ◌-◌, ◌*◌, ◌/◌, ◌%◌, ◌^◌, Bool, true, false, List, [], ◌∷◌, ◌++◌, Option, none,
  some, ltb, leb, ◌==◌, ◌&&◌, ◌||◌, if◌then◌else◌, ℤ, pos, negsuc, neg_ℕ, get_or, drop, put_byte,
}

-- `(digit < 10) ? '0' + digit : 'a' + digit - 10`
abbrev pub digit_char : ℕ → ℕ
digit_char d = if ltb d 10 then 48 + d else 97 + d - 10

-- The loop over the digits, the lowest first, on fuel; with the place behind the last digit.
pub put_digits : ℕ → (ℕ → ℕ) → ℕ → ℕ → ℕ → (ℕ → ℕ) × ℕ
put_digits zero str ptr value base = (str, ptr)
put_digits (suc fuel) str ptr value base =
    let str' = put_byte str ptr (digit_char (value % base)) in
    let rest = put_digits fuel str' (suc ptr) (value / base) base in
    if value / base == 0 then (str', suc ptr) else rest

-- `while (low < ptr)`, on fuel.
pub swap : ℕ → (ℕ → ℕ) → ℕ → ℕ → ℕ → ℕ
swap zero str low ptr = str
swap (suc fuel) str low ptr =
    let rest =
      swap fuel (put_byte (put_byte str low (str ptr)) ptr (str low)) (suc low) (ptr - 1) in
    if ltb low ptr then rest else str

-- The digits and the zero from `low` on, then turned round. 32 rounds are enough for 32 bits.
pub put_numeral : (ℕ → ℕ) → ℕ → ℕ → ℕ → ℕ → ℕ
put_numeral str low value base =
    let (str', ptr) = put_digits 32 str low value base in
    swap 32 (put_byte str' ptr 0) low (ptr - 1)

abbrev pub base_out : ℕ → Bool
base_out base = ltb base 2 || ltb 36 base

pub uitoa : (ℕ → ℕ) → ℕ → ℕ → ℕ → ℕ
uitoa str value base = if base_out base then put_byte str 0 0 else put_numeral str 0 value base

-- The base is 10 in every call. -2^31, whose negation C does not define, is not an argument.
pub itoa : (ℕ → ℕ) → ℤ → ℕ → ℕ
itoa str (pos n) = put_numeral str 0 n 10
itoa str (negsuc n) = put_numeral (put_byte str 0 45) 1 (suc n) 10

-- The string at `a`, on fuel.
pub text : ℕ → (ℕ → ℕ) → ℕ → List ℕ
text zero str a = []
text (suc fuel) str a = let rest = text fuel str (suc a) in if str a == 0 then [] else str a ∷ rest

-- The functions of ctype.h.
unfoldable pub isspace : ℕ → Bool
isspace c = (c == 32) || (c == 9) || (c == 10) || (c == 13) || (c == 12) || (c == 11)

unfoldable pub isdigit : ℕ → Bool
isdigit c = leb 48 c && leb c 57

pub isupper : ℕ → Bool
isupper c = leb 65 c && leb c 90

pub islower : ℕ → Bool
islower c = leb 97 c && leb c 122

pub isalpha : ℕ → Bool
isalpha c = islower c || isupper c

pub isalnum : ℕ → Bool
isalnum c = isalpha c || isdigit c

pub toupper : ℕ → ℕ
toupper c = if islower c then c - 32 else c

pub tolower : ℕ → ℕ
tolower c = if isupper c then c + 32 else c

unfoldable pub skip_space : List ℕ → List ℕ
skip_space [] = []
skip_space (c ∷ s) = let rest = skip_space s in if isspace c then rest else c ∷ s

-- The sign, true for a minus, and the rest.
unfoldable pub read_sign : List ℕ → Bool × List ℕ
read_sign [] = (false, [])
read_sign (c ∷ s) = if c == 45 then (true, s) else if c == 43 then (false, s) else (false, c ∷ s)

abbrev pub signed : Bool → ℕ → ℤ
signed minus n = if minus then neg_ℕ n else pos n

-- `while (isdigit(*nptr))`
unfoldable pub atoi_loop : List ℕ → ℕ → ℕ
atoi_loop [] result = result
atoi_loop (c ∷ s) result =
    let more = atoi_loop s (result * 10 + (c - 48)) in if isdigit c then more else result

unfoldable pub atoi : List ℕ → ℤ
atoi nptr = let (minus, s) = read_sign (skip_space nptr) in signed minus (atoi_loop s 0)

-- The base and the rest behind a prefix, for `base == 0`.
pub read_base : List ℕ → ℕ × List ℕ
read_base [] = (10, [])
read_base (z ∷ s) =
    if z == 48
    then (if (get_or s 0 0 == 120) || (get_or s 0 0 == 88) then (16, drop 1 s) else (8, s))
    else (10, z ∷ s)

abbrev pub digit_of : ℕ → Option ℕ
digit_of c =
    if isdigit c then some (c - 48) else if isalpha c then some (tolower c - 97 + 10) else none

-- The value and the rest of the string.
pub strtol_loop : List ℕ → ℕ → ℕ → ℕ × List ℕ
strtol_loop [] base result = (result, [])
strtol_loop (c ∷ s) base result = elim (digit_of c) [
  | none ↦ (result, c ∷ s)
  | some digit ↦
      let more = strtol_loop s base (result * base + digit) in
      if leb base digit then (result, c ∷ s) else more
]

-- The value, and what `endptr` points to.
pub strtol : List ℕ → ℕ → ℤ × List ℕ
strtol nptr base =
    let (minus, s) = read_sign (skip_space nptr) in
    let (base', s') = if base == 0 then read_base s else (base, s) in
    let (result, rest) = strtol_loop s' base' 0 in (signed minus result, rest)

-- `rand_seed`, 64 bits wide.
pub srand : ℕ → ℕ
srand seed = seed

pub rand : ℕ → ℕ × ℕ
rand rand_seed =
    let seed = (rand_seed * 1103515245 + 12345) % 2 ^ 64 in (seed, seed / 65536 % 32768)
