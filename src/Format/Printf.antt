-- ===== src/Format/Printf.antt =====
-- `vsprintf` of lib/printf.c, and `vprintf` of lib/libc/libc.c, whose output is the list of the bytes that it
-- writes. `none` is what C leaves undefined: an argument that is missing or of another type, or a read
-- behind the end of the format.
pub mod Output
use mathlib.Core.List.{reverse}
use nix_core_os.Base.{
  ℕ, zero, suc, ◌+◌, ◌-◌, ◌*◌, ◌/◌, ◌%◌, ◌^◌, Bool, true, false, List, [], ◌∷◌, ◌++◌, Option, none,
  some, ltb, leb, ◌==◌, ◌&&◌, ◌||◌, not, if◌then◌else◌, ℤ, pos, negsuc, neg_ℕ, codes, get_or, drop,
  length,
}
use nix_core_os.Format.{uitoa, itoa, text, isdigit}

pub data Arg : Type 0 where
  int : ℤ → Arg
  uint : ℕ → Arg
  long_int : ℤ → Arg
  long_uint : ℕ → Arg
  pointer : ℕ → Arg
  string : Option (List ℕ) → Arg

-- A conversion to `char`.
abbrev pub to_char : ℤ → ℕ
to_char (pos n) = n % 256
to_char (negsuc n) = 255 - n % 256

abbrev pub shown : Option (List ℕ) → List ℕ
shown none = codes "(null)"
shown (some s) = s

abbrev pub next_int : List Arg → Option (ℤ × List Arg)
next_int (Arg.int z ∷ args) = some (z, args)
next_int _ = none

abbrev pub next_uint : List Arg → Option (ℕ × List Arg)
next_uint (Arg.uint n ∷ args) = some (n, args)
next_uint _ = none

abbrev pub next_string : List Arg → Option (List ℕ × List Arg)
next_string (Arg.string s ∷ args) = some (shown s, args)
next_string _ = none

abbrev pub with_arg {ℓ} :
    {A : Type ℓ} → Option (A × List Arg) → (A → List ℕ) → Option (List ℕ × List Arg)
with_arg none f = none
with_arg (some (a, args)) f = some (f a, args)

-- The `switch` of `vsprintf`; `temp` is what is in its buffer before.
unfoldable pub directive : (ℕ → ℕ) → ℕ → List Arg → Option (List ℕ × List Arg)
directive temp d args =
    if d == 99
    then with_arg (next_int args) (λ z. to_char z ∷ [])
    else if d == 115
    then with_arg (next_string args) (λ s. s)
    else if (d == 100) || (d == 105)
    then with_arg (next_int args) (λ z. text 34 (itoa temp z) 0)
    else if d == 117
    then with_arg (next_uint args) (λ n. text 33 (uitoa temp n 10) 0)
    else if d == 120
    then with_arg (next_uint args) (λ n. text 33 (uitoa temp n 16) 0)
    else if d == 37
    then some (37 ∷ [], args)
    else some (37 ∷ d ∷ [], args)

abbrev pub put_before : List ℕ → Option (List ℕ) → Option (List ℕ)
put_before out none = none
put_before out (some rest) = some (out ++ rest)

-- What is written before the closing zero; the result of the call is its length.
unfoldable pub vsprintf : (ℕ → ℕ) → List ℕ → List Arg → Option (List ℕ)
vsprintf temp [] args = some []
vsprintf temp (c ∷ []) args = if c == 37 then none else some (c ∷ [])
vsprintf temp (c ∷ d ∷ format) args = elim (c == 37) [
  | false ↦ put_before (c ∷ []) (vsprintf temp (d ∷ format) args)
  | true ↦ elim (directive temp d args) [
    | none ↦ none
    | some (out, args') ↦ put_before out (vsprintf temp format args')
  ]
]

-- `(uppercase ? 'A' : 'a') + digit - 10`
abbrev pub case_char : Bool → ℕ → ℕ
case_char uppercase d = if ltb d 10 then 48 + d else (if uppercase then 65 else 97) + d - 10

-- `while (num > 0)`: the buffer, on fuel.
pub number_digits : ℕ → ℕ → ℕ → Bool → List ℕ
number_digits zero num base uppercase = []
number_digits (suc fuel) num base uppercase =
    let rest = number_digits fuel (num / base) base uppercase in
    if num == 0 then [] else case_char uppercase (num % base) ∷ rest

-- The buffer is printed from its end. 63 rounds are enough for a `long long`; -2^63 is not an argument.
pub print_positive : ℕ → ℕ → Bool → List ℕ
print_positive num base uppercase =
    if num == 0 then 48 ∷ [] else reverse (number_digits 63 num base uppercase)

-- A negative number in another base than 10 is neither 0 nor above 0.
pub print_number : ℤ → ℕ → Bool → List ℕ
print_number (pos n) base uppercase = print_positive n base uppercase
print_number (negsuc n) base uppercase =
    if base == 10 then 45 ∷ print_positive (suc n) base uppercase else []

-- A conversion to `long long`.
abbrev pub to_long : ℕ → ℤ
to_long n = if ltb n (2 ^ 63) then pos n else negsuc (2 ^ 64 - 1 - n)

abbrev pub drop_digits : List ℕ → List ℕ
drop_digits [] = []
drop_digits (c ∷ s) = let rest = drop_digits s in if isdigit c then rest else c ∷ s

-- The flags: a zero, a width, which are not used, and `l` or `ll`.
pub skip_flags : List ℕ → Bool × List ℕ
skip_flags format =
    let s = drop_digits (if get_or format 0 0 == 48 then drop 1 format else format) in
    if get_or s 0 0 == 108
    then (true, if get_or s 1 0 == 108 then drop 2 s else drop 1 s)
    else (false, s)

abbrev pub next_signed : Bool → List Arg → Option (ℤ × List Arg)
next_signed true (Arg.long_int z ∷ args) = some (z, args)
next_signed false (Arg.int z ∷ args) = some (z, args)
next_signed _ _ = none

abbrev pub next_unsigned : Bool → List Arg → Option (ℤ × List Arg)
next_unsigned true (Arg.long_uint n ∷ args) = some (to_long n, args)
next_unsigned false (Arg.uint n ∷ args) = some (to_long n, args)
next_unsigned _ _ = none

abbrev pub next_pointer : List Arg → Option (ℤ × List Arg)
next_pointer (Arg.pointer n ∷ args) = some (to_long n, args)
next_pointer _ = none

-- The `switch` of `vprintf`.
pub print_directive : Bool → ℕ → List Arg → Option (List ℕ × List Arg)
print_directive long_flag d args =
    if (d == 100) || (d == 105)
    then with_arg (next_signed long_flag args) (λ z. print_number z 10 false)
    else if d == 117
    then with_arg (next_unsigned long_flag args) (λ z. print_number z 10 false)
    else if d == 120
    then with_arg (next_unsigned long_flag args) (λ z. print_number z 16 false)
    else if d == 88
    then with_arg (next_unsigned long_flag args) (λ z. print_number z 16 true)
    else if d == 112
    then with_arg (next_pointer args) (λ z. codes "0x" ++ print_number z 16 false)
    else if d == 115
    then with_arg (next_string args) (λ s. s)
    else if d == 99
    then with_arg (next_int args) (λ z. to_char z ∷ [])
    else if d == 37
    then some (37 ∷ [], args)
    else some ([], args)

abbrev pub print_before : List ℕ → ℕ → Option (List ℕ × ℕ) → Option (List ℕ × ℕ)
print_before out n none = none
print_before out n (some (rest, count)) = some (out ++ rest, n + count)

-- What is written, and the count that is returned, which leaves out what the directives write. Each round
-- takes a byte of the format, so that its length is enough fuel.
pub vprintf_loop : ℕ → List ℕ → List Arg → Option (List ℕ × ℕ)
vprintf_loop fuel [] ap = some ([], 0)
vprintf_loop zero (c ∷ format) ap = none
vprintf_loop (suc fuel) (c ∷ format) ap = elim (c == 37) [
  | false ↦ print_before (c ∷ []) 1 (vprintf_loop fuel format ap)
  | true ↦
      let (long_flag, at) = skip_flags format in
      elim at [
        | [] ↦ none
        | d ∷ rest ↦ elim (print_directive long_flag d ap) [
          | none ↦ none
          | some (out, ap') ↦ print_before out 0 (vprintf_loop fuel rest ap')
        ]
      ]
]

pub vprintf : List ℕ → List Arg → Option (List ℕ × ℕ)
vprintf format ap = vprintf_loop (length format) format ap
