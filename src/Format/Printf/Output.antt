-- ===== src/Format/Printf/Output.antt =====
-- What the two printers write.
use mathlib.Core.List.{reverse}
use nix_core_os.Base.{
  ℕ, zero, suc, ◌+◌, ◌-◌, ◌*◌, ◌/◌, ◌%◌, ◌^◌, ◌≤◌, ◌<◌, ◌≡◌, ◌≢◌, refl, ◌∙◌, sym, ap, Bool, true,
  false, List, [], ◌∷◌, ltb, ◌==◌, if◌then◌else◌, ℤ, pos, negsuc, pos_part, neg_part, arith, length,
  Bool-cases, inl, inr, ◌⊎◌, some,
}
use nix_core_os.Format.{isdigit, digit_char, text, uitoa, itoa, base_out}
use nix_core_os.Format.Numerals.{numeral, numerals}
use nix_core_os.Format.Reading.{put_numeral-text, minus_text}
use nix_core_os.Format.Printf.{
  number_digits, print_positive, print_number, Arg, print_directive, directive, vsprintf,
  put_before, vprintf_loop, vprintf, skip_flags,
}
use native.Mathlib.Nat.{pow-suc}

number_digits-zero : (fuel base : ℕ) (u : Bool) → number_digits fuel 0 base u ≡ []
unfolding number_digits
number_digits-zero zero base u = refl
number_digits-zero (suc fuel) base u = refl

half_lem : (v c base : ℕ) → (base ≡ 10) ⊎ (base ≡ 16) → v < 2 * c → v / base < c
half_lem v c base (inl e) h = rw e (omega arith)
half_lem v c base (inr e) h = rw e (omega arith)

number_digits_lem :
    (k fuel v base : ℕ)
    → (base ≡ 10) ⊎ (base ≡ 16)
    → v < 2 ^ k
    → k ≤ fuel
    → v ≢ 0
    → number_digits fuel v base false ≡ numeral k v base
unfolding number_digits numeral
number_digits_lem zero fuel v base b h l n = absurd (n (omega arith))
number_digits_lem (suc k) zero v base b h l n = absurd (omega arith)
number_digits_lem (suc k) (suc fuel) v base b h l n =
    let no : (v == 0) ≡ false = ground arith in
    elim (Bool-cases (v / base == 0)) [
      | inl e ↦
          rw (no, e, number_digits, numeral)
            (ap (λ l. digit_char (v % base) ∷ l)
              (ap (λ q. number_digits fuel q base false) (ground arith)
                ∙ number_digits-zero fuel base false))
      | inr e ↦
          rw (no, e, number_digits, numeral)
            (ap (λ l. digit_char (v % base) ∷ l)
              (number_digits_lem k fuel (v / base) base b
                (half_lem v (2 ^ k) base b (omega (arith, pow-suc 2 k))) (omega arith)
                (ground arith)))
    ]

zero_lem : (base : ℕ) → (base ≡ 10) ⊎ (base ≡ 16) → print_positive 0 base false ≡ numerals 0 base
unfolding print_positive numeral
zero_lem base (inl e) = rw e refl
zero_lem base (inr e) = rw e refl

print_positive_lem :
    (v base : ℕ)
    → (base ≡ 10) ⊎ (base ≡ 16)
    → v < 2 ^ 32
    → print_positive v base false ≡ numerals v base
unfolding print_positive
print_positive_lem v base b h = elim (Bool-cases (v == 0)) [
  | inl e ↦
      let z : v ≡ 0 = ground arith in
      ap (λ v. print_positive v base false) z ∙ zero_lem base b ∙ ap (λ v. numerals v base) (sym z)
  | inr e ↦
      rw (e, print_positive)
        (ap reverse (number_digits_lem 32 63 v base b h (omega arith) (ground arith)))
]

signs :
    (str : ℕ → ℕ) (z : ℤ)
    → pos_part z + neg_part z < 2 ^ 31
    → text 34 (itoa str z) 0 ≡ print_number z 10 false
unfolding itoa print_number
signs str (pos n) h =
    put_numeral-text str 34 0 n 10 (omega arith)
    ∙ sym (print_positive_lem n 10 (inl refl) (omega arith))
signs str (negsuc n) h =
    minus_text str (suc n)
    ∙ ap (λ l. 45 ∷ l) (sym (print_positive_lem (suc n) 10 (inl refl) (omega arith)))

unsigned_lem :
    (str : ℕ → ℕ) (v base : ℕ)
    → (base ≡ 10) ⊎ (base ≡ 16)
    → v < 2 ^ 32
    → text 33 (uitoa str v base) 0 ≡ print_number (pos v) base false
unfolding uitoa print_number
unsigned_lem str v base b h =
    let in_range : base_out base ≡ false = ground arith in
    rw (uitoa, in_range, put_numeral-text str 33 0 v base (omega arith))
      (sym (print_positive_lem v base b h))

-- `printf` and `sprintf` print numbers alike: the strings of `itoa`, for an `int` but -2^31, and of `uitoa` in
-- base 10 and 16 are what `print_number` writes.
pub print_number-uitoa :
    (str : ℕ → ℕ) (z : ℤ) (v base : ℕ)
    → pos_part z + neg_part z < 2 ^ 31
    → (base ≡ 10) ⊎ (base ≡ 16)
    → v < 2 ^ 32
    → (text 34 (itoa str z) 0 ≡ print_number z 10 false)
      × (text 33 (uitoa str v base) 0 ≡ print_number (pos v) base false)
print_number-uitoa str z v base h b l = (signs str z h, unsigned_lem str v base b l)

-- A format that prints a string: `%%` for each `%`.
abbrev pub escape : List ℕ → List ℕ
escape [] = []
escape (c ∷ s) = if c == 37 then 37 ∷ 37 ∷ escape s else c ∷ escape s

put_char :
    (temp : ℕ → ℕ) (c : ℕ) (format : List ℕ) (args : List Arg)
    → c ≢ 37
    → vsprintf temp (c ∷ format) args ≡ put_before (c ∷ []) (vsprintf temp format args)
unfolding vsprintf
put_char temp c [] args n = let no : (c == 37) ≡ false = ground arith in rw (vsprintf, no) refl
put_char temp c (d ∷ format) args n =
    let no : (c == 37) ≡ false = ground arith in rw (vsprintf, no) refl

vsprintf-escape : (temp : ℕ → ℕ) (s : List ℕ) → vsprintf temp (escape s) [] ≡ some s
unfolding vsprintf directive
vsprintf-escape temp [] = refl
vsprintf-escape temp (c ∷ s) = elim (Bool-cases (c == 37)) [
  | inl e ↦ let same : c ≡ 37 = ground arith in rw (e, vsprintf-escape temp s, same) refl
  | inr e ↦ rw e (
      put_char temp c (escape s) [] (ground arith)
      ∙ ap (put_before (c ∷ [])) (vsprintf-escape temp s))
]

vprintf-escape :
    (fuel : ℕ) (s : List ℕ)
    → length (escape s) ≤ fuel
    → (n : ℕ) × (vprintf_loop fuel (escape s) [] ≡ some (s, n))
unfolding vprintf_loop print_directive skip_flags isdigit
vprintf-escape fuel [] h = (0, refl)
vprintf-escape zero (c ∷ s) h = absurd (ground arith)
vprintf-escape (suc fuel) (c ∷ s) h = elim (Bool-cases (c == 37)) [
  | inl e ↦
      let (n, run) = vprintf-escape fuel s (ground arith) in
      let same : c ≡ 37 = ground arith in (0 + n, rw (e, run, same) refl)
  | inr e ↦
      let (n, run) = vprintf-escape fuel s (ground arith) in
      (1 + n, rw (e, vprintf_loop, e, run) refl)
]

-- With `%%` for each `%`, any string is a format that needs no argument, and both `vsprintf` and `vprintf`
-- write that string.
pub printf-escape :
    (temp : ℕ → ℕ) (s : List ℕ)
    → (vsprintf temp (escape s) [] ≡ some s) × ((n : ℕ) × (vprintf (escape s) [] ≡ some (s, n)))
unfolding vprintf
printf-escape temp s = (vsprintf-escape temp s, vprintf-escape (length (escape s)) s (omega arith))

-- For an unsigned number of 64 bits that is 2^63 or more, `vprintf` prints nothing with `%lx`, and a minus and
-- the digits of 2^64 less the number with `%lu`.
pub print_wide :
    (n : ℕ) (args : List Arg)
    → 2 ^ 63 ≤ n
    → n < 2 ^ 64
    → (print_directive true 120 (Arg.long_uint n ∷ args) ≡ some ([], args))
      × (print_directive true 117 (Arg.long_uint n ∷ args)
          ≡ some (45 ∷ print_positive (2 ^ 64 - n) 10 false, args))
unfolding print_directive print_number
print_wide n args h l =
    let large : ltb n (2 ^ 63) ≡ false = ground arith in
    let e : suc (2 ^ 64 - 1 - n) ≡ 2 ^ 64 - n = omega arith in rw (large, e) (refl, refl)
