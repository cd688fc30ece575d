-- ===== src/Format/Reading.antt =====
-- Numbers that are printed and read again.
use mathlib.Core.List.{reverse, reverse-cons, append_assoc, append-nil}
use nix_core_os.Base.{
  ℕ, zero, suc, ◌+◌, ◌-◌, ◌*◌, ◌/◌, ◌%◌, ◌^◌, ◌≤◌, ◌<◌, ◌≡◌, ◌≢◌, refl, ◌∙◌, sym, ap, false, List,
  [], ◌∷◌, ◌++◌, leb, ◌==◌, ℤ, pos, negsuc, arith, length, length-append, Bool-cases, inl, inr, ◌⊎◌,
  some, get_or, drop, pos_part, neg_part, bytes_at, put_byte,
}
use nix_core_os.Format.{
  digit_char, put_numeral, text, uitoa, itoa, base_out, isspace, isdigit, isupper, islower, isalpha,
  tolower, skip_space, read_sign, signed, digit_of, strtol_loop, strtol, atoi_loop, atoi,
}
use nix_core_os.Format.Numerals.{numeral, numerals, numeral-length, put_numeral_lem}
use native.Mathlib.Nat.{pow-suc}

abbrev pub Printed : List ℕ → Type 0
Printed [] = Unit
Printed (c ∷ l) = (48 ≤ c) × Printed l

Printed-append : (l m : List ℕ) → Printed l → Printed m → Printed (l ++ m)
Printed-append [] m h k = k
Printed-append (c ∷ l) m (h, t) k = (h, Printed-append l m t k)

Printed-reverse : (l : List ℕ) → Printed l → Printed (reverse l)
Printed-reverse [] h = h
Printed-reverse (c ∷ l) (h, t) =
    rw (reverse-cons c l) (Printed-append (reverse l) (c ∷ []) (Printed-reverse l t) (h, tt))

numeral-Printed : (fuel v base : ℕ) → Printed (numeral fuel v base)
unfolding numeral
numeral-Printed zero v base = tt
numeral-Printed (suc fuel) v base = elim (Bool-cases (v / base == 0)) [
  | inl e ↦ rw (e, numeral) (ground arith, tt)
  | inr e ↦ rw (e, numeral) (ground arith, numeral-Printed fuel (v / base) base)
]

-- A string in memory.
text_lem :
    (w : ℕ → ℕ) (fuel a : ℕ) (l : List ℕ)
    → bytes_at w a (length l) ≡ l
    → Printed l
    → w (a + length l) ≡ 0
    → length l < fuel
    → text fuel w a ≡ l
unfolding text
text_lem w zero a l same high end long = absurd (omega arith)
text_lem w (suc fuel) a [] same high end long =
    let z : w a ≡ 0 = ap w (omega arith) ∙ end in rw (text, z) refl
text_lem w (suc fuel) a (c ∷ l) same (high, t) end long =
    let first : w a ≡ c = ap (λ m. get_or m 0 0) same in
    let next : a + 1 ≡ suc a = omega arith in
    let tail : bytes_at w (suc a) (length l) ≡ l =
      ap (λ b. bytes_at w b (length l)) (sym next) ∙ ap (drop 1) same in
    let rest = text_lem w fuel (suc a) l tail t (ap w (omega arith) ∙ end) (omega arith) in
    let no : (c == 0) ≡ false = ground arith in rw (text, first, no, rest) refl

skip_space-Printed : (l : List ℕ) → Printed l → skip_space l ≡ l
unfolding skip_space isspace
skip_space-Printed [] h = refl
skip_space-Printed (c ∷ l) (h, t) = ground arith

read_sign-Printed : (l : List ℕ) → Printed l → read_sign l ≡ (false, l)
unfolding read_sign
read_sign-Printed [] h = refl
read_sign-Printed (c ∷ l) (h, t) = ground arith

digit_of-digit_char : (d : ℕ) → d < 36 → digit_of (digit_char d) ≡ some d
unfolding isdigit isalpha tolower islower isupper
digit_of-digit_char d h = ground arith

abbrev IsBase : ℕ → Type 0
IsBase base = (base ≡ 10) ⊎ (base ≡ 16)

divided :
    (v base c : ℕ)
    → IsBase base
    → (v / base * base + v % base ≡ v)
      × (v % base < base)
      × (base < 36)
      × (v < 2 * c → v / base < c)
divided v base c (inl e) = rw e (omega arith, omega arith, omega arith, λ h. omega arith)
divided v base c (inr e) = rw e (omega arith, omega arith, omega arith, λ h. omega arith)

digit_step :
    (d base r : ℕ) (t : List ℕ)
    → d < base
    → base < 36
    → strtol_loop (digit_char d ∷ t) base r ≡ strtol_loop t base (r * base + d)
unfolding strtol_loop
digit_step d base r t h k =
    let no : leb base d ≡ false = ground arith in
    rw (strtol_loop, digit_of-digit_char d (omega arith), no) refl

more : (d fuel : ℕ) → d ≢ 0 → d < 2 ^ fuel → 0 < fuel
more d zero n h = absurd (n (omega arith))
more d (suc fuel) n h = omega arith

read_numeral :
    (fuel v base : ℕ) (t : List ℕ)
    → IsBase base
    → v < 2 ^ fuel
    → 0 < fuel
    → strtol_loop (reverse (numeral fuel v base) ++ t) base 0 ≡ strtol_loop t base v
unfolding numeral
read_numeral zero v base t b h p = absurd (omega arith)
read_numeral (suc fuel) v base t b h p =
    let (same, digit, small, less) = divided v base (2 ^ fuel) b in
    elim (Bool-cases (v / base == 0)) [
      | inl e ↦
          rw (e, numeral)
            (digit_step (v % base) base 0 t digit small ∙ ap (strtol_loop t base) (ground arith))
      | inr e ↦
          let d = digit_char (v % base) in
          let l = numeral fuel (v / base) base in
          rw (e, numeral)
            (ap (λ m. strtol_loop m base 0)
                (ap (λ m. m ++ t) (reverse-cons d l) ∙ append_assoc (reverse l) (d ∷ []) t)
              ∙ read_numeral fuel (v / base) base (d ∷ t) b (less (omega (arith, pow-suc 2 fuel)))
                  (more (v / base) fuel (ground arith) (less (omega (arith, pow-suc 2 fuel))))
              ∙ digit_step (v % base) base (v / base) t digit small
              ∙ ap (strtol_loop t base) same)
    ]

-- The printed digits are read to their end.
pub numerals_lem :
    (v base : ℕ) → IsBase base → v < 2 ^ 32 → strtol_loop (numerals v base) base 0 ≡ (v, [])
unfolding strtol_loop
numerals_lem v base b h =
    ap (λ l. strtol_loop l base 0) (sym (append-nil (numerals v base)))
    ∙ read_numeral 32 v base [] b h (omega arith)

pub numerals-Printed : (v base : ℕ) → Printed (numerals v base)
numerals-Printed v base = Printed-reverse (numeral 32 v base) (numeral-Printed 32 v base)

length-reverse : (l : List ℕ) → length (reverse l) ≡ length l
length-reverse [] = refl
length-reverse (c ∷ l) =
    ap length (reverse-cons c l)
    ∙ omega (arith, length-append (reverse l) (c ∷ []), length-reverse l)

numerals-length : (v base : ℕ) → length (numerals v base) ≡ length (numeral 32 v base)
numerals-length v base = length-reverse (numeral 32 v base)

-- What `put_numeral` writes is a string.
pub put_numeral-text :
    (str : ℕ → ℕ) (fuel low v base : ℕ)
    → 32 < fuel
    → text fuel (put_numeral str low v base) low ≡ numerals v base
put_numeral-text str fuel low v base long =
    let (same, end, below) = put_numeral_lem str low v base in
    let n = numerals-length v base in
    text_lem (put_numeral str low v base) fuel low (numerals v base)
      (ap (bytes_at (put_numeral str low v base) low) n ∙ same) (numerals-Printed v base)
      (ap (λ k. put_numeral str low v base (low + k)) n ∙ end)
      (omega (arith, n, (numeral-length 32 v base).0))

-- A number below 2^32 that `uitoa` prints in base 10 or 16, into any buffer, is what `strtol` reads from
-- there in the same base, to the end of the string.
pub strtol-uitoa :
    (str : ℕ → ℕ) (v base : ℕ)
    → (base ≡ 10) ⊎ (base ≡ 16)
    → v < 2 ^ 32
    → strtol (text 33 (uitoa str v base) 0) base ≡ (pos v, [])
unfolding strtol uitoa
strtol-uitoa str v base b h =
    let in_range : base_out base ≡ false = ground arith in
    let nonzero : (base == 0) ≡ false = ground arith in
    let l = numerals v base in
    let high = numerals-Printed v base in
    rw
      (
        in_range,
        put_numeral-text str 33 0 v base (omega arith),
        skip_space-Printed l high,
        read_sign-Printed l high,
        nonzero,
        numerals_lem v base b h,
      )
      refl

-- The minus in front of a printed number.
pub minus_text :
    (str : ℕ → ℕ) (n : ℕ) → text 34 (put_numeral (put_byte str 0 45) 1 n 10) 0 ≡ 45 ∷ numerals n 10
unfolding text
minus_text str n =
    let w = put_numeral (put_byte str 0 45) 1 n 10 in
    let (same, end, below) = put_numeral_lem (put_byte str 0 45) 1 n 10 in
    let first : w 0 ≡ 45 = below 0 (omega arith) ∙ ground arith in
    rw (text, first, put_numeral-text (put_byte str 0 45) 33 1 n 10 (omega arith)) refl

strtol-itoa_lem :
    (str : ℕ → ℕ) (z : ℤ)
    → pos_part z + neg_part z < 2 ^ 31
    → strtol (text 34 (itoa str z) 0) 10 ≡ (z, [])
unfolding strtol itoa skip_space read_sign isspace
strtol-itoa_lem str (pos n) h =
    let l = numerals n 10 in
    let high = numerals-Printed n 10 in
    rw
      (
        put_numeral-text str 34 0 n 10 (omega arith),
        skip_space-Printed l high,
        read_sign-Printed l high,
        numerals_lem n 10 (inl refl) (omega arith),
      )
      refl
strtol-itoa_lem str (negsuc n) h =
    let l = numerals (suc n) 10 in
    rw (minus_text str (suc n), numerals_lem (suc n) 10 (inl refl) (omega arith)) refl

pub atoi_loop-strtol_loop : (l : List ℕ) (r : ℕ) → atoi_loop l r ≡ (strtol_loop l 10 r).0
unfolding atoi_loop strtol_loop isdigit isalpha tolower islower isupper
atoi_loop-strtol_loop [] r = refl
atoi_loop-strtol_loop (c ∷ l) r = ground (arith, atoi_loop-strtol_loop l (r * 10 + (c - 48)))

-- `atoi` and `strtol` in base 10 return the same number for every string.
pub atoi-strtol : (s : List ℕ) → atoi s ≡ (strtol s 10).0
unfolding atoi strtol
atoi-strtol s =
    let (minus, rest) = read_sign (skip_space s) in ap (signed minus) (atoi_loop-strtol_loop rest 0)

-- An integer from -(2^31 - 1) to 2^31 - 1 that `itoa` prints in base 10, into any buffer, is what `strtol`
-- and `atoi` read from there.
pub strtol-itoa :
    (str : ℕ → ℕ) (z : ℤ)
    → pos_part z + neg_part z < 2 ^ 31
    → (strtol (text 34 (itoa str z) 0) 10 ≡ (z, [])) × (atoi (text 34 (itoa str z) 0) ≡ z)
strtol-itoa str z h =
    let read = strtol-itoa_lem str z h in
    (read, atoi-strtol (text 34 (itoa str z) 0) ∙ ap (λ r. r.0) read)

-- The string of `itoa`.
pub itoa-text :
    (str : ℕ → ℕ) (z : ℤ)
    → text 34 (itoa str z) 0
      ≡ elim z [ pos n ↦ numerals n 10 | negsuc n ↦ 45 ∷ numerals (suc n) 10 ]
unfolding itoa
itoa-text str (pos n) = put_numeral-text str 34 0 n 10 (omega arith)
itoa-text str (negsuc n) = minus_text str (suc n)

-- A string of decimal digits is read by `atoi` to its end.
pub numerals-digits : (n : ℕ) → n < 2 ^ 32 → atoi_loop (numerals n 10) 0 ≡ n
numerals-digits n h =
    atoi_loop-strtol_loop (numerals n 10) 0 ∙ ap (λ r. r.0) (numerals_lem n 10 (inl refl) h)
