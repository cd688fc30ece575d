-- ===== src/Nixlang/Sums.antt =====
-- "add" and "sub": the number of a variable.
use nix_core_os.Base.{
  ℕ, zero, suc, ◌+◌, ◌-◌, ◌*◌, ◌/◌, ◌<◌, ◌≡◌, ◌^◌, refl, ◌∙◌, ap, Bool, true, false, List, [], ◌∷◌,
  ◌++◌, some, leb, ◌==◌, ◌&&◌, if◌then◌else◌, ℤ, pos, negsuc, neg_ℕ, pos_part, neg_part, ◌+ℤ◌,
  arith,
}
use mathlib.Core.List.{reverse, reverse-cons}
use nix_core_os.Format.{itoa, text, atoi_loop, isdigit}
use nix_core_os.Format.Numerals.{numeral, numerals}
use nix_core_os.Format.Reading.{Printed, numerals-Printed, numerals-digits, itoa-text}
use nix_core_os.Nixlang.{
  Variable, find_variable, resolve_value, int_loop, nixlang_to_int, all_digits, skip_minus, assign,
  negate, store_variable, add_statement,
}
use nix_core_os.Nixlang.Variables.{assigns, find_variable-assign_in}

int_loop-atoi_loop : (s : List ℕ) (v : ℕ) → int_loop s v ≡ atoi_loop s v
unfolding int_loop atoi_loop isdigit
int_loop-atoi_loop [] v = refl
int_loop-atoi_loop (c ∷ s) v =
    ap (λ m. if leb 48 c && leb c 57 then m else v) (int_loop-atoi_loop s (v * 10 + (c - 48)))

all_digits-append :
    (s t : List ℕ) → all_digits s ≡ true → all_digits t ≡ true → all_digits (s ++ t) ≡ true
unfolding all_digits
all_digits-append [] t h k = k
all_digits-append (c ∷ s) t h k = ground (arith, all_digits-append s t)

all_digits-reverse : (s : List ℕ) → all_digits s ≡ true → all_digits (reverse s) ≡ true
unfolding all_digits
all_digits-reverse [] h = refl
all_digits-reverse (c ∷ s) h =
    rw (reverse-cons c s)
      (all_digits-append (reverse s) (c ∷ []) (all_digits-reverse s (ground arith)) (ground arith))

all_digits-numeral : (fuel v : ℕ) → all_digits (numeral fuel v 10) ≡ true
unfolding all_digits numeral
all_digits-numeral zero v = refl
all_digits-numeral (suc fuel) v = ground (arith, all_digits-numeral fuel (v / 10))

all_digits-numerals : (n : ℕ) → all_digits (numerals n 10) ≡ true
all_digits-numerals n = all_digits-reverse (numeral 32 n 10) (all_digits-numeral 32 n)

to_int-Printed : (l : List ℕ) → Printed l → nixlang_to_int l ≡ pos (int_loop l 0)
unfolding nixlang_to_int int_loop
to_int-Printed [] h = refl
to_int-Printed (c ∷ l) (h, t) = let no : (c == 45) ≡ false = ground arith in rw no refl

skip_minus-Printed : (l : List ℕ) → Printed l → skip_minus l ≡ l
skip_minus-Printed [] h = refl
skip_minus-Printed (c ∷ l) (h, t) = let no : (c == 45) ≡ false = ground arith in rw no refl

digits_value : (n : ℕ) → n < 2 ^ 32 → int_loop (numerals n 10) 0 ≡ n
digits_value n h = int_loop-atoi_loop (numerals n 10) 0 ∙ numerals-digits n h

-- What `sprintf` prints for an `int` is read back.
to_int-itoa :
    (buffer : ℕ → ℕ) (z : ℤ)
    → pos_part z + neg_part z < 2 ^ 31
    → (nixlang_to_int (text 34 (itoa buffer z) 0) ≡ z)
      × (all_digits (skip_minus (text 34 (itoa buffer z) 0)) ≡ true)
unfolding nixlang_to_int
to_int-itoa buffer (pos n) h =
    let l = numerals n 10 in
    let high = numerals-Printed n 10 in
    (
      ap nixlang_to_int (itoa-text buffer (pos n))
          ∙ to_int-Printed l high
          ∙ ap pos (digits_value n (omega arith)),
      ap (λ s. all_digits (skip_minus s)) (itoa-text buffer (pos n))
          ∙ ap all_digits (skip_minus-Printed l high)
          ∙ all_digits-numerals n,
    )
to_int-itoa buffer (negsuc n) h = (
  ap nixlang_to_int (itoa-text buffer (negsuc n)) ∙ ap neg_ℕ (digits_value (suc n) (omega arith)),
  ap (λ s. all_digits (skip_minus s)) (itoa-text buffer (negsuc n)) ∙ all_digits-numerals (suc n),
)

number-assign :
    (v : Variable) (value : List ℕ)
    → all_digits (skip_minus value) ≡ true
    → ((assign v value).is_number ≡ true) × ((assign v value).number_value ≡ nixlang_to_int value)
unfolding assign
number-assign v value e = rw e (refl, refl)

adds :
    (buffer : ℕ → ℕ) (vars : List Variable) (subtract : Bool) (name value : List ℕ) (v : Variable)
    (sum : ℤ)
    → find_variable vars name ≡ some v
    → (v.number_value
          +ℤ (if subtract
              then negate (nixlang_to_int (resolve_value vars value))
              else nixlang_to_int (resolve_value vars value))
        ≡ sum)
    → add_statement buffer vars subtract name value
      ≡ (store_variable vars name (text 34 (itoa buffer sum) 0), pos 0)
unfolding add_statement
adds buffer vars subtract name value v sum e s =
    rw (add_statement, e, e, e)
      (ap (λ z. (store_variable vars name (text 34 (itoa buffer z) 0), pos 0)) s)

-- "add" and "sub" on a variable that is there, whose sum or difference with the other number stays between
-- -(2^31 - 1) and 2^31 - 1, leave that number in the variable, printed by `sprintf` and read back, and
-- return 0.
pub add_statement-Sum :
    (buffer : ℕ → ℕ) (vars : List Variable) (subtract : Bool) (name value : List ℕ) (v : Variable)
    (sum : ℤ)
    → find_variable vars name ≡ some v
    → (v.number_value
          +ℤ (if subtract
              then negate (nixlang_to_int (resolve_value vars value))
              else nixlang_to_int (resolve_value vars value))
        ≡ sum)
    → pos_part sum + neg_part sum < 2 ^ 31
    → let (vars', r) = add_statement buffer vars subtract name value in
      (v' : Variable) × (r ≡ pos 0)
      × (find_variable vars' name ≡ some v')
      × (v'.is_number ≡ true)
      × (v'.number_value ≡ sum)
add_statement-Sum buffer vars subtract name value v sum e s small =
    let printed = text 34 (itoa buffer sum) 0 in
    let (read, digits) = to_int-itoa buffer sum small in
    let (number, is_sum) = number-assign v printed digits in
    let run = adds buffer vars subtract name value v sum e s in
    (
      assign v printed,
      ap (λ x. x.1) run,
      ap (λ x. find_variable x.0 name) run
          ∙ ap (λ l. find_variable l name) (assigns vars name printed v e)
          ∙ find_variable-assign_in vars name printed v e,
      number,
      is_sum ∙ read,
    )
