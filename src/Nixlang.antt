-- ===== src/Nixlang.antt =====
-- lang/nixlang.c: the variables of the interpreter, and the statements that change them. A statement is
-- given with its words, which `strtok` of lib/string.c has cut; the buffers have room for a line.
pub mod Variables
pub mod Sums
mod Tests
use nix_core_os.Base.{
  ℕ, zero, suc, ◌+◌, ◌-◌, ◌*◌, Bool, true, false, List, [], ◌∷◌, ◌++◌, Option, none, some, leb, ltb,
  ◌==◌, ◌&&◌, ◌||◌, not, if◌then◌else◌, ℤ, pos, negsuc, neg_ℕ, pos_part, neg_part, sub_ℕ, ◌+ℤ◌,
  length, take, drop, codes,
}
use nix_core_os.Text.{strcmp, strncpy, strchr, strstr, is_zero}
use nix_core_os.Format.{itoa, text}

abbrev pub max_variables : ℕ
max_variables = 64

-- `nixlang_variable_t`; `nixlang_state` is the list of the variables below variable_count.
pub record Variable : Type 0 where
  pub name : List ℕ
  pub value : List ℕ
  pub is_number : Bool
  pub number_value : ℤ

pub trim_start : List ℕ → List ℕ
trim_start [] = []
trim_start (c ∷ s) = let rest = trim_start s in if (c == 32) || (c == 9) then rest else c ∷ s

pub trim_end : List ℕ → List ℕ
trim_end [] = []
trim_end (c ∷ s) = elim (trim_end s) [
  | [] ↦ if (c == 32) || ((c == 9) || (c == 13)) then [] else c ∷ []
  | d ∷ t ↦ c ∷ d ∷ t
]

pub nixlang_trim : List ℕ → List ℕ
nixlang_trim s = trim_end (trim_start s)

pub find_variable : List Variable → List ℕ → Option Variable
find_variable [] name = none
find_variable (v ∷ r) name = if is_zero (strcmp v.name name) then some v else find_variable r name

-- `while (*text >= '0' && *text <= '9')`
pub int_loop : List ℕ → ℕ → ℕ
int_loop [] value = value
int_loop (c ∷ s) value =
    let more = int_loop s (value * 10 + (c - 48)) in if leb 48 c && leb c 57 then more else value

-- The value that the source has in an int: beyond the range of an int its sum overflows, which C leaves
-- undefined.
pub nixlang_to_int : List ℕ → ℤ
nixlang_to_int [] = pos 0
nixlang_to_int (c ∷ s) = if c == 45 then neg_ℕ (int_loop s 0) else pos (int_loop (c ∷ s) 0)

pub resolve_value : List Variable → List ℕ → List ℕ
resolve_value vars token = elim (find_variable vars token) [ none ↦ token | some v ↦ v.value ]

-- The loop that looks for another byte than a digit.
pub all_digits : List ℕ → Bool
all_digits [] = true
all_digits (c ∷ s) = if ltb c 48 || ltb 57 c then false else all_digits s

abbrev pub skip_minus : List ℕ → List ℕ
skip_minus [] = []
skip_minus (c ∷ s) = if c == 45 then s else c ∷ s

-- The fields but for the name.
pub assign : Variable → List ℕ → Variable
assign v value =
    let number = all_digits (skip_minus value) in
    record v {
      value = strncpy value 255;
      is_number = number;
      number_value = if number then nixlang_to_int value else pos 0;
    }

-- Through the pointer to the first variable of that name.
pub assign_in : List Variable → List ℕ → List ℕ → List Variable
assign_in [] name value = []
assign_in (v ∷ r) name value =
    if is_zero (strcmp v.name name) then assign v value ∷ r else v ∷ assign_in r name value

-- A new variable behind the others has its name first.
abbrev pub fresh : List ℕ → Variable
fresh name = record { name = strncpy name 31; value = []; is_number = false; number_value = pos 0 }

pub store_variable : List Variable → List ℕ → List ℕ → List Variable
store_variable vars name value = elim (find_variable vars name) [
  | some v ↦ assign_in vars name value
  | none ↦ if ltb (length vars) max_variables then vars ++ assign (fresh name) value ∷ [] else vars
]

-- The first branch of `nixlang_execute_line`, `none` for a line that is not an assignment.
pub assignment : List Variable → List ℕ → Option (List Variable)
assignment vars line = elim (strchr line 61) [
  | none ↦ none
  | some equals ↦ elim (strstr line (codes "==")) [
    | some at ↦ none
    | none ↦
        let name_len = length line - length equals in
        let var_name = take (if leb 32 name_len then 31 else name_len) line in
        some (
          store_variable vars (nixlang_trim var_name)
            (resolve_value vars (nixlang_trim (drop 1 equals))))
  ]
]

-- "set name value"
pub set_statement : List Variable → List ℕ → List ℕ → List Variable
set_statement vars name value = store_variable vars name (resolve_value vars value)

abbrev pub negate : ℤ → ℤ
negate (pos n) = neg_ℕ n
negate (negsuc n) = pos (suc n)

-- "add name value" and "sub name value", with the result; `buffer` is what `value` holds before.
pub add_statement : (ℕ → ℕ) → List Variable → Bool → List ℕ → List ℕ → List Variable × ℤ
add_statement buffer vars subtract name value =
    let delta = nixlang_to_int (resolve_value vars value) in
    let vars' : List Variable = elim (find_variable vars name) [
      | some v ↦ vars
      | none ↦ store_variable vars name (codes "0")
    ] in
    elim (find_variable vars' name) [
      | none ↦ (vars', negsuc 0)
      | some v ↦
          let sum = v.number_value +ℤ (if subtract then negate delta else delta) in
          (store_variable vars' name (text 34 (itoa buffer sum) 0), pos 0)
    ]
