-- ===== src/Nixlang/Tests.antt =====
-- Two variables.
use nix_core_os.Base.{
  ◌≡◌, refl, true, false, List, [], ◌∷◌, some, pos, negsuc, arith, codes, inr, ◌+ℤ◌,
}
use nix_core_os.Text.{strcmp}
use nix_core_os.Nixlang.{
  Variable, find_variable, resolve_value, nixlang_to_int, int_loop, store_variable, add_statement,
}
use nix_core_os.Nixlang.Variables.{resolve_value-store_variable}
use nix_core_os.Nixlang.Sums.{add_statement-Sum}

abbrev x : Variable
x = record { name = codes "x"; value = codes "40"; is_number = true; number_value = pos 40 }

abbrev vars : List Variable
vars =
    x
    ∷ record { name = codes "who"; value = codes "nix"; is_number = false; number_value = pos 0 }
    ∷ []

resolve_value-store_variable_example :
    let vars' = store_variable vars (codes "y") (codes "7") in
    (resolve_value vars' (codes "y") ≡ codes "7")
    × (resolve_value vars' (codes "who") ≡ resolve_value vars (codes "who"))
resolve_value-store_variable_example =
    resolve_value-store_variable vars (codes "y") (codes "7") (codes "who") (ground arith)
      (ground arith, ground arith) (omega arith, omega arith) (inr (omega arith)) (ground arith)

add_statement-Sum_example :
    let (vars', r) = add_statement (λ i. 0) vars true (codes "x") (codes "42") in
    (v' : Variable) × (r ≡ pos 0)
    × (find_variable vars' (codes "x") ≡ some v')
    × (v'.is_number ≡ true)
    × (v'.number_value ≡ negsuc 1)
unfolding find_variable resolve_value nixlang_to_int int_loop strcmp ◌+ℤ◌
add_statement-Sum_example =
    add_statement-Sum (λ i. 0) vars true (codes "x") (codes "42") x (negsuc 1) refl refl
      (omega arith)
