-- ===== src/Nixlang/Variables.antt =====
-- What a variable is after a store.
use nix_core_os.Base.{
  ℕ, zero, suc, ◌≤◌, ◌<◌, ◌≡◌, ◌≢◌, ◌⊎◌, refl, ◌∙◌, sym, ap, true, false, List, [], ◌∷◌, ◌++◌,
  Option, none, some, ltb, ℤ, pos, negsuc, arith, length, Bool-cases, Option-cases, inl, inr,
}
use nix_core_os.Text.{strcmp, strncpy, is_zero}
use nix_core_os.Text.Compare.{IsText, strcmp-eq-zero_iff}
use nix_core_os.Nixlang.{
  Variable, find_variable, resolve_value, assign, assign_in, fresh, store_variable,
}

-- The names of the variables are strings.
abbrev pub AreNamed : List Variable → Type 0
AreNamed [] = Unit
AreNamed (v ∷ r) = IsText v.name × AreNamed r

zero_lem : (z : ℤ) → is_zero z ≡ true → z ≡ pos 0
zero_lem (pos zero) h = refl
zero_lem (pos (suc n)) h = ground arith
zero_lem (negsuc n) h = ground arith

same_name : (s t : List ℕ) → IsText s → IsText t → is_zero (strcmp s t) ≡ true → s ≡ t
same_name s t hs ht e = (strcmp-eq-zero_iff s t hs ht).0 (zero_lem (strcmp s t) e)

own_name : (s : List ℕ) → IsText s → is_zero (strcmp s s) ≡ true
own_name s h = rw ((strcmp-eq-zero_iff s s h h).1 refl) refl

other_name : (s t : List ℕ) → IsText s → IsText t → s ≢ t → is_zero (strcmp s t) ≡ false
other_name s t hs ht n = elim (Bool-cases (is_zero (strcmp s t))) [
  | inl e ↦ absurd (n (same_name s t hs ht e))
  | inr e ↦ e
]

strncpy-short : (s : List ℕ) (n : ℕ) → length s ≤ n → strncpy s n ≡ s
unfolding strncpy
strncpy-short [] zero h = refl
strncpy-short [] (suc n) h = refl
strncpy-short (c ∷ s) zero h = absurd (omega arith)
strncpy-short (c ∷ s) (suc n) h = ap (λ t. c ∷ t) (strncpy-short s n (omega arith))

name-assign : (v : Variable) (value : List ℕ) → (assign v value).name ≡ v.name
unfolding assign
name-assign v value = refl

value-assign : (v : Variable) (value : List ℕ) → length value ≤ 255 → (assign v value).value ≡ value
unfolding assign
value-assign v value h = strncpy-short value 255 h

clash : {v : Variable} → some v ≡ none → ⊥
clash e = ground arith

find_nil : (name : List ℕ) → find_variable [] name ≡ none
unfolding find_variable
find_nil name = refl

hit :
    (x : Variable) (r : List Variable) (name : List ℕ)
    → is_zero (strcmp x.name name) ≡ true
    → find_variable (x ∷ r) name ≡ some x
unfolding find_variable
hit x r name e = rw e refl

miss :
    (x : Variable) (r : List Variable) (name : List ℕ)
    → is_zero (strcmp x.name name) ≡ false
    → find_variable (x ∷ r) name ≡ find_variable r name
unfolding find_variable
miss x r name e = rw e refl

abbrev assigned : Option Variable → List ℕ → Option Variable
assigned none value = none
assigned (some v) value = some (assign v value)

-- A variable that is there is found again with its new value.
pub find_variable-assign_in :
    (vars : List Variable) (name value : List ℕ) (v : Variable)
    → find_variable vars name ≡ some v
    → find_variable (assign_in vars name value) name ≡ some (assign v value)
unfolding assign_in
find_variable-assign_in [] name value v h = absurd (clash (sym h ∙ find_nil name))
find_variable-assign_in (x ∷ r) name value v h = elim (Bool-cases (is_zero (strcmp x.name name))) [
  | inl e ↦ rw e (
      hit (assign x value) r name (ap (λ n. is_zero (strcmp n name)) (name-assign x value) ∙ e)
      ∙ ap (λ o. assigned o value) (sym (hit x r name e) ∙ h))
  | inr e ↦ rw e (
      miss x (assign_in r name value) name e
      ∙ find_variable-assign_in r name value v (sym (miss x r name e) ∙ h))
]

assign_in-other :
    (vars : List Variable) (name value other : List ℕ)
    → AreNamed vars
    → IsText name
    → IsText other
    → other ≢ name
    → find_variable (assign_in vars name value) other ≡ find_variable vars other
unfolding assign_in
assign_in-other [] name value other t hn ho n = refl
assign_in-other (x ∷ r) name value other (h, t) hn ho n =
    elim (Bool-cases (is_zero (strcmp x.name name))) [
      | inl e ↦
          let not_other : is_zero (strcmp x.name other) ≡ false =
            other_name x.name other h ho (λ q. n (sym q ∙ same_name x.name name h hn e)) in
          rw e (
            miss (assign x value) r other
              (ap (λ m. is_zero (strcmp m other)) (name-assign x value) ∙ not_other)
            ∙ sym (miss x r other not_other))
      | inr e ↦
          let rest = assign_in-other r name value other t hn ho n in
          rw e (elim (Bool-cases (is_zero (strcmp x.name other))) [
            | inl q ↦ hit x (assign_in r name value) other q ∙ sym (hit x r other q)
            | inr q ↦ miss x (assign_in r name value) other q ∙ rest ∙ sym (miss x r other q)
          ])
    ]

find_variable-append :
    (vars : List Variable) (new : Variable) (name : List ℕ)
    → find_variable vars name ≡ none
    → is_zero (strcmp new.name name) ≡ true
    → find_variable (vars ++ new ∷ []) name ≡ some new
unfolding find_variable
find_variable-append [] new name h e = rw e refl
find_variable-append (x ∷ r) new name h e = elim (Bool-cases (is_zero (strcmp x.name name))) [
  | inl q ↦ absurd (clash (sym (hit x r name q) ∙ h))
  | inr q ↦
      miss x (r ++ new ∷ []) name q ∙ find_variable-append r new name (sym (miss x r name q) ∙ h) e
]

append-other :
    (vars : List Variable) (new : Variable) (name : List ℕ)
    → is_zero (strcmp new.name name) ≡ false
    → find_variable (vars ++ new ∷ []) name ≡ find_variable vars name
unfolding find_variable
append-other [] new name e = rw e refl
append-other (x ∷ r) new name e = rw (append-other r new name e) refl

pub assigns :
    (vars : List Variable) (name value : List ℕ) (v : Variable)
    → find_variable vars name ≡ some v
    → store_variable vars name value ≡ assign_in vars name value
unfolding store_variable
assigns vars name value v e = rw (store_variable, e) refl

appends :
    (vars : List Variable) (name value : List ℕ)
    → find_variable vars name ≡ none
    → ltb (length vars) 64 ≡ true
    → store_variable vars name value ≡ vars ++ assign (fresh name) value ∷ []
unfolding store_variable
appends vars name value e free = rw (store_variable, e, free) refl

-- What a name stands for.
abbrev found : Option Variable → List ℕ → List ℕ
found o token = elim o [ none ↦ token | some v ↦ v.value ]

-- Where a name of at most 31 bytes is known, or there is room for a new variable, the name stands for
-- the value of at most 255 bytes that has been stored under it last, and every other name for what it stood
-- for before.
pub resolve_value-store_variable :
    (vars : List Variable) (name value other : List ℕ)
    → AreNamed vars
    → IsText name × IsText other
    → (length name ≤ 31) × (length value ≤ 255)
    → (find_variable vars name ≢ none) ⊎ (length vars < 64)
    → other ≢ name
    → let vars' = store_variable vars name value in
      (resolve_value vars' name ≡ value) × (resolve_value vars' other ≡ resolve_value vars other)
unfolding resolve_value
resolve_value-store_variable vars name value other named (hn, ho) (short, fits) room n =
    elim (Option-cases (find_variable vars name)) [
      | inr (v, e) ↦ (
        ap (λ o. found o name)
              (ap (λ l. find_variable l name) (assigns vars name value v e)
                ∙ find_variable-assign_in vars name value v e)
            ∙ value-assign v value fits,
        ap (λ o. found o other)
            (ap (λ l. find_variable l other) (assigns vars name value v e)
              ∙ assign_in-other vars name value other named hn ho n),
      )
      | inl e ↦
          let new = assign (fresh name) value in
          let free : ltb (length vars) 64 ≡ true = ground (arith, room, e) in
          let stored : store_variable vars name value ≡ vars ++ new ∷ [] =
            appends vars name value e free in
          let called : new.name ≡ name =
            name-assign (fresh name) value ∙ strncpy-short name 31 short in
          let mine : is_zero (strcmp new.name name) ≡ true =
            ap (λ m. is_zero (strcmp m name)) called ∙ own_name name hn in
          let not_other : is_zero (strcmp new.name other) ≡ false =
            ap (λ m. is_zero (strcmp m other)) called
            ∙ other_name name other hn ho (λ q. n (sym q)) in
          (
            ap (λ o. found o name)
                  (ap (λ l. find_variable l name) stored
                    ∙ find_variable-append vars new name e mine)
                ∙ value-assign (fresh name) value fits,
            ap (λ o. found o other)
                (ap (λ l. find_variable l other) stored ∙ append-other vars new other not_other),
          )
    ]
