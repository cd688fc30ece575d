-- ===== src/Base/Lists.antt =====
-- Lists measured and indexed by native numbers, under the library's names.
use Prim.Native.Nat.{ℕ, zero, suc, ◌+◌, ◌-◌, ◌<◌, ◌≤◌, min}
use mathlib.Core.Path.{◌≡◌, refl, sym, ap, ◌∙◌}
use mathlib.Core.Logic.{◌≢◌}
use mathlib.Core.List.{List, [], ◌∷◌, ◌++◌, map}
use mathlib.Core.Option.{Option, none, some}
use native.Mathlib.Omega.{arith}
use mathlib.Core.Bool.{true, false}
use nix_core_os.Base.Tests.{if◌then◌else◌, ltb}

module _ {ℓ} {A : Type ℓ} where
  abbrev pub length : List A → ℕ
  length [] = 0
  length (x ∷ xs) = suc (length xs)

  abbrev pub get_elem? : List A → ℕ → Option A
  get_elem? [] i = none
  get_elem? (x ∷ xs) zero = some x
  get_elem? (x ∷ xs) (suc i) = get_elem? xs i

  -- A write out of bounds changes nothing.
  abbrev pub set : List A → ℕ → A → List A
  set [] i v = []
  set (x ∷ xs) zero v = v ∷ xs
  set (x ∷ xs) (suc i) v = x ∷ set xs i v

  pub length-append : (xs ys : List A) → length (xs ++ ys) ≡ length xs + length ys
  length-append [] ys = omega arith
  length-append (x ∷ xs) ys = omega (arith, length-append xs ys)

module _ {ℓ} {A : Type ℓ} where
  pub length-set : (xs : List A) (i : ℕ) (v : A) → length (set xs i v) ≡ length xs
  length-set [] i v = refl
  length-set (x ∷ xs) zero v = refl
  length-set (x ∷ xs) (suc i) v = ap suc (length-set xs i v)

  pub get_elem?-set_self :
      (xs : List A) (i : ℕ) (v : A) → i < length xs → get_elem? (set xs i v) i ≡ some v
  get_elem?-set_self [] i v h = elim h [ ]
  get_elem?-set_self (x ∷ xs) zero v h = refl
  get_elem?-set_self (x ∷ xs) (suc i) v h = get_elem?-set_self xs i v (omega arith)

  pub get_elem?-set_ne :
      (xs : List A) {i j : ℕ} (v : A) → i ≢ j → get_elem? (set xs i v) j ≡ get_elem? xs j
  get_elem?-set_ne [] v h = refl
  get_elem?-set_ne (x ∷ xs) {i = zero} {j = zero} v h = absurd (h refl)
  get_elem?-set_ne (x ∷ xs) {i = zero} {j = suc j} v h = refl
  get_elem?-set_ne (x ∷ xs) {i = suc i} {j = zero} v h = refl
  get_elem?-set_ne (x ∷ xs) {i = suc i} {j = suc j} v h = get_elem?-set_ne xs v (λ e. h (ap suc e))

module _ {ℓ} {A : Type ℓ} where
  abbrev pub get_or : List A → ℕ → A → A
  get_or [] i d = d
  get_or (x ∷ xs) zero d = x
  get_or (x ∷ xs) (suc i) d = get_or xs i d

  abbrev pub take : ℕ → List A → List A
  take zero xs = []
  take (suc n) [] = []
  take (suc n) (x ∷ xs) = x ∷ take n xs

  abbrev pub drop : ℕ → List A → List A
  drop zero xs = xs
  drop (suc n) [] = []
  drop (suc n) (x ∷ xs) = drop n xs

  abbrev pub replicate : ℕ → A → List A
  replicate zero a = []
  replicate (suc n) a = a ∷ replicate n a

  pub take-append-drop : (n : ℕ) (xs : List A) → take n xs ++ drop n xs ≡ xs
  take-append-drop zero xs = refl
  take-append-drop (suc n) [] = refl
  take-append-drop (suc n) (x ∷ xs) = rw (take-append-drop n xs)

  pub length-take : (n : ℕ) (xs : List A) → length (take n xs) ≡ min n (length xs)
  length-take zero xs = omega arith
  length-take (suc n) [] = omega arith
  length-take (suc n) (x ∷ xs) = omega (arith, length-take n xs)

  pub length-drop : (n : ℕ) (xs : List A) → length (drop n xs) ≡ length xs - n
  length-drop zero xs = omega arith
  length-drop (suc n) [] = omega arith
  length-drop (suc n) (x ∷ xs) = omega (arith, length-drop n xs)

  pub length-replicate : (n : ℕ) (a : A) → length (replicate n a) ≡ n
  length-replicate zero a = refl
  length-replicate (suc n) a = ap suc (length-replicate n a)

  pub length-map {κ} : {B : Type κ} (xs : List A) (f : A → B) → length (map f xs) ≡ length xs
  length-map [] f = refl
  length-map (x ∷ xs) f = ap suc (length-map xs f)

  abbrev nothing : List A
  nothing = []

  pub take_nil : (n : ℕ) → take n [] ≡ nothing
  take_nil zero = refl
  take_nil (suc n) = refl

  pub drop_nil : (n : ℕ) → drop n [] ≡ nothing
  drop_nil zero = refl
  drop_nil (suc n) = refl

  pub drop-add : (o k : ℕ) (l : List A) → drop (o + k) l ≡ drop k (drop o l)
  drop-add zero k l = let e : 0 + k ≡ k = omega arith in rw e refl
  drop-add (suc o) k [] = drop_nil (suc o + k) ∙ sym (drop_nil k)
  drop-add (suc o) k (x ∷ l) =
      let e : suc o + k ≡ suc (o + k) = omega arith in ap (λ n. drop n (x ∷ l)) e ∙ drop-add o k l

  pub take-add :
      (a b : ℕ) (l : List A) → take a l ++ take b (drop (length (take a l)) l) ≡ take (a + b) l
  take-add zero b l = let e : 0 + b ≡ b = omega arith in rw e refl
  take-add (suc a) b [] = take_nil b ∙ sym (take_nil (suc a + b))
  take-add (suc a) b (x ∷ l) =
      let e : suc a + b ≡ suc (a + b) = omega arith in
      ap (λ t. x ∷ t) (take-add a b l) ∙ ap (λ n. take n (x ∷ l)) (sym e)

  -- Taking and dropping along two lists.
  pub take-append :
      (n : ℕ) (xs ys : List A) → take n (xs ++ ys) ≡ take n xs ++ take (n - length xs) ys
  take-append n [] ys = let e : n - 0 ≡ n = omega arith in rw (take_nil n, e) refl
  take-append zero (x ∷ xs) ys = let e : 0 - suc (length xs) ≡ 0 = omega arith in rw e refl
  take-append (suc n) (x ∷ xs) ys =
      let e : suc n - suc (length xs) ≡ n - length xs = omega arith in
      ap (λ t. x ∷ t) (take-append n xs ys) ∙ ap (λ k. x ∷ take n xs ++ take k ys) (sym e)

  pub drop-append :
      (n : ℕ) (xs ys : List A) → drop n (xs ++ ys) ≡ drop n xs ++ drop (n - length xs) ys
  drop-append n [] ys = let e : n - 0 ≡ n = omega arith in rw (drop_nil n, e) refl
  drop-append zero (x ∷ xs) ys = let e : 0 - suc (length xs) ≡ 0 = omega arith in rw e refl
  drop-append (suc n) (x ∷ xs) ys =
      let e : suc n - suc (length xs) ≡ n - length xs = omega arith in
      drop-append n xs ys ∙ ap (λ k. drop n xs ++ drop k ys) (sym e)

  pub take-all : (n : ℕ) (xs : List A) → length xs ≤ n → take n xs ≡ xs
  take-all zero [] h = refl
  take-all zero (x ∷ xs) h = absurd (omega arith)
  take-all (suc n) [] h = refl
  take-all (suc n) (x ∷ xs) h = ap (λ t. x ∷ t) (take-all n xs (omega arith))

  pub drop-all : (n : ℕ) (xs : List A) → length xs ≤ n → drop n xs ≡ []
  drop-all zero [] h = refl
  drop-all zero (x ∷ xs) h = absurd (omega arith)
  drop-all (suc n) [] h = refl
  drop-all (suc n) (x ∷ xs) h = drop-all n xs (omega arith)

  pub drop-take : (o s : ℕ) (l : List A) → drop o (take s l) ≡ take (s - o) (drop o l)
  drop-take zero s l = let e : s - 0 ≡ s = omega arith in rw e refl
  drop-take (suc o) zero l = let e : 0 - suc o ≡ 0 = omega arith in rw e refl
  drop-take (suc o) (suc s) [] = sym (take_nil (suc s - suc o))
  drop-take (suc o) (suc s) (x ∷ l) =
      let e : suc s - suc o ≡ s - o = omega arith in
      drop-take o s l ∙ ap (λ k. take k (drop o l)) (sym e)

  pub take-take : (a b : ℕ) (l : List A) → take a (take b l) ≡ take (if ltb b a then b else a) l
  take-take zero b l = let e : ltb b 0 ≡ false = ground arith in rw e refl
  take-take (suc a) zero l = let e : ltb 0 (suc a) ≡ true = ground arith in rw e refl
  take-take (suc a) (suc b) [] = sym (take_nil (if ltb (suc b) (suc a) then suc b else suc a))
  take-take (suc a) (suc b) (x ∷ l) =
      let e : (if ltb (suc b) (suc a) then suc b else suc a) ≡ suc (if ltb b a then b else a) =
        ground arith in
      ap (λ t. x ∷ t) (take-take a b l) ∙ ap (λ k. take k (x ∷ l)) (sym e)
