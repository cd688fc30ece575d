-- ===== src/Mines/Placing.antt =====
-- A new game, and the games that follow from it.
use native.Mathlib.Nat.{div-add-mod'}
use nix_core_os.Base.{
  ℕ, zero, suc, ◌+◌, ◌-◌, ◌*◌, ◌/◌, ◌%◌, ◌≤◌, ◌≡◌, refl, ap, sym, ◌∙◌, Bool, false, none, some, ltb,
  ◌==◌, if◌then◌else◌, arith, Bool-cases, inl, inr,
}
use nix_core_os.Mines.{place_mines, mine_at, mines_around, with_numbers}
use nix_core_os.Mines.Counting.{count, with_cell, count-cong, count-with_cell}

abbrev pub nine : (ℕ → ℕ) → ℕ → Bool
nine field i = field i == 9

pub of_some : {A : Type 0} {a b : A} → some a ≡ some b → a ≡ b
of_some {a = a} e = ap (λ o. elim o [ none ↦ a | some x ↦ x ]) e

pub place_mines_lem :
    (fuel width height mines placed : ℕ) (field field' : ℕ → ℕ)
    → placed ≤ mines
    → count (nine field) (width * height) ≡ placed
    → place_mines fuel width height mines placed field ≡ some field'
    → count (nine field') (width * height) ≡ mines
unfolding place_mines
place_mines_lem zero width height mines placed field field' h counted e = ground arith
place_mines_lem (suc fuel) width height mines placed field field' h counted e =
    let index = placed / width * width + (placed * 3 + width) % width in
    let next : ℕ → ℕ = λ i. if i == index then 9 else field i in
    elim (Bool-cases (ltb placed mines)) [
      | inr f ↦
          let ends : place_mines (suc fuel) width height mines placed field ≡ some field =
            rw (place_mines, f) refl in
          let all : placed ≡ mines = ground (arith, f) in
          ap (λ g. count (nine g) (width * height)) (sym (of_some (sym ends ∙ e))) ∙ counted ∙ all
      | inl t ↦ elim (Bool-cases (ltb index (width * height))) [
        | inr f ↦
            let ends : place_mines (suc fuel) width height mines placed field ≡ none =
              rw (place_mines, t, f) refl in
            let clash : none ≡ some field' = sym ends ∙ e in absurd (ground arith)
        | inl g ↦ elim (Bool-cases (field index == 9)) [
          | inl k ↦
              let again : place_mines (suc fuel) width height mines placed field
                  ≡ place_mines fuel width height mines placed field =
                rw (place_mines, t, g, k) refl in
              place_mines_lem fuel width height mines placed field field' h counted (sym again ∙ e)
          | inr k ↦
              let again : place_mines (suc fuel) width height mines placed field
                  ≡ place_mines fuel width height mines (placed + 1) next =
                rw (place_mines, t, g, k) refl in
              let more : count (nine next) (width * height) ≡ placed + 1 =
                count-cong (nine next) (with_cell (nine field) index) (width * height)
                  (λ i l. ground arith)
                ∙ count-with_cell (nine field) index (width * height) (ground (arith, g)) k
                ∙ ap (λ n. n + 1) counted in
              place_mines_lem fuel width height mines (placed + 1) next field' (ground (arith, t))
                more (sym again ∙ e)
        ]
      ]
    ]

at_most_one : (field : ℕ → ℕ) (w h x y : ℕ) → mine_at field w h x y ≤ 1
at_most_one field w h x y = ground arith

-- The number of a cell without a mine is at most 8.
mines_around_lem :
    (field : ℕ → ℕ) (w h x y : ℕ) → nine field (y * w + x) ≡ false → mines_around field w h x y ≤ 8
unfolding mines_around
mines_around_lem field w h x y plain =
    let e1 : y + 1 - 1 ≡ y = omega arith in
    let e2 : x + 1 - 1 ≡ x = omega arith in
    let itself : mine_at field w h (x + 1) (y + 1) ≡ 0 = rw (e1, e2, plain) (ground arith) in
    let one = at_most_one field w h in
    omega (
      arith,
      one x y,
      one (x + 1) y,
      one (x + 2) y,
      one x (y + 1),
      one (x + 2) (y + 1),
      one x (y + 2),
      one (x + 1) (y + 2),
      one (x + 2) (y + 2),
    )

pub with_numbers_lem : (field : ℕ → ℕ) (w h i : ℕ) → nine (with_numbers field w h) i ≡ nine field i
unfolding with_numbers
with_numbers_lem field w h i = elim (Bool-cases (nine field i)) [
  | inl e ↦ rw (e, e) refl
  | inr e ↦ elim (Bool-cases (ltb i (w * h))) [
    | inr f ↦ rw (with_numbers, e, f) e
    | inl t ↦
        let itself : nine field (i / w * w + i % w) ≡ false =
          ap (nine field) (div-add-mod' i w) ∙ e in
        let low = mines_around_lem field w h (i % w) (i / w) itself in
        rw (with_numbers, e, t) (ground (arith, low))
  ]
]
