-- ===== src/Mines/Sound.antt =====
-- What holds of a board in every game.
use nix_core_os.Base.{
  ℕ, suc, ◌+◌, ◌-◌, ◌*◌, ◌≤◌, ◌<◌, ◌≡◌, refl, ap, sym, ◌∙◌, Bool, true, false, none, some, ltb,
  ◌==◌, ◌&&◌, ◌||◌, arith, Bool-cases, inl, inr, ℤ, pos, negsuc,
}
use native.Mathlib.Nat.{mul-le-mul_right}
use nix_core_os.Mines.{Board, target, opened}
use nix_core_os.Mines.Counting.{count, with_cell, count-with_cell, count-all}

abbrev pub cells : Board → ℕ
cells b = b.width * b.height

abbrev pub is_mine : Board → ℕ → Bool
is_mine b i = b.field i == 9

-- The count of revealed cells and the number of mines are right; while the game runs no mine is
-- revealed; and a game that is won has every cell revealed that is no mine.
abbrev pub IsSound : Board → Type 0
IsSound b =
    (b.revealed_count ≡ count b.revealed (cells b))
    × (b.mine_count ≡ count (is_mine b) (cells b))
    × (b.game_over ≡ false → (i : ℕ) → i < cells b → b.revealed i ≡ true → is_mine b i ≡ false)
    × (b.game_won ≡ true → (i : ℕ) → i < cells b → is_mine b i ≡ false → b.revealed i ≡ true)

index-below : (x y w h : ℕ) → x < w → y < h → y * w + x < w * h
index-below x y w h k l = let e : suc y * w ≤ h * w = mul-le-mul_right w l in omega arith

-- A cell that is to be revealed is on the board, hidden and without a flag, and the game runs.
pub target_lem :
    (b : Board) (x y : ℤ) (i : ℕ)
    → target b x y ≡ some i
    → (i < cells b) × (b.game_over ≡ false) × (b.revealed i ≡ false)
unfolding target
target_lem b (negsuc x) y i e = ground arith
target_lem b (pos x) (negsuc y) i e = ground arith
target_lem b (pos x) (pos y) i e =
    let j = y * b.width + x in
    elim (Bool-cases (ltb x b.width && ltb y b.height)) [
      | inr f ↦
          let nowhere : target b (pos x) (pos y) ≡ none = rw (target, f) refl in
          let clash : none ≡ some i = sym nowhere ∙ e in absurd (ground arith)
      | inl t ↦ elim (Bool-cases (b.game_over || b.revealed j || b.flagged j)) [
        | inl g ↦
            let nowhere : target b (pos x) (pos y) ≡ none = rw (target, t, g) refl in
            let clash : none ≡ some i = sym nowhere ∙ e in absurd (ground arith)
        | inr g ↦
            let there : target b (pos x) (pos y) ≡ some j = rw (target, t, g) refl in
            let j_is : j ≡ i = ap (λ o. elim o [ none ↦ i | some k ↦ k ]) (sym there ∙ e) in
            let below : j < cells b =
              index-below x y b.width b.height (ground (arith, t)) (ground (arith, t)) in
            (omega arith, ground (arith, g), sym (ap b.revealed j_is) ∙ ground (arith, g))
      ]
    ]

-- A cell of those revealed so far and a further one that is no mine.
still_safe :
    (b : Board) (i : ℕ)
    → ((j : ℕ) → j < cells b → b.revealed j ≡ true → is_mine b j ≡ false)
    → is_mine b i ≡ false
    → (j : ℕ) → j < cells b
    → with_cell b.revealed i j ≡ true
    → is_mine b j ≡ false
still_safe b i safe plain j l e = elim (Bool-cases (j == i)) [
  | inl same ↦ let j_is : j ≡ i = ground (arith, same) in ap (is_mine b) j_is ∙ plain
  | inr other ↦
      let old : with_cell b.revealed i j ≡ b.revealed j = rw other refl in safe j l (sym old ∙ e)
]

-- The last cell without a mine.
all_found :
    (b : Board) (i : ℕ)
    → i < cells b
    → b.revealed i ≡ false
    → b.revealed_count ≡ count b.revealed (cells b)
    → b.mine_count ≡ count (is_mine b) (cells b)
    → ((j : ℕ) → j < cells b → b.revealed j ≡ true → is_mine b j ≡ false)
    → is_mine b i ≡ false
    → b.revealed_count + 1 ≡ cells b - b.mine_count
    → (j : ℕ) → j < cells b
    → is_mine b j ≡ false
    → with_cell b.revealed i j ≡ true
all_found b i below hidden counted mines safe plain last =
    count-all (with_cell b.revealed i) (is_mine b) (cells b) (still_safe b i safe plain)
      (omega (arith, count-with_cell b.revealed i (cells b) below hidden))

pub opened-IsSound :
    (b : Board) (i : ℕ)
    → i < cells b
    → b.game_over ≡ false
    → b.revealed i ≡ false
    → IsSound b
    → IsSound (opened b i)
unfolding opened
opened-IsSound b i below runs hidden (counted, mines, safe, won) = (
  omega (arith, count-with_cell b.revealed i (cells b) below hidden),
  mines,
  λ goes j l e. still_safe b i (safe runs) (ground (arith, goes)) j l e,
  λ wins j l plain. elim (Bool-cases b.game_won) [
    | inl already ↦ let old : b.revealed j ≡ true = won already j l plain in ground (arith, old)
    | inr not_yet ↦
        let clear : is_mine b i ≡ false = ground (arith, wins, not_yet) in
        let last : b.revealed_count + 1 ≡ cells b - b.mine_count = ground (arith, wins, not_yet) in
        all_found b i below hidden counted mines (safe runs) clear last j l plain
  ],
)
