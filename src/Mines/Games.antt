-- ===== src/Mines/Games.antt =====
-- The games that follow from a new one.
use mathlib.Core.Path.{subst}
use nix_core_os.Base.{
  ℕ, ◌*◌, ◌≡◌, refl, sym, ◌∙◌, Bool, true, false, none, some, ltb, ◌||◌, if◌then◌else◌, arith,
  Bool-cases, Option-cases, inl, inr, ℤ, pos,
}
use nix_core_os.Mines.{
  Board, index_of, place_mines, with_numbers, minesweeper_new_game, minesweeper_reveal_cell,
  minesweeper_flag_cell,
}
use nix_core_os.Mines.Counting.{count, count-cong, no_cells}
use nix_core_os.Mines.Sound.{IsSound}
use nix_core_os.Mines.Ending.{minesweeper_reveal_cell-Grows}
use nix_core_os.Mines.Placing.{nine, place_mines_lem, with_numbers_lem, of_some}

-- The board of a new game with its mines placed.
abbrev new_board : Board → ℕ → ℕ → ℕ → (ℕ → ℕ) → Board
new_board b width height mines field = record {
  width = width;
  height = height;
  mine_count = mines;
  revealed_count = 0;
  game_over = false;
  game_won = false;
  field = with_numbers field width height;
  revealed = λ i. if ltb i (width * height) then false else b.revealed i;
  flagged = λ i. if ltb i (width * height) then false else b.flagged i;
  flags_remaining = pos mines;
}

pub minesweeper_new_game-IsSound :
    (fuel : ℕ) (b b' : Board) (width height mines : ℕ)
    → minesweeper_new_game fuel b width height mines ≡ some b'
    → IsSound b'
unfolding minesweeper_new_game
minesweeper_new_game-IsSound fuel b b' width height mines e =
    let n = width * height in
    let empty : ℕ → ℕ = λ i. if ltb i n then 0 else b.field i in
    elim (Option-cases (place_mines fuel width height mines 0 empty)) [
      | inl none_there ↦
          let ends : minesweeper_new_game fuel b width height mines ≡ none =
            rw (minesweeper_new_game, none_there) refl in
          let clash : none ≡ some b' = sym ends ∙ e in absurd (ground arith)
      | inr (field, placed) ↦
          let hidden : ℕ → Bool = λ i. if ltb i n then false else b.revealed i in
          let no_mine : count (nine empty) n ≡ 0 =
            no_cells (nine empty) n
              (λ i l. let inside : ltb i n ≡ true = ground (arith, l) in rw inside refl) in
          let none_seen : count hidden n ≡ 0 =
            no_cells hidden n
              (λ i l. let inside : ltb i n ≡ true = ground (arith, l) in rw inside refl) in
          let all_mines : mines ≡ count (nine (with_numbers field width height)) n = sym (
            count-cong (nine (with_numbers field width height)) (nine field) n
              (λ i l. with_numbers_lem field width height i)
            ∙ place_mines_lem fuel width height mines 0 empty field (omega arith) no_mine placed) in
          let made : minesweeper_new_game fuel b width height mines
              ≡ some (new_board b width height mines field) =
            rw (minesweeper_new_game, placed) refl in
          subst IsSound (of_some (sym made ∙ e)) (
            sym none_seen,
            all_mines,
            λ _ i l seen.
                let inside : ltb i n ≡ true = ground (arith, l) in
                let clash : hidden i ≡ false = rw inside refl in
                absurd (ground (arith, seen, clash)),
            λ won. absurd (ground arith),
          )
    ]

minesweeper_flag_cell-IsSound :
    (b : Board) (x y : ℤ) → IsSound b → IsSound (minesweeper_flag_cell b x y)
unfolding minesweeper_flag_cell
minesweeper_flag_cell-IsSound b x y sound = elim (Option-cases (index_of b x y)) [
  | inl e ↦ rw (minesweeper_flag_cell, e) sound
  | inr (i, e) ↦ elim (Bool-cases (b.game_over || b.revealed i)) [
    | inl t ↦ rw (minesweeper_flag_cell, e, t) sound
    | inr f ↦ rw (minesweeper_flag_cell, e, f) sound
  ]
]

-- The calls of a player, with any fuel.
pub data Reach (s : Board) : Board → Type 0 where
  here : Reach s s
  reveal :
      {b : Board} (fuel : ℕ) (x y : ℤ) → Reach s b → Reach s (minesweeper_reveal_cell fuel b x y)
  flag : {b : Board} (x y : ℤ) → Reach s b → Reach s (minesweeper_flag_cell b x y)

-- In every game that follows from a new one by revealing and flagging cells, on the board or not:
-- the count of the revealed cells and the number of mines are those of the board, no mine is
-- revealed while the game runs, and in a game that is won every cell without a mine is revealed.
pub minesweeper-IsSound :
    (fuel : ℕ) (old start : Board) (width height mines : ℕ) {b : Board}
    → minesweeper_new_game fuel old width height mines ≡ some start
    → Reach start b
    → IsSound b
minesweeper-IsSound fuel old start width height mines e here =
    minesweeper_new_game-IsSound fuel old start width height mines e
minesweeper-IsSound fuel old start width height mines e (reveal fuel' x y r) =
    (minesweeper_reveal_cell-Grows fuel' _ x y
      (minesweeper-IsSound fuel old start width height mines e r)).0
minesweeper-IsSound fuel old start width height mines e (flag x y r) =
    minesweeper_flag_cell-IsSound _ x y (minesweeper-IsSound fuel old start width height mines e r)
