-- ===== src/Mines/Tests.antt =====
-- A board of 4 by 2 cells with a mine in the first.
use nix_core_os.Base.{◌+ℤ◌, ◌≡◌, refl, true, false, Option, none, some, pos, arith}
use nix_core_os.Mines.{
  Board, minesweeper_new_game, place_mines, with_numbers, mines_around, minesweeper_reveal_cell,
  minesweeper_flag_cell, target, opened,
}
use nix_core_os.Mines.Sound.{IsSound}
use nix_core_os.Mines.Ending.{minesweeper_reveal_cell-ends}
use nix_core_os.Mines.Games.{minesweeper-IsSound, here, reveal, flag, minesweeper_new_game-IsSound}

abbrev old : Board
old = record {
  width = 0;
  height = 0;
  mine_count = 0;
  revealed_count = 0;
  game_over = false;
  game_won = false;
  field = λ i. 7;
  revealed = λ i. true;
  flagged = λ i. true;
  flags_remaining = pos 0;
}

abbrev board_of : Option Board → Board
board_of none = old
board_of (some b) = b

abbrev small : Board
small = board_of (minesweeper_new_game 2 old 4 2 1)

small_made : minesweeper_new_game 2 old 4 2 1 ≡ some small
unfolding minesweeper_new_game place_mines
small_made = refl

-- The cell in the right lower corner opens six cells, and the one below the mine wins the game.
small_won :
    let b = minesweeper_reveal_cell 9 small (pos 3) (pos 1) in
    let b' = minesweeper_reveal_cell 9 b (pos 0) (pos 1) in
    (b.game_won ≡ false) × (b.revealed_count ≡ 6) × (b'.game_won ≡ true)
unfolding minesweeper_new_game place_mines with_numbers mines_around minesweeper_reveal_cell target
    opened ◌+ℤ◌
small_won = (refl, refl, refl)

-- With a width of 3 the second mine falls on the first again.
never_placed : minesweeper_new_game 1000 old 3 2 2 ≡ none
unfolding minesweeper_new_game place_mines
never_placed = refl

minesweeper-IsSound_example :
    IsSound
      (minesweeper_reveal_cell 9 (minesweeper_flag_cell small (pos 0) (pos 0)) (pos 3) (pos 1))
minesweeper-IsSound_example =
    minesweeper-IsSound 2 old small 4 2 1 small_made
      (reveal 9 (pos 3) (pos 1) (flag (pos 0) (pos 0) here))

minesweeper_reveal_cell-ends_example :
    minesweeper_reveal_cell 1000 small (pos 3) (pos 1)
    ≡ minesweeper_reveal_cell 9 small (pos 3) (pos 1)
unfolding minesweeper_new_game place_mines
minesweeper_reveal_cell-ends_example =
    minesweeper_reveal_cell-ends 9 991 small (pos 3) (pos 1)
      (minesweeper_new_game-IsSound 2 old small 4 2 1 small_made) (omega arith)
