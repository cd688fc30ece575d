-- ===== src/Mines.antt =====
-- The minesweeper of apps/apps.c without its window and sounds. A cell is y * width + x. The
-- recursion of `minesweeper_reveal_cell` is on fuel, of which one more than the hidden cells is
-- enough (Mines/Ending.antt). The loop that places the mines is on fuel as well: `none` is one that
-- does not end or writes behind the field.
pub mod Counting
pub mod Sound
pub mod Ending
pub mod Placing
pub mod Games
mod Tests
use nix_core_os.Base.{
  ℕ, zero, suc, ◌+◌, ◌-◌, ◌*◌, ◌/◌, ◌%◌, Bool, true, false, List, [], ◌∷◌, Option, none, some, ltb,
  leb, ◌==◌, ◌&&◌, ◌||◌, not, if◌then◌else◌, ℤ, pos, negsuc, ◌+ℤ◌,
}

-- `minesweeper_data_t`
pub record Board : Type 0 where
  pub width : ℕ
  pub height : ℕ
  pub mine_count : ℕ
  pub revealed_count : ℕ
  pub game_over : Bool
  pub game_won : Bool
  pub field : ℕ → ℕ
  pub revealed : ℕ → Bool
  pub flagged : ℕ → Bool
  pub flags_remaining : ℤ

-- The loop that places the mines, with `placed` of them on the field.
pub place_mines : ℕ → ℕ → ℕ → ℕ → ℕ → (ℕ → ℕ) → Option (ℕ → ℕ)
place_mines zero width height mines placed field = none
place_mines (suc fuel) width height mines placed field =
    let x = (placed * 3 + width) % width in
    let index = placed / width * width + x in
    let field' : ℕ → ℕ = λ i. if i == index then 9 else field i in
    elim (ltb placed mines) [
      | false ↦ some field
      | true ↦ elim (ltb index (width * height)) [
        | false ↦ none
        | true ↦ elim (field index == 9) [
          | true ↦ place_mines fuel width height mines placed field
          | false ↦ place_mines fuel width height mines (placed + 1) field'
        ]
      ]
    ]

-- A mine at a neighbour, which is given by its coordinates plus one.
abbrev pub mine_at : (ℕ → ℕ) → ℕ → ℕ → ℕ → ℕ → ℕ
mine_at field width height x1 y1 =
    if ltb 0 x1
      && leb x1 width
      && ltb 0 y1
      && leb y1 height
      && field ((y1 - 1) * width + (x1 - 1)) == 9
    then 1
    else 0

-- The two loops over the neighbours.
pub mines_around : (ℕ → ℕ) → ℕ → ℕ → ℕ → ℕ → ℕ
mines_around field width height x y =
    let at = mine_at field width height in
    at x y
    + at (x + 1) y
    + at (x + 2) y
    + at x (y + 1)
    + at (x + 1) (y + 1)
    + at (x + 2) (y + 1)
    + at x (y + 2)
    + at (x + 1) (y + 2)
    + at (x + 2) (y + 2)

-- The loops over the cells: a number that is stored is never a 9, so that the mines stay the same.
pub with_numbers : (ℕ → ℕ) → ℕ → ℕ → ℕ → ℕ
with_numbers field width height i =
    if not (field i == 9) && ltb i (width * height)
    then mines_around field width height (i % width) (i / width)
    else field i

pub minesweeper_new_game : ℕ → Board → ℕ → ℕ → ℕ → Option Board
minesweeper_new_game fuel b width height mines =
    elim (place_mines fuel width height mines 0
      (λ i. if ltb i (width * height) then 0 else b.field i)) [
        | none ↦ none
        | some field ↦ some (record {
          width = width;
          height = height;
          mine_count = mines;
          revealed_count = 0;
          game_over = false;
          game_won = false;
          field = with_numbers field width height;
          revealed = λ i. if ltb i (width * height) then false else b.revealed i;
          flagged = λ i. if ltb i (width * height) then false else b.flagged i;
          flags_remaining = pos mines;
        })
      ]

-- The index of a cell of the board.
abbrev pub index_of : Board → ℤ → ℤ → Option ℕ
index_of b (pos x) (pos y) =
    if ltb x b.width && ltb y b.height then some (y * b.width + x) else none
index_of b (pos x) (negsuc y) = none
index_of b (negsuc x) y = none

-- The cell that is to be revealed, if there is one.
pub target : Board → ℤ → ℤ → Option ℕ
target b x y = elim (index_of b x y) [
  | none ↦ none
  | some i ↦ if b.game_over || b.revealed i || b.flagged i then none else some i
]

-- The cell revealed, with the tests for a mine and for the last cell.
pub opened : Board → ℕ → Board
opened b i =
    let mine = b.field i == 9 in
    let last = not mine && b.revealed_count + 1 == b.width * b.height - b.mine_count in
    record b {
      revealed = λ j. if j == i then true else b.revealed j;
      revealed_count = b.revealed_count + 1;
      game_over = mine || last || b.game_over;
      game_won = last || b.game_won;
    }

-- One call after the other, at these distances.
abbrev pub call_all : (Board → ℤ → ℤ → Board) → List (ℤ × ℤ) → ℤ → ℤ → Board → Board
call_all f [] x y b = b
call_all f ((dx, dy) ∷ around) x y b = call_all f around x y (f b (x +ℤ dx) (y +ℤ dy))

abbrev pub neighbours : List (ℤ × ℤ)
neighbours =
    (negsuc 0, negsuc 0)
    ∷ (pos 0, negsuc 0)
    ∷ (pos 1, negsuc 0)
    ∷ (negsuc 0, pos 0)
    ∷ (pos 0, pos 0)
    ∷ (pos 1, pos 0)
    ∷ (negsuc 0, pos 1)
    ∷ (pos 0, pos 1)
    ∷ (pos 1, pos 1)
    ∷ []

pub minesweeper_reveal_cell : ℕ → Board → ℤ → ℤ → Board
minesweeper_reveal_cell zero b x y = b
minesweeper_reveal_cell (suc fuel) b x y = elim (target b x y) [
  | none ↦ b
  | some i ↦ elim (b.field i == 0) [
    | true ↦ call_all (minesweeper_reveal_cell fuel) neighbours x y (opened b i)
    | false ↦ opened b i
  ]
]

pub minesweeper_flag_cell : Board → ℤ → ℤ → Board
minesweeper_flag_cell b x y = elim (index_of b x y) [
  | none ↦ b
  | some i ↦ if b.game_over || b.revealed i then b else record b {
    flagged = λ j. if j == i then not (b.flagged i) else b.flagged j;
    flags_remaining = b.flags_remaining +ℤ (if b.flagged i then pos 1 else negsuc 0);
  }
]
