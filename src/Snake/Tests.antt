-- ===== src/Snake/Tests.antt =====
-- A round after the start in which the snake turns down, and a snake on the place of the next food.
use nix_core_os.Base.{ℕ, ◌≡◌, refl, some}
use nix_core_os.Snake.{
  Point, Game, point, start, turn, snake_move, round, eat, snake_check_collision, on_body,
}
use nix_core_os.Snake.Rules.{IsSound, here, next, game_snake-IsSound}

abbrev old : ℕ → Point
old i = point 0 0

first_round : round 9 (some 115) (start old) ≡ some (snake_move (turn 115 (start old)))
unfolding round turn eat snake_check_collision on_body
first_round = refl

game_snake-IsSound_example : IsSound (snake_move (turn 115 (start old)))
game_snake-IsSound_example =
    game_snake-IsSound old {g = snake_move (turn 115 (start old))}
      (next 9 (some 115) here refl first_round)

-- With a score of 0 the food is put at column 14 in line 14.
abbrev long : Game
long = record (start old) { body = λ i. point 14 14 }
