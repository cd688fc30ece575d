-- ===== src/Snake.antt =====
-- The snake of games/games.c: its state, and one round of the loop of `game_snake` without what it
-- draws, plays and prints. A coordinate is never below 0 where one is taken from it
-- (Snake/Rules.antt). The array `body` has 100 places and the code does not look at its end: `none`
-- is a round that reads behind it, or that does not end.
pub mod Rules
mod Tests
use nix_core_os.Base.{
  ℕ, zero, suc, ◌+◌, ◌-◌, ◌*◌, ◌%◌, Bool, true, false, Option, none, some, ltb, leb, ◌==◌, ◌&&◌,
  ◌||◌, not, if◌then◌else◌,
}

-- `point_t`
pub record Point : Type 0 where
  pub x : ℕ
  pub y : ℕ

-- `snake`, `food`, `score` and `game_running`
pub record Game : Type 0 where
  pub body : ℕ → Point
  pub length : ℕ
  pub direction : ℕ
  pub food : Point
  pub score : ℕ
  pub game_running : Bool

abbrev pub point : ℕ → ℕ → Point
point a b = record { x = a; y = b }

abbrev pub same : Point → Point → Bool
same p q = (p.x == q.x) && p.y == q.y

-- What `game_snake` sets before its loop; places of the body that it does not set are as they were.
abbrev pub start : (ℕ → Point) → Game
start old = record {
  body = λ i.
      if i == 0
      then point 10 10
      else if i == 1
      then point 9 10
      else if i == 2
      then point 8 10
      else old i;
  length = 3;
  direction = 1;
  food = point 15 15;
  score = 0;
  game_running = true;
}

-- The `switch` on a key: w or W, d or D, s or S, a or A, q or Q.
abbrev either : ℕ → ℕ → ℕ → Bool
either key a b = (key == a) || key == b

abbrev pub new_direction : ℕ → ℕ → ℕ
new_direction key direction =
    if either key 119 87
    then if direction == 2 then direction else 0
    else if either key 100 68
    then if direction == 3 then direction else 1
    else if either key 115 83
    then if direction == 0 then direction else 2
    else if either key 97 65
    then if direction == 1 then direction else 3
    else direction

pub turn : ℕ → Game → Game
turn key g = record g {
  direction = new_direction key g.direction;
  game_running = if either key 113 81 then false else g.game_running;
}

-- The `switch` on the direction: up, right, down, left.
abbrev pub moved : ℕ → Point → Point
moved d p =
    if d == 0
    then point p.x (p.y - 1)
    else if d == 1
    then point (p.x + 1) p.y
    else if d == 2
    then point p.x (p.y + 1)
    else if d == 3
    then point (p.x - 1) p.y
    else p

-- The loop goes from the tail, so that each place is read before it is written.
abbrev pub snake_move : Game → Game
snake_move g = record g {
  body = λ i.
      if i == 0
      then moved g.direction (g.body 0)
      else if ltb i g.length
      then g.body (i - 1)
      else g.body i;
}

-- Whether a point is one of the `n` places from the i-th on.
pub on_body : (ℕ → Point) → Point → ℕ → ℕ → Bool
on_body body p i zero = false
on_body body p i (suc n) = same p (body i) || on_body body p (suc i) n

abbrev pub inside : Point → Bool
inside p = not (leb p.x 0 || leb 59 p.x || leb p.y 8 || leb 22 p.y)

pub snake_check_collision : Game → Bool
snake_check_collision g =
    if inside (g.body 0) then on_body g.body (g.body 0) 1 (g.length - 1) else true

abbrev pub food_place : ℕ → Point
food_place score = point ((score * 7 + 13) % 57 + 1) ((score * 11 + 17) % 12 + 9)

-- The loop, on fuel.
pub snake_place_food : ℕ → Game → Option Game
snake_place_food zero g = none
snake_place_food (suc fuel) g =
    let g' : Game = record g { food = food_place g.score } in
    let again = snake_place_food fuel g' in
    if ltb 100 g.length || on_body g.body g'.food 0 g.length then again else some g'

-- A key if the buffer holds one.
abbrev pub take_key : Option ℕ → Game → Game
take_key none g = g
take_key (some key) g = turn key g

-- `if (snake_check_collision())`
abbrev pub collide : Game → Game
collide g = if snake_check_collision g then record g { game_running = false } else g

-- `if` the head is on the food.
pub eat : ℕ → Game → Option Game
eat fuel g =
    if same (g.body 0) g.food
    then snake_place_food fuel (record g { score = g.score + 10; length = g.length + 1 })
    else some g

pub round : ℕ → Option ℕ → Game → Option Game
round fuel key g = eat fuel (collide (snake_move (take_key key g)))
