-- ===== src/Snake/Rules.antt =====
-- What holds in every round of the game.
use mathlib.Core.Path.{subst}
use nix_core_os.Base.{
  ℕ, zero, suc, ◌+◌, ◌*◌, ◌%◌, ◌≤◌, ◌<◌, ◌≡◌, ◌≢◌, refl, ap, sym, ◌∙◌, Bool, true, false, Option,
  none, some, ltb, ◌||◌, arith, Bool-cases, inl, inr,
}
use nix_core_os.Snake.{
  Point, Game, same, start, turn, moved, new_direction, snake_move, on_body, inside,
  snake_check_collision, food_place, snake_place_food, collide, eat, round,
}

-- Rounds that are played while the game runs.
pub data Reach (s : Game) : Game → Type 0 where
  here : Reach s s
  next :
      {g : Game} (fuel : ℕ) (key : Option ℕ) {g' : Game}
      → Reach s g
      → g.game_running ≡ true
      → round fuel key g ≡ some g'
      → Reach s g'

abbrev IsInside : Point → Type 0
IsInside p = (0 < p.x) × (p.x < 59) × (8 < p.y) × (p.y < 22)

-- The score counts the segments that were added, the head stands one step from the next segment in
-- the snake's direction and never on the one behind that, the food is on the field, and while the
-- game runs the head is on the field, too.
abbrev pub IsSound : Game → Type 0
IsSound g =
    (g.score + 30 ≡ 10 * g.length)
    × (3 ≤ g.length)
    × (g.direction < 4)
    × ((g.body 0).x ≡ (moved g.direction (g.body 1)).x)
    × ((g.body 0).y ≡ (moved g.direction (g.body 1)).y)
    × (same (g.body 0) (g.body 2) ≡ false)
    × IsInside g.food
    × (g.game_running ≡ true → IsInside (g.body 0))

-- A turn is never straight back.
new_direction_lem :
    (key d : ℕ) → d < 4 → (new_direction key d < 4) × (new_direction key d ≢ (d + 2) % 4)
new_direction_lem key d h = (ground arith, ground arith)

-- A step that does not go straight back does not lead to where the snake comes from.
onward :
    (d d' : ℕ) (p q : Point)
    → d < 4
    → d' < 4
    → d' ≢ (d + 2) % 4
    → IsInside p
    → p.x ≡ (moved d q).x
    → p.y ≡ (moved d q).y
    → same (moved d' p) q ≡ false
onward d d' p q h k turned inside e f = ground arith

of_some : {a b : Game} → some a ≡ some b → a ≡ b
of_some {a = a} e = ap (λ o. elim o [ none ↦ a | some g ↦ g ]) e

collide_lem : (g : Game) → (collide g).game_running ≡ true → IsInside (g.body 0)
unfolding snake_check_collision
collide_lem g running = elim (Bool-cases (inside (g.body 0))) [
  | inl e ↦ (ground (arith, e), ground (arith, e), ground (arith, e), ground (arith, e))
  | inr e ↦
      let hit : snake_check_collision g ≡ true = rw (snake_check_collision, e) refl in
      let ended : (collide g).game_running ≡ false = rw hit refl in
      let clash : false ≡ true = sym ended ∙ running in absurd (ground arith)
]

moved_on :
    (g : Game) (d : ℕ) (running : Bool)
    → IsSound g
    → g.game_running ≡ true
    → d < 4
    → d ≢ (g.direction + 2) % 4
    → let m = snake_move (record g { direction = d; game_running = running }) in
      ((m.body 0).x ≡ (moved d (m.body 1)).x)
      × ((m.body 0).y ≡ (moved d (m.body 1)).y)
      × (same (m.body 0) (m.body 2) ≡ false)
moved_on g d running (score, long, dir, fx, fy, neck, food, inside_if) run k turned =
    let e1 : ltb 1 g.length ≡ true = ground arith in
    let e2 : ltb 2 g.length ≡ true = ground arith in
    rw (e1, e2)
      (refl, refl, onward g.direction d (g.body 0) (g.body 1) dir k turned (inside_if run) fx fy)

place_food_lem :
    (fuel : ℕ) (g g' : Game)
    → snake_place_food fuel g ≡ some g'
    → g' ≡ record g { food = food_place g.score }
unfolding snake_place_food
place_food_lem zero g g' e = ground arith
place_food_lem (suc fuel) g g' e =
    let placed : Game = record g { food = food_place g.score } in
    elim (Bool-cases (ltb 100 g.length || on_body g.body (food_place g.score) 0 g.length)) [
      | inl t ↦
          let again : snake_place_food (suc fuel) g ≡ snake_place_food fuel placed =
            rw (snake_place_food, t) refl in
          place_food_lem fuel placed g' (sym again ∙ e)
      | inr f ↦
          let found : snake_place_food (suc fuel) g ≡ some placed = rw (snake_place_food, f) refl in
          of_some (sym e ∙ found)
    ]

eat_lem : (fuel : ℕ) (g g' : Game) → IsSound g → eat fuel g ≡ some g' → IsSound g'
unfolding eat
eat_lem fuel g g' (score, long, dir, fx, fy, neck, food, inside_if) e =
    elim (Bool-cases (same (g.body 0) g.food)) [
      | inl t ↦
          let grown : Game = record g { score = g.score + 10; length = g.length + 1 } in
          let eats : eat fuel g ≡ snake_place_food fuel grown = rw (eat, t) refl in
          let result = place_food_lem fuel grown g' (sym eats ∙ e) in
          subst IsSound (sym result) (
            omega arith,
            omega arith,
            dir,
            fx,
            fy,
            neck,
            (omega arith, omega arith, omega arith, omega arith),
            inside_if,
          )
      | inr f ↦
          let stays : eat fuel g ≡ some g = rw (eat, f) refl in
          subst IsSound (of_some (sym stays ∙ e)) (score, long, dir, fx, fy, neck, food, inside_if)
    ]

stepped :
    (g : Game) (d : ℕ) (running : Bool)
    → IsSound g
    → g.game_running ≡ true
    → d < 4
    → d ≢ (g.direction + 2) % 4
    → IsSound (collide (snake_move (record g { direction = d; game_running = running })))
stepped g d running sound run k turned =
    let m = snake_move (record g { direction = d; game_running = running }) in
    let (fx, fy, neck) = moved_on g d running sound run k turned in
    let (score, long, dir, fx', fy', neck', food, inside_if) = sound in
    elim (Bool-cases (snake_check_collision m)) [
      | inl t ↦ rw t (score, long, k, fx, fy, neck, food, λ e. absurd (ground (arith, e)))
      | inr f ↦ rw f (score, long, k, fx, fy, neck, food, λ e. collide_lem m (rw f e))
    ]

round_lem :
    (fuel : ℕ) (key : Option ℕ) (g g' : Game)
    → IsSound g
    → g.game_running ≡ true
    → round fuel key g ≡ some g'
    → IsSound g'
unfolding round turn
round_lem fuel none g g' sound run e =
    let dir = sound.2 in
    eat_lem fuel (collide (snake_move g)) g'
      (stepped g g.direction g.game_running sound run dir (omega arith)) e
round_lem fuel (some key) g g' sound run e =
    let dir = sound.2 in
    let (low, turned) = new_direction_lem key g.direction dir in
    eat_lem fuel (collide (snake_move (turn key g))) g'
      (stepped g (new_direction key g.direction) (turn key g).game_running sound run low turned) e

-- In every round that can be reached from the start of the game: the score is ten for each segment
-- beyond three, the head stands one step from the next segment in the snake's direction and never
-- on the one behind that, the food is on the field, and so is the head while the game runs.
pub game_snake-IsSound : (old : ℕ → Point) {g : Game} → Reach (start old) g → IsSound g
game_snake-IsSound old here = (
  refl,
  omega arith,
  omega arith,
  refl,
  refl,
  refl,
  (omega arith, omega arith, omega arith, omega arith),
  λ e. (omega arith, omega arith, omega arith, omega arith),
)
game_snake-IsSound old (next {g = g} fuel key {g' = g'} r run e) =
    round_lem fuel key g g' (game_snake-IsSound old r) run e

-- If the place of the food for a score is on the snake, it is looked for there again and again,
-- however often.
pub snake_place_food-stuck :
    (fuel : ℕ) (g : Game)
    → on_body g.body (food_place g.score) 0 g.length ≡ true
    → snake_place_food fuel g ≡ none
unfolding snake_place_food
snake_place_food-stuck zero g e = refl
snake_place_food-stuck (suc fuel) g e =
    let again : (ltb 100 g.length || on_body g.body (food_place g.score) 0 g.length) ≡ true =
      ground (arith, e) in
    rw again (snake_place_food-stuck fuel (record g { food = food_place g.score }) e)
