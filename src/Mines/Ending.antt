-- ===== src/Mines/Ending.antt =====
-- The recursion over the neighbours keeps a board sound, and ends.
use nix_core_os.Base.{
  ℕ, zero, suc, ◌+◌, ◌≤◌, ◌<◌, ◌≡◌, refl, ap, sym, ◌∙◌, false, List, [], ◌∷◌, ◌==◌, arith,
  Bool-cases, Option-cases, inl, inr, ℤ, ◌+ℤ◌,
}
use nix_core_os.Mines.{Board, target, opened, call_all, neighbours, minesweeper_reveal_cell}
use nix_core_os.Mines.Counting.{count-bound}
use nix_core_os.Mines.Sound.{cells, IsSound, target_lem, opened-IsSound}

-- A board after a call: of the same cells, with no fewer revealed.
abbrev pub Grows : Board → Board → Type 0
Grows b b' = IsSound b' × (cells b' ≡ cells b) × (b.revealed_count ≤ b'.revealed_count)

call_all-Grows :
    (f : Board → ℤ → ℤ → Board)
    → ((b : Board) (x y : ℤ) → IsSound b → Grows b (f b x y))
    → (around : List (ℤ × ℤ)) (x y : ℤ) (b : Board) → IsSound b
    → Grows b (call_all f around x y b)
call_all-Grows f grows [] x y b sound = (sound, refl, omega arith)
call_all-Grows f grows ((dx, dy) ∷ around) x y b sound =
    let b' = f b (x +ℤ dx) (y +ℤ dy) in
    let (sound', same, more) = grows b (x +ℤ dx) (y +ℤ dy) sound in
    let (sound'', same', more') = call_all-Grows f grows around x y b' sound' in
    (sound'', same' ∙ same, omega arith)

opened-Grows :
    (b : Board) (i : ℕ)
    → i < cells b
    → b.game_over ≡ false
    → b.revealed i ≡ false
    → IsSound b
    → Grows b (opened b i)
unfolding opened
opened-Grows b i below runs hidden sound =
    (opened-IsSound b i below runs hidden sound, refl, omega arith)

pub minesweeper_reveal_cell-Grows :
    (fuel : ℕ) (b : Board) (x y : ℤ) → IsSound b → Grows b (minesweeper_reveal_cell fuel b x y)
unfolding minesweeper_reveal_cell
minesweeper_reveal_cell-Grows zero b x y sound = (sound, refl, omega arith)
minesweeper_reveal_cell-Grows (suc fuel) b x y sound = elim (Option-cases (target b x y)) [
  | inl e ↦ rw (minesweeper_reveal_cell, e) (sound, refl, omega arith)
  | inr (i, e) ↦
      let (below, runs, hidden) = target_lem b x y i e in
      let first = opened-Grows b i below runs hidden sound in
      elim (Bool-cases (b.field i == 0)) [
        | inr g ↦ rw (minesweeper_reveal_cell, e, g) first
        | inl g ↦
            let (sound', same, more) = first in
            let (sound'', same', more') =
              call_all-Grows (minesweeper_reveal_cell fuel) (minesweeper_reveal_cell-Grows fuel)
                neighbours x y (opened b i) sound' in
            rw (minesweeper_reveal_cell, e, g) (sound'', same' ∙ same, omega arith)
      ]
]

-- Fuel for the cells that are hidden.
abbrev pub Enough : ℕ → Board → Type 0
Enough fuel b = cells b < b.revealed_count + fuel

call_all-same :
    (f g : Board → ℤ → ℤ → Board) (fuel : ℕ)
    → ((b : Board) (x y : ℤ) → IsSound b → Grows b (f b x y))
    → ((b : Board) (x y : ℤ) → IsSound b → Enough fuel b → f b x y ≡ g b x y)
    → (around : List (ℤ × ℤ)) (x y : ℤ) (b : Board) → IsSound b
    → Enough fuel b
    → call_all f around x y b ≡ call_all g around x y b
call_all-same f g fuel grows same [] x y b sound h = refl
call_all-same f g fuel grows same ((dx, dy) ∷ around) x y b sound h =
    let b' = f b (x +ℤ dx) (y +ℤ dy) in
    let (sound', cells_same, more) = grows b (x +ℤ dx) (y +ℤ dy) sound in
    call_all-same f g fuel grows same around x y b' sound' (omega arith)
    ∙ ap (call_all g around x y) (same b (x +ℤ dx) (y +ℤ dy) sound h)

opened_count : (b : Board) (i : ℕ) → (opened b i).revealed_count ≡ b.revealed_count + 1
unfolding opened
opened_count b i = refl

one_more :
    (fuel : ℕ) (b : Board) (x y : ℤ)
    → IsSound b
    → Enough fuel b
    → minesweeper_reveal_cell fuel b x y ≡ minesweeper_reveal_cell (suc fuel) b x y
unfolding minesweeper_reveal_cell
one_more zero b x y sound h =
    absurd (omega (arith, sound.0, count-bound b.revealed (λ i. false) (cells b) (λ i l e. refl)))
one_more (suc fuel) b x y sound h = elim (Option-cases (target b x y)) [
  | inl e ↦ rw (minesweeper_reveal_cell, e) refl
  | inr (i, e) ↦
      let (below, runs, hidden) = target_lem b x y i e in
      let (sound', same, more) = opened-Grows b i below runs hidden sound in
      elim (Bool-cases (b.field i == 0)) [
        | inr g ↦ rw (minesweeper_reveal_cell, e, g) refl
        | inl g ↦
            rw (minesweeper_reveal_cell, e, g)
              (call_all-same (minesweeper_reveal_cell fuel) (minesweeper_reveal_cell (suc fuel))
                fuel (minesweeper_reveal_cell-Grows fuel) (one_more fuel) neighbours x y
                (opened b i) sound' (omega (arith, opened_count b i)))
      ]
]

-- The recursion ends: more fuel than there are hidden cells changes nothing.
pub minesweeper_reveal_cell-ends :
    (fuel more : ℕ) (b : Board) (x y : ℤ)
    → IsSound b
    → cells b < b.revealed_count + fuel
    → minesweeper_reveal_cell (fuel + more) b x y ≡ minesweeper_reveal_cell fuel b x y
minesweeper_reveal_cell-ends fuel zero b x y sound h =
    ap (λ n. minesweeper_reveal_cell n b x y) (omega arith)
minesweeper_reveal_cell-ends fuel (suc more) b x y sound h =
    let e : fuel + suc more ≡ suc (fuel + more) = omega arith in
    ap (λ n. minesweeper_reveal_cell n b x y) e
    ∙ sym (one_more (fuel + more) b x y sound (omega arith))
    ∙ minesweeper_reveal_cell-ends fuel more b x y sound h
