-- ===== src/Mines/Counting.antt =====
-- How many of the first cells have a property.
use nix_core_os.Base.{
  ℕ, zero, suc, ◌+◌, ◌≤◌, ◌<◌, ◌≡◌, refl, ap, sym, ◌∙◌, Bool, true, false, ◌==◌, if◌then◌else◌,
  arith, Bool-cases, inl, inr,
}

pub count : (ℕ → Bool) → ℕ → ℕ
count p zero = 0
count p (suc n) = (if p n then 1 else 0) + count p n

abbrev pub with_cell : (ℕ → Bool) → ℕ → ℕ → Bool
with_cell p i j = if j == i then true else p j

pub count-cong : (p q : ℕ → Bool) (n : ℕ) → ((i : ℕ) → i < n → p i ≡ q i) → count p n ≡ count q n
unfolding count
count-cong p q zero h = refl
count-cong p q (suc n) h =
    rw (h n (omega arith))
      (ap (λ k. (if q n then 1 else 0) + k) (count-cong p q n (λ i l. h i (omega arith))))

pub count-with_cell :
    (p : ℕ → Bool) (i n : ℕ) → i < n → p i ≡ false → count (with_cell p i) n ≡ count p n + 1
unfolding count
count-with_cell p i zero h e = absurd (omega arith)
count-with_cell p i (suc n) h e = elim (Bool-cases (n == i)) [
  | inl same ↦
      let n_is : n ≡ i = ground (arith, same) in
      let off : p n ≡ false = ap p n_is ∙ e in
      let rest : count (with_cell p i) n ≡ count p n =
        count-cong (with_cell p i) p n
          (λ j l. let other : (j == i) ≡ false = ground arith in rw other refl) in
      rw (same, off, rest) (omega arith)
  | inr other ↦
      let below : i < n = ground (arith, other) in
      let rest = count-with_cell p i n below e in rw (other, rest) (omega arith)
]

pub count-bound :
    (p q : ℕ → Bool) (n : ℕ)
    → ((i : ℕ) → i < n → p i ≡ true → q i ≡ false)
    → count p n + count q n ≤ n
unfolding count
count-bound p q zero h = omega arith
count-bound p q (suc n) h =
    let rest = count-bound p q n (λ i l e. h i (omega arith) e) in
    elim (Bool-cases (p n)) [
      | inl e ↦ rw (e, h n (omega arith) e) (omega arith)
      | inr e ↦
          rw e (elim (Bool-cases (q n)) [ inl g ↦ rw g (omega arith) | inr g ↦ rw g (omega arith) ])
    ]

-- If two properties that exclude one another hold for n of the first n cells, each cell has one of
-- them.
pub count-all :
    (p q : ℕ → Bool) (n : ℕ)
    → ((i : ℕ) → i < n → p i ≡ true → q i ≡ false)
    → count p n + count q n ≡ n
    → (i : ℕ) → i < n
    → q i ≡ false
    → p i ≡ true
unfolding count
count-all p q zero h e i l clear = absurd (omega arith)
count-all p q (suc n) h e i l clear =
    let before = count-bound p q n (λ j k g. h j (omega arith) g) in
    let one : (if p n then 1 else 0) + (if q n then 1 else 0) ≤ 1 = elim (Bool-cases (p n)) [
      | inl g ↦ rw (g, h n (omega arith) g) (omega arith)
      | inr g ↦
          rw g (elim (Bool-cases (q n)) [ inl k ↦ rw k (omega arith) | inr k ↦ rw k (omega arith) ])
    ] in
    elim (Bool-cases (i == n)) [
      | inl same ↦
          let i_is : i ≡ n = ground (arith, same) in
          let off : q n ≡ false = ap q (sym i_is) ∙ clear in
          elim (Bool-cases (p n)) [
            | inl g ↦ ap p i_is ∙ g
            | inr g ↦
                let none_here : (if p n then 1 else 0) + (if q n then 1 else 0) ≡ 0 =
                  rw (g, off) refl in
                absurd (omega arith)
          ]
      | inr other ↦
          let below : i < n = ground (arith, other) in
          count-all p q n (λ j k g. h j (omega arith) g) (omega arith) i below clear
    ]

pub no_cells : (p : ℕ → Bool) (n : ℕ) → ((i : ℕ) → i < n → p i ≡ false) → count p n ≡ 0
unfolding count
no_cells p zero h = refl
no_cells p (suc n) h =
    let rest = no_cells p n (λ i l. h i (omega arith)) in rw (h n (omega arith)) (omega arith)
