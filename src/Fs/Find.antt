-- ===== src/Fs/Find.antt =====
-- Looking up a name in a directory: `find_file`.
use nix_core_os.Base.{
  ℕ, zero, suc, ◌+◌, ◌<◌, ◌≡◌, refl, ◌↔◌, ◌∙◌, sym, ap, true, false, List, [], ◌∷◌, Option, none,
  some, ℤ, pos, negsuc, arith, Bool-cases, inl, inr, ◌⊎◌, get_elem?,
}
use mathlib.Core.Path.{subst}
use nix_core_os.Text.{strcmp, is_zero}
use nix_core_os.Text.Compare.{IsText, strcmp-eq-zero_iff, zero_of}
use nix_core_os.Fs.{Node, Fs, same_int, matches, find_from, find_file}

pub same_int_iff : (a b : ℤ) → (same_int a b ≡ true) ↔ (a ≡ b)
unfolding same_int
same_int_iff (pos a) (pos b) = ground arith
same_int_iff (pos a) (negsuc b) = ground arith
same_int_iff (negsuc a) (pos b) = ground arith
same_int_iff (negsuc a) (negsuc b) = ground arith

-- A file is the one asked for if it has the name and the parent.
pub matches_iff :
    (name : List ℕ) (parent_dir : ℤ) (f : Node)
    → IsText name
    → IsText f.name
    → (matches name parent_dir f ≡ true) ↔ ((f.parent_index ≡ parent_dir) × (f.name ≡ name))
unfolding matches
matches_iff name p f hn hf =
    let c = strcmp-eq-zero_iff f.name name hf hn in
    let i = same_int_iff f.parent_index p in
    (
      λ e. (i.0 (ground arith), c.0 (zero_of (strcmp f.name name) (ground arith))),
      λ e.
          let z : is_zero (strcmp f.name name) ≡ true = ap is_zero (c.1 e.1) in
          let s : same_int f.parent_index p ≡ true = i.1 e.0 in rw (s, z) refl,
    )

-- What the search from index `i` on finds.
pub find_from_lem :
    (i : ℕ) (l : List Node) (name : List ℕ) (p : ℤ) (o : Option ℕ)
    → find_from i l name p ≡ o
    → ((o ≡ none) × ((j : ℕ) (f : Node) → get_elem? l j ≡ some f → matches name p f ≡ false))
      ⊎ ((k : ℕ) × (f : Node) × (o ≡ some (i + k))
          × (get_elem? l k ≡ some f)
          × (matches name p f ≡ true)
          × ((j : ℕ) (g : Node) → j < k → get_elem? l j ≡ some g → matches name p g ≡ false))
unfolding find_from
find_from_lem i [] name p o e = inl (sym e, λ j f h. absurd (ground arith))
find_from_lem i (f ∷ r) name p o e = elim (Bool-cases (matches name p f)) [
  | inl m ↦ inr (0, f, ground arith, refl, m, λ j g h. absurd (omega arith))
  | inr m ↦ elim (find_from_lem (i + 1) r name p o (ground arith)) [
    | inl (n, none_such) ↦ inl (n, first f r name p m none_such)
    | inr (k, g, at, there, hit, none_such) ↦ inr (
      suc k,
      g,
      at ∙ ap some (omega arith),
      there,
      hit,
      λ j y lt. before f r name p k m none_such j y lt,
    )
  ]
]
  where
    first :
        (f : Node) (r : List Node) (name : List ℕ) (p : ℤ)
        → matches name p f ≡ false
        → ((j : ℕ) (g : Node) → get_elem? r j ≡ some g → matches name p g ≡ false)
        → (j : ℕ) (g : Node) → get_elem? (f ∷ r) j ≡ some g
        → matches name p g ≡ false
    first f r name p m none_such zero g h = subst (λ x. matches name p x ≡ false) (ground arith) m
    first f r name p m none_such (suc j) g h = none_such j g h

    before :
        (f : Node) (r : List Node) (name : List ℕ) (p : ℤ) (k : ℕ)
        → matches name p f ≡ false
        → ((j : ℕ) (g : Node) → j < k → get_elem? r j ≡ some g → matches name p g ≡ false)
        → (j : ℕ) (g : Node) → j < suc k
        → get_elem? (f ∷ r) j ≡ some g
        → matches name p g ≡ false
    before f r name p k m none_such zero g lt h =
        subst (λ x. matches name p x ≡ false) (ground arith) m
    before f r name p k m none_such (suc j) g lt h = none_such j g (omega arith) h

-- Each name in the table is a string.
abbrev pub Named : List Node → Type 0
Named l = (j : ℕ) (f : Node) → get_elem? l j ≡ some f → IsText f.name

-- `find_file` returns the first file with the name in the directory, and -1 only if there is none.
pub find_file_lem :
    (fs : Fs) (name : List ℕ) (p : ℤ) (o : Option ℕ)
    → IsText name
    → Named fs.files
    → find_file fs name p ≡ o
    → ((o ≡ none)
        × ((j : ℕ) (f : Node)
            → get_elem? fs.files j ≡ some f
            → ¬ ((f.parent_index ≡ p) × (f.name ≡ name))))
      ⊎ ((k : ℕ) × (f : Node) × (o ≡ some k)
          × (get_elem? fs.files k ≡ some f)
          × ((f.parent_index ≡ p) × (f.name ≡ name))
          × ((j : ℕ) (g : Node)
              → j < k
              → get_elem? fs.files j ≡ some g
              → ¬ ((g.parent_index ≡ p) × (g.name ≡ name))))
unfolding find_file
find_file_lem fs name p o hn hf e = elim (find_from_lem 0 fs.files name p o e) [
  | inl (n, none_such) ↦
      inl (n, λ j f h y. ground (arith, none_such j f h, (matches_iff name p f hn (hf j f h)).1 y))
  | inr (k, f, at, there, hit, none_such) ↦ inr (
    k,
    f,
    at ∙ ap some (omega arith),
    there,
    (matches_iff name p f hn (hf k f there)).0 hit,
    λ j g lt h y. ground (arith, none_such j g lt h, (matches_iff name p g hn (hf j g h)).1 y),
  )
]
