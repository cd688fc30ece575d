-- ===== src/Text/Utf8.antt =====
-- `utf8_to_ascii` of lib/string.c.
use nix_core_os.Base.{
  ℕ, zero, suc, ◌-◌, ◌/◌, ◌≤◌, ◌<◌, ◌≡◌, refl, ◌≢◌, Bool, true, false, List, [], ◌∷◌, some, leb,
  ltb, ◌==◌, ◌&&◌, not, arith, Bool-cases, Option-cases, inl, inr, length, if◌then◌else◌, drop,
  get_or,
}
use nix_core_os.Text.{ascii_of, ascii_cases, cyrillic_map, case_of, utf8_to_ascii}
use nix_core_os.Text.Compare.{IsText}

-- A printable character: 32 to 126.
abbrev IsPlain : ℕ → Type 0
IsPlain v = (32 ≤ v) × (v < 127)

abbrev all_plain : List (ℕ × ℕ) → Bool
all_plain [] = true
all_plain ((k, v) ∷ r) = leb 32 v && ltb v 127 && all_plain r

abbrev all_letters : List ℕ → Bool
all_letters [] = true
all_letters (v ∷ r) = leb 32 v && ltb v 127 && all_letters r

case_of-IsPlain :
    (l : List (ℕ × ℕ)) (c v : ℕ) → all_plain l ≡ true → case_of l c ≡ some v → IsPlain v
unfolding case_of
case_of-IsPlain [] c v h e = absurd (ground arith)
case_of-IsPlain ((k, w) ∷ r) c v h e = ground (arith, case_of-IsPlain r c v)

get_or-letter : (l : List ℕ) (i : ℕ) → all_letters l ≡ true → IsPlain (get_or l i 63)
get_or-letter [] i h = ground arith
get_or-letter (v ∷ r) zero h = ground arith
get_or-letter (v ∷ r) (suc i) h = get_or-letter r i (ground arith)

ascii_of-IsPlain : (c : ℕ) → IsPlain (ascii_of c)
unfolding ascii_of
ascii_of-IsPlain c = elim (Option-cases (case_of ascii_cases c)) [
  | inl e ↦ rw (e, ascii_of) (letter c)
  | inr (v, e) ↦ rw (e, ascii_of) (case_of-IsPlain ascii_cases c v refl e)
]
  where
    letter :
        (c : ℕ)
        → IsPlain (if leb 0x0410 c && leb c 0x044F then get_or cyrillic_map (c - 0x0410) 63 else 63)
    letter c = elim (Bool-cases (leb 0x0410 c && leb c 0x044F)) [
      | inl e ↦ rw e (get_or-letter cyrillic_map (c - 0x0410) refl)
      | inr e ↦ rw e (omega arith)
    ]

reaches : (s : List ℕ) (i : ℕ) → get_or s i 0 ≢ 0 → i < length s
reaches [] i h = absurd (h refl)
reaches (c ∷ s) zero h = omega arith
reaches (c ∷ s) (suc i) h = omega (arith, reaches s i h)

-- A conditional has what both of its values have under the test.
if_cases :
    {A : Type 0} (P : A → Type 0) (b : Bool) {x y : A}
    → (b ≡ true → P x)
    → (b ≡ false → P y)
    → P (if b then x else y)
if_cases P true f g = f refl
if_cases P false f g = g refl

-- The character is one of 1 to 127, and `rest` is the text without its first 1 to 4 bytes.
pub record Moves (text : List ℕ) (c : ℕ) (rest : List ℕ) : Type 0 where
  pub count : ℕ
  pub some_bytes : (0 < count) × (count ≤ 4) × (count ≤ length text)
  pub rest_drops : rest ≡ drop count text
  pub seven_bits : (0 < c) × (c < 128)

moves :
    (text : List ℕ) (c n : ℕ)
    → 0 < c
    → c < 128
    → 0 < n
    → n ≤ 4
    → n ≤ length text
    → Moves text c (drop n text)
moves text c n a b d e f = record {
  count = n;
  some_bytes = (d, e, f);
  rest_drops = refl;
  seven_bits = (a, b);
}

-- On a string that is not empty `utf8_to_ascii` moves on by 1 to 4 bytes and not beyond the end of
-- the string, and returns a 7-bit character that is not zero.
pub utf8_to_ascii-Moves :
    (text : List ℕ)
    → IsText text
    → text ≢ []
    → Moves text (utf8_to_ascii text).0 (utf8_to_ascii text).1
unfolding utf8_to_ascii
utf8_to_ascii-Moves [] h ne = absurd (ne refl)
utf8_to_ascii-Moves (c ∷ s) h ne =
    let text = c ∷ s in
    let decoded : (k n : ℕ)
        → 0 < n
        → n ≤ 4
        → n ≤ length text
        → Moves text (ascii_of k) (drop n text) =
      λ k n a b d.
        moves text (ascii_of k) n (omega (arith, ascii_of-IsPlain k))
          (omega (arith, ascii_of-IsPlain k)) a b d in
    let P : ℕ × List ℕ → Type 0 = λ x. Moves text x.0 x.1 in
    let two = (c / 32 == 6) && not (get_or text 1 0 == 0) in
    let three = (c / 16 == 14) && not (get_or text 1 0 == 0) && not (get_or text 2 0 == 0) in
    let four =
      (c / 8 == 30)
      && not (get_or text 1 0 == 0)
      && not (get_or text 2 0 == 0)
      && not (get_or text 3 0 == 0) in
    let in_two : two ≡ true → 2 ≤ length text = λ e. ground (arith, e, reaches text 1) in
    let in_three : three ≡ true → 3 ≤ length text = λ e. ground (arith, e, reaches text 2) in
    let in_four : four ≡ true → 4 ≤ length text = λ e. ground (arith, e, reaches text 3) in
    let one : (k : ℕ) → 0 < k → k < 128 → Moves text k s =
      λ k a b. moves text k 1 a b (omega arith) (omega arith) (omega arith) in
    if_cases P (c == 0) (λ e. absurd (ground (arith, h.0)))
      (λ e.
        if_cases P (ltb c 0x80) (λ f. one c (ground arith) (ground arith))
          (λ f.
            if_cases P two (λ g. decoded _ 2 (omega arith) (omega arith) (in_two g))
              (λ g.
                if_cases P three (λ k. decoded _ 3 (omega arith) (omega arith) (in_three k))
                  (λ k.
                    if_cases P four (λ l. decoded _ 4 (omega arith) (omega arith) (in_four l))
                      (λ l. one 63 (omega arith) (omega arith))))))
