-- ===== src/Text/Tokens.antt =====
-- `strtok` of lib/string.c against a description of the token that it cuts out.
use nix_core_os.Base.{
  ℕ, zero, suc, ◌-◌, ◌≤◌, ◌<◌, ◌≡◌, refl, ◌≢◌, ◌∙◌, sym, ap, true, false, List, [], ◌∷◌, ◌++◌,
  Option, none, some, ◌==◌, arith, Bool-cases, Option-cases, inl, inr, ◌⊎◌, length, take, drop,
  length-append, length-drop,
}
use mathlib.Core.Path.{subst}
use nix_core_os.Text.{head, one_of, strchr, strspn, strpbrk, strtok}
use nix_core_os.Text.Compare.{IsText}

-- Every byte, or no byte, of the list is a delimiter.
abbrev pub Delims : List ℕ → List ℕ → Type 0
Delims delim [] = Unit {0}
Delims delim (c ∷ s) = (one_of c delim ≡ true) × Delims delim s

abbrev pub Plain : List ℕ → List ℕ → Type 0
Plain delim [] = Unit {0}
Plain delim (c ∷ s) = (one_of c delim ≡ false) × Plain delim s

-- The string is delimiters, then the token, then its end or a delimiter and the rest, which `last` is
-- left at; at the end of the string it is left null.
pub record Cut (str delim token : List ℕ) (last : Option (List ℕ)) : Type 0 where
  pub before : List ℕ
  pub delims : Delims delim before
  pub plain : Plain delim token
  pub not_empty : token ≢ []
  pub whole :
      ((str ≡ before ++ token) × (last ≡ none))
      ⊎ ((c : ℕ) × (rest : List ℕ) × (one_of c delim ≡ true)
          × (last ≡ some rest)
          × (str ≡ before ++ (token ++ c ∷ rest)))

-- What `strspn` skips, and what it leaves.
span : (s delim : List ℕ) → Delims delim (take (strspn s delim) s)
unfolding strspn
span [] delim = tt
span (c ∷ s) delim = elim (Bool-cases (one_of c delim)) [
  | inl e ↦ rw (e, strspn) (e, span s delim)
  | inr e ↦ rw (e, strspn) tt
]

rejoin : (n : ℕ) (s : List ℕ) → s ≡ take n s ++ drop n s
rejoin zero s = refl
rejoin (suc n) [] = refl
rejoin (suc n) (c ∷ s) = ap (λ r. c ∷ r) (rejoin n s)

drop-IsText : (n : ℕ) (s : List ℕ) → IsText s → IsText (drop n s)
drop-IsText zero s h = h
drop-IsText (suc n) [] h = h
drop-IsText (suc n) (c ∷ s) h = drop-IsText n s h.1

after : (s delim r : List ℕ) (c : ℕ) → drop (strspn s delim) s ≡ c ∷ r → one_of c delim ≡ false
unfolding strspn
after [] delim r c e = ground arith
after (d ∷ s) delim r c e = elim (Bool-cases (one_of d delim)) [
  | inl f ↦ after s delim r c (rw f at e)
  | inr f ↦ let g : d ∷ s ≡ c ∷ r = rw f at e in ground arith
]

no_break : (s delim : List ℕ) → strpbrk s delim ≡ none → Plain delim s
unfolding strpbrk
no_break [] delim e = tt
no_break (c ∷ s) delim e = elim (Bool-cases (one_of c delim)) [
  | inl f ↦ absurd (ground arith)
  | inr f ↦ (f, no_break s delim (ground arith))
]

broken :
    (s delim r : List ℕ)
    → strpbrk s delim ≡ some r
    → (p : List ℕ) × (c : ℕ) × (q : List ℕ) × (r ≡ c ∷ q)
      × (one_of c delim ≡ true)
      × Plain delim p
      × (s ≡ p ++ r)
unfolding strpbrk
broken [] delim r e = absurd (ground arith)
broken (c ∷ s) delim r e = elim (Bool-cases (one_of c delim)) [
  | inl f ↦ ([], c, s, ground arith, f, tt, ground arith)
  | inr f ↦
      let (p, d, q, e1, e2, e3, e4) = broken s delim r (ground arith) in
      (c ∷ p, d, q, e1, e2, (f, e3), ap (λ z. c ∷ z) e4)
]

take-append : (p r : List ℕ) → take (length (p ++ r) - length r) (p ++ r) ≡ p
take-append p r =
    let n : length (p ++ r) - length r ≡ length p = omega (arith, length-append p r) in
    rw n (exact p r)
  where
    exact : (p r : List ℕ) → take (length p) (p ++ r) ≡ p
    exact [] r = refl
    exact (c ∷ p) r = ap (λ z. c ∷ z) (exact p r)

head_some : (s : List ℕ) → (head s == 0) ≡ false → (c : ℕ) × (r : List ℕ) × (s ≡ c ∷ r)
head_some [] h = absurd (ground arith)
head_some (c ∷ r) h = (c, r, refl)

-- The rest of `strtok` on a string that starts with the token.
cut : List ℕ → List ℕ → Option (List ℕ) → Option (List ℕ) × Option (List ℕ)
cut s delim o = elim o [
  | none ↦ (some s, strchr s 0)
  | some r ↦ (some (take (length s - length r) s), some (drop 1 r))
]

cut-Cut :
    (str delim before s token : List ℕ) (rest : Option (List ℕ)) (c : ℕ) (r : List ℕ)
    → strchr s 0 ≡ none
    → str ≡ before ++ s
    → Delims delim before
    → s ≡ c ∷ r
    → one_of c delim ≡ false
    → cut s delim (strpbrk s delim) ≡ (some token, rest)
    → Cut str delim token rest
unfolding cut
cut-Cut str delim before s token rest c r null e d starts plain f =
    elim (Option-cases (strpbrk s delim)) [
      | inl g ↦
          let h : ◌≡◌ {A = Option (List ℕ) × Option (List ℕ)} (some s, none) (some token, rest) =
            rw (g, null) at f in
          let same : s ≡ token = ground arith in
          let nil : rest ≡ none = ground arith in
          record {
            before = before;
            delims = d;
            plain = subst (Plain delim) same (no_break s delim g);
            not_empty = λ z. ground arith;
            whole = inl (subst (λ z. str ≡ before ++ z) same e, nil);
          }
      | inr (k, g) ↦
          let (p, b, q, e1, e2, e3, e4) = broken s delim k g in
          let h : ◌≡◌ {A = Option (List ℕ) × Option (List ℕ)}
              (some (take (length s - length k) s), some (drop 1 k)) (some token, rest) =
            rw g at f in
          let cut_at : take (length s - length k) s ≡ p =
            subst (λ z. take (length z - length k) z ≡ p) (sym e4) (take-append p k) in
          let same : p ≡ token = ground (arith, cut_at, h) in
          let tail : some q ≡ rest = ground (arith, e1, h) in
          record {
            before = before;
            delims = d;
            plain = subst (Plain delim) same e3;
            not_empty = λ z.
                let nil : p ≡ [] = same ∙ z in
                let k_first : k ≡ c ∷ r = rw nil at (sym e4 ∙ starts) in
                let at_c : b ≡ c = ground (arith, e1, k_first) in
                absurd (ground (arith, e2, plain, ap (λ y. one_of y delim) at_c));
            whole = inr (
              b,
              q,
              e2,
              sym tail,
              subst (λ t. str ≡ before ++ (t ++ b ∷ q)) same
                  (e ∙ ap (λ z. before ++ z) (e4 ∙ ap (λ z. p ++ z) e1)),
            );
          }
    ]

strchr-zero : (s : List ℕ) → IsText s → strchr s 0 ≡ none
unfolding strchr
strchr-zero [] h = refl
strchr-zero (c ∷ s) h = ground (arith, h.0, strchr-zero s h.1)

strchr-length : (s l : List ℕ) (c : ℕ) → strchr s c ≡ some l → length l ≤ length s
unfolding strchr
strchr-length [] l c e = absurd (ground arith)
strchr-length (d ∷ s) l c e = elim (Bool-cases (d == c)) [
  | inl f ↦ let same : d ∷ s ≡ l = ground arith in omega (arith, ap length same)
  | inr f ↦ omega (arith, strchr-length s l c (ground arith))
]

all-Delims : (s delim : List ℕ) → IsText s → head (drop (strspn s delim) s) ≡ 0 → Delims delim s
unfolding strspn
all-Delims [] delim h e = tt
all-Delims (c ∷ s) delim h e = elim (Bool-cases (one_of c delim)) [
  | inl f ↦ (f, all-Delims s delim h.1 (rw f at e))
  | inr f ↦ let g : c ≡ 0 = rw f at e in absurd (h.0 g)
]

-- `strtok` cuts the first token: it skips delimiters, takes the longest run of other bytes and goes on
-- behind the delimiter that follows; it returns null only if nothing but delimiters is left. If no
-- delimiter follows the token, the pointer for the next call is null, not the end of the string.
pub strtok-Cut :
    (str delim : List ℕ) (o last : Option (List ℕ))
    → IsText str
    → strtok str delim ≡ (o, last)
    → ((o ≡ none) × Delims delim str)
      ⊎ ((token : List ℕ) × (o ≡ some token) × Cut str delim token last)
unfolding strtok cut
strtok-Cut str delim o rest h e =
    let s = drop (strspn str delim) str in
    elim (Bool-cases (head s == 0)) [
      | inl z ↦
          let f : ◌≡◌ {A = Option (List ℕ) × Option (List ℕ)} (none, some s) (o, rest) =
            rw z at e in
          inl (sym (ap (λ x. x.0) f), all-Delims str delim h (ground arith))
      | inr nz ↦
          let (c, r, starts) = head_some s nz in
          let f : cut s delim (strpbrk s delim) ≡ (o, rest) = rw nz at e in
          elim (Option-cases o) [
            | inl n ↦ absurd (ground (arith, never s delim (strpbrk s delim) o rest f n))
            | inr (token, some_o) ↦ inr (
              token,
              some_o,
              cut-Cut str delim (take (strspn str delim) str) s token rest c r
                  (strchr-zero s (drop-IsText (strspn str delim) str h))
                  (rejoin (strspn str delim) str) (span str delim) starts
                  (after str delim r c starts) (rw some_o at f),
            )
          ]
    ]
  where
    never :
        (s delim : List ℕ) (k : Option (List ℕ)) (o l : Option (List ℕ))
        → cut s delim k ≡ (o, l)
        → o ≡ none
        → ⊥
    never s delim none o l e n = ground (arith, e, n)
    never s delim (some k) o l e n = ground (arith, e, n)

strpbrk-length : (s delim r : List ℕ) → strpbrk s delim ≡ some r → length r ≤ length s
unfolding strpbrk
strpbrk-length [] delim r e = absurd (ground arith)
strpbrk-length (c ∷ s) delim r e = elim (Bool-cases (one_of c delim)) [
  | inl f ↦ let same : c ∷ s ≡ r = ground arith in omega (arith, ap length same)
  | inr f ↦ omega (arith, strpbrk-length s delim r (ground arith))
]

cut-length :
    (s delim token rest : List ℕ) (c : ℕ) (r : List ℕ)
    → s ≡ c ∷ r
    → (c == 0) ≡ false
    → cut s delim (strpbrk s delim) ≡ (some token, some rest)
    → length rest < length s
unfolding cut
cut-length s delim token rest c r starts live f = elim (Option-cases (strpbrk s delim)) [
  | inl g ↦
      let h : ◌≡◌ {A = Option (List ℕ) × Option (List ℕ)} (some s, strchr s 0)
          (some token, some rest) =
        rw g at f in
      let k : strchr (c ∷ r) 0 ≡ some rest = rw starts at (ap (λ x. x.1) h) in
      let l : strchr r 0 ≡ some rest = unfold strchr in ground (arith, k, live) in
      omega (arith, ap length starts, strchr-length r rest 0 l)
  | inr (k, g) ↦
      let h : ◌≡◌ {A = Option (List ℕ) × Option (List ℕ)}
          (some (take (length s - length k) s), some (drop 1 k)) (some token, some rest) =
        rw g at f in
      let same : drop 1 k ≡ rest = ground (arith, h) in
      omega (arith, ap length starts, ap length same, length-drop 1 k, strpbrk-length s delim k g)
]

-- A call that returns a token leaves less than it was given.
pub strtok-length :
    (str delim token rest : List ℕ)
    → strtok str delim ≡ (some token, some rest)
    → length rest < length str
unfolding strtok cut
strtok-length str delim token rest e =
    let s = drop (strspn str delim) str in
    elim (Bool-cases (head s == 0)) [
      | inl z ↦ absurd (ground arith)
      | inr nz ↦
          let (c, r, starts) = head_some s nz in
          let f : cut s delim (strpbrk s delim) ≡ (some token, some rest) = rw nz at e in
          omega (
            arith,
            cut-length s delim token rest c r starts (rw starts at nz) f,
            length-drop (strspn str delim) str,
          )
    ]
