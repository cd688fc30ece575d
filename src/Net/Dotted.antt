-- ===== src/Net/Dotted.antt =====
-- Addresses in dotted form.
use nix_core_os.Base.{
  ℕ, zero, suc, ◌+◌, ◌*◌, ◌/◌, ◌%◌, ◌^◌, ◌≤◌, ◌<◌, ◌≡◌, refl, ◌∙◌, ap, List, [], ◌∷◌, ◌++◌, arith,
  ◌==◌, ◌-◌, true, false, Bool-cases, inl, inr, ◌⊎◌, leb, ◌&&◌, none, some,
}
use native.Mathlib.Nat.{pow-suc}
use nix_core_os.Net.{digits, skip_dot, or_bits, inet_loop, inet_addr}

-- Some byte is neither a digit nor a dot.
pub data Strange : List ℕ → Type 0 where
  here : {c : ℕ} {s : List ℕ} → c < 46 ⊎ ((c ≡ 47) ⊎ 57 < c) → Strange (c ∷ s)
  there : {c : ℕ} {s : List ℕ} → Strange s → Strange (c ∷ s)

digits-Strange : (s : List ℕ) (v : ℕ) → Strange s → Strange (digits s v).1
unfolding digits
digits-Strange [] v h = elim h [ ]
digits-Strange (c ∷ s) v (here h) =
    let no : (leb 48 c && leb c 57) ≡ false = ground arith in rw (no, digits) (here h)
digits-Strange (c ∷ s) v (there h) = elim (Bool-cases (leb 48 c && leb c 57)) [
  | inl e ↦ rw (e, digits) (digits-Strange s (v * 10 + (c - 48)) h)
  | inr e ↦ rw (e, digits) (there h)
]

skip_dot-Strange : (s : List ℕ) → Strange s → Strange (skip_dot s)
skip_dot-Strange [] h = elim h [ ]
skip_dot-Strange (c ∷ s) (here h) = let no : (c == 46) ≡ false = ground arith in rw no (here h)
skip_dot-Strange (c ∷ s) (there h) = elim (Bool-cases (c == 46)) [
  | inl e ↦ rw e h
  | inr e ↦ rw e (there h)
]

loop-Strange : (s : List ℕ) (k addr : ℕ) → Strange s → inet_loop s k addr ≡ none
unfolding inet_loop
loop-Strange [] k addr h = elim h [ ]
loop-Strange (c ∷ s) zero addr h = refl
loop-Strange (c ∷ s) (suc k) addr h =
    loop-Strange (skip_dot (digits (c ∷ s) 0).1) k
      (or_bits 32 addr ((digits (c ∷ s) 0).0 * 2 ^ (8 * k) % 2 ^ 32))
      (skip_dot-Strange _ (digits-Strange (c ∷ s) 0 h))

or_bits-zero : (w a : ℕ) → a < 2 ^ w → or_bits w a 0 ≡ a
unfolding or_bits
or_bits-zero zero a h = omega arith
or_bits-zero (suc w) a h = ground (arith, or_bits-zero w (a / 2) (omega (arith, pow-suc 2 w)))

-- Words without a common one bit are added.
or_bits_lem :
    (k w q b : ℕ)
    → b < 2 ^ k
    → k ≤ w
    → q * 2 ^ k + b < 2 ^ w
    → or_bits w (q * 2 ^ k) b ≡ q * 2 ^ k + b
unfolding or_bits
or_bits_lem zero w q b h h' l =
    let no : b ≡ 0 = omega arith in rw no (or_bits-zero w (q * 2 ^ 0) (omega arith) ∙ omega arith)
or_bits_lem (suc k) zero q b h h' l = absurd (omega arith)
or_bits_lem (suc k) (suc w) q b h h' l =
    let twice : q * 2 ^ suc k ≡ 2 * (q * 2 ^ k) = ap (λ p. q * p) (pow-suc 2 k) ∙ omega arith in
    let half : q * 2 ^ suc k / 2 ≡ q * 2 ^ k = omega (arith, twice) in
    let even : q * 2 ^ suc k % 2 ≡ 0 = omega (arith, twice) in
    let below =
      or_bits_lem k w q (b / 2) (omega (arith, pow-suc 2 k)) (omega arith)
        (omega (arith, pow-suc 2 w, twice)) in
    rw (half, even) (rw below (omega (arith, twice)))

-- The number of a string of digits, behind `v`.
abbrev pub value : ℕ → List ℕ → ℕ
value v [] = v
value v (c ∷ s) = value (v * 10 + (c - 48)) s

abbrev pub AreDigits : List ℕ → Type 0
AreDigits [] = Unit
AreDigits (c ∷ s) = (48 ≤ c) × (c ≤ 57) × AreDigits s

digits_lem : (d s : List ℕ) (v : ℕ) → AreDigits d → digits (d ++ 46 ∷ s) v ≡ (value v d, 46 ∷ s)
unfolding digits
digits_lem [] s v h = refl
digits_lem (c ∷ d) s v (a, b, h) =
    let yes' : (leb 48 c && leb c 57) ≡ true = ground arith in
    rw (yes', digits) (digits_lem d s (v * 10 + (c - 48)) h)

digits_end : (d : List ℕ) (v : ℕ) → AreDigits d → digits d v ≡ (value v d, [])
unfolding digits
digits_end [] v h = refl
digits_end (c ∷ d) v (a, b, h) =
    let yes' : (leb 48 c && leb c 57) ≡ true = ground arith in
    rw (yes', digits) (digits_end d (v * 10 + (c - 48)) h)

-- A round of the loop.
round_lem :
    (d s : List ℕ) (k addr : ℕ)
    → AreDigits d
    → inet_loop (d ++ 46 ∷ s) (suc k) addr
      ≡ inet_loop s k (or_bits 32 addr (value 0 d * 2 ^ (8 * k) % 2 ^ 32))
unfolding inet_loop digits
round_lem [] s k addr h = refl
round_lem (c ∷ d) s k addr h = rw (inet_loop, digits_lem (c ∷ d) s 0 h) refl

last_round :
    (c : ℕ) (d : List ℕ) (k addr : ℕ)
    → AreDigits (c ∷ d)
    → inet_loop (c ∷ d) (suc k) addr
      ≡ some (or_bits 32 addr (value 0 (c ∷ d) * 2 ^ (8 * k) % 2 ^ 32))
unfolding inet_loop
last_round c d k addr h = rw (inet_loop, digits_end (c ∷ d) 0 h) refl

-- Four numbers below 256 in decimal digits, with dots between them and the last not empty, are the bytes
-- of the address that `inet_addr` returns, the first number its highest byte.
pub inet_addr_dotted :
    (a b c : List ℕ) (e : ℕ) (d : List ℕ)
    → AreDigits a × AreDigits b × AreDigits c × AreDigits (e ∷ d)
    → (value 0 a < 256) × (value 0 b < 256) × (value 0 c < 256) × (value 0 (e ∷ d) < 256)
    → inet_addr (a ++ 46 ∷ (b ++ 46 ∷ (c ++ 46 ∷ e ∷ d)))
      ≡ some (((value 0 a * 256 + value 0 b) * 256 + value 0 c) * 256 + value 0 (e ∷ d))
unfolding inet_addr
inet_addr_dotted a b c e d (ha, hb, hc, hd) (la, lb, lc, ld) =
    let first : or_bits 32 0 (value 0 a * 2 ^ 24 % 2 ^ 32) ≡ value 0 a * 2 ^ 24 =
      or_bits_lem 32 32 0 (value 0 a * 2 ^ 24 % 2 ^ 32) (omega arith) (omega arith) (omega arith)
      ∙ omega arith in
    let second : or_bits 32 (value 0 a * 2 ^ 24) (value 0 b * 2 ^ 16 % 2 ^ 32)
        ≡ (value 0 a * 256 + value 0 b) * 2 ^ 16 =
      or_bits_lem 24 32 (value 0 a) (value 0 b * 2 ^ 16 % 2 ^ 32) (omega arith) (omega arith)
        (omega arith)
      ∙ omega arith in
    let third : or_bits 32 ((value 0 a * 256 + value 0 b) * 2 ^ 16) (value 0 c * 2 ^ 8 % 2 ^ 32)
        ≡ ((value 0 a * 256 + value 0 b) * 256 + value 0 c) * 2 ^ 8 =
      or_bits_lem 16 32 (value 0 a * 256 + value 0 b) (value 0 c * 2 ^ 8 % 2 ^ 32) (omega arith)
        (omega arith) (omega arith)
      ∙ omega arith in
    let fourth =
      or_bits_lem 8 32 ((value 0 a * 256 + value 0 b) * 256 + value 0 c)
        (value 0 (e ∷ d) * 2 ^ 0 % 2 ^ 32) (omega arith) (omega arith) (omega arith) in
    round_lem a (b ++ 46 ∷ (c ++ 46 ∷ e ∷ d)) 3 0 ha
    ∙ ap (inet_loop (b ++ 46 ∷ (c ++ 46 ∷ e ∷ d)) 3) first
    ∙ round_lem b (c ++ 46 ∷ e ∷ d) 2 (value 0 a * 2 ^ 24) hb
    ∙ ap (inet_loop (c ++ 46 ∷ e ∷ d) 2) second
    ∙ round_lem c (e ∷ d) 1 ((value 0 a * 256 + value 0 b) * 2 ^ 16) hc
    ∙ ap (inet_loop (e ∷ d) 1) third
    ∙ last_round e d 0 (((value 0 a * 256 + value 0 b) * 256 + value 0 c) * 2 ^ 8) hd
    ∙ ap some (fourth ∙ omega arith)

-- A string with a byte that is neither a digit nor a dot makes `inet_addr` shift by a negative count,
-- which C does not define; no such string is refused.
pub inet_addr-Strange : (cp : List ℕ) → Strange cp → inet_addr cp ≡ none
unfolding inet_addr
inet_addr-Strange cp h = loop-Strange cp 4 0 h
