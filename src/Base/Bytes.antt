-- ===== src/Base/Bytes.antt =====
-- Bytes of memory, read as a list and written from one.
use Prim.Native.Nat.{ℕ, zero, suc, ◌+◌, ◌≤◌, ◌<◌}
use mathlib.Core.Path.{◌≡◌, refl, ap, ◌∙◌}
use mathlib.Core.List.{List, [], ◌∷◌, ◌++◌}
use native.Mathlib.Omega.{arith}
use nix_core_os.Base.Tests.{if◌then◌else◌, ◌==◌}
use nix_core_os.Base.Lists.{length}

abbrev pub bytes_at : (ℕ → ℕ) → ℕ → ℕ → List ℕ
bytes_at p a zero = []
bytes_at p a (suc n) = p a ∷ bytes_at p (a + 1) n

abbrev pub put_byte : (ℕ → ℕ) → ℕ → ℕ → ℕ → ℕ
put_byte p a v b = if b == a then v else p b

pub bytes_at-cong :
    (p q : ℕ → ℕ) (a n : ℕ)
    → ((i : ℕ) → a ≤ i → i < a + n → q i ≡ p i)
    → bytes_at q a n ≡ bytes_at p a n
bytes_at-cong p q a zero same = refl
bytes_at-cong p q a (suc n) same =
    rw (same a (omega arith) (omega arith)) (
      ap (λ l. p a ∷ l) (bytes_at-cong p q (a + 1) n (λ i h k. same i (omega arith) (omega arith))))

pub bytes_at-append :
    (p : ℕ → ℕ) (a n m : ℕ) → bytes_at p a (n + m) ≡ bytes_at p a n ++ bytes_at p (a + n) m
bytes_at-append p a zero m =
    let e : a + 0 ≡ a = omega arith in let e' : 0 + m ≡ m = omega arith in rw (e, e') refl
bytes_at-append p a (suc n) m =
    let e : a + 1 + n ≡ a + suc n = omega arith in
    let f : suc n + m ≡ suc (n + m) = omega arith in
    ap (bytes_at p a) f
    ∙ ap (λ t. p a ∷ t)
        (bytes_at-append p (a + 1) n m ∙ ap (λ b. bytes_at p (a + 1) n ++ bytes_at p b m) e)

pub put_byte-here : (p : ℕ → ℕ) (a c : ℕ) → put_byte p a c a ≡ c
put_byte-here p a c = ground arith

-- The bytes of a list, written from `a` on.
abbrev pub put_bytes : (ℕ → ℕ) → ℕ → List ℕ → ℕ → ℕ
put_bytes p a [] = p
put_bytes p a (c ∷ l) = put_bytes (put_byte p a c) (suc a) l

pub put_bytes-below : (p : ℕ → ℕ) (a : ℕ) (l : List ℕ) (i : ℕ) → i < a → put_bytes p a l i ≡ p i
put_bytes-below p a [] i h = refl
put_bytes-below p a (c ∷ l) i h =
    put_bytes-below (put_byte p a c) (suc a) l i (omega arith) ∙ ground arith

pub bytes_at-put_bytes :
    (p : ℕ → ℕ) (a : ℕ) (l : List ℕ) → bytes_at (put_bytes p a l) a (length l) ≡ l
bytes_at-put_bytes p a [] = refl
bytes_at-put_bytes p a (c ∷ l) = rw (put_bytes-below (put_byte p a c) (suc a) l a (omega arith)) (
    ap (λ h. h ∷ bytes_at (put_bytes p a (c ∷ l)) (a + 1) (length l)) (put_byte-here p a c)
    ∙ ap (λ b. c ∷ bytes_at (put_bytes (put_byte p a c) (suc a) l) b (length l)) (omega arith)
    ∙ ap (λ t. c ∷ t) (bytes_at-put_bytes (put_byte p a c) (suc a) l))
