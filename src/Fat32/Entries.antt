-- ===== src/Fat32/Entries.antt =====
-- The entries of a directory, as the bytes of its clusters, and their names and inodes.
use nix_core_os.Base.{
  ℕ, zero, suc, ◌+◌, ◌*◌, ◌/◌, ◌%◌, ◌^◌, ◌<◌, ◌≡◌, ◌⊎◌, ◌∙◌, sym, refl, ap, true, false, List, [],
  ◌∷◌, ◌++◌, ◌==◌, not, ℤ, pos, arith, take, get_or, bytes_at, inl, inr, Bool-cases,
}
use nix_core_os.Text.{strcmp, is_zero}
use nix_core_os.Text.Compare.{IsText, strcmp-eq-zero_iff}
use nix_core_os.Fat32.{Fat, Inode, to_zero, entry_named, entry_inode, cluster_size, first_sector}
use nix_core_os.Fat32.Content.{cluster_byte}

-- `n` entries of 32 bytes.
abbrev pub entries : (ℕ → ℕ) → ℕ → ℕ → List (List ℕ)
entries p at zero = []
entries p at (suc n) = bytes_at p at 32 ∷ entries p (at + 32) n

-- The entries of a directory, one cluster after the other.
abbrev pub directory_entries : (ℕ → ℕ → ℕ) → Fat → List ℕ → List (List ℕ)
directory_entries sectors fat [] = []
directory_entries sectors fat (c ∷ cs) =
    entries (cluster_byte sectors (first_sector fat c)) 0 (cluster_size fat / 32)
    ++ directory_entries sectors fat cs

abbrev pub byte : List ℕ → ℕ → ℕ
byte e i = get_or e i 0

-- The name fills the first eleven bytes, or ends there at a zero.
abbrev pub IsNamed : List ℕ → List ℕ → Type 0
IsNamed name e =
    (rest : List ℕ) × (take 11 e ≡ name ++ rest) × ((rest ≡ []) ⊎ ((t : List ℕ) × (rest ≡ 0 ∷ t)))

-- The first cluster, the size and the bit for a directory of an entry.
abbrev pub inode_of : List ℕ → Inode
inode_of e = record {
  ino = byte e 26 + byte e 27 * 256 + byte e 20 * 2 ^ 16 + byte e 21 * 2 ^ 24;
  is_directory = not (byte e 11 / 16 % 2 == 0);
  size = byte e 28 + byte e 29 * 256 + byte e 30 * 2 ^ 16 + byte e 31 * 2 ^ 24;
}

to_zero-IsText : (l : List ℕ) → IsText (to_zero l)
to_zero-IsText [] = tt
to_zero-IsText (c ∷ l) = elim (Bool-cases (c == 0)) [
  | inl e ↦ rw e tt
  | inr e ↦ rw e (ground arith, to_zero-IsText l)
]

-- What is behind the first zero.
to_zero-rest :
    (l : List ℕ)
    → (rest : List ℕ) × (l ≡ to_zero l ++ rest) × ((rest ≡ []) ⊎ ((t : List ℕ) × (rest ≡ 0 ∷ t)))
to_zero-rest [] = ([], refl, inl refl)
to_zero-rest (c ∷ l) = elim (Bool-cases (c == 0)) [
  | inl e ↦ let z : c ≡ 0 = ground arith in (c ∷ l, rw e refl, inr (l, ap (λ x. x ∷ l) z))
  | inr e ↦ let (rest, same, ends) = to_zero-rest l in (rest, rw e (ap (λ x. c ∷ x) same), ends)
]

to_zero-append :
    (s rest : List ℕ)
    → IsText s
    → (rest ≡ []) ⊎ ((t : List ℕ) × (rest ≡ 0 ∷ t))
    → to_zero (s ++ rest) ≡ s
to_zero-append [] rest h (inl e) = rw e refl
to_zero-append [] rest h (inr (t, e)) = rw e refl
to_zero-append (c ∷ s) rest (n, h) ends =
    let live : (c == 0) ≡ false = ground arith in
    rw live (ap (λ x. c ∷ x) (to_zero-append s rest h ends))

is_zero-pos : (z : ℤ) → is_zero z ≡ true → z ≡ pos 0
is_zero-pos z e = ground arith

text_named :
    (l name : List ℕ)
    → IsText name
    → is_zero (strcmp (to_zero l) name) ≡ true
    → (rest : List ℕ) × (l ≡ name ++ rest) × ((rest ≡ []) ⊎ ((t : List ℕ) × (rest ≡ 0 ∷ t)))
text_named l name text e =
    let (rest, is, ends) = to_zero-rest l in
    let same : to_zero l ≡ name =
      (strcmp-eq-zero_iff (to_zero l) name (to_zero-IsText l) text).0 (is_zero-pos _ e) in
    (rest, is ∙ ap (λ x. x ++ rest) same, ends)

text_other_name :
    (l name rest : List ℕ)
    → IsText name
    → is_zero (strcmp (to_zero l) name) ≡ false
    → l ≡ name ++ rest
    → ¬ ((rest ≡ []) ⊎ ((t : List ℕ) × (rest ≡ 0 ∷ t)))
text_other_name l name rest text e is ends =
    let same : to_zero l ≡ name = ap to_zero is ∙ to_zero-append name rest text ends in
    let zero : strcmp (to_zero l) name ≡ pos 0 =
      (strcmp-eq-zero_iff (to_zero l) name (to_zero-IsText l) text).1 same in
    let yes : is_zero (strcmp (to_zero l) name) ≡ true = ap is_zero zero in absurd (ground arith)

eleven : (p : ℕ → ℕ) (at : ℕ) → take 11 (bytes_at p at 32) ≡ bytes_at p at 11
eleven p at = refl

pub named :
    (p : ℕ → ℕ) (at : ℕ) (name : List ℕ)
    → IsText name
    → entry_named p at name ≡ true
    → IsNamed name (bytes_at p at 32)
unfolding entry_named
named p at name text e = text_named (bytes_at p at 11) name text e

pub other_name :
    (p : ℕ → ℕ) (at : ℕ) (name : List ℕ)
    → IsText name
    → entry_named p at name ≡ false
    → ¬ (IsNamed name (bytes_at p at 32))
unfolding entry_named
other_name p at name text e (rest, is, ends) =
    text_other_name (bytes_at p at 11) name rest text e is ends

get-bytes_at : (p : ℕ → ℕ) (a n k : ℕ) → k < n → get_or (bytes_at p a n) k 0 ≡ p (a + k)
get-bytes_at p a zero k h = absurd (omega arith)
get-bytes_at p a (suc n) zero h = let e : a + 0 ≡ a = omega arith in rw e refl
get-bytes_at p a (suc n) (suc k) h =
    let e : a + 1 + k ≡ a + suc k = omega arith in get-bytes_at p (a + 1) n k (omega arith) ∙ ap p e

-- An inode from the bytes that are read for it.
abbrev inode_from : (ℕ → ℕ) → Inode
inode_from b = record {
  ino = b 26 + b 27 * 256 + b 20 * 2 ^ 16 + b 21 * 2 ^ 24;
  is_directory = not (b 11 / 16 % 2 == 0);
  size = b 28 + b 29 * 256 + b 30 * 2 ^ 16 + b 31 * 2 ^ 24;
}

inode_from-cong : (b c : ℕ → ℕ) → ((k : ℕ) → k < 32 → b k ≡ c k) → inode_from b ≡ inode_from c
inode_from-cong b c h =
    rw
      (
        h 26 (omega arith),
        h 27 (omega arith),
        h 20 (omega arith),
        h 21 (omega arith),
        h 11 (omega arith),
        h 28 (omega arith),
        h 29 (omega arith),
        h 30 (omega arith),
        h 31 (omega arith),
      )
      refl

entry_inode-from : (p : ℕ → ℕ) (at : ℕ) → entry_inode p at ≡ inode_from (λ k. p (at + k))
unfolding entry_inode
entry_inode-from p at =
    let a : at + 20 + 1 ≡ at + 21 = omega arith in
    let b : at + 26 + 1 ≡ at + 27 = omega arith in
    let c : at + 28 + 1 ≡ at + 29 = omega arith in
    let d : at + 28 + 2 ≡ at + 30 = omega arith in
    let f : at + 28 + 2 + 1 ≡ at + 31 = omega arith in
    rw
      (
        a,
        b,
        c,
        f,
        d,
        high_first (p (at + 20)) (p (at + 21)) (p (at + 26)) (p (at + 27)),
        low_first (p (at + 28)) (p (at + 29)) (p (at + 30)) (p (at + 31)),
      )
      refl
  where
    high_first :
        (w x y z : ℕ)
        → (w + x * 256) * 2 ^ 16 + (y + z * 256) ≡ y + z * 256 + w * 2 ^ 16 + x * 2 ^ 24
    high_first w x y z = omega arith

    low_first :
        (w x y z : ℕ) → w + x * 256 + (y + z * 256) * 2 ^ 16 ≡ w + x * 256 + y * 2 ^ 16 + z * 2 ^ 24
    low_first w x y z = omega arith

pub inode_lem : (p : ℕ → ℕ) (at : ℕ) → entry_inode p at ≡ inode_of (bytes_at p at 32)
inode_lem p at =
    entry_inode-from p at
    ∙ inode_from-cong (λ k. p (at + k)) (byte (bytes_at p at 32))
        (λ k h. sym (get-bytes_at p at 32 k h))
