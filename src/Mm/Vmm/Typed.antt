-- ===== src/Mm/Vmm/Typed.antt =====
-- The tables of an address space form a tree: each page that serves as a table has one level, and one
-- entry that points to it.
use nix_core_os.Base.{
  ℕ, zero, suc, ◌+◌, ◌*◌, ◌/◌, ◌%◌, ◌≤◌, ◌<◌, ◌≡◌, refl, ◌≢◌, ◌∙◌, arith, inl, ◌⊎◌,
}
use nix_core_os.Mm.Pmm.{Pmm}
use nix_core_os.Mm.Pmm.Scan.{page_bit}
use nix_core_os.Mm.Pmm.Alloc.{IsValid}
use nix_core_os.Mm.Vmm.{Mm, write, clear_words, slot}

-- The entry `i` of the table in page `t`.
abbrev pub entry : (ℕ → ℕ) → ℕ → ℕ → ℕ
entry word t i = word (slot (t * 4096) i)

-- `level t` is 4 for a top table, 3, 2 and 1 for the tables below, and 0 for a page that is no table.
pub record Typed (level : ℕ → ℕ) (s : Mm) : Type 0 where
  pub pages : IsValid s.pmm
  pub in_use : (t : ℕ) → 0 < level t → page_bit s.pmm.bitmap t ≡ 1
  -- A present entry points to a table of the level below.
  pub down :
      (t i : ℕ)
      → 1 < level t
      → i < 512
      → entry s.word t i % 2 ≡ 1
      → level (entry s.word t i / 4096) + 1 ≡ level t
  -- Two present entries that point to the same table are the same entry.
  pub single :
      (t i u j : ℕ)
      → 1 < level t
      → 1 < level u
      → i < 512
      → j < 512
      → entry s.word t i % 2 ≡ 1
      → entry s.word u j % 2 ≡ 1
      → entry s.word t i / 4096 ≡ entry s.word u j / 4096
      → (t ≡ u) × (i ≡ j)

clear_words_outside :
    (m : ℕ → ℕ) (p n a : ℕ) → (a < p) ⊎ (p + 8 * n ≤ a) → clear_words m p n a ≡ m a
unfolding clear_words
clear_words_outside m p zero a h = refl
clear_words_outside m p (suc n) a h =
    clear_words_outside (write m p 0) (p + 8) n a (omega arith) ∙ ground arith

clear_words_inside : (m : ℕ → ℕ) (p n i : ℕ) → i < n → clear_words m p n (p + 8 * i) ≡ 0
unfolding clear_words
clear_words_inside m p zero i h = absurd (omega arith)
clear_words_inside m p (suc n) zero h =
    clear_words_outside (write m p 0) (p + 8) n (p + 8 * 0) (inl (omega arith)) ∙ ground arith
clear_words_inside m p (suc n) (suc i) h =
    let further : p + 8 * suc i ≡ p + 8 + 8 * i = omega arith in
    rw further (clear_words_inside (write m p 0) (p + 8) n i (omega arith))

-- What `next_table` has done when it returns the table in page `n` for entry `i` of the table `t`.
pub record Leads (level : ℕ → ℕ) (s : Mm) (t i : ℕ) (s' : Mm) (n : ℕ) : Type 0 where
  pub level' : ℕ → ℕ
  pub typed : Typed level' s'
  pub keeps : (x : ℕ) → 0 < level x → level' x ≡ level x
  pub below : level' n + 1 ≡ level t
  pub present : entry s'.word t i % 2 ≡ 1
  pub points : entry s'.word t i / 4096 ≡ n
  pub same : entry s.word t i % 2 ≡ 1 → entry s'.word t i ≡ entry s.word t i
  pub frame :
      (u j : ℕ) → 0 < level u → j < 512 → (u ≢ t) ⊎ (j ≢ i) → entry s'.word u j ≡ entry s.word u j

-- The memory after a new table in page `k` has been cleared and entered.
abbrev pub entered : Mm → Pmm → ℕ → ℕ → ℕ → Mm
entered s q t i k = record s {
  pmm = q;
  word = write (clear_words s.word (k * 4096) 512) (slot (t * 4096) i) (k * 4096 + 7);
}

module _ (s : Mm) (q : Pmm) (t i k : ℕ) (inside : i < 512) (apart : t ≢ k) where
  pub entry_new : entry (entered s q t i k).word t i ≡ k * 4096 + 7
  entry_new = ground arith

  pub entry_cleared : (j : ℕ) → j < 512 → entry (entered s q t i k).word k j ≡ 0
  entry_cleared j h = ground (arith, clear_words_inside s.word (k * 4096) 512 j h)

  pub entry_other :
      (u j : ℕ)
      → j < 512
      → u ≢ k
      → (u ≢ t) ⊎ (j ≢ i)
      → entry (entered s q t i k).word u j ≡ entry s.word u j
  entry_other u j h ne d =
      ground (arith, clear_words_outside s.word (k * 4096) 512 (u * 4096 + 8 * j))
