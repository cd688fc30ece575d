-- ===== src/Mm/Vmm/Step.antt =====
-- One step down the tables keeps them typed, whether the table was there or is new.
use mathlib.Core.Path.{subst}
use nix_core_os.Base.{
  ℕ, ◌+◌, ◌-◌, ◌*◌, ◌/◌, ◌%◌, ◌<◌, ◌≡◌, refl, ◌≢◌, ◌∙◌, sym, ap, false, none, some, ◌==◌,
  if◌then◌else◌, arith, Bool-cases, inl, inr, ◌⊎◌, ◌&&◌,
}
use nix_core_os.Mm.Pmm.{Pmm, take_page}
use nix_core_os.Mm.Pmm.Alloc.{Takes, take_page-Takes, take_page_exhausted}
use nix_core_os.Mm.Vmm.{Mm, clear_words, pmm_alloc_page, next_table}
use nix_core_os.Mm.Vmm.Typed.{entry, Typed, Leads, entered, entry_new, entry_cleared, entry_other}

module _ (level : ℕ → ℕ) (s : Mm) (q : Pmm) (t i k : ℕ) (typed : Typed level s) (deep : 1 < level t)
    (inside : i < 512) (absent : entry s.word t i % 2 ≡ 0) (got : Takes s.pmm k q) where
  -- The new page gets the level below the table.
  abbrev raised : ℕ → ℕ
  raised x = if x == k then level t - 1 else level x

  no_table : level k ≡ 0
  no_table = elim (Bool-cases (level k == 0)) [
    | inl z ↦ ground arith
    | inr z ↦ absurd (omega (arith, typed.in_use k (ground arith), got.was_free))
  ]

  apart : t ≢ k
  apart e = omega (arith, no_table, ap level e)

  -- A present entry of a table above the last level, after the step.
  new_or_old :
      (u j : ℕ)
      → 1 < raised u
      → j < 512
      → entry (entered s q t i k).word u j % 2 ≡ 1
      → ((u ≡ t) × (j ≡ i)) ⊎ ((u ≢ k) × (entry (entered s q t i k).word u j ≡ entry s.word u j))
  new_or_old u j h l p = elim (Bool-cases (u == k)) [
    | inl new ↦
        let same : u ≡ k = ground arith in
        absurd (
          omega (
            arith,
            ap (λ x. entry (entered s q t i k).word x j) same,
            entry_cleared s q t i k inside apart j l,
            p,
          ))
    | inr old ↦ elim (Bool-cases ((u == t) && (j == i))) [
      | inl here ↦ inl (ground arith, ground arith)
      | inr elsewhere ↦
          let ne : u ≢ k = ground arith in
          inr (ne, entry_other s q t i k inside apart u j l ne (ground arith))
    ]
  ]

  -- What such an entry points to.
  target :
      (u j : ℕ)
      → 1 < raised u
      → j < 512
      → entry (entered s q t i k).word u j % 2 ≡ 1
      → ((u ≡ t) × (j ≡ i) × (entry (entered s q t i k).word u j / 4096 ≡ k))
        ⊎ ((u ≢ k)
            × (entry (entered s q t i k).word u j ≡ entry s.word u j)
            × (entry (entered s q t i k).word u j / 4096 ≢ k)
            × (level (entry (entered s q t i k).word u j / 4096) + 1 ≡ level u))
  target u j h l p = elim (new_or_old u j h l p) [
    | inl (same_t, same_i) ↦
        let e : entry (entered s q t i k).word u j ≡ k * 4096 + 7 =
          rw (same_t, same_i) (entry_new s q t i k inside apart) in
        inl (same_t, same_i, rw e (omega arith))
    | inr (ne, e) ↦
        let lower : level (entry s.word u j / 4096) + 1 ≡ level u =
          typed.down u j (ground arith) l (rw e at p) in
        inr (
          ne,
          e,
          (λ at_k. omega (
            arith,
            lower,
            no_table,
            ap (λ x. level (x / 4096)) e,
            ap level at_k,
            raised_old u ne,
            h,
          )),
          rw e lower,
        )
  ]
    where
      raised_old : (u : ℕ) → u ≢ k → raised u ≡ level u
      raised_old u ne = ground arith

  entered-Typed : Typed raised (entered s q t i k)
  entered-Typed = record {
    pages = got.valid;
    in_use = λ x h. ground (arith, got.now_used, got.others x, typed.in_use x);
    down = λ u j h l p. elim (target u j h l p) [
      | inl (same_t, same_i, at_k) ↦ ground (arith, apart, at_k, ap level same_t)
      | inr (ne, e, not_k, lower) ↦ ground (arith, ne, not_k, lower)
    ];
    single = λ u j x y hu hx lu lx pu px same. elim (target u j hu lu pu) [
      | inl (ut, ji, uk) ↦ elim (target x y hx lx px) [
        | inl (xt, yi, xk) ↦ (ut ∙ sym xt, ji ∙ sym yi)
        | inr (ne, e, not_k, lower) ↦ absurd (not_k (sym same ∙ uk))
      ]
      | inr (ne, e, not_k, lower) ↦ elim (target x y hx lx px) [
        | inl (xt, yi, xk) ↦ absurd (not_k (same ∙ xk))
        | inr (ne', e', not_k', lower') ↦
            typed.single u j x y (ground arith) (ground arith) lu lx (rw e at pu) (rw e' at px)
              (rw (e, e') at same)
      ]
    ];
  }

  entered-Leads : Leads level s t i (entered s q t i k) k
  entered-Leads = record {
    level' = raised;
    typed = entered-Typed;
    keeps = λ x h. ground (arith, no_table);
    below = ground arith;
    present = rw (entry_new s q t i k inside apart) (omega arith);
    points = rw (entry_new s q t i k inside apart) (omega arith);
    same = λ there. absurd (omega (arith, absent));
    frame = λ u j h l d.
        entry_other s q t i k inside apart u j l (λ e. omega (arith, no_table, h, ap level e)) d;
  }

-- A table that is there is followed with no change.
followed-Leads :
    (level : ℕ → ℕ) (s : Mm) (t i : ℕ)
    → Typed level s
    → 1 < level t
    → i < 512
    → entry s.word t i % 2 ≡ 1
    → Leads level s t i s (entry s.word t i / 4096)
followed-Leads level s t i typed deep inside present = record {
  level' = level;
  typed = typed;
  keeps = λ x h. refl;
  below = typed.down t i deep inside present;
  present = present;
  points = refl;
  same = λ there. refl;
  frame = λ u j h l d. refl;
}

alloc_none : (s : Mm) → take_page s.pmm ≡ (s.pmm, none) → pmm_alloc_page s ≡ (s, none)
unfolding pmm_alloc_page
alloc_none s e = ground arith

alloc_some :
    (s : Mm) (q : Pmm) (a : ℕ)
    → a ≢ 0
    → take_page s.pmm ≡ (q, some a)
    → pmm_alloc_page s ≡ (record s { pmm = q; word = clear_words s.word a 512 }, some a)
unfolding pmm_alloc_page
alloc_some s q a live e = let no : (a == 0) ≡ false = ground arith in ground (arith, no)

-- The page at the address 0 is lost.
alloc_zero :
    (s : Mm) (q : Pmm)
    → take_page s.pmm ≡ (q, some 0)
    → pmm_alloc_page s ≡ (record s { pmm = q; word = clear_words s.word 0 512 }, none)
unfolding pmm_alloc_page
alloc_zero s q e = ground arith

-- `next_table` returns the table that the entry leads to, a new one if there was none.
pub next_table-Leads :
    (level : ℕ → ℕ) (s : Mm) (t i : ℕ) {s' : Mm} {a : ℕ}
    → Typed level s
    → 1 < level t
    → i < 512
    → next_table s (t * 4096) i ≡ (s', some a)
    → (n : ℕ) × (a ≡ n * 4096) × (s'.kernel_pml4 ≡ s.kernel_pml4) × Leads level s t i s' n
unfolding next_table
next_table-Leads level s t i {s'} {a} typed deep inside e =
    elim (Bool-cases (entry s.word t i % 2 == 0)) [
      | inl absent ↦ elim (Bool-cases (s.pmm.free_pages == 0)) [
        | inl exhausted ↦
            absurd (ground (arith, alloc_none s (take_page_exhausted s.pmm (ground arith))))
        | inr some_left ↦
            let (k, q, taken, got) = take_page-Takes s.pmm typed.pages (ground arith) in
            elim (Bool-cases (k == 0)) [
              | inl lost ↦
                  let first : k * 4096 ≡ 0 = ground arith in
                  let zero : take_page s.pmm ≡ (q, some 0) = taken ∙ ap (λ x. (q, some x)) first in
                  absurd (ground (arith, alloc_zero s q zero))
              | inr live ↦
                  let nonzero : k * 4096 ≢ 0 = ground arith in
                  let allocated = alloc_some s q (k * 4096) nonzero taken in
                  let there = entered-Leads level s q t i k typed deep inside (ground arith) got in
                  let round : (k * 4096 + 7) / 4096 * 4096 ≡ k * 4096 = omega arith in
                  let same : entered s q t i k ≡ s' = ground (arith, allocated) in
                  let place : a ≡ k * 4096 = ground (arith, round, allocated) in
                  (
                    k,
                    place,
                    sym (ap (λ x. x.kernel_pml4) same),
                    subst (λ x. Leads level s t i x k) same there,
                  )
            ]
      ]
      | inr present ↦
          let there = followed-Leads level s t i typed deep inside (ground arith) in
          let same : s ≡ s' = ground arith in
          let place : a ≡ entry s.word t i / 4096 * 4096 = ground arith in
          (
            entry s.word t i / 4096,
            place,
            ground arith,
            subst (λ x. Leads level s t i x (entry s.word t i / 4096)) same there,
          )
    ]
