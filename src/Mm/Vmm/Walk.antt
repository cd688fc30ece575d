-- ===== src/Mm/Vmm/Walk.antt =====
-- Paths through the tables, and that they survive a step of `vmm_map_page`.
use nix_core_os.Base.{
  ℕ, ◌*◌, ◌/◌, ◌%◌, ◌<◌, ◌≡◌, refl, ◌≢◌, ◌∙◌, sym, ap, some, ◌==◌, arith, Bool-cases, inl, inr, ◌⊎◌,
  ◌&&◌,
}
use nix_core_os.Mm.Vmm.{Mm}
use nix_core_os.Mm.Vmm.Typed.{entry, Typed, Leads}
use nix_core_os.Mm.Vmm.{index, walk}

-- A path through the tables under page `t`, and the page of its last table.
pub record Path4 (word : ℕ → ℕ) (t vaddr t3 t2 t1 : ℕ) : Type 0 where
  pub on4 : (entry word t (index 39 vaddr) % 2 ≡ 1) × (entry word t (index 39 vaddr) / 4096 ≡ t3)
  pub on3 : (entry word t3 (index 30 vaddr) % 2 ≡ 1) × (entry word t3 (index 30 vaddr) / 4096 ≡ t2)
  pub on2 : (entry word t2 (index 21 vaddr) % 2 ≡ 1) × (entry word t2 (index 21 vaddr) / 4096 ≡ t1)

pub walk-Path4 :
    (word : ℕ → ℕ) (t vaddr t3 t2 t1 : ℕ)
    → Path4 word t vaddr t3 t2 t1
    → walk word (t * 4096) vaddr ≡ some (entry word t1 (index 12 vaddr))
unfolding walk
walk-Path4 word t vaddr t3 t2 t1 p = ground (arith, p.on4, p.on3, p.on2)

pub Path4-walk :
    (word : ℕ → ℕ) (t vaddr e : ℕ)
    → walk word (t * 4096) vaddr ≡ some e
    → (t3 : ℕ) × (t2 : ℕ) × (t1 : ℕ) × Path4 word t vaddr t3 t2 t1
      × (entry word t1 (index 12 vaddr) ≡ e)
unfolding walk
Path4-walk word t vaddr e h =
    let t3 = entry word t (index 39 vaddr) / 4096 in
    let t2 = entry word t3 (index 30 vaddr) / 4096 in
    (
      t3,
      t2,
      entry word t2 (index 21 vaddr) / 4096,
      record { on4 = (ground arith, refl); on3 = (ground arith, refl); on2 = (ground arith, refl) },
      ground arith,
    )

pub Path4-levels :
    (level : ℕ → ℕ) (s : Mm) (t v t3 t2 t1 : ℕ)
    → Typed level s
    → level t ≡ 4
    → Path4 s.word t v t3 t2 t1
    → (level t3 ≡ 3) × (level t2 ≡ 2) × (level t1 ≡ 1)
Path4-levels level s t v t3 t2 t1 typed h p =
    let d3 = typed.down t (index 39 v) (omega (arith, h)) (omega arith) p.on4.0 in
    let e3 : level t3 ≡ 3 = omega (arith, h, d3, ap level p.on4.1) in
    let d2 = typed.down t3 (index 30 v) (omega (arith, e3)) (omega arith) p.on3.0 in
    let e2 : level t2 ≡ 2 = omega (arith, e3, d2, ap level p.on3.1) in
    let d1 = typed.down t2 (index 21 v) (omega (arith, e2)) (omega arith) p.on2.0 in
    (e3, e2, omega (arith, e2, d1, ap level p.on2.1))

-- Two paths to one table are the same path.
pub Path4-single :
    (level : ℕ → ℕ) (s : Mm) (t u v w t3 t2 t1 u3 u2 u1 : ℕ)
    → Typed level s
    → level t ≡ 4
    → level u ≡ 4
    → Path4 s.word t v t3 t2 t1
    → Path4 s.word u w u3 u2 u1
    → t1 ≡ u1
    → (t ≡ u) × (index 39 v ≡ index 39 w) × (index 30 v ≡ index 30 w) × (index 21 v ≡ index 21 w)
Path4-single level s t u v w t3 t2 t1 u3 u2 u1 typed ht hu p q same =
    let lt = Path4-levels level s t v t3 t2 t1 typed ht p in
    let lu = Path4-levels level s u w u3 u2 u1 typed hu q in
    let low =
      typed.single t2 (index 21 v) u2 (index 21 w) (omega (arith, lt)) (omega (arith, lu))
        (omega arith) (omega arith) p.on2.0 q.on2.0 (p.on2.1 ∙ same ∙ sym q.on2.1) in
    let mid =
      typed.single t3 (index 30 v) u3 (index 30 w) (omega (arith, lt)) (omega (arith, lu))
        (omega arith) (omega arith) p.on3.0 q.on3.0 (p.on3.1 ∙ low.0 ∙ sym q.on3.1) in
    let top =
      typed.single t (index 39 v) u (index 39 w) (omega (arith, ht)) (omega (arith, hu))
        (omega arith) (omega arith) p.on4.0 q.on4.0 (p.on4.1 ∙ mid.0 ∙ sym q.on4.1) in
    (top.0, top.1, mid.1, low.1)

-- An entry that survives a step: one that is present, or one of a last table.
pub Leads-entry :
    (level : ℕ → ℕ) (s s' : Mm) (t i n : ℕ) (g : Leads level s t i s' n) (u j : ℕ)
    → 0 < level u
    → j < 512
    → (entry s.word u j % 2 ≡ 1) ⊎ (u ≢ t)
    → entry s'.word u j ≡ entry s.word u j
Leads-entry level s s' t i n g u j h l p = elim (Bool-cases ((u == t) && (j == i))) [
  | inl here ↦
      let at_t : u ≡ t = ground arith in
      let at_i : j ≡ i = ground arith in
      let there : entry s.word u j % 2 ≡ 1 = ground arith in
      rw (at_t, at_i) (g.same (rw (at_t, at_i) at there))
  | inr elsewhere ↦ g.frame u j h l (ground arith)
]

-- So a path survives a step, and so does the last entry.
pub Leads-Path4 :
    (level : ℕ → ℕ) (s s' : Mm) (t i n : ℕ) (g : Leads level s t i s' n) (u v u3 u2 u1 : ℕ)
    → Typed level s
    → level u ≡ 4
    → 1 < level t
    → Path4 s.word u v u3 u2 u1
    → Path4 s'.word u v u3 u2 u1 × (entry s'.word u1 (index 12 v) ≡ entry s.word u1 (index 12 v))
Leads-Path4 level s s' t i n g u v u3 u2 u1 typed h ht p =
    let l = Path4-levels level s u v u3 u2 u1 typed h p in
    let k4 =
      Leads-entry level s s' t i n g u (index 39 v) (omega (arith, h)) (omega arith)
        (inl p.on4.0) in
    let k3 =
      Leads-entry level s s' t i n g u3 (index 30 v) (omega (arith, l)) (omega arith)
        (inl p.on3.0) in
    let k2 =
      Leads-entry level s s' t i n g u2 (index 21 v) (omega (arith, l)) (omega arith)
        (inl p.on2.0) in
    (
      record {
        on4 = (rw k4 p.on4.0, rw k4 p.on4.1);
        on3 = (rw k3 p.on3.0, rw k3 p.on3.1);
        on2 = (rw k2 p.on2.0, rw k2 p.on2.1);
      },
      Leads-entry level s s' t i n g u1 (index 12 v) (omega (arith, l)) (omega arith)
          (inr (λ e. omega (arith, l, ht, ap level e))),
    )
