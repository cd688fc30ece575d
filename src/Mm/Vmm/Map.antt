-- ===== src/Mm/Vmm/Map.antt =====
-- Mapping a page: what the processor then finds, and that no other mapping changes.
use mathlib.Core.Path.{subst}
use nix_core_os.Base.{
  ℕ, ◌*◌, ◌/◌, ◌%◌, ◌^◌, ◌<◌, ◌≡◌, ◌≢◌, ◌∙◌, sym, ap, some, ◌==◌, arith, Bool-cases, Option-cases,
  inl, inr, true, ◌⊎◌, ◌&&◌,
}
use nix_core_os.Mm.Vmm.{Mm, write, slot, next_table}
use nix_core_os.Mm.Vmm.Typed.{entry, Typed, Leads}
use Prim.Native.Nat.{bit_or}
use nix_core_os.Mm.Vmm.{index, vmm_map_page, walk}
use nix_core_os.Mm.Vmm.Step.{next_table-Leads}
use nix_core_os.Mm.Vmm.Walk.{
  Path4, walk-Path4, Path4-walk, Path4-levels, Path4-single, Leads-Path4, Leads-entry,
}

-- What a successful `vmm_map_page` has done under the top table in page `t`.
pub record Maps (level : ℕ → ℕ) (s : Mm) (t vaddr value : ℕ) (s' : Mm) : Type 0 where
  pub level' : ℕ → ℕ
  pub typed : Typed level' s'
  pub keeps : (x : ℕ) → 0 < level x → level' x ≡ level x
  -- The processor finds the new entry at the address.
  pub mapped : walk s'.word (t * 4096) vaddr ≡ some value
  -- What it found at any address of another page, under any top table, it still finds.
  pub others :
      (u other e : ℕ)
      → level u ≡ 4
      → (u ≢ t) ⊎ (other / 4096 % 2 ^ 36 ≢ vaddr / 4096 % 2 ^ 36)
      → walk s.word (u * 4096) other ≡ some e
      → walk s'.word (u * 4096) other ≡ some e

pub map_inv :
    (s : Mm) (t vaddr paddr flags : ℕ) {s' : Mm}
    → vmm_map_page s (some t) vaddr paddr flags ≡ (s', true)
    → (s3 : Mm) × (t3 : ℕ) × (s2 : Mm) × (t2 : ℕ) × (s1 : Mm) × (t1 : ℕ) × (next_table s t
          (index 39 vaddr)
        ≡ (s3, some t3))
      × (next_table s3 t3 (index 30 vaddr) ≡ (s2, some t2))
      × (next_table s2 t2 (index 21 vaddr) ≡ (s1, some t1))
      × (s' ≡ record s1 { word = write s1.word (slot t1 (index 12 vaddr)) (bit_or paddr flags) })
unfolding vmm_map_page
map_inv s t vaddr paddr flags {s'} e = elim (Option-cases (next_table s t (index 39 vaddr)).1) [
  | inl n ↦ absurd (ground arith)
  | inr (t3, f3) ↦
      let s3 = (next_table s t (index 39 vaddr)).0 in
      elim (Option-cases (next_table s3 t3 (index 30 vaddr)).1) [
        | inl n ↦ absurd (ground arith)
        | inr (t2, f2) ↦
            let s2 = (next_table s3 t3 (index 30 vaddr)).0 in
            elim (Option-cases (next_table s2 t2 (index 21 vaddr)).1) [
              | inl n ↦ absurd (ground arith)
              | inr (t1, f1) ↦
                  let s1 = (next_table s2 t2 (index 21 vaddr)).0 in
                  (s3, t3, s2, t2, s1, t1, ground arith, ground arith, ground arith, ground arith)
            ]
      ]
]

-- The last step: the write of the entry `i` of the last table in page `n`.
abbrev finished : Mm → ℕ → ℕ → ℕ → Mm
finished s n i value = record s { word = write s.word (slot (n * 4096) i) value }

finished-entry :
    (s : Mm) (n i value u j : ℕ)
    → i < 512
    → j < 512
    → (u ≢ n) ⊎ (j ≢ i)
    → entry (finished s n i value).word u j ≡ entry s.word u j
finished-entry s n i value u j h l d = ground arith

finished-Typed :
    (level : ℕ → ℕ) (s : Mm) (n i value : ℕ)
    → Typed level s
    → level n ≡ 1
    → i < 512
    → Typed level (finished s n i value)
finished-Typed level s n i value typed h l =
    let same : (u j : ℕ)
        → 1 < level u
        → j < 512
        → entry (finished s n i value).word u j ≡ entry s.word u j =
      λ u j d k. finished-entry s n i value u j l k (inl (λ e. omega (arith, h, d, ap level e))) in
    record {
      pages = typed.pages;
      in_use = typed.in_use;
      down = λ u j d k p. rw (same u j d k) (typed.down u j d k (rw (same u j d k) at p));
      single = λ u j x y du dx ku kx pu px e.
          typed.single u j x y du dx ku kx (rw (same u j du ku) at pu) (rw (same x y dx kx) at px)
            (rw (same u j du ku, same x y dx kx) at e);
    }

-- The four indices make up the page number of a 48-bit address.
same_page :
    (v w : ℕ)
    → index 39 v ≡ index 39 w
    → index 30 v ≡ index 30 w
    → index 21 v ≡ index 21 w
    → index 12 v ≡ index 12 w
    → v / 4096 % 2 ^ 36 ≡ w / 4096 % 2 ^ 36
same_page v w a b c d = omega arith

module _ (level : ℕ → ℕ) (s s3 s2 s1 : Mm) (t vaddr value n3 n2 n1 : ℕ) (typed : Typed level s)
    (top : level t ≡ 4) (g3 : Leads level s t (index 39 vaddr) s3 n3)
    (g2 : Leads g3.level' s3 n3 (index 30 vaddr) s2 n2)
    (g1 : Leads g2.level' s2 n2 (index 21 vaddr) s1 n1) where
  level-n3 : g3.level' n3 ≡ 3
  level-n3 = omega (arith, top, g3.below)

  level-n2 : g2.level' n2 ≡ 2
  level-n2 = omega (arith, level-n3, g2.below, g2.keeps n3)

  keeps : (x : ℕ) → 0 < level x → g1.level' x ≡ level x
  keeps x h =
      let k3 = g3.keeps x h in
      let k2 = g2.keeps x (omega (arith, k3, h)) in g1.keeps x (omega (arith, k3, k2, h)) ∙ k2 ∙ k3

  last_level : g1.level' n1 ≡ 1
  last_level = omega (arith, level-n2, g1.below, g1.keeps n2)

  -- The path of the address is there before the last write.
  path : Path4 s1.word t vaddr n3 n2 n1
  path =
      let i3 : 0 < g3.level' n3 = omega (arith, level-n3) in
      let t3 : g3.level' t ≡ 4 = omega (arith, g3.keeps t (omega (arith, top)), top) in
      let t2 : g2.level' t ≡ 4 = omega (arith, g2.keeps t (omega (arith, t3)), t3) in
      let o3 : g2.level' n3 ≡ 3 = omega (arith, g2.keeps n3 i3, level-n3) in
      let e4 =
        Leads-entry g3.level' s3 s2 n3 (index 30 vaddr) n2 g2 t (index 39 vaddr) (omega (arith, t3))
          (omega arith) (inl g3.present) in
      let p4 : entry s2.word t (index 39 vaddr) % 2 ≡ 1 = rw e4 g3.present in
      let e4' =
        Leads-entry g2.level' s2 s1 n2 (index 21 vaddr) n1 g1 t (index 39 vaddr) (omega (arith, t2))
          (omega arith) (inl p4) in
      let e3 =
        Leads-entry g2.level' s2 s1 n2 (index 21 vaddr) n1 g1 n3 (index 30 vaddr)
          (omega (arith, o3)) (omega arith) (inl g2.present) in
      record {
        on4 = (rw (e4', e4) g3.present, rw (e4', e4) g3.points);
        on3 = (rw e3 g2.present, rw e3 g2.points);
        on2 = (g1.present, g1.points);
      }

  -- A path that was there before is there, with its last entry, before the last write.
  old_path :
      (u v u3 u2 u1 : ℕ)
      → level u ≡ 4
      → Path4 s.word u v u3 u2 u1
      → Path4 s1.word u v u3 u2 u1 × (entry s1.word u1 (index 12 v) ≡ entry s.word u1 (index 12 v))
  old_path u v u3 u2 u1 h p =
      let (p3, e3) =
        Leads-Path4 level s s3 t (index 39 vaddr) n3 g3 u v u3 u2 u1 typed h (omega (arith, top))
          p in
      let h3 : g3.level' u ≡ 4 = omega (arith, h, g3.keeps u (omega (arith, h))) in
      let (p2, e2) =
        Leads-Path4 g3.level' s3 s2 n3 (index 30 vaddr) n2 g2 u v u3 u2 u1 g3.typed h3
          (omega (arith, level-n3)) p3 in
      let h2 : g2.level' u ≡ 4 = omega (arith, h3, g2.keeps u (omega (arith, h3))) in
      let (p1, e1) =
        Leads-Path4 g2.level' s2 s1 n2 (index 21 vaddr) n1 g1 u v u3 u2 u1 g2.typed h2
          (omega (arith, level-n2)) p2 in
      (p1, e1 ∙ e2 ∙ e3)

  -- The last write leaves every path alone.
  path_after :
      (u v u3 u2 u1 : ℕ)
      → g1.level' u ≡ 4
      → Path4 s1.word u v u3 u2 u1
      → Path4 (finished s1 n1 (index 12 vaddr) value).word u v u3 u2 u1
  path_after u v u3 u2 u1 h p =
      let l = Path4-levels g1.level' s1 u v u3 u2 u1 g1.typed h p in
      let same : (x j : ℕ)
          → 1 < g1.level' x
          → j < 512
          → entry (finished s1 n1 (index 12 vaddr) value).word x j ≡ entry s1.word x j =
        λ x j d k.
          finished-entry s1 n1 (index 12 vaddr) value x j (omega arith) k
            (inl (λ e. omega (arith, last_level, d, ap g1.level' e))) in
      let k4 = same u (index 39 v) (omega (arith, h)) (omega arith) in
      let k3 = same u3 (index 30 v) (omega (arith, l)) (omega arith) in
      let k2 = same u2 (index 21 v) (omega (arith, l)) (omega arith) in
      record {
        on4 = (rw k4 p.on4.0, rw k4 p.on4.1);
        on3 = (rw k3 p.on3.0, rw k3 p.on3.1);
        on2 = (rw k2 p.on2.0, rw k2 p.on2.1);
      }

  others :
      (u other e : ℕ)
      → level u ≡ 4
      → (u ≢ t) ⊎ (other / 4096 % 2 ^ 36 ≢ vaddr / 4096 % 2 ^ 36)
      → walk s.word (u * 4096) other ≡ some e
      → walk (finished s1 n1 (index 12 vaddr) value).word (u * 4096) other ≡ some e
  others u other e h d w =
      let (u3, u2, u1, p, at_end) = Path4-walk s.word u other e w in
      let (p1, kept) = old_path u other u3 u2 u1 h p in
      let h1 : g1.level' u ≡ 4 = keeps u (omega (arith, h)) ∙ h in
      let t1 : g1.level' t ≡ 4 = keeps t (omega (arith, top)) ∙ top in
      let differs : (u1 ≢ n1) ⊎ (index 12 other ≢ index 12 vaddr) =
        elim (Bool-cases ((u1 == n1) && (index 12 other == index 12 vaddr))) [
          | inl same ↦
              let at_n1 : u1 ≡ n1 = ground arith in
              let at_i : index 12 other ≡ index 12 vaddr = ground arith in
              let (ut, a, b, c) =
                Path4-single g1.level' s1 u t other vaddr u3 u2 u1 n3 n2 n1 g1.typed h1 t1 p1 path
                  at_n1 in
              absurd (elim d [ inl ne ↦ ne ut | inr ne ↦ ne (same_page other vaddr a b c at_i) ])
          | inr ne ↦ ground arith
        ] in
      walk-Path4 _ u other u3 u2 u1 (path_after u other u3 u2 u1 h1 p1)
      ∙ ap some (
          finished-entry s1 n1 (index 12 vaddr) value u1 (index 12 other) (omega arith)
            (omega arith) differs
          ∙ kept
          ∙ at_end)

  finished-Maps : Maps level s t vaddr value (finished s1 n1 (index 12 vaddr) value)
  finished-Maps = record {
    level' = g1.level';
    typed = finished-Typed g1.level' s1 n1 (index 12 vaddr) value g1.typed last_level (omega arith);
    keeps = keeps;
    mapped =
        walk-Path4 _ t vaddr n3 n2 n1
          (path_after t vaddr n3 n2 n1 (keeps t (omega (arith, top)) ∙ top) path)
        ∙ ground arith;
    others = others;
  }

-- On typed tables a successful `vmm_map_page` makes the processor find `paddr | flags` at the address,
-- keeps the tables typed, and changes what is found at no address of another page and under no other
-- top table.
pub vmm_map_page-Maps :
    (level : ℕ → ℕ) (s : Mm) (t vaddr paddr flags : ℕ) {s' : Mm}
    → Typed level s
    → level t ≡ 4
    → vmm_map_page s (some (t * 4096)) vaddr paddr flags ≡ (s', true)
    → Maps level s t vaddr (bit_or paddr flags) s'
vmm_map_page-Maps level s t vaddr paddr flags {s'} typed h e =
    let (s3, a3, s2, a2, s1, a1, f3, f2, f1, last) = map_inv s (t * 4096) vaddr paddr flags e in
    let (n3, e3, k3, g3) =
      next_table-Leads level s t (index 39 vaddr) typed (omega (arith, h)) (omega arith) f3 in
    let (n2, e2, k2, g2) =
      next_table-Leads g3.level' s3 n3 (index 30 vaddr) g3.typed (omega (arith, h, g3.below))
        (omega arith) (rw e3 at f2) in
    let (n1, e1, k1, g1) =
      next_table-Leads g2.level' s2 n2 (index 21 vaddr) g2.typed
        (omega (arith, h, g3.below, g2.below, g2.keeps n3)) (omega arith) (rw e2 at f1) in
    let place : finished s1 n1 (index 12 vaddr) (bit_or paddr flags) ≡ s' = sym (rw e1 at last) in
    subst (Maps level s t vaddr (bit_or paddr flags)) place
      (finished-Maps level s s3 s2 s1 t vaddr (bit_or paddr flags) n3 n2 n1 typed h g3 g2 g1)
