-- ===== src/Alloc/Malloc/Invariant.antt =====
-- What every call of the C library's allocator preserves.
use mathlib.Core.Path.{subst}
use nix_core_os.Base.{
  ℕ, ◌+◌, ◌-◌, ◌^◌, ◌≤◌, ◌<◌, ◌≡◌, refl, sym, ap, inl, inr, true, false, ◌&&◌, List, [], ◌∷◌,
  Option, none, some, leb, ◌==◌, arith, Bool-cases, Option-cases,
}
use nix_core_os.Alloc.Blocks.{Block, find, place, release}
use nix_core_os.Alloc.Blocks.Tiling.{Tiles, find-bounds, place-Tiles}
use nix_core_os.Alloc.Blocks.Coalesced.{
  Coalesced, place-Coalesced, release-Coalesced, release-Tiles,
}
use nix_core_os.Alloc.Malloc.{
  Arena, header, arena_size, align8, first_fit, started, malloc, free, block_of,
}

-- What holds of a list of blocks in the arena at `base`.
pub record Laid (base : ℕ) (bs : List Block) : Type 0 where
  pub tiles : Tiles header base bs (base + arena_size)
  pub coalesced : Coalesced false bs

-- The blocks tile the arena and no two free ones are neighbours; the arena lies in the address space.
pub record IsValid (base : ℕ) (s : Arena) : Type 0 where
  pub laid : Laid base (started base s)
  pub below : base + arena_size < 2 ^ 64

pub null-IsValid :
    (base : ℕ) (s : Arena) → s.blocks ≡ none → base + arena_size < 2 ^ 64 → IsValid base s
unfolding started
null-IsValid base s e b = record {
  laid = rw (e, started) (record { tiles = omega arith; coalesced = (refl, tt) });
  below = b;
}

-- The block that the walk stops at is in the list, free and large enough, and every free block of the
-- list before it is too small.
pub first_fit_lem :
    (size a e : ℕ) (bs : List Block) (b : Block)
    → Tiles header a bs e
    → first_fit size bs ≡ some b
    → (find b.addr bs ≡ some b)
      × (b.free ≡ true)
      × (size ≤ b.size)
      × ((q : ℕ) (c : Block) → find q bs ≡ some c → c.free ≡ true → q < b.addr → c.size < size)
unfolding first_fit find
first_fit_lem size a e [] b t h = absurd (ground arith)
first_fit_lem size a e (d ∷ r) b t h = elim (Bool-cases (d.free && leb size d.size)) [
  | inl fits ↦
      let same : d ≡ b = ground arith in
      (
        ground arith,
        ground arith,
        ground arith,
        λ q c g g' l.
            absurd (ground (arith, find-bounds header q (d.addr + header + d.size) e r c t.1)),
      )
  | inr not_here ↦
      let rest : first_fit size r ≡ some b = ground arith in
      let (f, free, room, first) = first_fit_lem size (d.addr + header + d.size) e r b t.1 rest in
      let bounds = find-bounds header b.addr (d.addr + header + d.size) e r b t.1 f in
      (ground arith, free, room, λ q c g g' l. ground (arith, first q c))
]

pub first_fit-none :
    (size : ℕ) (bs : List Block) (q : ℕ) (c : Block)
    → first_fit size bs ≡ none
    → find q bs ≡ some c
    → c.free ≡ true
    → c.size < size
unfolding first_fit find
first_fit-none size [] q c h f g = ground arith
first_fit-none size (d ∷ r) q c h f g = ground (arith, first_fit-none size r q c)

place-Laid :
    {base : ℕ} {bs : List Block} (size : ℕ) (b : Block)
    → Laid base bs
    → find b.addr bs ≡ some b
    → b.free ≡ true
    → Laid base (place header 8 size b.addr bs)
place-Laid {base} {bs} size b l f free = record {
  tiles = place-Tiles header 8 size b.addr base _ bs l.tiles;
  coalesced = place-Coalesced header 8 size b.addr false bs b f free l.coalesced;
}

-- `malloc` keeps the arena valid, whatever it returns.
pub malloc-IsValid :
    {base : ℕ} {s : Arena} (n : ℕ) → IsValid base s → IsValid base (malloc base s n).0
unfolding malloc
malloc-IsValid {base} {s} n v = elim (Bool-cases (n == 0)) [
  | inl null ↦ rw (null, malloc) v
  | inr some_bytes ↦ elim (Option-cases (first_fit (align8 n) (started base s))) [
    | inl e ↦
        rw (some_bytes, e, malloc) (record { laid = unfold started in v.laid; below = v.below })
    | inr (b, e) ↦
        let (f, free, room, first) =
          first_fit_lem (align8 n) base _ (started base s) b v.laid.tiles e in
        rw (some_bytes, e, malloc)
          (record {
            laid = unfold started in place-Laid (align8 n) b v.laid f free;
            below = v.below;
          })
  ]
]

-- What a `free` that finds its block has done.
pub record Freed (s : Arena) (p : ℕ) (s' : Arena) : Type 0 where
  pub bs : List Block
  pub b : Block
  pub blocks : s.blocks ≡ some bs
  pub found : find (p - header) bs ≡ some b
  pub result : s' ≡ record s { blocks = some (release header (p - header) bs) }

pub free-Freed : {s s' : Arena} (p : ℕ) → free s (some p) ≡ some s' → Freed s p s'
unfolding free
free-Freed {s} {s'} p e = elim (Option-cases s.blocks) [
  | inl n ↦ absurd (ground arith)
  | inr (bs, k) ↦ elim (Option-cases (find (p - header) bs)) [
    | inl n ↦ absurd (ground arith)
    | inr (b, f) ↦ record { bs = bs; b = b; blocks = k; found = f; result = ground arith }
  ]
]

pub started-some :
    (base : ℕ) (s : Arena) (bs : List Block) → s.blocks ≡ some bs → started base s ≡ bs
unfolding started
started-some base s bs e = ground arith

-- The blocks alone make an arena valid.
pub same-started : (base : ℕ) (s t : Arena) → s.blocks ≡ t.blocks → started base s ≡ started base t
unfolding started
same-started base s t e = ground arith

pub same-IsValid : {base : ℕ} {s t : Arena} → s.blocks ≡ t.blocks → IsValid base s → IsValid base t
same-IsValid {base} {s} {t} e v = record {
  laid = subst (Laid base) (same-started base s t e) v.laid;
  below = v.below;
}

-- `free` keeps the arena valid.
pub free-IsValid :
    {base : ℕ} {s s' : Arena} (p : Option ℕ) → IsValid base s → free s p ≡ some s' → IsValid base s'
free-IsValid {base} {s} {s'} none v e =
    let same : s ≡ s' = unfold free in ground arith in subst (IsValid base) same v
free-IsValid {base} {s} {s'} (some p) v e =
    let f = free-Freed p e in
    let l : Laid base f.bs = subst (Laid base) (started-some base s f.bs f.blocks) v.laid in
    record {
      laid =
          subst (Laid base)
            (sym (
              started-some base s' (release header (p - header) f.bs)
                (ap (λ r. r.blocks) f.result)))
            (record {
              tiles = release-Tiles header (p - header) base _ f.bs l.tiles;
              coalesced =
                  release-Coalesced header (p - header) base _ f.bs f.b l.tiles (omega arith)
                    f.found l.coalesced;
            });
      below = v.below;
    }

pub find-block_of :
    (base : ℕ) (s : Arena) (p : ℕ) (b : Block)
    → block_of s p ≡ some b
    → find (p - header) (started base s) ≡ some b
unfolding block_of started
find-block_of base s p b h = ground arith
