-- ===== src/Alloc/Malloc/Realloc.antt =====
-- What calloc and realloc do to the contents of memory.
use mathlib.Core.Path.{subst, subst₂}
use nix_core_os.Base.{
  ℕ, ◌+◌, ◌-◌, ◌*◌, ◌^◌, ◌≤◌, ◌<◌, ◌≡◌, refl, sym, ap, ◌∙◌, ◌≢◌, inl, inr, false, Option, none,
  some, leb, ◌==◌, arith, Bool-cases, Option-cases,
}
use nix_core_os.Alloc.Blocks.{Block, find}
use nix_core_os.Alloc.Malloc.{Arena, header, align8, started, malloc, free, block_of}
use nix_core_os.Alloc.Malloc.Invariant.{
  find-block_of, same-started, same-IsValid, free-IsValid, IsValid, malloc-IsValid,
}
use nix_core_os.Mem.{memcpy}
use nix_core_os.Mem.Words.{moved_inside, moved_outside}
use nix_core_os.Mem.Copy.{memcpy_lem}
use nix_core_os.Mem.Fill.{filled, memset_lem}
use nix_core_os.Alloc.Malloc.{u64, calloc, realloc, zeroed, move_block}
use nix_core_os.Alloc.Malloc.Service.{malloc-Serves, free-keeps}

-- A product that does not fit in 64 bits wraps: with 8-byte elements, 2^61 more elements ask for no
-- more memory.
pub calloc_wraps : (base : ℕ) (s : Arena) (k : ℕ) → calloc base s (2 ^ 61 + k) 8 ≡ calloc base s k 8
unfolding calloc
calloc_wraps base s k = ap (λ total. zeroed (malloc base s total) total) (wraps k)
  where
    wraps : (k : ℕ) → u64 ((2 ^ 61 + k) * 8) ≡ u64 (k * 8)
    wraps k = omega arith

-- Where the product fits, `calloc` serves it as `malloc` does, sets its bytes to 0 and leaves all other
-- bytes as they were.
pub calloc_zeroes :
    (base : ℕ) (s s' : Arena) (nmemb size p : ℕ)
    → nmemb * size < 2 ^ 64
    → calloc base s nmemb size ≡ (s', some p)
    → (t : Arena) × (malloc base s (nmemb * size) ≡ (t, some p))
      × ((a : ℕ) → s'.mem a ≡ filled t.mem p 0 (nmemb * size) a)
unfolding calloc
calloc_zeroes base s s' nmemb size p fits e =
    let total : u64 (nmemb * size) ≡ nmemb * size = omega arith in
    zeroed-some s' (malloc base s (nmemb * size)) (nmemb * size) p (rw total at e)
  where
    zeroed-some :
        (s' : Arena) (r : Arena × Option ℕ) (total p : ℕ)
        → zeroed r total ≡ (s', some p)
        → (t : Arena) × (r ≡ (t, some p)) × ((a : ℕ) → s'.mem a ≡ filled t.mem p 0 total a)
    zeroed-some s' (t, none) total p e = unfold zeroed in absurd (ground arith)
    zeroed-some s' (t, some q) total p e = (
      t,
      unfold zeroed in ground arith,
      λ a. unfold zeroed in ground (arith, memset_lem t.mem q 0 total a),
    )

-- What is true after a `realloc` of the block `b` at `p` has returned `q`.
pub record Grown (base : ℕ) (s : Arena) (p : ℕ) (b : Block) (s' : Arena) (q : ℕ) : Type 0 where
  pub valid : IsValid base s'
  -- The bytes of the block are at the new place.
  pub copied : (i : ℕ) → i < b.size → s'.mem (q + i) ≡ s.mem (p + i)
  -- Every other block in use is still there, with the bytes that it held.
  pub others :
      (r : ℕ) (c : Block)
      → find r (started base s) ≡ some c
      → c.free ≡ false
      → r ≢ p - header
      → (find r (started base s') ≡ some c)
        × ((i : ℕ) → i < c.size → s'.mem (r + header + i) ≡ s.mem (r + header + i))

-- The path of `realloc` that takes a new block, copies and frees the old one.
moved-Grown :
    {base : ℕ} {s t s' : Arena} (p n q : ℕ) (b : Block)
    → IsValid base s
    → ((x : ℕ) → s.mem x < 256)
    → header ≤ p
    → find (p - header) (started base s) ≡ some b
    → b.free ≡ false
    → b.size < align8 n
    → malloc base s n ≡ (t, some q)
    → free (record t { mem = memcpy t.mem q p b.size }) (some p) ≡ some s'
    → Grown base s p b s' q
moved-Grown {base} {s} {t} {s'} p n q b v bytes low f used small m e =
    let g = malloc-Serves n v m in
    let u : Arena = record t { mem = memcpy t.mem q p b.size } in
    let same = same-started base u t refl in
    let k = free-keeps base u s' p e in
    let copy = λ (a : ℕ).
      memcpy_lem t.mem q p b.size a (λ x. rw g.same_mem (bytes x))
        (omega (arith, (g.kept (p - header) b f used).1, g.pointer, g.room)) in
    record {
      valid = free-IsValid (some p) (same-IsValid (ap (λ r. r.0.blocks) m) (malloc-IsValid n v)) e;
      copied = λ i l.
          rw k.0
            (copy (q + i) ∙ moved_inside t.mem q p b.size i l ∙ ap (λ f. f (p + i)) g.same_mem);
      others = λ r c h live ne.
          let (there, apart) = g.kept r c h live in
          (
            k.1 r c (rw same there) live (λ x. ne (sym x)),
            λ i l. rw k.0 (
                copy (r + header + i)
                ∙ moved_outside t.mem q p b.size (r + header + i) (omega (arith, g.room, g.pointer))
                ∙ ap (λ f. f (r + header + i)) g.same_mem),
          );
    }

move_block-some :
    (r : Arena × Option ℕ) (p size : ℕ) {s' : Arena} {q : ℕ}
    → move_block r p size ≡ some (s', some q)
    → (t : Arena) × (r ≡ (t, some q))
      × (free (record t { mem = memcpy t.mem q p size }) (some p) ≡ some s')
unfolding move_block
move_block-some (t, none) p size e = absurd (ground arith)
move_block-some (t, some d) p size {s'} {q} e =
    elim (Option-cases (free (record t { mem = memcpy t.mem d p size }) (some p))) [
      | inl n ↦ absurd (ground arith)
      | inr (u, f) ↦
          let there : d ≡ q = ground arith in
          let last : u ≡ s' = ground arith in
          (
            t,
            ap (λ x. (t, some x)) there,
            subst (λ x. free (record t { mem = memcpy t.mem x p size }) (some p) ≡ some s') there
                (f ∙ ap some last),
          )
    ]

-- On a valid arena, whose memory holds bytes below 256: after a successful `realloc` of a block in use,
-- whose pointer has a header before it, to `n` bytes with `n` + 7 < 2^64, the bytes that the block held
-- are at the pointer that it returned, whether the block moved or stayed, every other block in use is
-- where it was with the bytes it held, and the arena is valid.
pub realloc-Grown :
    {base : ℕ} {s s' : Arena} (p n q : ℕ) (b : Block)
    → IsValid base s
    → ((x : ℕ) → s.mem x < 256)
    → header ≤ p
    → n + 7 < 2 ^ 64
    → block_of s p ≡ some b
    → b.free ≡ false
    → realloc base s (some p) n ≡ some (s', some q)
    → Grown base s p b s' q
unfolding realloc
realloc-Grown {base} {s} {s'} p n q b v bytes low fits f used e =
    let there = find-block_of base s p b f in
    elim (Bool-cases (n == 0)) [
      | inl null ↦ absurd (ground arith)
      | inr live ↦ elim (Bool-cases (leb n b.size)) [
        | inl stays ↦
            let same : (s ≡ s') × (p ≡ q) = (ground arith, ground arith) in
            subst₂ (Grown base s p b) same.0 same.1
              (record { valid = v; copied = λ i l. refl; others = λ r c h l ne. (h, λ i k. refl) })
        | inr moves ↦
            let (t, m, g) = move_block-some (malloc base s n) p b.size (ground arith) in
            moved-Grown p n q b v bytes low there used (align n b.size fits (ground arith)) m g
      ]
    ]
  where
    align : (n k : ℕ) → n + 7 < 2 ^ 64 → k < n → k < align8 n
    align n k h l = unfold align8 in omega arith
