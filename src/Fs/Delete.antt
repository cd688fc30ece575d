-- ===== src/Fs/Delete.antt =====
-- Deleting a file: what happens to the others.
use nix_core_os.Base.{
  ℕ, zero, suc, ◌-◌, ◌<◌, ◌≡◌, refl, ◌≢◌, ◌∙◌, ap, false, List, [], ◌∷◌, none, some, ltb, ◌==◌,
  if◌then◌else◌, ℤ, pos, negsuc, arith, Option-cases, inl, inr, length, get_elem?, map, length-map,
}
use mathlib.Core.Path.{subst}
use nix_core_os.Alloc.Kheap.{kfree}
use nix_core_os.Fs.{
  Node, Fs, relink, reindexed, moved_dir, remove_at, taken_out, delete_at, delete_file,
  filesystem_save_to_disk, change_up, same_int,
}

-- The index of a file after the one at `i` has gone.
abbrev pub shifted : ℕ → ℕ → ℕ
shifted i j = if ltb i j then j - 1 else j

-- One step of the shift, at a list.
shifted-suc :
    (f : Node) (l : List Node) (i j : ℕ)
    → i ≢ j
    → get_elem? (f ∷ l) (shifted (suc i) (suc j)) ≡ get_elem? l (shifted i j)
shifted-suc f l i j ne =
    let e : shifted (suc i) (suc j) ≡ suc (shifted i j) = ground arith in rw e refl

get-remove_at :
    (i j : ℕ) (l : List Node) → i ≢ j → get_elem? (remove_at i l) (shifted i j) ≡ get_elem? l j
unfolding remove_at
get-remove_at i j [] ne = refl
get-remove_at zero zero (f ∷ r) ne = absurd (ne refl)
get-remove_at zero (suc j) (f ∷ r) ne = ground arith
get-remove_at (suc i) zero (f ∷ r) ne = ground arith
get-remove_at (suc i) (suc j) (f ∷ r) ne =
    shifted-suc f (remove_at i r) i j (λ e. ne (ap suc e))
    ∙ get-remove_at i j r (λ e. ne (ap suc e))

get-map :
    (g : Node → Node) (l : List Node) (j : ℕ) (f : Node)
    → get_elem? l j ≡ some f
    → get_elem? (map g l) j ≡ some (g f)
get-map g [] j f h = absurd (ground arith)
get-map g (x ∷ l) zero f h = ap some (ap g (ground arith))
get-map g (x ∷ l) (suc j) f h = get-map g l j f h

length-remove_at : (i : ℕ) (l : List Node) → i < length l → suc (length (remove_at i l)) ≡ length l
unfolding remove_at
length-remove_at i [] h = absurd (omega arith)
length-remove_at zero (f ∷ r) h = refl
length-remove_at (suc i) (f ∷ r) h = ap suc (length-remove_at i r (omega arith))

-- The table after the file at `i` has been deleted.
pub record Deleted (fs fs' : Fs) (i : ℕ) : Type 0 where
  pub count : suc (length fs'.files) ≡ length fs.files
  pub kept :
      (j : ℕ) (f : Node)
      → i ≢ j
      → get_elem? fs.files j ≡ some f
      → get_elem? fs'.files (shifted i j) ≡ some (relink i f)
  pub parents : (p : ℕ) → i ≢ p → reindexed i (pos p) ≡ pos (shifted i p)
  pub orphans : reindexed i (pos i) ≡ negsuc 0
  pub current : (d : ℕ) → i ≢ d → fs.current_dir ≡ pos d → fs'.current_dir ≡ pos (shifted i d)
  pub to_root : fs.current_dir ≡ pos i → fs'.current_dir ≡ pos 0

taken_out-Deleted : (fs : Fs) (i : ℕ) → i < length fs.files → Deleted fs (taken_out fs i).0 i
unfolding taken_out filesystem_save_to_disk reindexed moved_dir
taken_out-Deleted fs i h = record {
  count = ap suc (length-map (remove_at i fs.files) (relink i)) ∙ length-remove_at i fs.files h;
  kept = λ j f ne e.
      get-map (relink i) (remove_at i fs.files) (shifted i j) f (get-remove_at i j fs.files ne ∙ e);
  parents = λ p ne. ground arith;
  orphans = ground arith;
  current = λ d ne e. rw e (ground arith);
  to_root = λ e. rw e (ground arith);
}

in_range : (l : List Node) (i : ℕ) (f : Node) → get_elem? l i ≡ some f → i < length l
in_range [] i f e = absurd (ground arith)
in_range (g ∷ l) zero f e = omega arith
in_range (g ∷ l) (suc i) f e = omega (arith, in_range l i f e)

-- After a deletion every other file is still there, the ones behind it one place further down, and
-- each index that the table holds follows: the parents, the parents that were deleted as -1, and the
-- current directory, which becomes the root if it was deleted. The variables of the model, and the
-- headers of the heap's blocks, are taken to lie outside what the copy of the table to `disk_buffer`
-- overwrites.
pub delete_file-Deleted :
    (fs fs' : Fs) (i : ℤ)
    → delete_file fs i ≡ some (fs', pos 0)
    → (n : ℕ) × (i ≡ pos n) × Deleted fs fs' n
unfolding delete_file delete_at
delete_file-Deleted fs fs' (negsuc n) e = absurd (ground arith)
delete_file-Deleted fs fs' (pos n) e = elim (Option-cases (get_elem? fs.files n)) [
  | inl none_there ↦ absurd (ground arith)
  | inr (f, there) ↦ elim (Option-cases f.content) [
    | inl empty ↦ (
      n,
      refl,
      subst (λ x. Deleted fs x n) (ground arith)
          (taken_out-Deleted fs n (in_range fs.files n f there)),
    )
    | inr (p, full) ↦ elim (Option-cases (kfree fs.heap p)) [
      | inl stuck ↦ absurd (ground arith)
      | inr (h, freed) ↦ (
        n,
        refl,
        subst (λ x. Deleted fs x n) (ground arith)
            (over (taken_out-Deleted (record fs { heap = h }) n (in_range fs.files n f there))),
      )
    ]
  ]
]
  where
    over : {fs fs' : Fs} {h : _} {n : ℕ} → Deleted (record fs { heap = h }) fs' n → Deleted fs fs' n
    over d = record {
      count = d.count;
      kept = d.kept;
      parents = d.parents;
      orphans = d.orphans;
      current = d.current;
      to_root = d.to_root;
    }

-- If the parent of the current directory is deleted, which is not the root, then ".." makes -1 the
-- current directory, and a second ".." reads the table at the index -1.
pub change_up_orphan :
    (fs fs' : Fs) (i d : ℕ) (f : Node)
    → delete_file fs (pos i) ≡ some (fs', pos 0)
    → fs.current_dir ≡ pos d
    → get_elem? fs.files d ≡ some f
    → f.parent_index ≡ pos i
    → 0 < i
    → 0 < d
    → i ≢ d
    → (fs'' : Fs) × (change_up fs' ≡ some (fs'', pos 0))
      × (fs''.current_dir ≡ negsuc 0)
      × (change_up fs'' ≡ none)
unfolding change_up same_int
change_up_orphan fs fs' i d f e at_d there parent hi hd ne =
    let (n, same, x) = delete_file-Deleted fs fs' (pos i) e in
    let y : Deleted fs fs' i = subst (Deleted fs fs') (ground arith) x in
    let cur = y.current d ne at_d in
    let k = y.kept d f ne there in
    let live : (shifted i d == 0) ≡ false = ground arith in
    let up : reindexed i f.parent_index ≡ negsuc 0 = rw parent y.orphans in
    (record fs' { current_dir = negsuc 0 }, rw (cur, live, k, up) refl, refl, refl)
