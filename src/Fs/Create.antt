-- ===== src/Fs/Create.antt =====
-- Creating files and directories.
use nix_core_os.Base.{
  ℕ, zero, suc, ◌+◌, ◌-◌, ◌%◌, ◌^◌, ◌≤◌, ◌<◌, ◌≡◌, refl, ◌∙◌, sym, ap, true, false, List, [], ◌∷◌,
  ◌++◌, none, some, leb, ℤ, pos, arith, Bool-cases, Option-cases, inl, inr, length, get_elem?, take,
  length-append,
}
use mathlib.Core.Path.{subst}
use nix_core_os.Text.{strncpy}
use nix_core_os.Text.Compare.{IsText, strncpy-take}
use nix_core_os.Fs.{
  Node, Fs, Kind, max_files, max_filename, matches, find_from, find_file, create,
  filesystem_save_to_disk, get_system_time, nixuser,
}
use nix_core_os.Fs.Find.{matches_iff}

take_all : (n : ℕ) (s : List ℕ) → length s ≤ n → take n s ≡ s
take_all zero [] h = refl
take_all zero (c ∷ s) h = absurd (omega arith)
take_all (suc n) [] h = refl
take_all (suc n) (c ∷ s) h = ap (λ r. c ∷ r) (take_all n s (omega arith))

get-append_left :
    (l : List Node) (f : Node) (j : ℕ) → j < length l → get_elem? (l ++ f ∷ []) j ≡ get_elem? l j
get-append_left [] f j h = absurd (omega arith)
get-append_left (g ∷ l) f zero h = refl
get-append_left (g ∷ l) f (suc j) h = get-append_left l f j (omega arith)

get-append_last : (l : List Node) (f : Node) → get_elem? (l ++ f ∷ []) (length l) ≡ some f
get-append_last [] f = refl
get-append_last (g ∷ l) f = get-append_last l f

-- The search reaches a file that has been appended if it finds nothing before.
find_from-append :
    (i : ℕ) (l : List Node) (f : Node) (name : List ℕ) (p : ℤ)
    → find_from i l name p ≡ none
    → matches name p f ≡ true
    → find_from i (l ++ f ∷ []) name p ≡ some (i + length l)
unfolding find_from
find_from-append i [] f name p e m = rw m (ap some (omega arith))
find_from-append i (g ∷ l) f name p e m = elim (Bool-cases (matches name p g)) [
  | inl x ↦ absurd (ground arith)
  | inr x ↦
      rw (x, find_from)
        (find_from-append (i + 1) l f name p (ground arith) m ∙ ap some (omega arith))
]

-- What a successful creation leaves: the new file stands behind the others, which are as they were.
pub record Created (kind : Kind) (fs fs' : Fs) (name : List ℕ) (p : ℤ) (i : ℕ) : Type 0 where
  pub file : Node
  pub at_end : i ≡ length fs.files
  pub room : length fs.files < max_files
  pub files : fs'.files ≡ fs.files ++ file ∷ []
  pub is_new : find_file fs name p ≡ none
  pub of_kind : (file.kind ≡ kind) × (file.size ≡ 0) × (file.content ≡ none)
  pub named : (file.parent_index ≡ p) × (file.name ≡ take (max_filename - 1) name)
  pub unmoved : (fs'.current_dir ≡ fs.current_dir) × (fs'.heap ≡ fs.heap)

-- A successful creation puts a new empty file of the kind behind the others, which it leaves as they
-- were; it has the parent and the first 31 bytes of the name, which no file of that directory had.
pub create-Created :
    (kind : Kind) (perm : ℕ) (fs fs' : Fs) (name : List ℕ) (p : ℤ) (i : ℕ)
    → create kind perm fs name p ≡ (fs', pos i)
    → Created kind fs fs' name p i
unfolding create filesystem_save_to_disk get_system_time
create-Created kind perm fs fs' name p i e = elim (Bool-cases (leb max_files (length fs.files))) [
  | inl full ↦ absurd (ground arith)
  | inr room ↦ elim (Option-cases (find_file fs name p)) [
    | inr (j, f) ↦ absurd (ground arith)
    | inl new ↦
        let file : Node = record {
          name = strncpy name (max_filename - 1);
          kind = kind;
          size = 0;
          parent_index = p;
          permissions = perm;
          owner = nixuser;
          group = nixuser;
          created = (fs.time_counter + 60) % 2 ^ 32;
          modified = (fs.time_counter + 60) % 2 ^ 32;
          content = none;
        } in
        record {
          file = file;
          at_end = ground arith;
          room = ground arith;
          files = ground arith;
          is_new = new;
          of_kind = (refl, refl, refl);
          named = (refl, strncpy-take name (max_filename - 1));
          unmoved = (ground arith, ground arith);
        }
  ]
]

-- A file that has been created under a name of at most 31 bytes is found under that name.
pub find_file-create :
    (kind : Kind) (perm : ℕ) (fs fs' : Fs) (name : List ℕ) (p : ℤ) (i : ℕ)
    → IsText name
    → length name ≤ 31
    → create kind perm fs name p ≡ (fs', pos i)
    → find_file fs' name p ≡ some i
unfolding find_file
find_file-create kind perm fs fs' name p i h short e =
    let c = create-Created kind perm fs fs' name p i e in
    let same : c.file.name ≡ name = c.named.1 ∙ take_all 31 name short in
    let hit = (matches_iff name p c.file h (subst IsText (sym same) h)).1 (c.named.0, same) in
    subst (λ l. find_from 0 l name p ≡ some i) (sym c.files)
      (find_from-append 0 fs.files c.file name p c.is_new hit ∙ ap some (omega (arith, c.at_end)))

-- The search misses a file that does not match.
find_from-miss :
    (i : ℕ) (l : List Node) (f : Node) (name : List ℕ) (p : ℤ)
    → find_from i l name p ≡ none
    → matches name p f ≡ false
    → find_from i (l ++ f ∷ []) name p ≡ none
unfolding find_from
find_from-miss i [] f name p e m = rw m refl
find_from-miss i (g ∷ l) f name p e m = elim (Bool-cases (matches name p g)) [
  | inl x ↦ absurd (ground arith)
  | inr x ↦ rw (x, find_from) (find_from-miss (i + 1) l f name p (ground arith) m)
]

take-IsText : (n : ℕ) (s : List ℕ) → IsText s → IsText (take n s)
take-IsText zero s h = tt
take-IsText (suc n) [] h = tt
take-IsText (suc n) (c ∷ s) h = (h.0, take-IsText n s h.1)

short_take : (n : ℕ) (s : List ℕ) → length (take n s) ≤ n
short_take zero s = omega arith
short_take (suc n) [] = omega arith
short_take (suc n) (c ∷ s) = omega (arith, short_take n s)

-- A name of 32 bytes or more can be created twice in a directory: the stored name is cut to 31 bytes,
-- so that the search for the whole name does not find it.
pub create_twice :
    (kind : Kind) (perm : ℕ) (fs fs' : Fs) (name : List ℕ) (p : ℤ) (i : ℕ)
    → IsText name
    → 31 < length name
    → length fs'.files < max_files
    → create kind perm fs name p ≡ (fs', pos i)
    → (create kind perm fs' name p).1 ≡ pos (suc i)
unfolding create find_file
create_twice kind perm fs fs' name p i h long room e =
    let c = create-Created kind perm fs fs' name p i e in
    let n : length fs'.files ≡ suc i =
      ap length c.files ∙ ground (arith, c.at_end, length-append fs.files (c.file ∷ [])) in
    let text : IsText c.file.name = subst IsText (sym c.named.1) (take-IsText 31 name h) in
    let miss : matches name p c.file ≡ false = elim (Bool-cases (matches name p c.file)) [
      | inl hit ↦
          let same = ((matches_iff name p c.file h text).0 hit).1 in
          absurd (ground (arith, long, short_take 31 name, ap length (sym c.named.1 ∙ same)))
      | inr x ↦ x
    ] in
    let gone : find_from 0 fs'.files name p ≡ none =
      subst (λ l. find_from 0 l name p ≡ none) (sym c.files)
        (find_from-miss 0 fs.files c.file name p c.is_new miss) in
    let open_slot : leb max_files (length fs'.files) ≡ false = ground arith in
    rw (open_slot, gone) (ap pos n)
