-- ===== src/Fs/Walk.antt =====
-- Changing the current directory.
use nix_core_os.Base.{
  ℕ, zero, suc, ◌-◌, ◌<◌, ◌≤◌, ◌∙◌, ◌≡◌, refl, ◌≢◌, ap, true, false, List, [], ◌∷◌, Option, none,
  some, ◌==◌, ◌⊎◌, ℤ, pos, negsuc, arith, Bool-cases, Option-cases, inl, inr, length, get_elem?,
  drop,
}
use mathlib.Core.Path.{subst}
use nix_core_os.Text.{strspn, strtok, strcmp, is_zero, strncpy, head}
use nix_core_os.Text.Compare.{strncpy-length}
use nix_core_os.Text.Tokens.{strtok-length}
use nix_core_os.Fs.{
  Node, Fs, Kind, is_directory, node, slash, next_text, step_into, walk_path, change_absolute,
  change_relative, change_up, change_directory, find_file, same_int, max_path,
}

-- The index of a directory of the table.
abbrev pub IsDirectory : List Node → ℤ → Type 0
IsDirectory files d = (f : Node) × (node files d ≡ some f) × (f.kind ≡ Kind.directory)

-- The root is a directory, and so is the parent of every other file.
pub record IsTree (files : List Node) : Type 0 where
  pub root : IsDirectory files (pos 0)
  pub parents :
      (i : ℕ) (f : Node) → 0 < i → get_elem? files i ≡ some f → IsDirectory files f.parent_index

directory_kind : (k : Kind) → is_directory k ≡ true → k ≡ Kind.directory
directory_kind Kind.directory e = refl
directory_kind Kind.regular e = absurd (ground arith)

step_into-IsDirectory :
    (fs : Fs) (token : List ℕ) (current d : ℤ)
    → step_into fs token current ≡ some d
    → IsDirectory fs.files d
unfolding step_into
step_into-IsDirectory fs token current d e = elim (Option-cases (find_file fs token current)) [
  | inl f ↦ absurd (ground arith)
  | inr (i, f) ↦ elim (Option-cases (get_elem? fs.files i)) [
    | inl g ↦ absurd (ground arith)
    | inr (x, g) ↦ elim (Bool-cases (is_directory x.kind)) [
      | inl h ↦
          (let same : pos i ≡ d = ground arith in
            subst (IsDirectory fs.files) same (x, g, directory_kind x.kind h))
      | inr h ↦ absurd (ground arith)
    ]
  ]
]

walk_path-IsDirectory :
    (at_null : List ℕ) (fs : Fs) (fuel : ℕ) (current d : ℤ) (token last : Option (List ℕ))
    → IsDirectory fs.files current
    → walk_path at_null fs fuel current (token, last) ≡ some (some d)
    → IsDirectory fs.files d
unfolding walk_path
walk_path-IsDirectory at_null fs fuel current d none last h e =
    let same : current ≡ d = ground arith in subst (IsDirectory fs.files) same h
walk_path-IsDirectory at_null fs zero current d (some token) last h e = absurd (ground arith)
walk_path-IsDirectory at_null fs (suc fuel) current d (some token) last h e =
    elim (Option-cases (step_into fs token current)) [
      | inl f ↦ absurd (ground arith)
      | inr (c, f) ↦
          let text = next_text at_null last in
          walk_path-IsDirectory at_null fs fuel c d (strtok text slash).0 (strtok text slash).1
            (step_into-IsDirectory fs token current c f) (ground arith)
    ]

-- If the byte at address 0 is zero, the next call of `strtok` returns no token, or leaves less than it
-- was given.
next_token :
    (text : List ℕ)
    → ((strtok text slash).0 ≡ none) ⊎ (length (next_text [] (strtok text slash).1) < length text)
next_token [] = inl (unfold strtok in unfold strspn in refl)
next_token (c ∷ s) = elim (Option-cases (strtok (c ∷ s) slash).0) [
  | inl e ↦ inl e
  | inr (t, e) ↦ elim (Option-cases (strtok (c ∷ s) slash).1) [
    | inl f ↦ inr (rw f (omega arith))
    | inr (l, f) ↦ inr (
        rw f (
          strtok-length (c ∷ s) slash t l
            (ap (λ o. (o, (strtok (c ∷ s) slash).1)) e ∙ ap (λ o. (some t, o)) f)))
  ]
]

ends :
    (fs : Fs) (fuel : ℕ) (current : ℤ) (token last : Option (List ℕ))
    → (token ≡ none) ⊎ (length (next_text [] last) < fuel)
    → (o : Option ℤ) × (walk_path [] fs fuel current (token, last) ≡ some o)
unfolding walk_path
ends fs fuel current none last h = (some current, refl)
ends fs zero current (some t) last h = absurd (ground (arith, h))
ends fs (suc fuel) current (some t) last h = elim (Option-cases (step_into fs t current)) [
  | inl e ↦ (none, rw (e, walk_path) refl)
  | inr (d, e) ↦
      let text = next_text [] last in
      let (o, f) =
        ends fs fuel d (strtok text slash).0 (strtok text slash).1
          (ground (arith, h, next_token text)) in
      (o, rw (e, walk_path) f)
]

-- If the byte at address 0 is zero, the loop of `change_directory` over the tokens of a path ends within
-- as many rounds as the path has bytes.
pub walk_path_ends :
    (fs : Fs) (current : ℤ) (path : List ℕ)
    → (o : Option ℤ) × (walk_path [] fs (length path) current (strtok path slash) ≡ some o)
walk_path_ends fs current path =
    ends fs (length path) current (strtok path slash).0 (strtok path slash).1 (next_token path)

-- What a change of directory leaves: the table, and a directory as the current one, the same as before
-- if the result is not 0.
pub record Stays (fs fs' : Fs) (r : ℤ) : Type 0 where
  pub files : fs'.files ≡ fs.files
  pub current : IsDirectory fs.files fs'.current_dir
  pub failed : r ≢ pos 0 → fs' ≡ fs

same : (fs : Fs) (r : ℤ) → IsDirectory fs.files fs.current_dir → Stays fs fs r
same fs r d = record { files = refl; current = d; failed = λ n. refl }

moved_to :
    (fs : Fs) (d : ℤ) → IsDirectory fs.files d → Stays fs (record fs { current_dir = d }) (pos 0)
moved_to fs d h = record { files = refl; current = h; failed = λ n. absurd (n refl) }

change_up-Stays :
    (fs : Fs)
    → IsTree fs.files
    → IsDirectory fs.files fs.current_dir
    → (fs' : Fs) × (r : ℤ) × (change_up fs ≡ some (fs', r)) × Stays fs fs' r
unfolding change_up
change_up-Stays fs tree (f, there, dir) = elim (Bool-cases (same_int fs.current_dir (pos 0))) [
  | inl root ↦ (fs, pos 0, rw root refl, same fs (pos 0) (f, there, dir))
  | inr deep ↦ (
    record fs { current_dir = f.parent_index },
    pos 0,
    rw (deep, there) refl,
    moved_to fs f.parent_index (parent_of fs fs.current_dir f tree deep there),
  )
]
  where
    parent_of :
        (fs : Fs) (d : ℤ) (f : Node)
        → IsTree fs.files
        → same_int d (pos 0) ≡ false
        → node fs.files d ≡ some f
        → IsDirectory fs.files f.parent_index
    parent_of fs (pos n) f tree deep there =
        tree.parents n f (unfold same_int in ground (arith, deep)) there
    parent_of fs (negsuc n) f tree deep there = absurd (ground arith)

change_absolute-Stays :
    (fuel : ℕ) (fs : Fs) (path : List ℕ)
    → IsTree fs.files
    → IsDirectory fs.files fs.current_dir
    → max_path ≤ fuel
    → (fs' : Fs) × (r : ℤ) × (change_absolute [] fuel fs path ≡ some (fs', r)) × Stays fs fs' r
unfolding change_absolute
change_absolute-Stays fuel fs path tree h enough =
    let copy = strncpy (drop 1 path) (max_path - 1) in
    let token = strtok copy slash in
    let short : length copy ≤ max_path - 1 = strncpy-length (drop 1 path) (max_path - 1) in
    let (o, e) = ends fs fuel (pos 0) token.0 token.1 (ground (arith, next_token copy, short)) in
    elim (Option-cases o) [
      | inl f ↦ (fs, negsuc 0, rw (e, f, change_absolute) refl, same fs (negsuc 0) h)
      | inr (d, f) ↦ (
        record fs { current_dir = d },
        pos 0,
        rw (e, f, change_absolute) refl,
        moved_to fs d
            (walk_path-IsDirectory [] fs fuel (pos 0) d token.0 token.1 tree.root (e ∙ ap some f)),
      )
    ]

change_relative-Stays :
    (fs : Fs) (path : List ℕ)
    → IsDirectory fs.files fs.current_dir
    → Stays fs (change_relative fs path).0 (change_relative fs path).1
unfolding change_relative
change_relative-Stays fs path h = elim (Option-cases (find_file fs path fs.current_dir)) [
  | inl e ↦ rw (e, change_relative) (same fs (negsuc 0) h)
  | inr (i, e) ↦ elim (Option-cases (get_elem? fs.files i)) [
    | inl g ↦ rw (e, g, change_relative) (same fs (negsuc 0) h)
    | inr (f, g) ↦ elim (Bool-cases (is_directory f.kind)) [
      | inl k ↦ rw (e, g, k, change_relative) (moved_to fs (pos i) (f, g, directory_kind f.kind k))
      | inr k ↦ rw (e, g, k, change_relative) (same fs (negsuc 1) h)
    ]
  ]
]

-- On a table in which the root and all parents are directories, from a directory, with a zero byte at
-- address 0, `change_directory` returns for any path within 256 rounds; the table is unchanged, the current directory is a directory of the table,
-- and it is the one from before if the call failed.
pub change_directory-Stays :
    (fuel : ℕ) (fs : Fs) (path : List ℕ)
    → IsTree fs.files
    → IsDirectory fs.files fs.current_dir
    → max_path ≤ fuel
    → (fs' : Fs) × (r : ℤ) × (change_directory [] fuel fs path ≡ some (fs', r)) × Stays fs fs' r
unfolding change_directory
change_directory-Stays fuel fs path tree h enough =
    elim (Bool-cases (is_zero (strcmp path (46 ∷ 46 ∷ [])))) [
      | inl up ↦ rw (up, change_directory) (change_up-Stays fs tree h)
      | inr not_up ↦ elim (Bool-cases (is_zero (strcmp path (46 ∷ [])))) [
        | inl here ↦ (fs, pos 0, rw (not_up, here) refl, same fs (pos 0) h)
        | inr not_here ↦ elim (Bool-cases (is_zero (strcmp path slash))) [
          | inl root ↦ (
            record fs { current_dir = pos 0 },
            pos 0,
            rw (not_up, not_here, root) refl,
            moved_to fs (pos 0) tree.root,
          )
          | inr not_root ↦ elim (Bool-cases (head path == 47)) [
            | inl absolute ↦
                rw (not_up, not_here, not_root, absolute, change_directory)
                  (change_absolute-Stays fuel fs path tree h enough)
            | inr relative ↦ (
              (change_relative fs path).0,
              (change_relative fs path).1,
              rw (not_up, not_here, not_root, relative) refl,
              change_relative-Stays fs path h,
            )
          ]
        ]
      ]
    ]
