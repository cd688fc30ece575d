-- ===== src/Vfs/Walk.antt =====
-- Paths: which mount a path belongs to, and the walk along its components.
use nix_core_os.Base.{
  ℕ, ◌≡◌, ◌≢◌, ◌<◌, refl, ◌∙◌, sym, ap, true, false, List, [], ◌∷◌, ◌++◌, Option, none, some, ◌==◌,
  pos, arith, length, drop,
}
use mathlib.Core.List.{append-nil, append_assoc}
use nix_core_os.Vfs.{
  Operations, Mount, Vfs, strncmp, find_filesystem, vfs_mount, step, walk, skip_slash, lookup_from,
  vfs_lookup,
}

-- A component: not empty, without a slash, and with its zero in the 256 bytes of `component`.
abbrev pub SlashFree : List ℕ → Type 0
SlashFree [] = Unit
SlashFree (c ∷ s) = (c ≢ 47) × SlashFree s

abbrev pub IsComponent : List ℕ → Type 0
IsComponent s = (0 < length s) × SlashFree s × (length s < 256)

abbrev pub AreComponents : List (List ℕ) → Type 0
AreComponents [] = Unit
AreComponents (c ∷ cs) = IsComponent c × AreComponents cs

-- The components with slashes between them.
abbrev pub join : List (List ℕ) → List ℕ
join [] = []
join (c ∷ []) = c
join (c ∷ d ∷ cs) = c ++ 47 ∷ join (d ∷ cs)

-- Equal bytes up to the length of the second string.
strncmp-prefix : (p s : List ℕ) → strncmp (p ++ s) p (length p) ≡ true
unfolding strncmp
strncmp-prefix [] s = refl
strncmp-prefix (c ∷ p) s = let e : (c == c) ≡ true = ground arith in rw (e, strncmp-prefix p s) refl

drop-prefix : (p s : List ℕ) → drop (length p) (p ++ s) ≡ s
drop-prefix [] s = refl
drop-prefix (c ∷ p) s = drop-prefix p s

skip_slash_lem : (c : List ℕ) → SlashFree c → skip_slash c ≡ c
skip_slash_lem [] h = refl
skip_slash_lem (x ∷ c) (n, h) = let no : (x == 47) ≡ false = ground arith in rw no refl

module _ {F I S : Type 0} (ops : Operations F I S) where
  -- One lookup for each component.
  abbrev pub lookups : S → I → List (List ℕ) → S × Option I
  lookups store current [] = (store, some current)
  lookups store current (c ∷ cs) =
      let (store', found) = ops.lookup current store c in
      elim found [ none ↦ (store', none) | some next ↦ lookups store' next cs ]

  -- No mount of these has a path that the path begins with.
  abbrev pub Misses : List ℕ → List (Mount F) → Type 0
  Misses path [] = Unit
  Misses path (m ∷ r) = (strncmp path m.path (length m.path) ≡ false) × Misses path r

  component_lem :
      (c p acc : List ℕ) (store : S) (current : I)
      → SlashFree c
      → walk ops (c ++ p) acc store current ≡ walk ops p (acc ++ c) store current
  unfolding walk
  component_lem [] p acc store current h =
      ap (λ a. walk ops p a store current) (sym (append-nil acc))
  component_lem (x ∷ c) p acc store current (n, h) =
      let no : (x == 47) ≡ false = ground arith in
      rw (walk, no)
        (component_lem c p (acc ++ x ∷ []) store current h
          ∙ ap (λ a. walk ops p a store current) (append_assoc acc (x ∷ []) c))

  step_lem :
      (c : List ℕ) (store : S) (current : I)
      → 0 < length c
      → step ops store current c ≡ ops.lookup current store c
  unfolding step
  step_lem [] store current n = absurd (omega arith)
  step_lem (x ∷ c) store current n = refl

  last : (x : S × Option I) → x ≡ elim x.1 [ none ↦ (x.0, none) | some next ↦ (x.0, some next) ]
  last (store, none) = refl
  last (store, some next) = refl

  -- The walk goes on from what has been found.
  abbrev enter : S × Option I → List ℕ → S × Option I
  enter x p = elim x.1 [ none ↦ (x.0, none) | some inode ↦ walk ops p [] x.0 inode ]

  enter-lookups :
      (x : S × Option I) (p : List ℕ) (cs : List (List ℕ))
      → ((store : S) (inode : I) → walk ops p [] store inode ≡ lookups store inode cs)
      → enter x p ≡ elim x.1 [ none ↦ (x.0, none) | some next ↦ lookups x.0 next cs ]
  enter-lookups (store, none) p cs h = refl
  enter-lookups (store, some inode) p cs h = h store inode

  walk-join :
      (cs : List (List ℕ)) (store : S) (current : I)
      → AreComponents cs
      → walk ops (join cs) [] store current ≡ lookups store current cs
  unfolding walk
  walk-join [] store current h = unfold step in refl
  walk-join (c ∷ []) store current ((n, h, short), t) =
      ap (λ q. walk ops q [] store current) (sym (append-nil c))
      ∙ component_lem c [] [] store current h
      ∙ step_lem c store current n
      ∙ last (ops.lookup current store c)
  walk-join (c ∷ d ∷ cs) store current ((n, h, short), t) =
      let found = ops.lookup current store c in
      component_lem c (47 ∷ join (d ∷ cs)) [] store current h
      ∙ ap (λ x. enter x (join (d ∷ cs))) (step_lem c store current n)
      ∙ enter-lookups found (join (d ∷ cs)) (d ∷ cs) (λ s i. walk-join (d ∷ cs) s i t)

  lookup_from-Misses :
      (before r : List (Mount F)) (store : S) (path : List ℕ)
      → Misses path before
      → lookup_from ops (before ++ r) store path ≡ lookup_from ops r store path
  unfolding lookup_from
  lookup_from-Misses [] r store path h = refl
  lookup_from-Misses (m ∷ before) r store path (e, h) =
      rw (lookup_from, e) (lookup_from-Misses before r store path h)

  here_lem :
      (m : Mount F) (r : List (Mount F)) (store : S) (path : List ℕ)
      → strncmp path m.path (length m.path) ≡ true
      → lookup_from ops (m ∷ r) store path
        ≡ enter (ops.get_root m.fs store) (skip_slash (drop (length m.path) path))
  unfolding lookup_from
  here_lem m r store path e = rw (lookup_from, e) refl

  -- The path of a mount, and what is behind it. The mounts before that one have no path that it begins with.
  lookup_from-mount :
      (before r : List (Mount F)) (m : Mount F) (store : S) (s : List ℕ) (store' : S) (root : I)
      → Misses (m.path ++ s) before
      → ops.get_root m.fs store ≡ (store', some root)
      → lookup_from ops (before ++ m ∷ r) store (m.path ++ s)
        ≡ walk ops (skip_slash s) [] store' root
  unfolding lookup_from
  lookup_from-mount before r m store s store' root miss e =
      lookup_from-Misses before (m ∷ r) store (m.path ++ s) miss
      ∙ here_lem m r store (m.path ++ s) (strncmp-prefix m.path s)
      ∙ ap (λ q. enter (ops.get_root m.fs store) (skip_slash q)) (drop-prefix m.path s)
      ∙ ap (λ x. enter x (skip_slash s)) e

  -- The first mount whose path begins the path looks up the rest: with a slash behind the mount's path, its
  -- components are looked up one after the other from the root, until one is not found. A component
  -- that follows the mount's path with no slash between them is looked up in its root too, so that
  -- /devices is looked up as ices where /dev is mounted.
  pub vfs_lookup-join :
      (v : Vfs F I S) (before r : List (Mount F)) (m : Mount F) (cs : List (List ℕ)) (c : List ℕ)
      (store : S) (root : I)
      → v.mounts ≡ before ++ m ∷ r
      → ops.get_root m.fs v.store ≡ (store, some root)
      → AreComponents (c ∷ cs)
      → Misses (m.path ++ 47 ∷ join (c ∷ cs)) before
      → Misses (m.path ++ c) before
      → (vfs_lookup ops v (m.path ++ 47 ∷ join (c ∷ cs)) ≡ lookups store root (c ∷ cs))
        × (vfs_lookup ops v (m.path ++ c) ≡ ops.lookup root store c)
  unfolding vfs_lookup
  vfs_lookup-join v before r m cs c store root e f valid miss miss' = (
    rw e (
        lookup_from-mount before r m v.store (47 ∷ join (c ∷ cs)) store root miss f
        ∙ walk-join (c ∷ cs) store root valid),
    rw e (
        lookup_from-mount before r m v.store c store root miss' f
        ∙ ap (λ q. walk ops q [] store root) (skip_slash_lem c valid.0.1)
        ∙ walk-join (c ∷ []) store root (valid.0, tt)
        ∙ sym (last (ops.lookup root store c))),
  )

  -- A file system that has been mounted on a path of less than 1024 bytes serves what is below that path,
  -- whatever has been mounted before: components of 1 to 255 bytes without a slash are looked up one
  -- after the other, from its root on, until one is not found.
  pub vfs_mount-lookup :
      (v : Vfs F I S) (device path fstype : List ℕ) (fs : F) (store store' : S) (root : I)
      (cs : List (List ℕ))
      → length path < 1024
      → find_filesystem ops v.filesystems fstype ≡ some fs
      → ops.mount fs v.store device ≡ (store, pos 0)
      → ops.get_root fs store ≡ (store', some root)
      → AreComponents cs
      → let (v', r) = vfs_mount ops v device path fstype in
        (r ≡ pos 0) × (vfs_lookup ops v' (path ++ 47 ∷ join cs) ≡ lookups store' root cs)
  unfolding vfs_mount vfs_lookup
  vfs_mount-lookup v device path fstype fs store store' root cs fits found mounted rooted valid =
      rw (vfs_mount, found, mounted)
        (
          refl,
          lookup_from-mount [] v.mounts (record { path = path; fs = fs }) store (47 ∷ join cs)
                store' root tt rooted
              ∙ walk-join cs store' root valid,
        )
