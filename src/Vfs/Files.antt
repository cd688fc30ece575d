-- ===== src/Vfs/Files.antt =====
-- The table of open files.
use nix_core_os.Base.{
  take-add, length-take, length-append, drop-add, ℕ, zero, suc, ◌+◌, ◌^◌, ◌≤◌, ◌<◌, ◌≡◌, ◌≢◌, refl,
  ◌∙◌, sym, ap, true, false, List, [], ◌++◌, Option, none, some, ◌==◌, if◌then◌else◌, pos, negsuc,
  arith, length, drop, take, ltb, Option-cases, inl, inr, ◌⊎◌,
}
use nix_core_os.Vfs.{
  Operations, File, Vfs, vfs_lookup, free_file, vfs_open, file_at, vfs_close, vfs_read, vfs_write,
  advance,
}

module _ {F I S : Type 0} (ops : Operations F I S) where
  taken :
      (files : ℕ → Option (File I)) (i j : ℕ) (f : File I)
      → files i ≡ some f
      → (suc i ≤ j → ⊥)
      → i ≤ j
      → files j ≡ none
      → ⊥
  taken files i j f e later h z =
      let same : i ≡ j = ground (arith, later) in
      let clash : some f ≡ none = sym e ∙ ap files same ∙ z in ground arith

  -- The first free descriptor of those that are looked at, or none.
  free_file_lem :
      (files : ℕ → Option (File I)) (i n : ℕ)
      → ((fd : ℕ) × (free_file ops files i n ≡ some fd)
          × (i ≤ fd)
          × (fd < i + n)
          × (files fd ≡ none)
          × ((j : ℕ) → i ≤ j → j < fd → files j ≢ none))
        ⊎ ((free_file ops files i n ≡ none) × ((j : ℕ) → i ≤ j → j < i + n → files j ≢ none))
  unfolding free_file
  free_file_lem files i zero = inr (refl, λ j h k. absurd (omega arith))
  free_file_lem files i (suc n) = elim (Option-cases (files i)) [
    | inl e ↦
        inl (i, rw (free_file, e) refl, omega arith, omega arith, e, λ j h k. absurd (omega arith))
    | inr (f, e) ↦ elim (free_file_lem files (suc i) n) [
      | inl (fd, a, b, c, d, g) ↦ inl (
        fd,
        rw (free_file, e) a,
        omega arith,
        omega arith,
        d,
        λ j h k z. taken files i j f e (λ q. g j q k z) h z,
      )
      | inr (a, g) ↦
          inr (rw (free_file, e) a, λ j h k z. taken files i j f e (λ q. g j q (omega arith) z) h z)
    ]
  ]

  abbrev pub opened : I → ℕ → File I
  opened inode flags = record { inode = inode; offset = 0; flags = flags; refcount = 1 }

  -- Opening a path whose lookup finds an inode: with a free descriptor from 3 on, `vfs_open` returns the
  -- first one, which holds that inode from offset 0 on, and leaves every other; if 3 to 255 are all in
  -- use it returns -1 and leaves the table.
  pub vfs_open_lem :
      (v : Vfs F I S) (path : List ℕ) (flags : ℕ) (store : S) (inode : I)
      → vfs_lookup ops v path ≡ (store, some inode)
      → let (v', r) = vfs_open ops v path flags in
        ((fd : ℕ) × (r ≡ pos fd)
          × (3 ≤ fd)
          × (fd < 256)
          × (v.open_files fd ≡ none)
          × ((j : ℕ) → 3 ≤ j → j < fd → v.open_files j ≢ none)
          × ((j : ℕ)
              → v'.open_files j ≡ (if j == fd then some (opened inode flags) else v.open_files j)))
        ⊎ ((r ≡ negsuc 0)
            × ((j : ℕ) → 3 ≤ j → j < 256 → v.open_files j ≢ none)
            × ((j : ℕ) → v'.open_files j ≡ v.open_files j))
  unfolding vfs_open
  vfs_open_lem v path flags store inode e = elim (free_file_lem v.open_files 3 253) [
    | inl (fd, a, b, c, d, g) ↦
        rw (vfs_open, e, a) (inl (fd, refl, b, omega arith, d, g, λ j. refl))
    | inr (a, g) ↦ rw (vfs_open, e, a) (inr (refl, g, λ j. refl))
  ]

  file_at_lem :
      (v : Vfs F I S) (n : ℕ) (f : File I)
      → n < 256
      → v.open_files n ≡ some f
      → file_at ops v (pos n) ≡ some (n, f)
  unfolding file_at
  file_at_lem v n f h e = let below : ltb n 256 ≡ true = ground arith in rw (below, e) refl

  file_at-none : (v : Vfs F I S) (n : ℕ) → v.open_files n ≡ none → file_at ops v (pos n) ≡ none
  unfolding file_at
  file_at-none v n e = rw e (ground arith)

  abbrev closed : Vfs F I S → ℕ → Vfs F I S
  closed v n = record v { open_files = λ i. if i == n then none else v.open_files i }

  closes :
      (v : Vfs F I S) (n : ℕ) (f : File I)
      → n < 256
      → v.open_files n ≡ some f
      → vfs_close ops v (pos n) ≡ (closed v n, pos 0)
  unfolding vfs_close
  closes v n f h e = rw (vfs_close, file_at_lem v n f h e) refl

  refused :
      (v : Vfs F I S) (n count : ℕ) (buf : List ℕ)
      → v.open_files n ≡ none
      → (vfs_close ops v (pos n) ≡ (v, negsuc 0))
        × (vfs_read ops v (pos n) count ≡ (v, negsuc 0, []))
        × (vfs_write ops v (pos n) buf ≡ (v, negsuc 0))
  unfolding vfs_close vfs_read vfs_write
  refused v n count buf e =
      let no = file_at-none v n e in
      (rw (vfs_close, no) refl, rw (vfs_read, no) refl, rw (vfs_write, no) refl)

  -- A descriptor that has been closed reads and closes as -1 until it is opened again; the other
  -- descriptors are as they were.
  pub vfs_close_lem :
      (v : Vfs F I S) (n : ℕ) (f : File I) (count : ℕ) (buf : List ℕ)
      → n < 256
      → v.open_files n ≡ some f
      → let (v', r) = vfs_close ops v (pos n) in
        (r ≡ pos 0)
        × ((j : ℕ) → j ≢ n → v'.open_files j ≡ v.open_files j)
        × (vfs_close ops v' (pos n) ≡ (v', negsuc 0))
        × (vfs_read ops v' (pos n) count ≡ (v', negsuc 0, []))
        × (vfs_write ops v' (pos n) buf ≡ (v', negsuc 0))
  vfs_close_lem v n f count buf h e =
      let gone : (closed v n).open_files n ≡ none =
        let here : (n == n) ≡ true = ground arith in rw here refl in
      let no = refused (closed v n) n count buf gone in
      rw (closes v n f h e) (
        refl,
        λ j d. let other : (j == n) ≡ false = ground arith in rw other refl,
        no.0,
        no.1,
        no.2,
      )

  -- What a read of a file returns that has `content`: the bytes from the offset on, as many as there are,
  -- if the end of the read does not wrap around.
  abbrev pub ReadsAs : I → S → List ℕ → Type 0
  ReadsAs inode store content =
      (count offset : ℕ)
      → offset + count < 2 ^ 64
      → ops.read inode store count offset
        ≡ (store, pos (length (take count (drop offset content))), take count (drop offset content))

  read_step :
      (v : Vfs F I S) (n : ℕ) (f : File I) (content : List ℕ) (count : ℕ)
      → n < 256
      → v.open_files n ≡ some f
      → ops.has_ops f.inode ≡ true
      → ReadsAs f.inode v.store content
      → f.offset + count < 2 ^ 64
      → let got = take count (drop f.offset content) in
        vfs_read ops v (pos n) count
        ≡ (advance ops v n f v.store (pos (length got)), pos (length got), got)
  unfolding vfs_read
  read_step v n f content count h e has reads fits =
      rw (vfs_read, file_at_lem v n f h e, has, reads count f.offset fits) refl

  -- For a file system whose reads return the bytes of the file's content from the offset on, two reads of
  -- an open file one after the other return what follows in the content: together they are what one read
  -- of both lengths returns.
  pub vfs_read_twice :
      (v : Vfs F I S) (n : ℕ) (f : File I) (content : List ℕ) (a b : ℕ)
      → n < 256
      → v.open_files n ≡ some f
      → ops.has_ops f.inode ≡ true
      → ReadsAs f.inode v.store content
      → f.offset + (a + b) < 2 ^ 64
      → let (v', r, first) = vfs_read ops v (pos n) a in
        let (v'', r', second) = vfs_read ops v' (pos n) b in
        (first ++ second ≡ take (a + b) (drop f.offset content))
        × (first ++ second ≡ (vfs_read ops v (pos n) (a + b)).2)
        × (r ≡ pos (length first))
        × (r' ≡ pos (length second))
        × (v''.open_files n ≡ some (record f { offset = f.offset + length (first ++ second) }))
  vfs_read_twice v n f content a b h e has reads fits =
      let rest = drop f.offset content in
      let got = take a rest in
      let f' = record f { offset = f.offset + length got } in
      let v' = advance ops v n f v.store (pos (length got)) in
      let next : v'.open_files n ≡ some f' =
        let here : (n == n) ≡ true = ground arith in rw here refl in
      let both : got ++ take b (drop (f.offset + length got) content) ≡ take (a + b) rest =
        ap (λ l. got ++ take b l) (drop-add f.offset (length got) content) ∙ take-add a b rest in
      let got' = take b (drop f'.offset content) in
      let longer : f.offset + length got + length got' ≡ f.offset + length (got ++ got') =
        omega (arith, length-append got got') in
      let moved : (advance ops v' n f' v.store (pos (length got'))).open_files n
          ≡ some (record f { offset = f.offset + length (got ++ got') }) =
        let here : (n == n) ≡ true = ground arith in
        rw here (ap (λ o. some (record f { offset = o })) longer) in
      rw
        (
          read_step v n f content a h e has reads (omega arith),
          read_step v' n f' content b h next has reads (omega (arith, length-take a rest)),
          read_step v n f content (a + b) h e has reads fits,
        )
        (both, both, refl, refl, moved)
