-- ===== src/Pseudo/Procfs/Contents.antt =====
-- Files that tell their own names.
use nix_core_os.Base.{
  ℕ, zero, suc, ◌+◌, ◌-◌, ◌%◌, ◌≤◌, ◌<◌, ◌≡◌, refl, ap, sym, ◌∙◌, ◌^◌, Bool, true, false, List, [],
  ◌∷◌, ◌++◌, some, ltb, leb, not, ◌&&◌, ◌==◌, ℤ, pos, negsuc, codes, length, take, drop, arith,
  Bool-cases, inl, inr, drop-all, take-all, take_nil, length-drop,
}
use nix_core_os.Text.{strcmp, is_zero}
use nix_core_os.Text.Compare.{IsText, strcmp-eq-zero_iff}
use nix_core_os.Format.{atoi, skip_space, isspace, read_sign, atoi_loop, isdigit, itoa, text}
use nix_core_os.Format.Numerals.{numerals}
use nix_core_os.Format.Printf.{vsprintf, directive}
use nix_core_os.Format.Reading.{Printed, strtol-itoa, itoa-text, numerals-Printed}
use nix_core_os.Pseudo.{Inode, directory}
use nix_core_os.Pseudo.Procfs.{procfs_lookup, procfs_read, contents, meminfo, clipped, process}

-- The digits of a number, as `itoa` prints them.
abbrev pub decimal : (ℕ → ℕ) → ℕ → List ℕ
decimal temp n = text 34 (itoa temp (pos n)) 0

-- The file of a process with a number of these digits.
abbrev pub process_text : List ℕ → List ℕ
process_text digits =
    codes "Name:\tprocess"
    ++ (digits
        ++ (codes "\nState:\tR (running)\nPid:\t" ++ (digits ++ codes "\nPPid:\t1\nThreads:\t1\n")))

is_zero_lem : (z : ℤ) → is_zero z ≡ true → z ≡ pos 0
is_zero_lem (pos zero) e = refl
is_zero_lem (pos (suc n)) e = ground arith
is_zero_lem (negsuc n) e = ground arith

Printed-IsText : (l : List ℕ) → Printed l → IsText l
Printed-IsText [] h = tt
Printed-IsText (c ∷ l) (h, more) = (λ e. omega arith, Printed-IsText l more)

no_zero : List ℕ → Bool
no_zero [] = true
no_zero (c ∷ l) = not (c == 0) && no_zero l

no_zero-IsText : (l : List ℕ) → no_zero l ≡ true → IsText l
unfolding no_zero
no_zero-IsText [] h = tt
no_zero-IsText (c ∷ l) h = (λ e. ground (arith, h), no_zero-IsText l (ground (arith, h)))

-- A number's digits are no word that is read as 0.
other_name :
    (temp : ℕ → ℕ) (n : ℕ) (word : List ℕ)
    → 0 < n
    → n < 2 ^ 31
    → IsText word
    → atoi word ≡ pos 0
    → is_zero (strcmp (decimal temp n) word) ≡ false
other_name temp n word h k plain zero_read =
    let digits : text 34 (itoa temp (pos n)) 0 ≡ numerals n 10 = itoa-text temp (pos n) in
    let own : IsText (decimal temp n) =
      rw digits (Printed-IsText (numerals n 10) (numerals-Printed n 10)) in
    elim (Bool-cases (is_zero (strcmp (decimal temp n) word))) [
      | inr e ↦ e
      | inl e ↦
          let same : decimal temp n ≡ word =
            (strcmp-eq-zero_iff (decimal temp n) word own plain).0
              (is_zero_lem (strcmp (decimal temp n) word) e) in
          let read : pos 0 ≡ pos n =
            sym zero_read ∙ sym (ap atoi same) ∙ (strtol-itoa temp (pos n) (omega arith)).1 in
          absurd (ground (arith, read))
    ]

meminfo_lem : (temp : ℕ → ℕ) (total free : ℕ) → contents temp total free 3 ≡ some meminfo
unfolding contents vsprintf directive
meminfo_lem temp total free = refl

-- The file of a process.
process_contents :
    (temp : ℕ → ℕ) (total free pid : ℕ)
    → pid < 2 ^ 31
    → contents temp total free (1000 + pid) ≡ some (process_text (decimal temp pid))
unfolding contents vsprintf directive
process_contents temp total free pid h =
    let e2 : (1000 + pid == 2) ≡ false = ground arith in
    let e3 : (1000 + pid == 3) ≡ false = ground arith in
    let e4 : (1000 + pid == 4) ≡ false = ground arith in
    let e5 : (1000 + pid == 5) ≡ false = ground arith in
    let e6 : (1000 + pid == 6) ≡ false = ground arith in
    let e7 : leb 1000 (1000 + pid) ≡ true = ground arith in
    let same : 1000 + pid - 1000 ≡ pid = omega arith in
    let low : ltb pid (2 ^ 31) ≡ true = ground arith in rw (e2, e3, e4, e5, e6, e7, same, low) refl

clipped_lem :
    (l : List ℕ) (count offset : ℕ)
    → offset + count < 2 ^ 64
    → clipped l count offset ≡ take count (drop offset l)
unfolding clipped
clipped_lem l count offset fits = elim (Bool-cases (leb (length l) offset)) [
  | inl past ↦
      let h : length l ≤ offset = ground (arith, past) in
      rw past (sym (ap (take count) (drop-all offset l h) ∙ take_nil count))
  | inr f ↦ elim (Bool-cases (ltb (length l) ((offset + count) % 2 ^ 64))) [
    | inr g ↦ rw (f, g) refl
    | inl g ↦
        let more : length l < offset + count = ground (arith, g) in
        let rest : length (drop offset l) ≡ length l - offset = length-drop offset l in
        rw (f, g)
          (take-all (length l - offset) (drop offset l) (omega arith)
            ∙ sym (take-all count (drop offset l) (omega arith)))
  ]
]

process_lem :
    (pid : ℕ)
    → 0 < pid
    → pid + 1000 < 2 ^ 31
    → process (pos pid)
      ≡ some (record { ino = 1000 + pid; kind = directory; permissions = 365; size = 0 })
process_lem zero h k = absurd (omega arith)
process_lem (suc n) h k =
    let e : (1000 + suc n) % 2 ^ 32 ≡ 1000 + suc n = omega arith in
    ap (λ i. some (record { ino = i; kind = directory; permissions = 365; size = 0 })) e

-- A process is looked up by the digits of its number, from 1 to 2^31 - 1001, and the file that is
-- read then has that number in its first and third lines.
pub procfs_read-procfs_lookup :
    (temp : ℕ → ℕ) (total_pages free_pages pid count offset : ℕ)
    → 0 < pid
    → pid + 1000 < 2 ^ 31
    → offset + count < 2 ^ 64
    → (inode : Inode) × (procfs_lookup (decimal temp pid) ≡ some inode)
      × (procfs_read temp total_pages free_pages inode count offset
          ≡ some (take count (drop offset (process_text (decimal temp pid)))))
unfolding procfs_lookup atoi skip_space isspace read_sign atoi_loop isdigit no_zero
procfs_read-procfs_lookup temp total_pages free_pages pid count offset h k fits =
    let other : (word : List ℕ)
        → IsText word
        → atoi word ≡ pos 0
        → is_zero (strcmp (decimal temp pid) word) ≡ false =
      λ word plain read. other_name temp pid word h (omega arith) plain read in
    let info = process_text (decimal temp pid) in
    let number = (strtol-itoa temp (pos pid) (omega arith)).1 in
    (
      record { ino = 1000 + pid; kind = directory; permissions = 365; size = 0 },
      rw
          (
            procfs_lookup,
            other (codes "cpuinfo") (no_zero-IsText (codes "cpuinfo") refl) refl,
            other (codes "meminfo") (no_zero-IsText (codes "meminfo") refl) refl,
            other (codes "version") (no_zero-IsText (codes "version") refl) refl,
            other (codes "uptime") (no_zero-IsText (codes "uptime") refl) refl,
            other (codes "loadavg") (no_zero-IsText (codes "loadavg") refl) refl,
            number,
          )
          (process_lem pid h k),
      rw (procfs_read, process_contents temp total_pages free_pages pid (omega arith))
          (ap some (clipped_lem info count offset fits)),
    )
