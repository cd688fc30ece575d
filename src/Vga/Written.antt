-- ===== src/Vga/Written.antt =====
-- A word that is written stands on the screen.
use mathlib.Core.Path.{subst}
use nix_core_os.Base.{
  ℕ, zero, suc, ◌+◌, ◌-◌, ◌*◌, ◌≤◌, ◌<◌, ◌≡◌, refl, ap, ◌∙◌, sym, true, false, List, [], ◌∷◌, some,
  leb, ◌==◌, ◌||◌, if◌then◌else◌, arith, length, get_elem?,
}
use nix_core_os.Vga.{
  Terminal, vga_sync_display, vga_ensure_cursor_visible, vga_put_entry_at, vga_entry, put_visible,
  vga_putchar, vga_write,
}
use nix_core_os.Vga.Valid.{IsValid}
use nix_core_os.Vga.Screen.{IsShown, vga_write-IsShown}

get_elem?-below : (l : List ℕ) (i c : ℕ) → get_elem? l i ≡ some c → i < length l
get_elem?-below [] i c e = ground arith
get_elem?-below (x ∷ l) zero c e = omega arith
get_elem?-below (x ∷ l) (suc i) c e = let h = get_elem?-below l i c e in omega arith

-- No control character: each is 32 or more.
abbrev pub IsPrinted : List ℕ → Type 0
IsPrinted [] = Unit
IsPrinted (c ∷ text) = (32 ≤ c) × IsPrinted text

abbrev placed : Terminal → ℕ → Terminal
placed t c =
    vga_ensure_cursor_visible
      (record (vga_put_entry_at t c t.color t.column t.row) { column = t.column + 1 })

putchar-placed : (t : Terminal) (c : ℕ) → 32 ≤ c → t.column + 1 < 80 → vga_putchar t c ≡ placed t c
unfolding vga_putchar put_visible
putchar-placed t c h k =
    let e1 : (c == 10) ≡ false = ground arith in
    let e2 : (c == 13) ≡ false = ground arith in
    let e3 : (c == 9) ≡ false = ground arith in
    let e4 : (c == 8) ≡ false = ground arith in
    let e5 : leb 80 (t.column + 1) ≡ false = ground arith in rw (e1, e2, e3, e4, e5) refl

-- What `placed` leaves.
abbrev Placed : Terminal → ℕ → Terminal → Type 0
Placed t c u =
    (u.row ≡ t.row)
    × (u.column ≡ t.column + 1)
    × (u.color ≡ t.color)
    × (u.history_lines ≡ t.history_lines)
    × (u.scroll_offset ≡ t.history_lines - 25)
    × ((x : ℕ)
        → u.terminal_buffer t.row x
          ≡ (if x == t.column then vga_entry c t.color else t.terminal_buffer t.row x))

placed-Placed : (t : Terminal) (c : ℕ) → IsValid t → Placed t c (placed t c)
unfolding vga_put_entry_at vga_ensure_cursor_visible vga_sync_display
placed-Placed t c (a, b, h, v) =
    let inside : (leb 80 t.column || leb 500 t.row) ≡ false = ground arith in
    let old : leb t.history_lines t.row ≡ false = ground arith in
    let here : (t.row == t.row) ≡ true = ground arith in
    rw (inside, old) (refl, refl, refl, refl, refl, λ x. rw here refl)

-- What a word leaves that is written in a line.
abbrev Written : Terminal → List ℕ → Terminal → Type 0
Written t text u =
    (u.row ≡ t.row)
    × (u.column ≡ t.column + length text)
    × (u.history_lines ≡ t.history_lines)
    × (t.scroll_offset ≡ t.history_lines - 25 → u.scroll_offset ≡ t.history_lines - 25)
    × ((x : ℕ) → x < t.column → u.terminal_buffer t.row x ≡ t.terminal_buffer t.row x)
    × ((i c : ℕ)
        → get_elem? text i ≡ some c
        → (u.terminal_buffer t.row (t.column + i) ≡ vga_entry c t.color)
          × (u.scroll_offset ≡ t.history_lines - 25))

-- The first letter of a word and the others.
letters_of :
    (d : ℕ) (text : List ℕ) (line : ℕ → ℕ) (column color : ℕ) {P : Type 0}
    → line column ≡ vga_entry d color
    → ((i c : ℕ) → get_elem? text i ≡ some c → line (column + 1 + i) ≡ vga_entry c color)
    → P
    → (i c : ℕ) → get_elem? (d ∷ text) i ≡ some c
    → (line (column + i) ≡ vga_entry c color) × P
letters_of d text line column color first rest p zero c e =
    let same : d ≡ c = ground arith in
    (ap line (omega arith) ∙ first ∙ ap (λ x. vga_entry x color) same, p)
letters_of d text line column color first rest p (suc i) c e =
    (ap line (omega arith) ∙ rest i c e, p)

vga_write-Written :
    (t : Terminal) (text : List ℕ)
    → IsValid t
    → IsPrinted text
    → t.column + length text < 80
    → Written t text (vga_write t text)
unfolding vga_write
vga_write-Written t [] valid printed fits =
    (refl, omega arith, refl, λ e. e, λ x h. refl, λ i c e. ground arith)
vga_write-Written t (d ∷ text) (a, b, h, v) (printed, more) fits =
    let u = placed t d in
    let (row, column, color, history, view, line) = placed-Placed t d (a, b, h, v) in
    let valid' : IsValid u = (omega arith, omega arith, omega arith, omega arith) in
    let w = vga_write u text in
    let (row', column', history', kept, before, text') =
      vga_write-Written u text valid' more (omega arith) in
    let before' : (x : ℕ) → x < u.column → w.terminal_buffer t.row x ≡ u.terminal_buffer t.row x =
      subst (λ r. (x : ℕ) → x < u.column → w.terminal_buffer r x ≡ u.terminal_buffer r x) row
        before in
    let first : w.terminal_buffer t.row t.column ≡ vga_entry d t.color =
      let here : (t.column == t.column) ≡ true = ground arith in
      before' t.column (omega arith) ∙ line t.column ∙ rw here refl in
    let old : (x : ℕ) → x < t.column → w.terminal_buffer t.row x ≡ t.terminal_buffer t.row x =
      λ x k.
        let other : (x == t.column) ≡ false = ground (arith, k) in
        before' x (omega arith) ∙ line x ∙ rw other refl in
    let in_view : w.scroll_offset ≡ t.history_lines - 25 =
      kept (omega arith) ∙ ap (λ n. n - 25) history in
    let letters : (i c : ℕ)
        → get_elem? (d ∷ text) i ≡ some c
        → (w.terminal_buffer t.row (t.column + i) ≡ vga_entry c t.color)
          × (w.scroll_offset ≡ t.history_lines - 25) =
      letters_of d text (λ x. w.terminal_buffer t.row x) t.column t.color first
        (λ i c e.
          let (at, n) = text' i c e in
          ap (λ r. w.terminal_buffer r (t.column + 1 + i)) (sym row)
          ∙ ap (λ x. w.terminal_buffer u.row (x + i)) (sym column)
          ∙ at
          ∙ ap (vga_entry c) color)
        in_view in
    subst (λ z. Written t (d ∷ text) (vga_write z text))
      (sym (putchar-placed t d printed (omega arith)))
      (row' ∙ row, omega arith, history' ∙ history, λ z. in_view, old, letters)

-- A word without control characters that fits in the cursor's line stands on the screen once it is
-- written by `vga_write`, from the cursor's place on, in the terminal's colour, and the cursor is
-- behind it; the terminal shows what it holds, and the cursor's line is one of the last 25.
pub vga_write-shows :
    (t : Terminal) (text : List ℕ)
    → IsValid t
    → IsShown t
    → IsPrinted text
    → t.column + length text < 80
    → t.history_lines ≤ t.row + 25
    → let u = vga_write t text in
      (u.row ≡ t.row)
      × (u.column ≡ t.column + length text)
      × ((i c : ℕ)
          → get_elem? text i ≡ some c
          → u.screen ((t.row - (t.history_lines - 25)) * 80 + t.column + i) ≡ vga_entry c t.color)
vga_write-shows t text valid shown printed fits last =
    let u = vga_write t text in
    let (row, column, history, kept, before, letters) =
      vga_write-Written t text valid printed fits in
    (
      row,
      column,
      λ i c e.
          let (at, view) = letters i c e in
          let y = t.row - (t.history_lines - 25) in
          let below : i < length text = get_elem?-below text i c e in
          let line : u.scroll_offset + y ≡ t.row = omega arith in
          ap u.screen (omega arith)
          ∙ vga_write-IsShown t text shown y (t.column + i) (omega arith) (omega arith)
              (omega arith)
          ∙ ap (λ r. u.terminal_buffer r (t.column + i)) line
          ∙ at,
    )
