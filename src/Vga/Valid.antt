-- ===== src/Vga/Valid.antt =====
-- The bounds of the terminal's cursor, history and view.
use nix_core_os.Base.{
  ℕ, zero, suc, ◌+◌, ◌-◌, ◌%◌, ◌≤◌, ◌<◌, ◌≡◌, refl, false, List, [], ◌∷◌, ltb, leb, ◌==◌, ◌||◌,
  if◌then◌else◌, arith, inl, inr, Bool-cases,
}
use nix_core_os.Vga.{
  Terminal, vga_shift_history_up, vga_sync_display, vga_ensure_cursor_visible, vga_put_entry_at,
  next_row, vga_scroll, put_visible, put_spaces, backspace, vga_putchar, vga_write,
  terminal_history_lines, vga_width,
}

-- The cursor is in a line of the history, and the view is not below its last page.
abbrev pub IsValid : Terminal → Type 0
IsValid t =
    (t.column < 80)
    × (t.row < t.history_lines)
    × (t.history_lines ≤ 500)
    × (t.scroll_offset ≤ t.history_lines - 25)

pub vga_put_entry_at-IsValid :
    (t : Terminal) (c color x y : ℕ) → IsValid t → IsValid (vga_put_entry_at t c color x y)
unfolding vga_put_entry_at
vga_put_entry_at-IsValid t c color x y (a, b, h, v) =
    elim (Bool-cases (leb vga_width x || leb terminal_history_lines y)) [
      | inl e ↦ rw e (a, b, h, v)
      | inr e ↦ rw e (a, ground arith, ground arith, ground arith)
    ]

-- Where a line feed leads: in a full history it drops the oldest line.
abbrev pub Scrolled : Terminal → Terminal → Type 0
Scrolled t t' =
    (t'.column ≡ t.column)
    × (t'.row ≡ (if leb 500 t.history_lines then t.row - 1 else t.row) + 1)
    × (t'.row < t'.history_lines)
    × (t'.history_lines ≤ 500)
    × (t'.scroll_offset ≡ t'.history_lines - 25)

next_row-below : (t : Terminal) → t.row + 1 < 500 → next_row t ≡ record t { row = t.row + 1 }
next_row-below t h = let e : leb 500 (t.row + 1) ≡ false = ground arith in rw e refl

pub vga_scroll_lem : (t : Terminal) (valid : IsValid t) → Scrolled t (vga_scroll t)
unfolding vga_scroll vga_shift_history_up vga_ensure_cursor_visible vga_sync_display
vga_scroll_lem t (a, b, h, v) = elim (Bool-cases (leb 500 t.history_lines)) [
  | inl e ↦
      let full : 500 ≤ t.history_lines = ground (arith, e) in
      rw (vga_scroll, e, next_row-below (vga_shift_history_up t) (omega arith))
        (refl, refl, ground arith, ground arith, refl)
  | inr e ↦
      let room : t.history_lines < 500 = ground (arith, e) in
      rw (vga_scroll, e, next_row-below t (omega arith))
        (refl, refl, ground arith, ground arith, refl)
]

pub vga_scroll-IsValid : (t : Terminal) → IsValid t → IsValid (vga_scroll t)
vga_scroll-IsValid t (a, b, h, v) =
    let (c, r, below, full, view) = vga_scroll_lem t (a, b, h, v) in
    (omega arith, below, full, omega arith)

pub ensure-IsValid : (t : Terminal) → IsValid t → IsValid (vga_ensure_cursor_visible t)
unfolding vga_ensure_cursor_visible vga_sync_display
ensure-IsValid t (a, b, h, v) = (a, b, h, omega arith)

pub put_visible-IsValid : (t : Terminal) (c : ℕ) → IsValid t → IsValid (put_visible t c)
unfolding put_visible
put_visible-IsValid t c valid =
    let (a, b, h, v) = vga_put_entry_at-IsValid t c t.color t.column t.row valid in
    let t1 = vga_put_entry_at t c t.color t.column t.row in
    elim (Bool-cases (leb vga_width (t.column + 1))) [
      | inl e ↦ rw e (vga_scroll-IsValid (record t1 { column = 0 }) (omega arith, b, h, v))
      | inr e ↦
          rw e (ensure-IsValid (record t1 { column = t.column + 1 }) (ground (arith, e), b, h, v))
    ]

put_spaces-IsValid : (n : ℕ) (t : Terminal) → IsValid t → IsValid (put_spaces n t)
unfolding put_spaces
put_spaces-IsValid zero t valid = valid
put_spaces-IsValid (suc n) t valid =
    put_spaces-IsValid n (put_visible t 32) (put_visible-IsValid t 32 valid)

pub backspace-IsValid : (t : Terminal) → IsValid t → IsValid (backspace t)
unfolding backspace vga_sync_display
backspace-IsValid t (a, b, h, v) = elim (Bool-cases (ltb 0 t.column)) [
  | inl e ↦ rw e (
      vga_put_entry_at-IsValid (record t { column = t.column - 1 }) 32 t.color (t.column - 1) t.row
        (omega arith, b, h, v))
  | inr e ↦ rw e (a, b, h, v)
]

pub vga_putchar-IsValid : (t : Terminal) (c : ℕ) → IsValid t → IsValid (vga_putchar t c)
unfolding vga_putchar
vga_putchar-IsValid t c (a, b, h, v) = elim (Bool-cases (c == 10)) [
  | inl e ↦ rw e (vga_scroll-IsValid (record t { column = 0 }) (omega arith, b, h, v))
  | inr e ↦ elim (Bool-cases (c == 13)) [
    | inl e' ↦ rw (e, e') (omega arith, b, h, v)
    | inr e' ↦ elim (Bool-cases (c == 9)) [
      | inl g ↦ rw (e, e', g) (put_spaces-IsValid (4 - t.column % 4) t (a, b, h, v))
      | inr g ↦ elim (Bool-cases (c == 8)) [
        | inl g' ↦ rw (e, e', g, g') (backspace-IsValid t (a, b, h, v))
        | inr g' ↦ rw (e, e', g, g') (put_visible-IsValid t c (a, b, h, v))
      ]
    ]
  ]
]

pub vga_write-IsValid : (t : Terminal) (text : List ℕ) → IsValid t → IsValid (vga_write t text)
unfolding vga_write
vga_write-IsValid t [] valid = valid
vga_write-IsValid t (c ∷ text) valid =
    vga_write-IsValid (vga_putchar t c) text (vga_putchar-IsValid t c valid)
