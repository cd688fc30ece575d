-- ===== src/Vga/Screen.antt =====
-- The screen shows the lines of the history from the view's first on.
use nix_core_os.Base.{
  ℕ, zero, suc, ◌+◌, ◌-◌, ◌*◌, ◌/◌, ◌%◌, ◌<◌, ◌≡◌, refl, true, false, List, [], ◌∷◌, ltb, leb, ◌==◌,
  ◌||◌, ◌&&◌, if◌then◌else◌, arith, inl, inr, Bool-cases,
}
use nix_core_os.Vga.{
  Terminal, vga_sync_display, vga_ensure_cursor_visible, vga_bottom_view, vga_clear_line, reach_row,
  next_row, vga_shift_history_up, vga_put_entry_at, vga_scroll, terminal_history_lines, vga_width,
  vga_height, put_visible, put_spaces, backspace, vga_putchar, vga_write,
}

-- Each line of the history that is in view is on the screen.
abbrev pub IsShown : Terminal → Type 0
IsShown t =
    (y x : ℕ)
    → y < 25
    → x < 80
    → t.scroll_offset + y < t.history_lines
    → t.screen (y * 80 + x) ≡ t.terminal_buffer (t.scroll_offset + y) x

pub vga_sync_display-IsShown : (t : Terminal) → IsShown (vga_sync_display t)
unfolding vga_sync_display
vga_sync_display-IsShown t y x h k l =
    let i = y * 80 + x in
    let inside : ltb i 2000 ≡ true = ground arith in
    let q : i / 80 ≡ y = omega arith in
    let r : i % 80 ≡ x = omega arith in
    let seen : ltb (t.scroll_offset + y) t.history_lines ≡ true = ground (arith, l) in
    rw (inside, q, r, seen) refl

vga_put_entry_at-IsShown :
    (t : Terminal) (c color x y : ℕ)
    → y < t.history_lines
    → x < 80
    → IsShown t
    → IsShown (vga_put_entry_at t c color x y)
unfolding vga_put_entry_at
vga_put_entry_at-IsShown t c color x y below within shown =
    elim (Bool-cases (leb vga_width x || leb terminal_history_lines y)) [
      | inl e ↦ rw e shown
      | inr e ↦ rw e λ y' x' h k l.
          let old : t.scroll_offset + y' < t.history_lines = ground (arith, l) in
          elim (Bool-cases ((t.scroll_offset + y' == y) && x' == x)) [
            | inl b ↦
                let a : (leb t.scroll_offset y
                      && ltb y (t.scroll_offset + vga_height)
                      && y' * 80 + x' == (y - t.scroll_offset) * vga_width + x)
                    ≡ true =
                  ground (arith, b) in
                rw (a, b) refl
            | inr b ↦
                let a : (leb t.scroll_offset y
                      && ltb y (t.scroll_offset + vga_height)
                      && y' * 80 + x' == (y - t.scroll_offset) * vga_width + x)
                    ≡ false =
                  ground (arith, b) in
                rw (a, b) (shown y' x' h k old)
          ]
    ]

ensure-IsShown : (t : Terminal) → IsShown (vga_ensure_cursor_visible t)
unfolding vga_ensure_cursor_visible
ensure-IsShown t = vga_sync_display-IsShown (record t { scroll_offset = vga_bottom_view t })

vga_scroll-IsShown : (t : Terminal) → IsShown (vga_scroll t)
unfolding vga_scroll
vga_scroll-IsShown t =
    let t1 = if leb terminal_history_lines t.history_lines then vga_shift_history_up t else t in
    let t2 = reach_row (next_row t1) in ensure-IsShown (vga_clear_line t2 t2.row)

put_visible-IsShown : (t : Terminal) (c : ℕ) → IsShown (put_visible t c)
unfolding put_visible
put_visible-IsShown t c =
    let t1 = vga_put_entry_at t c t.color t.column t.row in
    elim (Bool-cases (leb vga_width (t.column + 1))) [
      | inl e ↦ rw e (vga_scroll-IsShown (record t1 { column = 0 }))
      | inr e ↦ rw e (ensure-IsShown (record t1 { column = t.column + 1 }))
    ]

put_spaces-IsShown : (n : ℕ) (t : Terminal) → IsShown t → IsShown (put_spaces n t)
unfolding put_spaces
put_spaces-IsShown zero t shown = shown
put_spaces-IsShown (suc n) t shown =
    put_spaces-IsShown n (put_visible t 32) (put_visible-IsShown t 32)

backspace-IsShown : (t : Terminal) → IsShown t → IsShown (backspace t)
unfolding backspace
backspace-IsShown t shown = elim (Bool-cases (ltb 0 t.column)) [
  | inl e ↦ rw e (
      vga_sync_display-IsShown
        (vga_put_entry_at (record t { column = t.column - 1 }) 32 t.color (t.column - 1) t.row))
  | inr e ↦ rw e shown
]

pub vga_putchar-IsShown : (t : Terminal) (c : ℕ) → IsShown t → IsShown (vga_putchar t c)
unfolding vga_putchar
vga_putchar-IsShown t c shown = elim (Bool-cases (c == 10)) [
  | inl e ↦ rw e (vga_scroll-IsShown (record t { column = 0 }))
  | inr e ↦ elim (Bool-cases (c == 13)) [
    | inl e' ↦ rw (e, e') shown
    | inr e' ↦ elim (Bool-cases (c == 9)) [
      | inl g ↦ rw (e, e', g) (put_spaces-IsShown (4 - t.column % 4) t shown)
      | inr g ↦ elim (Bool-cases (c == 8)) [
        | inl g' ↦ rw (e, e', g, g') (backspace-IsShown t shown)
        | inr g' ↦ rw (e, e', g, g') (put_visible-IsShown t c)
      ]
    ]
  ]
]

pub vga_write-IsShown : (t : Terminal) (text : List ℕ) → IsShown t → IsShown (vga_write t text)
unfolding vga_write
vga_write-IsShown t [] shown = shown
vga_write-IsShown t (c ∷ text) shown =
    vga_write-IsShown (vga_putchar t c) text (vga_putchar-IsShown t c shown)
