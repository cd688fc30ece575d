-- ===== src/Vga.antt =====
-- drivers/vga.c and include/vga.h: the terminal with its history of 500 lines, and the screen of 25
-- lines that shows a part of it. The screen is the memory at 0xB8000, by its index; the two writes
-- to ports of `vga_init`, which hide the hardware's cursor, are left out.
pub mod Valid
pub mod Screen
pub mod Written
pub mod Runs
mod Tests
use nix_core_os.Base.{
  ℕ, zero, suc, ◌+◌, ◌-◌, ◌*◌, ◌/◌, ◌%◌, ◌^◌, Bool, true, false, List, [], ◌∷◌, ltb, leb, ◌==◌,
  ◌&&◌, ◌||◌, if◌then◌else◌, length,
}
use nix_core_os.Text.{utf8_to_ascii}

-- `TERMINAL_HISTORY_LINES`, `VGA_HEIGHT` and `VGA_WIDTH`
abbrev pub terminal_history_lines : ℕ
terminal_history_lines = 500

abbrev pub vga_height : ℕ
vga_height = 25

abbrev pub vga_width : ℕ
vga_width = 80

-- `vga_state` and the static variables.
pub record Terminal : Type 0 where
  pub row : ℕ
  pub column : ℕ
  pub color : ℕ
  pub terminal_buffer : ℕ → ℕ → ℕ
  pub history_lines : ℕ
  pub scroll_offset : ℕ
  pub screen : ℕ → ℕ

abbrev pub vga_entry_color : ℕ → ℕ → ℕ
vga_entry_color fg bg = fg + bg * 16

abbrev pub vga_entry : ℕ → ℕ → ℕ
vga_entry c color = c + color * 256

abbrev pub blank : ℕ → ℕ
blank color = vga_entry 32 color

-- The loop of `vga_clear_line`.
abbrev pub vga_clear_line : Terminal → ℕ → Terminal
vga_clear_line t line = record t {
  terminal_buffer =
      λ y x. if (y == line) && ltb x vga_width then blank t.color else t.terminal_buffer y x;
}

-- The loop that moves each line to the one above it, which is read before it is overwritten.
pub vga_shift_history_up : Terminal → Terminal
vga_shift_history_up t =
    let moved : Terminal = record t {
      terminal_buffer = λ y.
          if ltb y (terminal_history_lines - 1)
          then t.terminal_buffer (y + 1)
          else t.terminal_buffer y;
    } in
    let cleared = vga_clear_line moved (terminal_history_lines - 1) in
    record cleared {
      history_lines = t.history_lines - 1;
      row = t.row - 1;
      scroll_offset = t.scroll_offset - 1;
    }

abbrev pub vga_bottom_view : Terminal → ℕ
vga_bottom_view t = t.history_lines - vga_height

-- What the screen shows at line `y` and column `x` after `vga_sync_display`.
abbrev pub shown_at : Terminal → ℕ → ℕ → ℕ
shown_at t y x =
    let source_line = t.scroll_offset + y in
    if ltb source_line t.history_lines then t.terminal_buffer source_line x else blank t.color

-- The loops over the 2000 cells of the screen.
pub vga_sync_display : Terminal → Terminal
vga_sync_display t = record t {
  screen = λ i.
      if ltb i (vga_height * vga_width)
      then shown_at t (i / vga_width) (i % vga_width)
      else t.screen i;
}

pub vga_ensure_cursor_visible : Terminal → Terminal
vga_ensure_cursor_visible t = vga_sync_display (record t { scroll_offset = vga_bottom_view t })

-- The loop over the lines of the history.
abbrev pub clear_lines : ℕ → Terminal → Terminal
clear_lines zero t = t
clear_lines (suc n) t = vga_clear_line (clear_lines n t) n

pub vga_clear : Terminal → Terminal
vga_clear t = vga_sync_display (record (clear_lines terminal_history_lines t) {
  row = 0;
  column = 0;
  history_lines = 1;
  scroll_offset = 0;
})

pub vga_set_color : Terminal → ℕ → ℕ → Terminal
vga_set_color t fg bg = record t { color = vga_entry_color fg bg }

-- Light grey on black.
pub vga_init : Terminal → Terminal
vga_init t = vga_clear (vga_set_color t 7 0)

pub vga_put_entry_at : Terminal → ℕ → ℕ → ℕ → ℕ → Terminal
vga_put_entry_at t c color x y =
    if leb vga_width x || leb terminal_history_lines y then t else record t {
      terminal_buffer =
          λ y' x'. if (y' == y) && x' == x then vga_entry c color else t.terminal_buffer y' x';
      history_lines = if leb t.history_lines y then y + 1 else t.history_lines;
      screen = λ i.
          if leb t.scroll_offset y
            && ltb y (t.scroll_offset + vga_height)
            && i == (y - t.scroll_offset) * vga_width + x
          then vga_entry c color
          else t.screen i;
    }

pub vga_scroll_up : Terminal → Terminal
vga_scroll_up t =
    if ltb 0 t.scroll_offset
    then vga_sync_display (record t { scroll_offset = t.scroll_offset - 1 })
    else t

pub vga_scroll_down : Terminal → Terminal
vga_scroll_down t =
    if ltb t.scroll_offset (vga_bottom_view t)
    then vga_sync_display (record t { scroll_offset = t.scroll_offset + 1 })
    else t

pub vga_page_up : Terminal → Terminal
vga_page_up t = vga_sync_display (record t {
  scroll_offset = if ltb vga_height t.scroll_offset then t.scroll_offset - vga_height else 0;
})

pub vga_page_down : Terminal → Terminal
vga_page_down t = vga_sync_display (record t {
  scroll_offset =
      if ltb (t.scroll_offset + vga_height) (vga_bottom_view t)
      then t.scroll_offset + vga_height
      else vga_bottom_view t;
})

-- `if (vga_state.row >= history_lines) history_lines = vga_state.row + 1;`
abbrev pub reach_row : Terminal → Terminal
reach_row t = record t {
  history_lines = if leb t.history_lines t.row then t.row + 1 else t.history_lines;
}

abbrev pub next_row : Terminal → Terminal
next_row t =
    if leb terminal_history_lines (t.row + 1)
    then vga_shift_history_up t
    else record t { row = t.row + 1 }

pub vga_scroll : Terminal → Terminal
vga_scroll t =
    let t1 = if leb terminal_history_lines t.history_lines then vga_shift_history_up t else t in
    let t2 = reach_row (next_row t1) in vga_ensure_cursor_visible (vga_clear_line t2 t2.row)

-- What `vga_putchar` does with any other character: it is put at the cursor, which moves on.
pub put_visible : Terminal → ℕ → Terminal
put_visible t c =
    let t1 = vga_put_entry_at t c t.color t.column t.row in
    if leb vga_width (t.column + 1)
    then vga_scroll (record t1 { column = 0 })
    else vga_ensure_cursor_visible (record t1 { column = t.column + 1 })

-- The loop of a tab.
pub put_spaces : ℕ → Terminal → Terminal
put_spaces zero t = t
put_spaces (suc n) t = put_spaces n (put_visible t 32)

-- A step back: the character there is cleared.
pub backspace : Terminal → Terminal
backspace t =
    if ltb 0 t.column
    then vga_sync_display
        (vga_put_entry_at (record t { column = t.column - 1 }) 32 t.color (t.column - 1) t.row)
    else t

-- A new line is 10, a return 13, a tab 9 and a step back 8.
pub vga_putchar : Terminal → ℕ → Terminal
vga_putchar t c =
    if c == 10
    then vga_scroll (record t { column = 0 })
    else if c == 13
    then record t { column = 0 }
    else if c == 9
    then put_spaces (4 - t.column % 4) t
    else if c == 8
    then backspace t
    else put_visible t c

pub vga_write : Terminal → List ℕ → Terminal
vga_write t [] = t
vga_write t (c ∷ text) = vga_write (vga_putchar t c) text

-- The loop of `vga_write_string`. Each round moves on by a byte at least, so that the length is
-- enough fuel.
pub write_string : ℕ → Terminal → List ℕ → Terminal
write_string fuel t [] = t
write_string zero t (b ∷ text) = t
write_string (suc fuel) t (b ∷ text) =
    let (c, rest) = utf8_to_ascii (b ∷ text) in
    if c == 0 then t else write_string fuel (vga_putchar t c) rest

pub vga_write_string : Terminal → List ℕ → Terminal
vga_write_string t text = write_string (length text) t text

pub vga_set_cursor : Terminal → ℕ → ℕ → Terminal
vga_set_cursor t x y =
    let t1 : Terminal = record t { column = if ltb x vga_width then x else t.column } in
    if ltb y terminal_history_lines
    then vga_ensure_cursor_visible (record t1 {
      row = y;
      history_lines = if leb t1.history_lines y then y + 1 else t1.history_lines;
    })
    else t1

abbrev pub vga_get_cursor : Terminal → ℕ × ℕ
vga_get_cursor t = (t.column, t.row)
