-- ===== src/Vga/Runs.antt =====
-- The terminal as the rest of the kernel uses it: any sequence of calls after `vga_init`.
use nix_core_os.Base.{ℕ, zero, suc, List, [], ◌∷◌, ltb, ◌==◌, length, arith, inl, inr, Bool-cases}
use nix_core_os.Text.{utf8_to_ascii}
use nix_core_os.Vga.{
  Terminal, vga_sync_display, vga_ensure_cursor_visible, vga_clear, vga_set_color, vga_init,
  vga_put_entry_at, vga_scroll_up, vga_scroll_down, vga_page_up, vga_page_down, vga_scroll,
  vga_putchar, vga_write, write_string, vga_write_string, vga_set_cursor, vga_bottom_view,
  terminal_history_lines,
}
use nix_core_os.Vga.Valid.{
  IsValid, vga_putchar-IsValid, vga_write-IsValid, vga_scroll-IsValid, vga_put_entry_at-IsValid,
}

-- One call of a function of vga.h.
pub data Call : Terminal → Terminal → Type 0 where
  clear : (t : Terminal) → Call t (vga_clear t)
  set_color : (t : Terminal) (fg bg : ℕ) → Call t (vga_set_color t fg bg)
  put_entry_at : (t : Terminal) (c color x y : ℕ) → Call t (vga_put_entry_at t c color x y)
  putchar : (t : Terminal) (c : ℕ) → Call t (vga_putchar t c)
  write : (t : Terminal) (text : List ℕ) → Call t (vga_write t text)
  write_text : (t : Terminal) (text : List ℕ) → Call t (vga_write_string t text)
  set_cursor : (t : Terminal) (x y : ℕ) → Call t (vga_set_cursor t x y)
  scroll : (t : Terminal) → Call t (vga_scroll t)
  scroll_up : (t : Terminal) → Call t (vga_scroll_up t)
  scroll_down : (t : Terminal) → Call t (vga_scroll_down t)
  page_up : (t : Terminal) → Call t (vga_page_up t)
  page_down : (t : Terminal) → Call t (vga_page_down t)
  refresh_display : (t : Terminal) → Call t (vga_sync_display t)

-- What can be reached from `s`.
pub data Reach (s : Terminal) : Terminal → Type 0 where
  here : Reach s s
  next : {t u : Terminal} → Reach s t → Call t u → Reach s u

clear-IsValid : (t : Terminal) → IsValid (vga_clear t)
unfolding vga_clear vga_sync_display
clear-IsValid t = (omega arith, omega arith, omega arith, omega arith)

write_string-IsValid :
    (fuel : ℕ) (t : Terminal) (text : List ℕ) → IsValid t → IsValid (write_string fuel t text)
unfolding write_string
write_string-IsValid zero t [] valid = valid
write_string-IsValid zero t (b ∷ text) valid = valid
write_string-IsValid (suc fuel) t [] valid = valid
write_string-IsValid (suc fuel) t (b ∷ text) valid =
    let c = (utf8_to_ascii (b ∷ text)).0 in
    let rest = (utf8_to_ascii (b ∷ text)).1 in
    elim (Bool-cases (c == 0)) [
      | inl e ↦ rw e valid
      | inr e ↦
          rw e (write_string-IsValid fuel (vga_putchar t c) rest (vga_putchar-IsValid t c valid))
    ]

Call-IsValid : {t u : Terminal} → Call t u → IsValid t → IsValid u
unfolding vga_set_color vga_scroll_up vga_scroll_down vga_page_up vga_page_down vga_sync_display
    vga_set_cursor vga_write_string vga_ensure_cursor_visible
Call-IsValid (clear t) valid = clear-IsValid t
Call-IsValid (set_color t fg bg) valid = valid
Call-IsValid (put_entry_at t c color x y) valid = vga_put_entry_at-IsValid t c color x y valid
Call-IsValid (putchar t c) valid = vga_putchar-IsValid t c valid
Call-IsValid (write t text) valid = vga_write-IsValid t text valid
Call-IsValid (write_text t text) valid = write_string-IsValid (length text) t text valid
Call-IsValid (set_cursor t x y) (a, b, h, v) = elim (Bool-cases (ltb y terminal_history_lines)) [
  | inl e ↦ rw e (ground arith, ground arith, ground arith, omega arith)
  | inr e ↦ rw e (ground arith, b, h, v)
]
Call-IsValid (scroll t) valid = vga_scroll-IsValid t valid
Call-IsValid (scroll_up t) (a, b, h, v) = elim (Bool-cases (ltb 0 t.scroll_offset)) [
  | inl e ↦ rw e (a, b, h, omega arith)
  | inr e ↦ rw e (a, b, h, v)
]
Call-IsValid (scroll_down t) (a, b, h, v) =
    elim (Bool-cases (ltb t.scroll_offset (vga_bottom_view t))) [
      | inl e ↦ rw e (a, b, h, ground (arith, e))
      | inr e ↦ rw e (a, b, h, v)
    ]
Call-IsValid (page_up t) (a, b, h, v) = (a, b, h, ground arith)
Call-IsValid (page_down t) (a, b, h, v) = (a, b, h, ground arith)
Call-IsValid (refresh_display t) valid = valid

-- After `vga_init` and any calls the cursor is in a column of the screen and in a line of the
-- history, the history has at most 500 lines, and the view is not below its last page.
pub terminal_calls-IsValid :
    (start : Terminal) {t : Terminal} → Reach (vga_init start) t → IsValid t
unfolding vga_init
terminal_calls-IsValid start here = clear-IsValid (vga_set_color start 7 0)
terminal_calls-IsValid start (next r call) = Call-IsValid call (terminal_calls-IsValid start r)
