-- ===== src/Vga/Tests.antt =====
-- A terminal after `vga_init`.
use nix_core_os.Base.{ℕ, ◌+◌, ◌-◌, ◌*◌, ◌≡◌, refl, arith, codes, get_elem?, some}
use nix_core_os.Vga.{Terminal, vga_init, vga_write, vga_putchar, vga_entry, vga_set_cursor}
use nix_core_os.Vga.Valid.{IsValid}
use nix_core_os.Vga.Runs.{terminal_calls-IsValid, here, next, putchar, set_cursor}
use nix_core_os.Vga.Written.{vga_write-shows}

abbrev powered : Terminal
powered = record {
  row = 0;
  column = 0;
  color = 0;
  terminal_buffer = λ y x. 0;
  history_lines = 0;
  scroll_offset = 0;
  screen = λ i. 0;
}

abbrev ready : Terminal
ready = record {
  row = 30;
  column = 5;
  color = 7;
  terminal_buffer = λ y x. 1824;
  history_lines = 31;
  scroll_offset = 6;
  screen = λ i. 1824;
}

terminal_calls-IsValid_example : IsValid (vga_putchar (vga_set_cursor (vga_init powered) 79 499) 65)
terminal_calls-IsValid_example = terminal_calls-IsValid powered (
    next (next here (set_cursor (vga_init powered) 79 499))
      (putchar (vga_set_cursor (vga_init powered) 79 499) 65))

-- "ok" at column 5 of line 24 of the screen.
vga_write-shows_example :
    let u = vga_write ready (codes "ok") in
    (u.row ≡ 30)
    × (u.column ≡ 7)
    × ((i c : ℕ)
        → get_elem? (codes "ok") i ≡ some c
        → u.screen ((30 - (31 - 25)) * 80 + 5 + i) ≡ vga_entry c 7)
vga_write-shows_example =
    vga_write-shows ready (codes "ok") (omega arith, omega arith, omega arith, omega arith)
      (λ y x h k l. refl) (omega arith, (omega arith, tt)) (omega arith) (omega arith)
