-- ===== src/Keyboard.antt =====
-- drivers/keyboard.c: the ring buffer between the keyboard's interrupt and the shell, and the decoding of
-- scan codes. Calls of other parts of the kernel are recorded as values.
pub mod Queue
mod Tests
use nix_core_os.Base.{
  ℕ, zero, suc, ◌+◌, ◌-◌, ◌%◌, Bool, true, false, List, [], ◌∷◌, Option, none, some, leb, ltb, ◌==◌,
  ◌&&◌, ◌||◌, not, if◌then◌else◌, get_or,
}

abbrev pub buffer_size : ℕ
buffer_size = 128

-- `keyboard_state_t`
pub record Keyboard : Type 0 where
  pub shift_pressed : Bool
  pub ctrl_pressed : Bool
  pub alt_pressed : Bool
  pub caps_lock : Bool
  pub buffer : ℕ → ℕ
  pub buffer_head : ℕ
  pub buffer_tail : ℕ

-- What the handler calls.
pub data Call : Type 0 where
  vga_scroll_up vga_scroll_down vga_page_up vga_page_down : Call
  shell_handle_ctrl_c shell_handle_ctrl_l : Call

abbrev pub scancode_to_ascii : List ℕ
scancode_to_ascii =
    0 ∷ 27 ∷ 49 ∷ 50 ∷ 51 ∷ 52 ∷ 53 ∷ 54 ∷ 55 ∷ 56 ∷ 57 ∷ 48 ∷ 45 ∷ 61 ∷ 8 ∷ 9 ∷ 113 ∷ 119 ∷ 101
    ∷ 114 ∷ 116 ∷ 121 ∷ 117 ∷ 105 ∷ 111 ∷ 112 ∷ 91 ∷ 93 ∷ 10 ∷ 0 ∷ 97 ∷ 115 ∷ 100 ∷ 102 ∷ 103 ∷ 104
    ∷ 106 ∷ 107 ∷ 108 ∷ 59 ∷ 39 ∷ 96 ∷ 0 ∷ 92 ∷ 122 ∷ 120 ∷ 99 ∷ 118 ∷ 98 ∷ 110 ∷ 109 ∷ 44 ∷ 46 ∷ 47
    ∷ 0 ∷ 42 ∷ 0 ∷ 32 ∷ []

abbrev pub scancode_to_ascii_shift : List ℕ
scancode_to_ascii_shift =
    0 ∷ 27 ∷ 33 ∷ 64 ∷ 35 ∷ 36 ∷ 37 ∷ 94 ∷ 38 ∷ 42 ∷ 40 ∷ 41 ∷ 95 ∷ 43 ∷ 8 ∷ 9 ∷ 81 ∷ 87 ∷ 69 ∷ 82
    ∷ 84 ∷ 89 ∷ 85 ∷ 73 ∷ 79 ∷ 80 ∷ 123 ∷ 125 ∷ 10 ∷ 0 ∷ 65 ∷ 83 ∷ 68 ∷ 70 ∷ 71 ∷ 72 ∷ 74 ∷ 75 ∷ 76
    ∷ 58 ∷ 34 ∷ 126 ∷ 0 ∷ 124 ∷ 90 ∷ 88 ∷ 67 ∷ 86 ∷ 66 ∷ 78 ∷ 77 ∷ 60 ∷ 62 ∷ 63 ∷ 0 ∷ 42 ∷ 0 ∷ 32
    ∷ []

-- The size of either table.
abbrev pub table_size : ℕ
table_size = 58

-- What `keyboard_init` leaves of the state before it; the registration of the handler is left out.
pub keyboard_init : (ℕ → ℕ) → Keyboard
keyboard_init buffer = record {
  shift_pressed = false;
  ctrl_pressed = false;
  alt_pressed = false;
  caps_lock = false;
  buffer = buffer;
  buffer_head = 0;
  buffer_tail = 0;
}

pub keyboard_buffer_add : Keyboard → ℕ → Keyboard
keyboard_buffer_add k c =
    let next_head = (k.buffer_head + 1) % buffer_size in
    if next_head == k.buffer_tail then k else record k {
      buffer = λ i. if i == k.buffer_head then c else k.buffer i;
      buffer_head = next_head;
    }

pub keyboard_buffer_get : Keyboard → Keyboard × ℕ
keyboard_buffer_get k =
    if k.buffer_head == k.buffer_tail
    then (k, 0)
    else (record k { buffer_tail = (k.buffer_tail + 1) % buffer_size }, k.buffer k.buffer_tail)

pub keyboard_buffer_empty : Keyboard → Bool
keyboard_buffer_empty k = k.buffer_head == k.buffer_tail

-- The loop of `keyboard_process` on fuel: the characters that the shell gets.
pub keyboard_process : ℕ → Keyboard → Keyboard × List ℕ
keyboard_process zero k = (k, [])
keyboard_process (suc fuel) k =
    let (k', c) = keyboard_buffer_get k in
    let (k'', l) = keyboard_process fuel k' in
    if keyboard_buffer_empty k then (k, []) else (k'', c ∷ l)

-- The code of a release, with its highest bit taken off.
pub released : Keyboard → ℕ → Keyboard
released k code =
    if (code == 0x2A) || (code == 0x36)
    then record k { shift_pressed = false }
    else if code == 0x1D
    then record k { ctrl_pressed = false }
    else if code == 0x38
    then record k { alt_pressed = false }
    else k

-- The character of a key, for the shift key and the lock of capitals.
pub char_of : Keyboard → ℕ → ℕ
char_of k code =
    let c =
      if k.shift_pressed
      then get_or scancode_to_ascii_shift code 0
      else get_or scancode_to_ascii code 0 in
    if k.caps_lock && leb 97 c && leb c 122
    then c - 32
    else if k.caps_lock && leb 65 c && leb c 90
    then c + 32
    else c

-- The `default` of the handler's second switch.
pub typed : Keyboard → ℕ → Keyboard × Option Call
typed k code =
    let c = char_of k code in
    if leb table_size code
    then (k, none)
    else if k.ctrl_pressed && ((c == 99) || (c == 67))
    then (k, some Call.shell_handle_ctrl_c)
    else if k.ctrl_pressed && ((c == 108) || (c == 76))
    then (k, some Call.shell_handle_ctrl_l)
    else if k.ctrl_pressed && ((c == 120) || (c == 88))
    then (keyboard_buffer_add k 24, none)
    else if c == 0
    then (k, none)
    else (keyboard_buffer_add k c, none)

-- `keyboard_handler`, for the scan code that it reads from the port.
pub keyboard_handler : Keyboard → ℕ → Keyboard × Option Call
keyboard_handler k scancode =
    if leb 0x80 scancode
    then (released k (scancode % 0x80), none)
    else if (scancode == 0x2A) || (scancode == 0x36)
    then (record k { shift_pressed = true }, none)
    else if scancode == 0x1D
    then (record k { ctrl_pressed = true }, none)
    else if scancode == 0x38
    then (record k { alt_pressed = true }, none)
    else if scancode == 0x3A
    then (record k { caps_lock = not k.caps_lock }, none)
    else if scancode == 0x48
    then (keyboard_buffer_add k 72, if k.ctrl_pressed then some Call.vga_scroll_up else none)
    else if scancode == 0x50
    then (keyboard_buffer_add k 80, if k.ctrl_pressed then some Call.vga_scroll_down else none)
    else if scancode == 0x49
    then (k, some Call.vga_page_up)
    else if scancode == 0x51
    then (k, some Call.vga_page_down)
    else typed k scancode
