-- ===== src/Mouse.antt =====
-- drivers/mouse.c: the bytes of the mouse, three in a packet, and the position and buttons they
-- lead to. A byte comes as an argument instead of from the port. The events for the windows are a
-- list, the last one first. The commands of `mouse_init` to the controller are left out.
pub mod Packets
mod Tests
use nix_core_os.Base.{
  ℕ, zero, suc, ◌+◌, ◌-◌, ◌/◌, ◌%◌, Bool, true, false, List, [], ◌∷◌, ltb, leb, ◌==◌, not,
  if◌then◌else◌, ℤ, pos, negsuc, ◌+ℤ◌, ◌-ℤ◌,
}

-- `SCREEN_WIDTH` and `SCREEN_HEIGHT`
abbrev pub screen_width : ℕ
screen_width = 1280

abbrev pub screen_height : ℕ
screen_height = 720

-- `gui_handle_mouse_event` with its arguments.
pub data Event : Type 0 where
  mouse_event : ℤ → ℤ → ℕ → Event

-- `mouse_state`, `mouse_cycle` and `mouse_byte`, and the events.
pub record Mouse : Type 0 where
  pub x : ℤ
  pub y : ℤ
  pub buttons : ℕ
  pub left_pressed : Bool
  pub right_pressed : Bool
  pub middle_pressed : Bool
  pub mouse_cycle : ℕ
  pub byte0 : ℕ
  pub byte1 : ℕ
  pub events : List Event

-- What `mouse_init` sets.
pub mouse_init : Mouse → Mouse
mouse_init m = record m {
  x = pos 640;
  y = pos 360;
  buttons = 0;
  left_pressed = false;
  right_pressed = false;
  middle_pressed = false;
}

-- `if (v < 0) v = 0; if (v >= size) v = size - 1;`
abbrev pub clamp : ℤ → ℕ → ℤ
clamp (negsuc n) size = pos 0
clamp (pos n) size = if leb size n then pos (size - 1) else pos n

pub mouse_set_position : Mouse → ℤ → ℤ → Mouse
mouse_set_position m x y = record m { x = clamp x screen_width; y = clamp y screen_height }

pub mouse_update_position : Mouse → ℤ → ℤ → Mouse
mouse_update_position m dx dy = record m {
  x = clamp (m.x +ℤ dx) screen_width;
  y = clamp (m.y +ℤ dy) screen_height;
}

-- A byte in an `int8_t`, of which `|= 0xFFFFFF00` changes nothing.
abbrev pub movement : ℕ → ℤ
movement b = if ltb b 128 then pos b else negsuc (255 - b)

abbrev bit : ℕ → ℕ → Bool
bit b power = not (b / power % 2 == 0)

pub mouse_process_packet : Mouse → ℕ → ℤ → ℤ → Mouse
mouse_process_packet m flags dx dy =
    let m1 = mouse_update_position m dx (pos 0 -ℤ dy) in
    let buttons = flags % 8 in
    record m1 {
      buttons = buttons;
      left_pressed = bit buttons 1;
      right_pressed = bit buttons 2;
      middle_pressed = bit buttons 4;
      events =
          if m.buttons == buttons then m1.events else mouse_event m1.x m1.y buttons ∷ m1.events;
    }

pub mouse_handler : Mouse → ℕ → Mouse
mouse_handler m byte =
    if m.mouse_cycle == 0
    then record m { byte0 = byte; mouse_cycle = if bit byte 8 then 1 else 0 }
    else if m.mouse_cycle == 1
    then record m { byte1 = byte; mouse_cycle = 2 }
    else if m.mouse_cycle == 2
    then mouse_process_packet (record m { mouse_cycle = 0 }) m.byte0 (movement m.byte1)
        (movement byte)
    else m

-- The handler for one byte after the other.
abbrev pub handle_all : Mouse → List ℕ → Mouse
handle_all m [] = m
handle_all m (byte ∷ bytes) = handle_all (mouse_handler m byte) bytes

abbrev pub mouse_button_pressed : Mouse → ℕ → Bool
mouse_button_pressed m power = bit m.buttons power
