-- ===== src/Mouse/Tests.antt =====
-- A mouse in the middle of the screen, and a packet behind a stray byte.
use nix_core_os.Base.{arith, ◌≡◌, refl, false, [], ◌∷◌, pos}
use nix_core_os.Mouse.{Mouse, mouse_event, handle_all}
use nix_core_os.Mouse.Packets.{mouse_handler-packet}

abbrev resting : Mouse
resting = record {
  x = pos 640;
  y = pos 360;
  buttons = 0;
  left_pressed = false;
  right_pressed = false;
  middle_pressed = false;
  mouse_cycle = 0;
  byte0 = 0;
  byte1 = 0;
  events = [];
}

-- The left button, 3 to the right and 2 up.
mouse_handler-packet_example :
    let m' = handle_all resting (7 ∷ 9 ∷ 3 ∷ 2 ∷ []) in
    (m'.x ≡ pos 643)
    × (m'.y ≡ pos 358)
    × (m'.buttons ≡ 1)
    × (m'.mouse_cycle ≡ 0)
    × (m'.events ≡ mouse_event (pos 643) (pos 358) 1 ∷ [])
mouse_handler-packet_example =
    mouse_handler-packet resting (7 ∷ []) 9 3 2 640 360 refl (refl, tt) refl
      (omega arith, omega arith) (refl, omega arith) (refl, omega arith)
