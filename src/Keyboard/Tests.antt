-- ===== src/Keyboard/Tests.antt =====
-- The keyboard's buffer with two characters in it, at the end of the buffer.
use nix_core_os.Base.{◌≡◌, refl, true, false, [], ◌∷◌, ◌==◌, if◌then◌else◌, arith}
use nix_core_os.Keyboard.{Keyboard, keyboard_buffer_add, keyboard_handler, typed, char_of}
use nix_core_os.Keyboard.Queue.{IsRing, contents, keyboard_buffer_add_lem}

abbrev keys : Keyboard
keys = record {
  shift_pressed = true;
  ctrl_pressed = false;
  alt_pressed = false;
  caps_lock = false;
  buffer = λ i. if i == 127 then 97 else 98;
  buffer_head = 1;
  buffer_tail = 127;
}

two_wait : contents keys ≡ 97 ∷ 98 ∷ []
two_wait = refl

-- The key "q" with the shift key down.
types_q : contents (keyboard_handler keys 16).0 ≡ 97 ∷ 98 ∷ 81 ∷ []
unfolding keyboard_handler typed char_of keyboard_buffer_add
types_q = refl

keys-IsRing : IsRing keys
keys-IsRing = (omega arith, omega arith)

keyboard_buffer_add_lem_example :
    IsRing (keyboard_buffer_add keys 99)
    × (contents (keyboard_buffer_add keys 99) ≡ 97 ∷ 98 ∷ 99 ∷ [])
keyboard_buffer_add_lem_example = keyboard_buffer_add_lem keys 99 keys-IsRing
