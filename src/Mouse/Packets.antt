-- ===== src/Mouse/Packets.antt =====
-- Packets and the bounds of the position.
use nix_core_os.Base.{
  ℕ, ◌+◌, ◌-◌, ◌/◌, ◌%◌, ◌<◌, ◌≡◌, refl, ◌∙◌, ap, true, ltb, List, [], ◌∷◌, ◌++◌, leb, ◌==◌, not,
  if◌then◌else◌, ℤ, pos, negsuc, ◌+ℤ◌, ◌-ℤ◌, arith, Bool-cases, inl, inr,
}
use nix_core_os.Mouse.{
  Mouse, mouse_handler, handle_all, mouse_process_packet, mouse_update_position, movement, clamp,
  Event, mouse_event,
}

-- A coordinate from 0 on and below a size.
abbrev pub Within : ℤ → ℕ → Type 0
Within z size = (n : ℕ) × (z ≡ pos n) × (n < size)

-- The mouse is on the screen, and waits for the first, second or third byte.
abbrev pub IsValid : Mouse → Type 0
IsValid m = Within m.x 1280 × Within m.y 720 × (m.mouse_cycle < 3) × (m.buttons < 8)

clamp-Within : (z : ℤ) (size : ℕ) → 0 < size → Within (clamp z size) size
clamp-Within (negsuc n) size h = (0, refl, h)
clamp-Within (pos n) size h = elim (Bool-cases (leb size n)) [
  | inl e ↦ rw e (size - 1, refl, omega arith)
  | inr e ↦ rw e (n, refl, ground (arith, e))
]

mouse_handler-IsValid : (m : Mouse) (byte : ℕ) → IsValid m → IsValid (mouse_handler m byte)
unfolding mouse_handler mouse_process_packet mouse_update_position
mouse_handler-IsValid m byte (x, y, cycle, buttons) = elim (Bool-cases (m.mouse_cycle == 0)) [
  | inl e ↦ rw e (x, y, ground arith, buttons)
  | inr e ↦ elim (Bool-cases (m.mouse_cycle == 1)) [
    | inl e' ↦ rw (e, e') (x, y, omega arith, buttons)
    | inr e' ↦
        let last : (m.mouse_cycle == 2) ≡ true = ground arith in
        let dx = m.x +ℤ movement m.byte1 in
        let dy = m.y +ℤ (pos 0 -ℤ movement byte) in
        rw (e, e', last)
          (
            clamp-Within dx 1280 (omega arith),
            clamp-Within dy 720 (omega arith),
            omega arith,
            omega arith,
          )
  ]
]

-- Whatever bytes arrive, the position is on the screen and the next byte is the first, second or
-- third of a packet.
pub mouse_handler-IsValid_all :
    (m : Mouse) (bytes : List ℕ) → IsValid m → IsValid (handle_all m bytes)
mouse_handler-IsValid_all m [] valid = valid
mouse_handler-IsValid_all m (byte ∷ bytes) valid =
    mouse_handler-IsValid_all (mouse_handler m byte) bytes (mouse_handler-IsValid m byte valid)

-- Bytes whose bit 3 is not set.
abbrev pub IsNoise : List ℕ → Type 0
IsNoise [] = Unit
IsNoise (b ∷ bytes) = (b / 8 % 2 ≡ 0) × IsNoise bytes

mouse_handler-first :
    (m : Mouse) (byte bit : ℕ)
    → m.mouse_cycle ≡ 0
    → byte / 8 % 2 ≡ bit
    → mouse_handler m byte
      ≡ record m { byte0 = byte; mouse_cycle = if not (bit == 0) then 1 else 0 }
unfolding mouse_handler
mouse_handler-first m byte bit first e = rw (first, e) refl

-- A coordinate that a packet's byte moves up, as a number from -128 to 127, and stops at 0 and below a
-- size; and one that it moves down.
abbrev pub ahead : ℕ → ℕ → ℕ → ℕ
ahead size z d = if leb 128 d then z - (256 - d) else if leb size (z + d) then size - 1 else z + d

abbrev pub back : ℕ → ℕ → ℕ → ℕ
back size z d =
    if leb 128 d then if leb size (z + (256 - d)) then size - 1 else z + (256 - d) else z - d

clamp-ahead :
    (size z d : ℕ) → z < size → d < 256 → clamp (pos z +ℤ movement d) size ≡ pos (ahead size z d)
unfolding ◌+ℤ◌
clamp-ahead size z d h k = elim (Bool-cases (ltb d 128)) [
  | inl t ↦ rw (movement, t) (ground arith)
  | inr f ↦ rw (movement, f) (ground arith)
]

clamp-back :
    (size z d : ℕ)
    → z < size
    → d < 256
    → clamp (pos z +ℤ (pos 0 -ℤ movement d)) size ≡ pos (back size z d)
unfolding ◌+ℤ◌ ◌-ℤ◌
clamp-back size z d h k = elim (Bool-cases (ltb d 128)) [
  | inl t ↦ rw (movement, t) (ground arith)
  | inr f ↦ rw (movement, f) (ground arith)
]

-- Bytes without bit 3 before a packet are passed over: the packet with the first byte that has it
-- moves a position on the screen by the second byte to the right and by the third byte up, as numbers
-- from -128 to 127, but not beyond the screen, sets the buttons, and is told to the windows if and
-- only if the buttons are others than before.
pub mouse_handler-packet :
    (m : Mouse) (noise : List ℕ) (flags dx dy x y : ℕ)
    → m.mouse_cycle ≡ 0
    → IsNoise noise
    → flags / 8 % 2 ≡ 1
    → (dx < 256) × (dy < 256)
    → (m.x ≡ pos x) × (x < 1280)
    → (m.y ≡ pos y) × (y < 720)
    → let m' = handle_all m (noise ++ flags ∷ dx ∷ dy ∷ []) in
      (m'.x ≡ pos (ahead 1280 x dx))
      × (m'.y ≡ pos (back 720 y dy))
      × (m'.buttons ≡ flags % 8)
      × (m'.mouse_cycle ≡ 0)
      × (m'.events ≡ (
          if m.buttons == flags % 8
          then m.events
          else mouse_event (pos (ahead 1280 x dx)) (pos (back 720 y dy)) (flags % 8) ∷ m.events))
unfolding mouse_handler mouse_process_packet mouse_update_position
mouse_handler-packet m [] flags dx dy x y first noise set (k, l) (at_x, in_x) (at_y, in_y) =
    let right : clamp (m.x +ℤ movement dx) 1280 ≡ pos (ahead 1280 x dx) =
      rw at_x (clamp-ahead 1280 x dx in_x k) in
    let up : clamp (m.y +ℤ (pos 0 -ℤ movement dy)) 720 ≡ pos (back 720 y dy) =
      rw at_y (clamp-back 720 y dy in_y l) in
    let told : ℤ → ℤ → List Event =
      λ a b. if m.buttons == flags % 8 then m.events else mouse_event a b (flags % 8) ∷ m.events in
    rw (mouse_handler-first m flags 1 first set) (
      right,
      up,
      refl,
      refl,
      ap (λ a. told a (clamp (m.y +ℤ (pos 0 -ℤ movement dy)) 720)) right
          ∙ ap (λ b. told (pos (ahead 1280 x dx)) b) up,
    )
mouse_handler-packet m (b ∷ bytes) flags dx dy x y first (clear, noise) set bytes_are at_x at_y =
    rw (handle_all, mouse_handler-first m b 0 first clear)
      (mouse_handler-packet (record m { byte0 = b; mouse_cycle = 0 }) bytes flags dx dy x y refl
        noise set bytes_are at_x at_y)
