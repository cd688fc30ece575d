-- ===== src/Keyboard/Queue.antt =====
-- The ring buffer as a queue of at most 127 characters.
use nix_core_os.Base.{
  ℕ, zero, suc, ◌+◌, ◌-◌, ◌%◌, ◌≤◌, ◌<◌, ◌≡◌, refl, ap, true, false, List, [], ◌∷◌, ◌++◌, ltb, ◌==◌,
  if◌then◌else◌, arith, Bool-cases, inl, inr,
}
use nix_core_os.Keyboard.{
  Keyboard, buffer_size, keyboard_buffer_add, keyboard_buffer_get, keyboard_buffer_empty,
  keyboard_process,
}

-- The characters in `n` slots from the slot `i` on, around the end of the buffer.
abbrev pub slots : (ℕ → ℕ) → ℕ → ℕ → List ℕ
slots buffer i zero = []
slots buffer i (suc n) = buffer i ∷ slots buffer ((i + 1) % buffer_size) n

abbrev pub count : Keyboard → ℕ
count k = (k.buffer_head + buffer_size - k.buffer_tail) % buffer_size

-- The characters that wait, the oldest first.
abbrev pub contents : Keyboard → List ℕ
contents k = slots k.buffer k.buffer_tail (count k)

-- Both indices are slots.
abbrev pub IsRing : Keyboard → Type 0
IsRing k = (k.buffer_head < buffer_size) × (k.buffer_tail < buffer_size)

-- A further slot behind the others, whose character is new.
slots-add :
    (buffer : ℕ → ℕ) (i n h c : ℕ)
    → i < buffer_size
    → n < buffer_size
    → h ≡ (i + n) % buffer_size
    → slots (λ j. if j == h then c else buffer j) i (suc n) ≡ slots buffer i n ++ c ∷ []
slots-add buffer i zero h c li ln e = let at_h : (i == h) ≡ true = ground arith in rw at_h refl
slots-add buffer i (suc n) h c li ln e =
    let other : (i == h) ≡ false = ground arith in
    rw other (
      ap (λ l. buffer i ∷ l)
        (slots-add buffer ((i + 1) % buffer_size) n h c (ground arith) (omega arith)
          (ground arith)))

-- `keyboard_buffer_add` appends the character if fewer than 127 wait, and else drops it.
pub keyboard_buffer_add_lem :
    (k : Keyboard) (c : ℕ)
    → IsRing k
    → IsRing (keyboard_buffer_add k c)
      × (contents (keyboard_buffer_add k c)
          ≡ (if ltb (count k) 127 then contents k ++ c ∷ [] else contents k))
unfolding keyboard_buffer_add
keyboard_buffer_add_lem k c (lh, lt) =
    elim (Bool-cases ((k.buffer_head + 1) % buffer_size == k.buffer_tail)) [
      | inl full ↦
          let f : ltb (count k) 127 ≡ false = ground arith in
          rw (full, keyboard_buffer_add) ((lh, lt), rw f refl)
      | inr room ↦
          let f : ltb (count k) 127 ≡ true = ground arith in
          let h = k.buffer_head in
          let more : ((h + 1) % buffer_size + buffer_size - k.buffer_tail) % buffer_size
              ≡ suc (count k) =
            ground arith in
          rw (room, keyboard_buffer_add)
            (
              (ground arith, lt),
              rw (f, more)
                  (slots-add k.buffer k.buffer_tail (count k) h c lt (ground arith) (ground arith)),
            )
    ]

-- `keyboard_process` hands the characters that wait to the shell in their order and leaves none.
pub keyboard_process_lem :
    (k : Keyboard) (fuel : ℕ)
    → IsRing k
    → count k ≤ fuel
    → ((keyboard_process fuel k).1 ≡ contents k)
      × (keyboard_buffer_empty (keyboard_process fuel k).0 ≡ true)
unfolding keyboard_process keyboard_buffer_get keyboard_buffer_empty
keyboard_process_lem k zero (lh, lt) h =
    let none_wait : count k ≡ 0 = omega arith in (rw none_wait refl, ground arith)
keyboard_process_lem k (suc fuel) (lh, lt) h = elim (Bool-cases (k.buffer_head == k.buffer_tail)) [
  | inl e ↦
      let none_wait : count k ≡ 0 = ground arith in
      rw (e, keyboard_process) (rw none_wait refl, ground (arith, e))
  | inr e ↦
      let k' : Keyboard = record k { buffer_tail = (k.buffer_tail + 1) % buffer_size } in
      let fewer : count k ≡ suc (count k') = ground arith in
      let (l, done) = keyboard_process_lem k' fuel (lh, ground arith) (omega arith) in
      rw (e, keyboard_process, keyboard_buffer_get)
        (rw fewer (ap (λ l. k.buffer k.buffer_tail ∷ l) l), done)
]
