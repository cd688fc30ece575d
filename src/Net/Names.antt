-- ===== src/Net/Names.antt =====
-- The name in a DNS query.
use nix_core_os.Base.{
  ℕ, suc, ◌+◌, ◌≤◌, ◌≡◌, ◌≢◌, ◌%◌, refl, ◌∙◌, sym, ap, List, [], ◌∷◌, ◌++◌, arith, length,
  length-append, ◌==◌, false, Bool-cases, inl, inr, bytes_at, put_byte, put_byte-here,
  bytes_at-cong, bytes_at-append, put_bytes, bytes_at-put_bytes,
}
use mathlib.Core.List.{append-nil}
use nix_core_os.Link.{udp_send}
use nix_core_os.Net.{Net, htons, write_name, dns_query, dns_resolve}

-- The labels of a name, with dots between them.
abbrev pub join : List ℕ → List (List ℕ) → List ℕ
join l [] = l
join l (m ∷ ls) = l ++ 46 ∷ join m ls

-- Each label behind its length, and a zero.
abbrev pub labels : List ℕ → List (List ℕ) → List ℕ
labels l [] = length l ∷ l ++ 0 ∷ []
labels l (m ∷ ls) = length l ∷ l ++ labels m ls

abbrev pub DotFree : List ℕ → Type 0
DotFree [] = Unit
DotFree (c ∷ l) = (c ≢ 46) × DotFree l

-- No label has a dot, or more than 63 bytes.
abbrev pub AreLabels : List ℕ → List (List ℕ) → Type 0
AreLabels l [] = (length l ≤ 63) × DotFree l
AreLabels l (m ∷ ls) = (length l ≤ 63) × DotFree l × AreLabels m ls

write_label :
    (q : ℕ → ℕ) (l s : List ℕ) (i j k : ℕ)
    → DotFree l
    → write_name q (l ++ s) i j k
      ≡ write_name (put_bytes q (suc i) l) s (i + length l) (j + length l) k
unfolding write_name
write_label q [] s i j k free =
    let e : i + 0 ≡ i = omega arith in let e' : j + 0 ≡ j = omega arith in rw (e, e') refl
write_label q (c ∷ l) s i j k (n, free) =
    let e : suc i + length l ≡ i + suc (length l) = omega arith in
    let e' : suc j + length l ≡ j + suc (length l) = omega arith in
    let no : (c == 46) ≡ false = ground arith in
    rw (no, write_name)
      (write_label (put_byte q (suc i) c) l s (suc i) (suc j) k free ∙ rw (e, e') refl)

-- The bytes up to the current one stay, but for the length byte.
write_name-below :
    (q : ℕ → ℕ) (s : List ℕ) (i j k b : ℕ) → k ≤ i → b ≤ i → b ≢ k → write_name q s i j k b ≡ q b
unfolding write_name
write_name-below q [] i j k b h h' n = ground arith
write_name-below q (c ∷ s) i j k b h h' n = elim (Bool-cases (c == 46)) [
  | inl e ↦
      rw (e, write_name)
        (write_name-below (put_byte q k (j % 256)) s (suc i) 0 (suc i) b (omega arith) (omega arith)
            (λ x. omega arith)
          ∙ ground arith)
  | inr e ↦
      rw (e, write_name)
        (write_name-below (put_byte q (suc i) c) s (suc i) (suc j) k b (omega arith) (omega arith) n
          ∙ ground arith)
]

-- A label is in memory behind its length.
segment :
    (q w : ℕ → ℕ) (i n : ℕ) (l : List ℕ)
    → length l ≤ 63
    → ((b : ℕ) → b ≤ i + length l → w b ≡ put_byte (put_bytes q (suc i) l) i (length l % 256) b)
    → bytes_at w i (suc (length l) + n) ≡ length l ∷ l ++ bytes_at w (suc (i + length l)) n
segment q w i n l short same =
    let Q = put_bytes q (suc i) l in
    let first : w i ≡ length l =
      same i (omega arith) ∙ put_byte-here Q i (length l % 256) ∙ omega arith in
    let next : i + 1 ≡ suc i = omega arith in
    let text : bytes_at w (suc i) (length l) ≡ l =
      bytes_at-cong Q w (suc i) (length l) (λ b h k. same b (omega arith) ∙ ground arith)
      ∙ bytes_at-put_bytes q (suc i) l in
    bytes_at-append w i (suc (length l)) n
    ∙ (let at : i + suc (length l) ≡ suc (i + length l) = omega arith in
        rw (first, next, text, at) refl)

zero_add : (n : ℕ) → 0 + n ≡ n
zero_add n = omega arith

question :
    (q : ℕ → ℕ) (l : List ℕ) (ls : List (List ℕ)) (i : ℕ)
    → AreLabels l ls
    → bytes_at (write_name q (join l ls) i 0 i) i (length (join l ls) + 2) ≡ labels l ls
unfolding write_name
question q l [] i (short, free) =
    let n = length l in
    let w = write_name q l i 0 i in
    let Q = put_bytes q (suc i) l in
    let run : w ≡ put_byte (put_byte Q i (n % 256)) (suc (i + n)) 0 =
      ap (λ t. write_name q t i 0 i) (sym (append-nil l))
      ∙ write_label q l [] i 0 i free
      ∙ ap (λ j. write_name Q [] (i + n) j i) (zero_add n) in
    let two : n + 2 ≡ suc n + 1 = omega arith in
    rw (two, run)
      (segment q (put_byte (put_byte Q i (n % 256)) (suc (i + n)) 0) i 1 l short
          (λ b h. ground arith)
        ∙ ap (λ c. n ∷ l ++ c ∷ []) (put_byte-here (put_byte Q i (n % 256)) (suc (i + n)) 0))
question q l (m ∷ ls) i (short, here, free) =
    let n = length l in
    let r = join m ls in
    let Q = put_byte (put_bytes q (suc i) l) i (n % 256) in
    let w = write_name Q r (suc (i + n)) 0 (suc (i + n)) in
    let run : write_name q (l ++ 46 ∷ r) i 0 i ≡ w =
      write_label q l (46 ∷ r) i 0 i here
      ∙ ap (λ j. write_name (put_bytes q (suc i) l) (46 ∷ r) (i + n) j i) (zero_add n) in
    let long : length (l ++ 46 ∷ r) + 2 ≡ suc n + (length r + 2) =
      omega (arith, length-append l (46 ∷ r)) in
    rw (long, run)
      (segment q w i (length r + 2) l short (λ b h.
          write_name-below Q r (suc (i + n)) 0 (suc (i + n)) b (omega arith) (omega arith)
            (λ x. omega arith))
        ∙ ap (λ t. n ∷ l ++ t) (question Q m ls (suc (i + n)) free))

-- For a name of at most 494 bytes, which fits the buffer of 512 bytes with what is put around it, and
-- whose labels, none of more than 63 bytes, stand between dots, `dns_resolve` hands one
-- datagram to `udp_send`, for port 53 of 8.8.8.8: a header that asks one question, each label behind its
-- length, a zero, and the type and class of an address. It returns 0, and changes no socket.
pub dns_resolve-labels :
    (q : ℕ → ℕ) (n : Net) (l : List ℕ) (ls : List (List ℕ))
    → AreLabels l ls
    → length (join l ls) ≤ 494
    → dns_resolve q n (join l ls) ≡ (
      record n {
        link = udp_send n.link 0x08080808 53 12345 (
            0x34 ∷ 0x12 ∷ 1 ∷ 0 ∷ 0 ∷ 1 ∷ 0 ∷ 0 ∷ 0 ∷ 0 ∷ 0 ∷ 0 ∷ labels l ls
            ++ 0 ∷ 1 ∷ 0 ∷ 1 ∷ []);
      },
      0,
    )
unfolding dns_resolve dns_query htons
dns_resolve-labels q n l ls valid fits = rw (question q l ls 0 valid) refl
