-- ===== src/Mem.antt =====
-- The memory functions: lib/libc/libc.c and lib/memory.c. Memory is a function from addresses to
-- bytes; a pointer is an address.
pub mod Copy
pub mod Fill
pub mod Words
mod Tests
use nix_core_os.Base.{
  ℕ, zero, suc, ◌+◌, ◌-◌, ◌*◌, ◌/◌, ◌%◌, ◌^◌, ◌≡◌, Bool, true, false, not, ◌&&◌, List, [], ◌∷◌,
  Option, none, some, leb, ltb, ◌==◌, if◌then◌else◌, ℤ, pos, sub_ℕ,
}

abbrev pub Mem : Type 0
Mem = ℕ → ℕ

-- `*p = v`
abbrev pub store : Mem → ℕ → ℕ → Mem
store m p v a = if a == p then v else m a

-- `*(uint64_t*)p`, little endian
unfoldable pub load64 : Mem → ℕ → ℕ
load64 m p =
    m p
    + 256 * m (p + 1)
    + 256 ^ 2 * m (p + 2)
    + 256 ^ 3 * m (p + 3)
    + 256 ^ 4 * m (p + 4)
    + 256 ^ 5 * m (p + 5)
    + 256 ^ 6 * m (p + 6)
    + 256 ^ 7 * m (p + 7)

-- `*(uint64_t*)p = v`
unfoldable pub store64 : Mem → ℕ → ℕ → Mem
store64 m p v a = if leb p a && ltb a (p + 8) then v / 256 ^ (a - p) % 256 else m a

-- `while (n--) *d++ = *s++;`, and the loop of `memcpy` in lib/memory.c.
pub copy_bytes : Mem → ℕ → ℕ → ℕ → Mem
copy_bytes m d s zero = m
copy_bytes m d s (suc n) = copy_bytes (store m d (m s)) (d + 1) (s + 1) n

-- `while (n >= 8)`: `k` rounds of eight bytes, where `k` is `n / 8`.
pub copy_words : Mem → ℕ → ℕ → ℕ → Mem
copy_words m d s zero = m
copy_words m d s (suc k) = copy_words (store64 m d (load64 m s)) (d + 8) (s + 8) k

-- `memcpy` of lib/libc/libc.c: words first if both pointers are aligned, then the rest by bytes.
pub memcpy : Mem → ℕ → ℕ → ℕ → Mem
memcpy m d s n =
    if (d % 8 == 0) && (s % 8 == 0)
    then copy_bytes (copy_words m d s (n / 8)) (d + 8 * (n / 8)) (s + 8 * (n / 8)) (n % 8)
    else copy_bytes m d s n

-- `while (n--) *--d = *--s;`: `d` and `s` are the starts, and `n` bytes are left.
pub copy_down : Mem → ℕ → ℕ → ℕ → Mem
copy_down m d s zero = m
copy_down m d s (suc n) = copy_down (store m (d + n) (m (s + n))) d s n

pub memmove : Mem → ℕ → ℕ → ℕ → Mem
memmove m d s n = if ltb d s then copy_bytes m d s n else copy_down m d s n

-- `while (n--) *p++ = (uint8_t)c;`, and the loop of `memset` in lib/memory.c.
pub fill_bytes : Mem → ℕ → ℕ → ℕ → Mem
fill_bytes m p c zero = m
fill_bytes m p c (suc n) = fill_bytes (store m p (c % 256)) (p + 1) c n

pub fill_words : Mem → ℕ → ℕ → ℕ → Mem
fill_words m p v zero = m
fill_words m p v (suc k) = fill_words (store64 m p v) (p + 8) v k

-- `val |= val << 8; val |= val << 16; val |= val << 32;` for a byte: the fields do not overlap, so
-- each `|` is a sum.
pub spread : ℕ → ℕ
spread c =
    let b = c % 256 in let v2 = b + b * 2 ^ 8 in let v4 = v2 + v2 * 2 ^ 16 in v4 + v4 * 2 ^ 32

-- `memset` of lib/libc/libc.c.
pub memset : Mem → ℕ → ℕ → ℕ → Mem
memset m p c n =
    if (p % 8 == 0) && leb 8 n
    then fill_bytes (fill_words m p (spread c) (n / 8)) (p + 8 * (n / 8)) c (n % 8)
    else fill_bytes m p c n

-- `return *p1 - *p2` at the first difference, of bytes taken as unsigned.
pub memcmp : Mem → ℕ → ℕ → ℕ → ℤ
memcmp m p q zero = pos 0
memcmp m p q (suc n) =
    let rest = memcmp m (p + 1) (q + 1) n in if m p == m q then rest else sub_ℕ (m p) (m q)

pub memchr : Mem → ℕ → ℕ → ℕ → Option ℕ
memchr m p c zero = none
memchr m p c (suc n) = let rest = memchr m (p + 1) c n in if m p == c % 256 then some p else rest
