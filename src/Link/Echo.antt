-- ===== src/Link/Echo.antt =====
-- The answer to a ping.
use nix_core_os.Base.{
  ℕ, zero, suc, ◌+◌, ◌-◌, ◌*◌, ◌/◌, ◌%◌, ◌^◌, ◌≤◌, ◌<◌, ◌≡◌, refl, ap, true, false, List, [], ◌∷◌,
  ◌++◌, ◌==◌, arith, length, bytes_at, put_byte, bytes_at-cong,
}
use nix_core_os.Link.{
  Link, le16, checksum, ip_send, read16, read32, clear_type, receive_ip, network_receive,
  eth_type_ip, eth_type_arp,
}
use nix_core_os.Link.Checksum.{words, checksum_verifies}

length-bytes_at : (p : ℕ → ℕ) (a n : ℕ) → length (bytes_at p a n) ≡ n
length-bytes_at p a zero = refl
length-bytes_at p a (suc n) = ap suc (length-bytes_at p (a + 1) n)

words-le : (p : ℕ → ℕ) (a n : ℕ) → ((i : ℕ) → p i < 256) → words (bytes_at p a n) ≤ 65535 * n
words-le p a zero b = omega arith
words-le p a (suc zero) b = omega (arith, b a)
words-le p a (suc (suc n)) b = omega (arith, b a, b (a + 1), words-le p (a + 1 + 1) n b)

-- A ping for this host, an echo request in an IP packet of 24 to 1500 bytes, which cover the four bytes
-- up to the checksum, is answered to the sender with the same message but for type 0 and a checksum
-- that verifies; the answer fits the 1500 bytes of the packet of `ip_send`.
pub ping_answered :
    (l : Link) (p : ℕ → ℕ) (n : ℕ)
    → ((i : ℕ) → p i < 256)
    → read16 p 12 ≡ eth_type_ip
    → read32 p 30 ≡ l.ip
    → (p 23 ≡ 1) × (p 34 ≡ 8)
    → read16 p 16 ≡ 24 + n
    → n ≤ 1476
    → (message : List ℕ) × (check : ℕ) × (network_receive l p ≡ ip_send l (read32 p 26) 1 message)
      × (message ≡ 0 ∷ p 35 ∷ le16 check ++ bytes_at p 38 n)
      × (checksum message ≡ 0)
      × (20 + length message ≤ 1500)
unfolding network_receive receive_ip
ping_answered l p n b ether to (icmp, echo) len fits =
    let rest = bytes_at p 38 n in
    let check = checksum (0 ∷ p 35 ∷ [] ++ (0 ∷ 0 ∷ rest)) in
    let message = 0 ∷ p 35 ∷ [] ++ (le16 check ++ rest) in
    let four : (read16 p 16 + (2 ^ 16 - 20)) % 2 ^ 16 ≡ suc (suc (suc (suc n))) =
      omega (arith, len, b 16, b 17) in
    let cleared : bytes_at (clear_type p) 38 n ≡ rest =
      bytes_at-cong p (clear_type p) 38 n (λ i h k. ground arith) in
    let ahead : bytes_at (clear_type p) 34 (suc (suc (suc (suc n)))) ≡ 0 ∷ p 35 ∷ 0 ∷ 0 ∷ rest =
      ap (λ l. 0 ∷ p 35 ∷ 0 ∷ 0 ∷ l) cleared in
    let written : (c : ℕ)
        → bytes_at (put_byte (put_byte (clear_type p) 36 (c % 256)) 37 (c / 256 % 256)) 38 n
          ≡ rest =
      λ c. bytes_at-cong p _ 38 n (λ i h k. ground arith) in
    let not_arp : (read16 p 12 == eth_type_arp) ≡ false = ground arith in
    let is_ip : (read16 p 12 == eth_type_ip) ≡ true = ground arith in
    let is_icmp : (p 23 == 1) ≡ true = ground arith in
    let is_echo : (p 34 == 8) ≡ true = ground arith in
    let ours : (read32 p 30 == l.ip) ≡ true = ground arith in
    let sums : words (0 ∷ p 35 ∷ [] ++ (0 ∷ 0 ∷ rest)) < 2 ^ 32 - 2 ^ 16 =
      omega (arith, words-le p 38 n b, b 35, len, b 16, b 17) in
    (
      message,
      check,
      rw
          (
            not_arp,
            is_ip,
            ours,
            is_icmp,
            is_echo,
            four,
            written (checksum (bytes_at (clear_type p) 34 (suc (suc (suc (suc n)))))),
            ahead,
          )
          refl,
      refl,
      checksum_verifies 1 (0 ∷ p 35 ∷ []) rest refl sums,
      omega (arith, length-bytes_at p 38 n),
    )
