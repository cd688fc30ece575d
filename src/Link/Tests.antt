-- ===== src/Link/Tests.antt =====
-- Packets between two hosts.
use nix_core_os.Base.{
  ℕ, zero, suc, ◌<◌, ◌+◌, ◌≤◌, ◌≡◌, refl, true, List, [], ◌∷◌, ◌++◌, some, arith, length,
}
use nix_core_os.Link.{
  Link, le16, checksum, ip_send, find_mac, arp_request, network_receive, sum_words, fold_sum,
}
use nix_core_os.Link.Checksum.{checksum_verifies}
use nix_core_os.Link.Arp.{Mac, mac_bytes, received, arp_resolves}
use nix_core_os.Link.Echo.{ping_answered}

abbrev mac_of : ℕ → Mac
mac_of n = record { b0 = 0x52; b1 = 0x54; b2 = 0; b3 = 0x12; b4 = 0x34; b5 = n }

-- 192.168.1.100
abbrev host : Link
host = record {
  mac = mac_bytes (mac_of 1);
  ip = 0xC0A80164;
  netmask = 0xFFFFFF00;
  gateway = 0xC0A80101;
  up = true;
  arp_table = [];
  tx_cur = 31;
  frames = [];
}

abbrev other : Link
other = record host { mac = mac_bytes (mac_of 2); ip = 0xC0A80165 }

-- A known header of IP.
header_checksum :
    checksum (
      0x45 ∷ 0x00 ∷ 0x00 ∷ 0x73 ∷ 0x00 ∷ 0x00 ∷ 0x40 ∷ 0x00 ∷ 0x40 ∷ 0x11 ∷ 0 ∷ 0 ∷ 0xc0 ∷ 0xa8
      ∷ 0x00 ∷ 0x01 ∷ 0xc0 ∷ 0xa8 ∷ 0x00 ∷ 0xc7 ∷ [])
    ≡ 0x61B8
unfolding checksum sum_words fold_sum
header_checksum = refl

checksum_verifies_example :
    checksum
      (8 ∷ 0 ∷ [] ++ (le16 (checksum (8 ∷ 0 ∷ [] ++ (0 ∷ 0 ∷ 1 ∷ 2 ∷ 3 ∷ []))) ++ 1 ∷ 2 ∷ 3 ∷ []))
    ≡ 0
checksum_verifies_example = checksum_verifies 1 (8 ∷ 0 ∷ []) (1 ∷ 2 ∷ 3 ∷ []) refl (omega arith)

arp_resolves_example :
    (question answer : List ℕ) × ((arp_request host other.ip).frames ≡ question ∷ [])
    × ((network_receive other (received question)).frames ≡ answer ∷ [])
    × (find_mac (network_receive (arp_request host other.ip) (received answer)).arp_table other.ip
        ≡ some other.mac)
unfolding find_mac
arp_resolves_example =
    arp_resolves host other (mac_of 1) (mac_of 2) (refl, refl) refl refl (omega arith, omega arith)
      (omega arith) refl

-- An echo request from 192.168.1.101, with the identifier 1 and the sequence number 2.
abbrev ping_frame : List ℕ
ping_frame =
    (mac_bytes (mac_of 1)
      ++ (mac_bytes (mac_of 2)
          ++ (8 ∷ 0 ∷ 0x45 ∷ 0 ∷ 0 ∷ 28 ∷ 0 ∷ 0 ∷ 0 ∷ 0 ∷ 64 ∷ 1 ∷ 0 ∷ 0 ∷ 192 ∷ 168 ∷ 1 ∷ 101 ∷ 192
              ∷ 168 ∷ 1 ∷ 100 ∷ 8 ∷ 0 ∷ 0xF7 ∷ 0xFC ∷ 0 ∷ 1 ∷ 0 ∷ 2 ∷ [])))

abbrev ping : ℕ → ℕ
ping = received ping_frame

abbrev AreBytes : List ℕ → Type 0
AreBytes [] = Unit
AreBytes (b ∷ l) = (b < 256) × AreBytes l

received-lt : (l : List ℕ) (i : ℕ) → AreBytes l → received l i < 256
received-lt [] i h = omega arith
received-lt (b ∷ l) zero (h, t) = h
received-lt (b ∷ l) (suc i) (h, t) = received-lt l i t

ping_answered_example :
    (message : List ℕ) × (check : ℕ) × (network_receive host ping
      ≡ ip_send host 0xC0A80165 1 message)
    × (message ≡ 0 ∷ 0 ∷ le16 check ++ (0 ∷ 1 ∷ 0 ∷ 2 ∷ []))
    × (checksum message ≡ 0)
    × (20 + length message ≤ 1500)
ping_answered_example =
    ping_answered host ping 4 (λ i. received-lt ping_frame i (ground arith)) refl refl (refl, refl)
      refl (omega arith)
