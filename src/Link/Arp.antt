-- ===== src/Link/Arp.antt =====
-- The ARP protocol between two hosts.
use nix_core_os.Base.{
  ℕ, ◌+◌, ◌*◌, ◌/◌, ◌%◌, ◌^◌, ◌<◌, ◌≡◌, refl, ◌∙◌, sym, ap, true, false, List, [], none, some, ◌∷◌,
  ◌++◌, ◌==◌, leb, arith, length, get_or,
}
use nix_core_os.Link.{
  Link, Entry, find_mac, be16, e1000_send_packet, eth_send, broadcast, arp_packet, arp_request,
  arp_add_entry, receive_arp, network_receive, eth_type_arp,
}

-- Six bytes.
pub record Mac : Type 0 where
  pub b0 : ℕ
  pub b1 : ℕ
  pub b2 : ℕ
  pub b3 : ℕ
  pub b4 : ℕ
  pub b5 : ℕ

abbrev pub mac_bytes : Mac → List ℕ
mac_bytes m = m.b0 ∷ m.b1 ∷ m.b2 ∷ m.b3 ∷ m.b4 ∷ m.b5 ∷ []

-- The memory that holds a frame which has been received.
abbrev pub received : List ℕ → ℕ → ℕ
received frame i = get_or frame i 0

abbrev pub request : Link → Mac → ℕ → List ℕ
request l m ip =
    broadcast
    ++ (mac_bytes m
        ++ (be16 eth_type_arp ++ arp_packet 1 (mac_bytes m) l.ip (0 ∷ 0 ∷ 0 ∷ 0 ∷ 0 ∷ 0 ∷ []) ip))

abbrev pub reply : Link → Mac → Link → Mac → List ℕ
reply l m to to_mac =
    mac_bytes to_mac
    ++ (mac_bytes m
        ++ (be16 eth_type_arp ++ arp_packet 2 (mac_bytes m) l.ip (mac_bytes to_mac) to.ip))

read32-be32 :
    (v : ℕ)
    → v < 2 ^ 32
    → v / 2 ^ 24 % 256 * 2 ^ 24 + v / 2 ^ 16 % 256 * 2 ^ 16 + v / 256 % 256 * 256 + v % 256 ≡ v
read32-be32 v h = omega arith

sends :
    (l : Link) (m : Mac) (ip : ℕ)
    → l.up ≡ true
    → l.mac ≡ mac_bytes m
    → (arp_request l ip).frames ≡ l.frames ++ request l m ip ∷ []
unfolding arp_request eth_send e1000_send_packet
sends l m ip up mac = rw (up, mac) refl

answers :
    (l asker : Link) (m asker_mac : Mac)
    → l.up ≡ true
    → l.mac ≡ mac_bytes m
    → l.ip < 2 ^ 32
    → asker.ip < 2 ^ 32
    → (network_receive l (received (request asker asker_mac l.ip))).frames
      ≡ l.frames ++ reply l m asker asker_mac ∷ []
unfolding network_receive receive_arp eth_send e1000_send_packet
answers l asker m asker_mac up mac small small' =
    rw (up, mac, read32-be32 l.ip small, read32-be32 asker.ip small')
      (let here : (l.ip == l.ip) ≡ true = ground arith in rw here refl)

learns :
    (host asker l : Link) (asker_mac m : Mac)
    → l.ip < 2 ^ 32
    → length host.arp_table < 256
    → (network_receive host (received (reply l m asker asker_mac))).arp_table
      ≡ host.arp_table ++ record { ip = l.ip; mac = mac_bytes m } ∷ []
unfolding network_receive receive_arp arp_add_entry
learns host asker l asker_mac m small room =
    let fits : leb 256 (length host.arp_table) ≡ false = ground arith in
    rw (read32-be32 l.ip small, fits) refl

find_mac-append :
    (t : List Entry) (e : Entry) (ip : ℕ)
    → find_mac t ip ≡ none
    → e.ip ≡ ip
    → find_mac (t ++ e ∷ []) ip ≡ some e.mac
unfolding find_mac
find_mac-append [] e ip n h = let same : (e.ip == ip) ≡ true = ground arith in rw same refl
find_mac-append (x ∷ t) e ip n h = ground (arith, find_mac-append t e ip)

table-request : (l : Link) (ip : ℕ) → (arp_request l ip).arp_table ≡ l.arp_table
unfolding arp_request eth_send e1000_send_packet
table-request l ip = ground arith

-- The ARP protocol between two hosts whose cards are up: the frame of an ARP request for the other's
-- address makes the other send one frame, and that frame, received, makes the first host find the other's
-- hardware address, which it did not know, in its table, if that has room.
pub arp_resolves :
    (asker other : Link) (asker_mac other_mac : Mac)
    → (asker.up ≡ true) × (other.up ≡ true)
    → asker.mac ≡ mac_bytes asker_mac
    → other.mac ≡ mac_bytes other_mac
    → (asker.ip < 2 ^ 32) × (other.ip < 2 ^ 32)
    → length asker.arp_table < 256
    → find_mac asker.arp_table other.ip ≡ none
    → (question answer : List ℕ) × ((arp_request asker other.ip).frames
        ≡ asker.frames ++ question ∷ [])
      × ((network_receive other (received question)).frames ≡ other.frames ++ answer ∷ [])
      × (find_mac
            (network_receive (arp_request asker other.ip) (received answer)).arp_table
            other.ip
          ≡ some other.mac)
arp_resolves asker other am om (up, up') mac mac' (small, small') room unknown =
    let host = arp_request asker other.ip in
    let same = table-request asker other.ip in
    let table = learns host asker other am om small' (omega (arith, room, ap length same)) in
    (
      request asker am other.ip,
      reply other om asker am,
      sends asker am other.ip up mac,
      answers other asker om am up' mac' small' small,
      rw table (
          find_mac-append host.arp_table (record { ip = other.ip; mac = mac_bytes om }) other.ip
            (rw same unknown) refl
          ∙ ap some (sym mac')),
    )
