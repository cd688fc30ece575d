-- ===== src/Link.antt =====
-- drivers/network.c: Ethernet, ARP, IP, ICMP, UDP and TCP packets. A packet that is sent is the list of
-- its bytes; what the card receives is memory from the start of the frame on, since the code does not
-- look at the frame's length. The registers of the card are not part of the state.
pub mod Checksum
pub mod Arp
pub mod Echo
mod Tests
use Prim.Native.Nat.{bit_and}
use nix_core_os.Base.{
  ℕ, zero, suc, ◌+◌, ◌-◌, ◌*◌, ◌/◌, ◌%◌, ◌^◌, Bool, true, false, List, [], ◌∷◌, ◌++◌, Option, none,
  some, ltb, leb, ◌==◌, ◌&&◌, ◌||◌, if◌then◌else◌, length, bytes_at, put_byte,
}

-- An entry of `arp_table`: the address, which the code keeps as its four bytes, and six bytes.
pub record Entry : Type 0 where
  pub ip : ℕ
  pub mac : List ℕ

-- `net_if`, `arp_table`, and `tx_cur`; `up` says that `net_if.send` is set, and `frames` are the frames that
-- have been handed to the card.
pub record Link : Type 0 where
  pub mac : List ℕ
  pub ip : ℕ
  pub netmask : ℕ
  pub gateway : ℕ
  pub up : Bool
  pub arp_table : List Entry
  pub tx_cur : ℕ
  pub frames : List (List ℕ)

abbrev pub num_tx_desc : ℕ
num_tx_desc = 32

abbrev pub eth_type_ip : ℕ
eth_type_ip = 0x0800

abbrev pub eth_type_arp : ℕ
eth_type_arp = 0x0806

-- The bytes of `__builtin_bswap16(v)` and `__builtin_bswap32(v)` in memory, and of a word as it is.
abbrev pub be16 : ℕ → List ℕ
be16 v = v / 256 % 256 ∷ v % 256 ∷ []

abbrev pub be32 : ℕ → List ℕ
be32 v = v / 2 ^ 24 % 256 ∷ v / 2 ^ 16 % 256 ∷ v / 256 % 256 ∷ v % 256 ∷ []

abbrev pub le16 : ℕ → List ℕ
le16 v = v % 256 ∷ v / 256 % 256 ∷ []

-- The sum over the 16-bit words of the data, a last odd byte included, in 32 bits.
pub sum_words : ℕ → List ℕ → ℕ
sum_words sum [] = sum
sum_words sum (a ∷ []) = (sum + a) % 2 ^ 32
sum_words sum (a ∷ b ∷ r) = sum_words ((sum + (a + 256 * b)) % 2 ^ 32) r

-- `while (sum >> 16)`, on fuel.
pub fold_sum : ℕ → ℕ → ℕ
fold_sum zero sum = sum
fold_sum (suc fuel) sum =
    let next = fold_sum fuel (sum % 2 ^ 16 + sum / 2 ^ 16) in
    if sum / 2 ^ 16 == 0 then sum else next

-- Two rounds are enough for 32 bits.
pub checksum : List ℕ → ℕ
checksum bytes = 2 ^ 16 - 1 - fold_sum 3 (sum_words 0 bytes) % 2 ^ 16

pub e1000_send_packet : Link → List ℕ → Link
e1000_send_packet l bytes = record l {
  frames = l.frames ++ bytes ∷ [];
  tx_cur = (l.tx_cur + 1) % num_tx_desc;
}

-- `bytes` are copied without a check into a frame of 1518 bytes: 1504 at most.
pub eth_send : Link → List ℕ → ℕ → List ℕ → Link
eth_send l dest_mac ethertype bytes =
    if l.up then e1000_send_packet l (dest_mac ++ (l.mac ++ (be16 ethertype ++ bytes))) else l

abbrev pub broadcast : List ℕ
broadcast = 0xFF ∷ 0xFF ∷ 0xFF ∷ 0xFF ∷ 0xFF ∷ 0xFF ∷ []

-- `ARP_PACKET`
abbrev pub arp_packet : ℕ → List ℕ → ℕ → List ℕ → ℕ → List ℕ
arp_packet opcode sender_mac sender_ip target_mac target_ip =
    be16 1
    ++ (be16 eth_type_ip
        ++ (6 ∷ 4 ∷ be16 opcode
            ++ (sender_mac ++ (be32 sender_ip ++ (target_mac ++ be32 target_ip)))))

pub arp_request : Link → ℕ → Link
arp_request l ip =
    eth_send l broadcast eth_type_arp (arp_packet 1 l.mac l.ip (0 ∷ 0 ∷ 0 ∷ 0 ∷ 0 ∷ 0 ∷ []) ip)

pub arp_add_entry : Link → ℕ → List ℕ → Link
arp_add_entry l ip mac =
    if leb 256 (length l.arp_table)
    then l
    else record l { arp_table = l.arp_table ++ record { ip = ip; mac = mac } ∷ [] }

-- The search of the ARP table.
pub find_mac : List Entry → ℕ → Option (List ℕ)
find_mac [] ip = none
find_mac (e ∷ r) ip = if e.ip == ip then some e.mac else find_mac r ip

-- `IP_HEADER` with a checksum.
abbrev pub ip_header : ℕ → ℕ → ℕ → ℕ → List ℕ → List ℕ
ip_header src dest protocol len check =
    0x45 ∷ 0 ∷ be16 (20 + len) ++ (0 ∷ 0 ∷ 0 ∷ 0 ∷ 64 ∷ protocol ∷ check ++ (be32 src ++ be32 dest))

-- The packet that `ip_send` builds.
pub ip_packet : ℕ → ℕ → ℕ → List ℕ → List ℕ
ip_packet src dest protocol bytes =
    let zeroed = ip_header src dest protocol (length bytes) (0 ∷ 0 ∷ []) in
    ip_header src dest protocol (length bytes) (le16 (checksum zeroed)) ++ bytes

-- The address that the frame goes to, the gateway's for another network.
pub next_hop : Link → ℕ → ℕ
next_hop l dest_ip =
    if bit_and dest_ip l.netmask == bit_and l.ip l.netmask then dest_ip else l.gateway

-- `bytes` are copied without a check behind the header in a packet of 1500 bytes: 1480 at most.
pub ip_send : Link → ℕ → ℕ → List ℕ → Link
ip_send l dest_ip protocol bytes =
    let hop = next_hop l dest_ip in
    let packet = ip_packet l.ip dest_ip protocol bytes in
    elim (find_mac l.arp_table hop) [
      | some mac ↦ eth_send l mac eth_type_ip packet
      | none ↦ eth_send (arp_request l hop) broadcast eth_type_ip packet
    ]

-- `0x20 + i`, for `n` bytes from the i-th on.
abbrev pub pattern_from : ℕ → ℕ → List ℕ
pattern_from i zero = []
pattern_from i (suc n) = (0x20 + i) ∷ pattern_from (i + 1) n

abbrev pub icmp_packet : ℕ → ℕ → List ℕ → List ℕ
icmp_packet id seq check = 8 ∷ 0 ∷ check ++ (be16 id ++ (be16 seq ++ pattern_from 0 56))

pub icmp_echo : Link → ℕ → ℕ → ℕ → Link
icmp_echo l dest_ip id seq =
    ip_send l dest_ip 1 (icmp_packet id seq (le16 (checksum (icmp_packet id seq (0 ∷ 0 ∷ [])))))

-- The packet has 1500 bytes and is filled without a check.
pub udp_send : Link → ℕ → ℕ → ℕ → List ℕ → Link
udp_send l dest_ip dest_port src_port bytes =
    ip_send l dest_ip 17
      (be16 src_port ++ (be16 dest_port ++ (be16 (8 + length bytes) ++ (0 ∷ 0 ∷ bytes))))

abbrev pub tcp_header : ℕ → ℕ → ℕ → List ℕ → List ℕ
tcp_header src_port dest_port flags check =
    be16 src_port
    ++ (be16 dest_port
        ++ (0 ∷ 0 ∷ 0 ∷ 0 ∷ 0 ∷ 0 ∷ 0 ∷ 0 ∷ be16 (5 * 2 ^ 12 + flags)
            ++ (be16 65535 ++ (check ++ (0 ∷ 0 ∷ [])))))

-- The checksum is taken over a pseudo header and the segment, which is put into 1500 bytes without a check.
pub tcp_send : Link → ℕ → ℕ → ℕ → ℕ → List ℕ → Link
tcp_send l dest_ip dest_port src_port flags bytes =
    let pseudo = be32 l.ip ++ (be32 dest_ip ++ be32 (6 * 2 ^ 16 + (20 + length bytes))) in
    let segment = tcp_header src_port dest_port flags (0 ∷ 0 ∷ []) ++ bytes in
    ip_send l dest_ip 6
      (tcp_header src_port dest_port flags (le16 (checksum (pseudo ++ segment))) ++ bytes)

-- What `__builtin_bswap16` and `__builtin_bswap32` make of a word in the packet.
abbrev pub read16 : (ℕ → ℕ) → ℕ → ℕ
read16 p a = p a * 256 + p (a + 1)

abbrev pub read32 : (ℕ → ℕ) → ℕ → ℕ
read32 p a = p a * 2 ^ 24 + p (a + 1) * 2 ^ 16 + p (a + 2) * 256 + p (a + 3)

-- The frame at the packet's start is 14 bytes long; in `ARP_PACKET` the opcode stands at 6, the sender at
-- 8 and 14, the target at 18 and 24.
pub receive_arp : Link → (ℕ → ℕ) → Link
receive_arp l p =
    let opcode = read16 p 20 in
    if opcode == 2
    then arp_add_entry l (read32 p 28) (bytes_at p 22 6)
    else if opcode == 1
    then (if read32 p 38 == l.ip
        then eth_send l (bytes_at p 22 6) eth_type_arp
            (arp_packet 2 l.mac l.ip (bytes_at p 22 6) (read32 p 28))
        else l)
    else l

-- `icmp->type = 0; icmp->checksum = 0;`
abbrev pub clear_type : (ℕ → ℕ) → ℕ → ℕ
clear_type p = put_byte (put_byte (put_byte p 34 0) 36 0) 37 0

-- The ICMP message stands at 34, its checksum at 36. The checksum is written into the packet, which is
-- sent from there.
pub receive_ip : Link → (ℕ → ℕ) → Link
receive_ip l p =
    let dest_ip = read32 p 30 in
    let len = (read16 p 16 + (2 ^ 16 - 20)) % 2 ^ 16 in
    let check = checksum (bytes_at (clear_type p) 34 len) in
    let reply = put_byte (put_byte (clear_type p) 36 (check % 256)) 37 (check / 256 % 256) in
    if (dest_ip == l.ip) || (dest_ip == 0xFFFFFFFF)
    then (if (p 23 == 1) && (p 34 == 8)
        then ip_send l (read32 p 26) 1 (bytes_at reply 34 len)
        else l)
    else l

pub network_receive : Link → (ℕ → ℕ) → Link
network_receive l p =
    let ethertype = read16 p 12 in
    if ethertype == eth_type_arp
    then receive_arp l p
    else if ethertype == eth_type_ip
    then receive_ip l p
    else l
