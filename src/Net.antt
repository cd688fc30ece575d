-- ===== src/Net.antt =====
-- kernel/net/socket.c: the table of sockets, byte order, addresses, and the packets of the DNS and DHCP
-- clients, sent by `tcp_send` and `udp_send` of drivers/network.c.
pub mod ByteOrder
pub mod Table
pub mod Dotted
pub mod Names
mod Tests
use nix_core_os.Base.{
  ℕ, zero, suc, ◌+◌, ◌-◌, ◌*◌, ◌/◌, ◌%◌, ◌^◌, Bool, true, false, List, [], ◌∷◌, ◌++◌, Option, none,
  some, ltb, leb, ◌==◌, ◌&&◌, if◌then◌else◌, ℤ, pos, negsuc, length, bytes_at, put_byte,
}
use nix_core_os.Link.{Link, tcp_send, udp_send, le16}

-- `socket_t`, less the queues, which no function uses.
pub record Socket : Type 0 where
  pub type : ℕ
  pub protocol : ℕ
  pub state : ℕ
  pub local_ip : ℕ
  pub local_port : ℕ
  pub remote_ip : ℕ
  pub remote_port : ℕ
  pub backlog : ℤ

abbrev pub tcp_closed : ℕ
tcp_closed = 0

abbrev pub tcp_listen : ℕ
tcp_listen = 1

abbrev pub tcp_syn_sent : ℕ
tcp_syn_sent = 2

abbrev pub sock_stream : ℕ
sock_stream = 1

abbrev pub sock_dgram : ℕ
sock_dgram = 2

abbrev pub max_sockets : ℕ
max_sockets = 1024

-- `sockaddr_in_t`
pub record Address : Type 0 where
  pub sin_port : ℕ
  pub sin_addr : ℕ

pub record Net : Type 0 where
  pub sockets : ℕ → Socket
  pub link : Link

abbrev pub set_socket : Net → ℕ → Socket → Net
set_socket n i s = record n { sockets = λ j. if j == i then s else n.sockets j }

-- The search of `socket`, from index `i` on with `n` sockets left.
pub free_socket : (ℕ → Socket) → ℕ → ℕ → Option ℕ
free_socket sockets i zero = none
free_socket sockets i (suc n) = elim ((sockets i).state == tcp_closed) [
  | true ↦ some i
  | false ↦ free_socket sockets (i + 1) n
]

-- `none` stands for -1. The domain is not looked at.
pub socket : Net → ℕ → ℕ → Net × Option ℕ
socket n type protocol = elim (free_socket n.sockets 0 max_sockets) [
  | none ↦ (n, none)
  | some i ↦ (
    set_socket n i (record (n.sockets i) {
      type = type;
      protocol = protocol;
      state = tcp_closed;
      local_ip = 0;
      local_port = 0;
      remote_ip = 0;
      remote_port = 0;
    }),
    some i,
  )
]

-- The fields of a word are bytes, so that the masks and shifts are divisions and each `|` is a sum.
pub htons : ℕ → ℕ
htons hostshort = hostshort % 256 * 256 + hostshort / 256 % 256

pub ntohs : ℕ → ℕ
ntohs netshort = htons netshort

pub htonl : ℕ → ℕ
htonl hostlong =
    hostlong % 256 * 2 ^ 24
    + hostlong / 256 % 256 * 2 ^ 16
    + hostlong / 2 ^ 16 % 256 * 256
    + hostlong / 2 ^ 24 % 256

pub ntohl : ℕ → ℕ
ntohl netlong = htonl netlong

-- `sockfd < 0 || sockfd >= 1024`
pub descriptor : ℤ → Option ℕ
descriptor (negsuc n) = none
descriptor (pos n) = if ltb n max_sockets then some n else none

-- The results 0 and -1.
pub bind : Net → ℤ → Address → Net × ℤ
bind n sockfd addr = elim (descriptor sockfd) [
  | none ↦ (n, negsuc 0)
  | some i ↦ (
    set_socket n i
        (record (n.sockets i) { local_ip = addr.sin_addr; local_port = ntohs addr.sin_port }),
    pos 0,
  )
]

abbrev pub tcp_syn : ℕ
tcp_syn = 0x02

-- `TCP_PSH | TCP_ACK`
abbrev pub tcp_psh_ack : ℕ
tcp_psh_ack = 0x18

pub listen : Net → ℤ → ℤ → Net × ℤ
listen n sockfd backlog = elim (descriptor sockfd) [
  | none ↦ (n, negsuc 0)
  | some i ↦
      (set_socket n i (record (n.sockets i) { state = tcp_listen; backlog = backlog }), pos 0)
]

pub connect : Net → ℤ → Address → Net × ℤ
connect n sockfd addr = elim (descriptor sockfd) [
  | none ↦ (n, negsuc 0)
  | some i ↦
      let sock = record (n.sockets i) {
        remote_ip = addr.sin_addr;
        remote_port = ntohs addr.sin_port;
      } in
      (
        record (set_socket n i (record sock { state = tcp_syn_sent })) {
          link = tcp_send n.link sock.remote_ip sock.remote_port sock.local_port tcp_syn [];
        },
        pos 0,
      )
]

-- `len` is the length of `buf`; a socket of another type sends nothing.
pub send : Net → ℤ → List ℕ → Net × ℤ
send n sockfd buf = elim (descriptor sockfd) [
  | none ↦ (n, negsuc 0)
  | some i ↦
      let sock = n.sockets i in
      let link =
        if sock.type == sock_stream
        then tcp_send n.link sock.remote_ip sock.remote_port sock.local_port tcp_psh_ack buf
        else if sock.type == sock_dgram
        then udp_send n.link sock.remote_ip sock.remote_port sock.local_port buf
        else n.link in
      (record n { link = link }, pos (length buf))
]

pub recv : Net → ℤ → Net × ℤ
recv n sockfd = elim (descriptor sockfd) [ none ↦ (n, negsuc 0) | some i ↦ (n, pos 0) ]

-- The loop of `dns_resolve` over the name: the bytes of `qname`, `i`, `j` and `len_pos`.
pub write_name : (ℕ → ℕ) → List ℕ → ℕ → ℕ → ℕ → ℕ → ℕ
write_name q [] i j len_pos = put_byte (put_byte q len_pos (j % 256)) (suc i) 0
write_name q (c ∷ s) i j len_pos =
    if c == 46
    then write_name (put_byte q len_pos (j % 256)) s (suc i) 0 (suc i)
    else write_name (put_byte q (suc i) c) s (suc i) (suc j) len_pos

-- The twelve bytes of the header, and the question behind them; `q` is what is in the buffer from there
-- on before. The buffer has 512 bytes and is filled without a check: a name must have 494 at most.
pub dns_query : (ℕ → ℕ) → List ℕ → List ℕ
dns_query q hostname =
    le16 0x1234
    ++ (le16 (htons 0x0100)
        ++ (le16 (htons 1)
            ++ (0 ∷ 0 ∷ 0 ∷ 0 ∷ 0 ∷ 0 ∷ []
                ++ (bytes_at (write_name q hostname 0 0 0) 0 (length hostname + 2)
                    ++ (le16 (htons 1) ++ le16 (htons 1))))))

-- The address 8.8.8.8, and the ports. The answer is not waited for.
pub dns_resolve : (ℕ → ℕ) → Net → List ℕ → Net × ℕ
dns_resolve q n hostname =
    (record n { link = udp_send n.link 0x08080808 53 12345 (dns_query q hostname) }, 0)

-- The bytes of a word in memory.
abbrev pub le32 : ℕ → List ℕ
le32 v = v % 256 ∷ v / 256 % 256 ∷ v / 2 ^ 16 % 256 ∷ v / 2 ^ 24 % 256 ∷ []

-- `dhcp_packet_t`; `q` is what is in the packet before, from which `chaddr`, `sname`, `file` and the
-- end of the options are kept.
pub dhcp_packet : (ℕ → ℕ) → List ℕ
dhcp_packet q =
    1 ∷ 1 ∷ 6 ∷ 0 ∷ le32 0x12345678
    ++ (le16 0
        ++ (le16 (htons 0x8000)
            ++ (le32 0
                ++ (le32 0
                    ++ (le32 0
                        ++ (le32 0
                            ++ (bytes_at q 28 (16 + 64 + 128)
                                ++ (le32 (htonl 0x63825363)
                                    ++ (53
                                        ∷ 1
                                        ∷ 1
                                        ∷ 55
                                        ∷ 3
                                        ∷ 1
                                        ∷ 3
                                        ∷ 6
                                        ∷ 255
                                        ∷ bytes_at q 249 303)))))))))

pub dhcp_discover : (ℕ → ℕ) → Net → Net × ℤ
dhcp_discover q n = (record n { link = udp_send n.link 0xFFFFFFFF 67 68 (dhcp_packet q) }, pos 0)

-- `while (*cp >= '0' && *cp <= '9')`: the value and the rest.
pub digits : List ℕ → ℕ → ℕ × List ℕ
digits [] val = (val, [])
digits (c ∷ s) val = if leb 48 c && leb c 57 then digits s (val * 10 + (c - 48)) else (val, c ∷ s)

abbrev pub skip_dot : List ℕ → List ℕ
skip_dot [] = []
skip_dot (c ∷ s) = if c == 46 then s else c ∷ s

-- `a | b` for words of `w` bits.
pub or_bits : ℕ → ℕ → ℕ → ℕ
or_bits zero a b = 0
or_bits (suc w) a b = or_bits w (a / 2) (b / 2) * 2 + (if a % 2 == 0 then b % 2 else 1)

-- The loop with `k` bytes of the address left, so that `shift` is 8 * (k - 1). `none` is a shift by less
-- than 0, which C does not define.
pub inet_loop : List ℕ → ℕ → ℕ → Option ℕ
inet_loop [] k addr = some addr
inet_loop (c ∷ s) zero addr = none
inet_loop (c ∷ s) (suc k) addr =
    let (val, rest) = digits (c ∷ s) 0 in
    inet_loop (skip_dot rest) k (or_bits 32 addr (val * 2 ^ (8 * k) % 2 ^ 32))

pub inet_addr : List ℕ → Option ℕ
inet_addr cp = inet_loop cp 4 0
