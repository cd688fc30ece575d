-- ===== src/Net/Tests.antt =====
-- A table of closed sockets.
use nix_core_os.Base.{◌≡◌, ◌≢◌, refl, true, [], ◌∷◌, ◌++◌, some, pos, arith, codes}
use nix_core_os.Link.{udp_send}
use nix_core_os.Net.{Net, Address, htons, free_socket, socket, bind, listen, connect, dns_resolve}
use nix_core_os.Net.Table.{socket-listen}
use nix_core_os.Net.Names.{dns_resolve-labels}

abbrev closed : Net
closed = record {
  sockets = λ i. record {
    type = 0;
    protocol = 0;
    state = 0;
    local_ip = 0;
    local_port = 0;
    remote_ip = 0;
    remote_port = 0;
    backlog = pos 0;
  };
  link = record {
    mac = 0x52 ∷ 0x54 ∷ 0 ∷ 0x12 ∷ 0x34 ∷ 1 ∷ [];
    ip = 0xC0A80164;
    netmask = 0xFFFFFF00;
    gateway = 0xC0A80101;
    up = true;
    arp_table = [];
    tx_cur = 0;
    frames = [];
  };
}

abbrev http : Address
http = record { sin_port = htons 80; sin_addr = 0xC0A80165 }

first : (socket closed 1 6).1 ≡ some 0
unfolding socket free_socket
first = refl

socket-listen_example :
    let n = (socket closed 1 6).0 in
    ((socket n 2 17).1 ≡ some 0)
    × ((socket (bind n (pos 0) http).0 2 17).1 ≡ some 0)
    × ((socket (listen n (pos 0) (pos 5)).0 2 17).1 ≢ some 0)
    × ((socket (connect n (pos 0) http).0 2 17).1 ≢ some 0)
socket-listen_example = socket-listen closed 1 6 2 17 http (pos 5) 0 first

dns_resolve-labels_example : dns_resolve (λ i. 0xCC) closed (codes "nix.os") ≡ (
  record closed {
    link = udp_send closed.link 0x08080808 53 12345 (
        0x34 ∷ 0x12 ∷ 1 ∷ 0 ∷ 0 ∷ 1 ∷ 0 ∷ 0 ∷ 0 ∷ 0 ∷ 0 ∷ 0 ∷ 3 ∷ codes "nix"
        ++ (2 ∷ codes "os" ++ (0 ∷ 0 ∷ 1 ∷ 0 ∷ 1 ∷ [])));
  },
  0,
)
dns_resolve-labels_example =
    dns_resolve-labels (λ i. 0xCC) closed (codes "nix") (codes "os" ∷ []) (ground arith)
      (omega arith)
