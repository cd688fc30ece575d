-- ===== src/Net/Table.antt =====
-- The table of sockets.
use nix_core_os.Base.{
  ℕ, zero, suc, ◌+◌, ◌≡◌, refl, ◌∙◌, ◌⊎◌, ◌≢◌, ◌<◌, inl, inr, none, some, ◌==◌, ℤ, pos, negsuc,
  ◌≤ℤ◌, List, arith, Bool-cases, Option-cases,
}
use nix_core_os.Net.{
  Socket, Net, Address, tcp_closed, max_sockets, free_socket, socket, descriptor, bind, listen,
  connect, send, recv,
}

-- The search finds a closed socket among those it looks at.
free_socket_lem :
    (s : ℕ → Socket) (i n j : ℕ)
    → free_socket s i n ≡ some j
    → ((s j).state ≡ tcp_closed) × (j < i + n)
unfolding free_socket
free_socket_lem s i zero j h = absurd (ground arith)
free_socket_lem s i (suc n) j h = elim (Bool-cases ((s i).state == tcp_closed)) [
  | inl e ↦ (ground arith, ground arith)
  | inr e ↦ let (a, b) = free_socket_lem s (i + 1) n j (ground arith) in (a, omega (arith, b))
]

-- The search looks at the states only.
free_socket-cong :
    (s t : ℕ → Socket) (i n : ℕ)
    → ((k : ℕ) → (t k).state ≡ (s k).state)
    → free_socket t i n ≡ free_socket s i n
unfolding free_socket
free_socket-cong s t i zero same = refl
free_socket-cong s t i (suc n) same = ground (arith, same i, free_socket-cong s t (i + 1) n same)

-- A descriptor that is negative, or 1024 or more, makes `bind`, `listen`, `connect`, `send` and `recv`
-- return -1 and change neither a socket nor what is sent.
pub descriptor_out_of_range :
    (n : Net) (sockfd : ℤ) (addr : Address) (backlog : ℤ) (buf : List ℕ)
    → (sockfd ≤ℤ negsuc 0) ⊎ (pos 1024 ≤ℤ sockfd)
    → (bind n sockfd addr ≡ (n, negsuc 0))
      × (listen n sockfd backlog ≡ (n, negsuc 0))
      × (connect n sockfd addr ≡ (n, negsuc 0))
      × (send n sockfd buf ≡ (n, negsuc 0))
      × (recv n sockfd ≡ (n, negsuc 0))
unfolding bind listen connect send recv
descriptor_out_of_range n sockfd addr backlog buf out =
    let none' : descriptor sockfd ≡ none = out_lem sockfd out in
    rw (none', bind, listen, connect, send, recv) (refl, refl, refl, refl, refl)
  where
    out_lem : (i : ℤ) → (i ≤ℤ negsuc 0) ⊎ (pos 1024 ≤ℤ i) → descriptor i ≡ none
    out_lem (negsuc k) o = unfold descriptor in refl
    out_lem (pos k) o = unfold descriptor in ground arith

-- What a call of `socket` does to the table, for the descriptor that it returns.
socket_lem :
    (n : Net) (type protocol i : ℕ)
    → (socket n type protocol).1 ≡ some i
    → (free_socket n.sockets 0 max_sockets ≡ some i)
      × ((k : ℕ) → ((socket n type protocol).0.sockets k).state ≡ (n.sockets k).state)
unfolding socket
socket_lem n type protocol i h = elim (Option-cases (free_socket n.sockets 0 max_sockets)) [
  | inl e ↦ absurd (ground arith)
  | inr (j, e) ↦ (ground arith, λ k. ground (arith, free_socket_lem n.sockets 0 max_sockets j e))
]

-- A socket that the search finds is what `socket` returns.
socket-found :
    (n : Net) (type protocol i : ℕ)
    → free_socket n.sockets 0 max_sockets ≡ some i
    → (socket n type protocol).1 ≡ some i
unfolding socket
socket-found n type protocol i e = rw (e, socket) refl

socket-taken :
    (n : Net) (type protocol i : ℕ)
    → (n.sockets i).state ≢ tcp_closed
    → (socket n type protocol).1 ≢ some i
socket-taken n type protocol i taken h =
    let (found, same) = socket_lem n type protocol i h in
    taken (free_socket_lem n.sockets 0 max_sockets i found).0

bind_state :
    (n : Net) (addr : Address) (i k : ℕ)
    → i < 1024
    → ((bind n (pos i) addr).0.sockets k).state ≡ (n.sockets k).state
unfolding bind descriptor
bind_state n addr i k b = ground arith

listen_state :
    (n : Net) (backlog : ℤ) (i : ℕ) → i < 1024 → ((listen n (pos i) backlog).0.sockets i).state ≡ 1
unfolding listen descriptor
listen_state n backlog i b = ground arith

connect_state :
    (n : Net) (addr : Address) (i : ℕ) → i < 1024 → ((connect n (pos i) addr).0.sockets i).state ≡ 2
unfolding connect descriptor
connect_state n addr i b = ground arith

-- The socket that `socket` returns stays closed: the next call of `socket` returns the same
-- descriptor, and so does the one after a `bind`. A `listen` or `connect` takes it: no call of `socket`
-- right after that returns it.
pub socket-listen :
    (n : Net) (type protocol type' protocol' : ℕ) (addr : Address) (backlog : ℤ) (i : ℕ)
    → let (n', r) = socket n type protocol in
      r ≡ some i
      → ((socket n' type' protocol').1 ≡ some i)
        × ((socket (bind n' (pos i) addr).0 type' protocol').1 ≡ some i)
        × ((socket (listen n' (pos i) backlog).0 type' protocol').1 ≢ some i)
        × ((socket (connect n' (pos i) addr).0 type' protocol').1 ≢ some i)
socket-listen n type protocol type' protocol' addr backlog i h =
    let n' = (socket n type protocol).0 in
    let (found, same) = socket_lem n type protocol i h in
    let (closed, below) = free_socket_lem n.sockets 0 max_sockets i found in
    let again : free_socket n'.sockets 0 max_sockets ≡ some i =
      free_socket-cong n.sockets n'.sockets 0 max_sockets same ∙ found in
    (
      socket-found n' type' protocol' i again,
      socket-found (bind n' (pos i) addr).0 type' protocol' i (
          free_socket-cong n'.sockets (bind n' (pos i) addr).0.sockets 0 max_sockets
            (λ k. bind_state n' addr i k below)
          ∙ again),
      socket-taken (listen n' (pos i) backlog).0 type' protocol' i
          (λ e. omega (arith, e, listen_state n' backlog i below)),
      socket-taken (connect n' (pos i) addr).0 type' protocol' i
          (λ e. omega (arith, e, connect_state n' addr i below)),
    )
