-- ===== src/NetServ.antt =====
-- src/netserv.c and include/netserv.h: the TCP server of the outputs and the bridges. The sockets'
-- answers are arguments: what `accept` gives, and what `send` does on each descriptor.
use imud.Prelude.{
  ℕ, zero, suc, ◌+◌, ◌-◌, ◌%◌, ◌^◌, Bool, true, false, List, [], ◌∷◌, ◌++◌, map, Option, none, some,
  length, ltb, leb, ◌==◌, if◌then◌else◌, ◌||◌,
}
pub mod Clients
pub mod Accounts
pub mod Runs
mod Tests

-- `NETSRV_MAX_CLIENTS` and `NETSRV_STALL_NS`
abbrev pub max_clients : ℕ
max_clients = 8

abbrev pub stall_ns : ℕ
stall_ns = 30000000000

-- `clients[i]` and `taken_ns[i]`.
pub record Peer : Type 0 where
  pub fd : ℕ
  pub taken_ns : ℕ

-- `netserv_t` without the tag of its log lines; the list holds the `nclients` first entries of the
-- two arrays.
pub record NetServ : Type 0 where
  pub listen_fd : Option ℕ
  pub clients : List Peer
  pub port : ℕ

-- What `send` did: all of the buffer, EAGAIN or EWOULDBLOCK, or another error or a part of it.
pub data Sent : Type 0 where
  whole would_block failed : Sent

unfoldable pub netserv_init : NetServ
netserv_init = record { listen_fd = none; clients = []; port = 0 }

-- Where `netserv_open` stops: before it has a socket; on the socket that is then closed; or at its
-- end, with the port that `getsockname` reads back.
pub data Opening : Type 0 where
  no_socket : Opening
  unusable : ℕ → Opening
  listening : ℕ → Option ℕ → Opening

-- The server, whether the result is 0, and the descriptors closed.
unfoldable pub netserv_open : Opening → ℕ → NetServ × Bool × List ℕ
netserv_open no_socket port = (netserv_init, false, [])
netserv_open (unusable fd) port = (netserv_init, false, fd ∷ [])
netserv_open (listening fd bound) port =
    let read_back : ℕ = elim bound [ some p ↦ p | none ↦ port ] in
    (record netserv_init { listen_fd = some fd; port = read_back }, true, [])

-- The loop of `netserv_accept` over the descriptors that are pending, each with the time at which it
-- is taken.
unfoldable pub accept_all : List Peer → List (ℕ × ℕ) → List Peer × List ℕ
accept_all clients [] = (clients, [])
accept_all clients ((c, now) ∷ pending) =
    if leb max_clients (length clients)
    then (let (clients', closed) = accept_all clients pending in (clients', c ∷ closed))
    else accept_all (clients ++ (record { fd = c; taken_ns = now } ∷ [])) pending

unfoldable pub netserv_accept : NetServ → List (ℕ × ℕ) → NetServ × List ℕ
netserv_accept s pending = elim s.listen_fd [
  | none ↦ (s, [])
  | some _ ↦
      let (clients', closed) = accept_all s.clients pending in
      (record s { clients = clients' }, closed)
]

-- What the loop of `netserv_send_each` keeps of a client. The difference is a uint64_t.
unfoldable pub after_send : Sent → ℕ → Peer → Option Peer
after_send whole now p = some (record p { taken_ns = now })
after_send would_block now p =
    if ltb ((now + (2 ^ 64 - p.taken_ns)) % 2 ^ 64) stall_ns then some p else none
after_send failed now p = none

-- `fds[i] = fds[n]`: of the clients after a dropped one, the last comes to its place.
unfoldable pub last_of : Peer → List Peer → Peer
last_of p [] = p
last_of p (q ∷ ps) = last_of q ps

unfoldable pub all_but_last : Peer → List Peer → List Peer
all_but_last p [] = []
all_but_last p (q ∷ ps) = p ∷ all_but_last q ps

unfoldable pub fill : List Peer → List Peer
fill [] = []
fill (p ∷ ps) = last_of p ps ∷ all_but_last p ps

-- The loop, from a client on, and the descriptors closed. A round takes a client, so there are as
-- many rounds as clients.
unfoldable pub send_from : (ℕ → Sent) → ℕ → ℕ → List Peer → List Peer × List ℕ
send_from send now zero peers = (peers, [])
send_from send now (suc n) [] = ([], [])
send_from send now (suc n) (p ∷ ps) = elim (after_send (send p.fd) now p) [
  | some p' ↦ let (kept, closed) = send_from send now n ps in (p' ∷ kept, closed)
  | none ↦ let (kept, closed) = send_from send now n (fill ps) in (kept, p.fd ∷ closed)
]

unfoldable pub netserv_send_each : (ℕ → Sent) → ℕ → List Peer → List Peer × List ℕ
netserv_send_each send now peers = send_from send now (length peers) peers

unfoldable pub netserv_broadcast : (ℕ → Sent) → ℕ → ℕ → NetServ → NetServ × List ℕ
netserv_broadcast send now len s = elim s.listen_fd [
  | none ↦ (s, [])
  | some _ ↦
      if len == 0
      then (s, [])
      else (let (kept, closed) = netserv_send_each send now s.clients in
          (record s { clients = kept }, closed))
]

unfoldable pub netserv_nclients : NetServ → ℕ
netserv_nclients s = elim s.listen_fd [ none ↦ 0 | some _ ↦ length s.clients ]

abbrev pub fds : List Peer → List ℕ
fds ps = map (λ p. p.fd) ps

unfoldable pub netserv_close : NetServ → NetServ × List ℕ
netserv_close s = elim s.listen_fd [
  | none ↦ (s, [])
  | some fd ↦ (record s { listen_fd = none; clients = [] }, fds s.clients ++ (fd ∷ []))
]
