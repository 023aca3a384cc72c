-- ===== src/NetServ/Runs.antt =====
-- src/netserv.c: sequences of calls. What a server was given by `socket` and `accept` it still has,
-- or has closed.
use imud.Prelude.{
  ℕ, ◌≤◌, ◌≡◌, refl, List, [], ◌∷◌, ◌++◌, Option, none, some, length, arith, Bool-cases, inl, inr,
  sym, map, append_assoc, ◌==◌,
}
use mathlib.Core.List.Perm
use mathlib.Core.Path.{subst}
use mathlib.Core.List.{Perm, perm_middle, perm_append_singleton, perm_append_comm}
use mathlib.Core.Option.{none-ne-some}
use imud.NetServ.{
  NetServ, Peer, Sent, Opening, no_socket, unusable, listening, netserv_init, netserv_open,
  accept_all, netserv_accept, netserv_broadcast, netserv_send_each, netserv_close, fds, max_clients,
  send_from,
}
use imud.NetServ.Accounts.{accept_all-Accounts, accept_all_le, send_from-Accounts, send_from_le}

-- The descriptors that a server has open.
abbrev pub held : NetServ → List ℕ
held s = elim s.listen_fd [ none ↦ [] | some fd ↦ fd ∷ fds s.clients ]

abbrev pub socket_of : Opening → List ℕ
socket_of no_socket = []
socket_of (unusable fd) = fd ∷ []
socket_of (listening fd _) = fd ∷ []

-- A server after some calls, with the descriptors that `socket` and `accept` gave and those that were
-- closed, the latest first. `netserv_open` is called on a server that is not open, as its header
-- says.
pub data Runs : NetServ → List ℕ → List ℕ → Type 0 where
  started : Runs netserv_init [] []
  opened :
      (s : NetServ) (given closed : List ℕ) (o : Opening) (port : ℕ)
      → s.listen_fd ≡ none
      → Runs s given closed
      → Runs (netserv_open o port).0 (socket_of o ++ given) ((netserv_open o port).2 ++ closed)
  accepted :
      (s : NetServ) (given closed : List ℕ) (fd : ℕ) (pending : List (ℕ × ℕ))
      → s.listen_fd ≡ some fd
      → Runs s given closed
      → Runs
          (netserv_accept s pending).0
          (map (λ p. p.0) pending ++ given)
          ((netserv_accept s pending).1 ++ closed)
  broadcast :
      (s : NetServ) (given closed : List ℕ) (send : ℕ → Sent) (now len : ℕ)
      → Runs s given closed
      → Runs
          (netserv_broadcast send now len s).0
          given
          ((netserv_broadcast send now len s).1 ++ closed)
  ended :
      (s : NetServ) (given closed : List ℕ)
      → Runs s given closed
      → Runs (netserv_close s).0 given ((netserv_close s).1 ++ closed)

-- No more clients than fit, none where the server is not open, and no descriptor lost.
abbrev pub Safe : NetServ → List ℕ → List ℕ → Type 0
Safe s given closed =
    (length s.clients ≤ max_clients)
    × (s.listen_fd ≡ none → s.clients ≡ [])
    × Perm (held s ++ closed) given

-- A part of a list is exchanged for what it is up to the order.
exchange : (a b d c : List ℕ) → Perm (a ++ b) d → Perm (a ++ (b ++ c)) (d ++ c)
exchange a b d c h = subst (λ t. Perm t (d ++ c)) (append_assoc a b c) (Perm.append_right c h)

broadcast-Safe :
    (listen : Option ℕ) (clients : List Peer) (port : ℕ) (given closed : List ℕ) (send : ℕ → Sent)
    (now len : ℕ)
    → Safe (record { listen_fd = listen; clients = clients; port = port }) given closed
    → Safe
        (netserv_broadcast send now len
          (record { listen_fd = listen; clients = clients; port = port })).0
        given
        ((netserv_broadcast send now len
            (record { listen_fd = listen; clients = clients; port = port })).1
          ++ closed)
unfolding netserv_broadcast netserv_send_each
broadcast-Safe none clients port given closed send now len safe = safe
broadcast-Safe (some fd) clients port given closed send now len safe =
    elim (Bool-cases (len == 0)) [
      | inl e ↦ rw e safe
      | inr e ↦
          let (kept, dropped) = send_from send now (length clients) clients in
          let accounts = send_from-Accounts send now (length clients) clients refl in
          rw e (
            omega (arith, safe.0, send_from_le send now (length clients) clients),
            λ shut. absurd (none-ne-some fd (sym shut)),
            Perm.trans (Perm.cons fd (exchange (fds kept) dropped (fds clients) closed accounts))
                safe.2,
          )
    ]

close-Safe :
    (listen : Option ℕ) (clients : List Peer) (port : ℕ) (given closed : List ℕ)
    → Safe (record { listen_fd = listen; clients = clients; port = port }) given closed
    → Safe (netserv_close (record { listen_fd = listen; clients = clients; port = port })).0 given (
        (netserv_close (record { listen_fd = listen; clients = clients; port = port })).1 ++ closed)
unfolding netserv_close
close-Safe none clients port given closed safe = safe
close-Safe (some fd) clients port given closed safe = (
  omega arith,
  λ _. refl,
  Perm.trans (Perm.append_right closed (perm_append_singleton fd (fds clients))) safe.2,
)

accept-Safe :
    (fd : ℕ) (clients : List Peer) (port : ℕ) (given closed : List ℕ) (pending : List (ℕ × ℕ))
    → Safe (record { listen_fd = some fd; clients = clients; port = port }) given closed
    → Safe
        (netserv_accept (record { listen_fd = some fd; clients = clients; port = port }) pending).0
        (map (λ p. p.0) pending ++ given)
        ((netserv_accept (record { listen_fd = some fd; clients = clients; port = port }) pending).1
          ++ closed)
unfolding netserv_accept
accept-Safe fd clients port given closed pending safe =
    let new = map (λ p. p.0) pending in
    let (taken, refused) = accept_all clients pending in
    let accounts = accept_all-Accounts clients pending in
    let turned : Perm (fd ∷ ((fds clients ++ new) ++ closed))
        (fd ∷ (new ++ (fds clients ++ closed))) =
      Perm.cons fd (
        subst (λ t. Perm ((fds clients ++ new) ++ closed) t) (append_assoc new (fds clients) closed)
          (Perm.append_right closed (perm_append_comm (fds clients) new))) in
    (
      accept_all_le clients pending safe.0,
      λ shut. absurd (none-ne-some fd (sym shut)),
      Perm.trans (Perm.cons fd (exchange (fds taken) refused (fds clients ++ new) closed accounts))
          (Perm.trans turned (
            Perm.trans (Perm.symm (perm_middle new (fds clients ++ closed)))
              (Perm.append_left new safe.2))),
    )

accept_open-Safe :
    (listen : Option ℕ) (clients : List Peer) (port : ℕ) (given closed : List ℕ) (fd : ℕ)
    (pending : List (ℕ × ℕ))
    → listen ≡ some fd
    → Safe (record { listen_fd = listen; clients = clients; port = port }) given closed
    → Safe
        (netserv_accept (record { listen_fd = listen; clients = clients; port = port }) pending).0
        (map (λ p. p.0) pending ++ given)
        ((netserv_accept (record { listen_fd = listen; clients = clients; port = port }) pending).1
          ++ closed)
accept_open-Safe none clients port given closed fd pending e safe = absurd (none-ne-some fd e)
accept_open-Safe (some fd') clients port given closed fd pending e safe =
    accept-Safe fd' clients port given closed pending safe

-- A server that is not open holds nothing.
shut_all :
    (listen : Option ℕ) (clients : List Peer) (port : ℕ) (given closed : List ℕ)
    → listen ≡ none
    → Safe (record { listen_fd = listen; clients = clients; port = port }) given closed
    → Perm closed given
shut_all none clients port given closed e safe = safe.2
shut_all (some fd) clients port given closed e safe = absurd (none-ne-some fd (sym e))

open-Safe :
    (s : NetServ) (given closed : List ℕ) (o : Opening) (port : ℕ)
    → s.listen_fd ≡ none
    → Safe s given closed
    → Safe (netserv_open o port).0 (socket_of o ++ given) ((netserv_open o port).2 ++ closed)
unfolding netserv_open netserv_init
open-Safe s given closed o port shut safe = opens o
  where
    all_closed : Perm closed given
    all_closed = shut_all s.listen_fd s.clients s.port given closed shut safe

    opens :
        (o : Opening)
        → Safe (netserv_open o port).0 (socket_of o ++ given) ((netserv_open o port).2 ++ closed)
    opens no_socket = (omega arith, λ _. refl, all_closed)
    opens (unusable fd) = (omega arith, λ _. refl, Perm.cons fd all_closed)
    opens (listening fd bound) = (omega arith, λ _. refl, Perm.cons fd all_closed)

-- Whatever the calls, and whatever the sockets answer, a server that was initialised first and that is
-- opened only while it is not open has at most NETSRV_MAX_CLIENTS clients, and none while it is not
-- open; and each descriptor that `socket` or `accept` gave is open in it or was closed once, never
-- both and never neither.
pub Runs-Safe : (s : NetServ) (given closed : List ℕ) → Runs s given closed → Safe s given closed
unfolding netserv_init
Runs-Safe s given closed started = (omega arith, λ _. refl, Perm.nil)
Runs-Safe s given closed (opened s₀ given₀ closed₀ o port shut run) =
    open-Safe s₀ given₀ closed₀ o port shut (Runs-Safe s₀ given₀ closed₀ run)
Runs-Safe s given closed (accepted s₀ given₀ closed₀ fd pending listens run) =
    accept_open-Safe s₀.listen_fd s₀.clients s₀.port given₀ closed₀ fd pending listens
      (Runs-Safe s₀ given₀ closed₀ run)
Runs-Safe s given closed (broadcast s₀ given₀ closed₀ send now len run) =
    broadcast-Safe s₀.listen_fd s₀.clients s₀.port given₀ closed₀ send now len
      (Runs-Safe s₀ given₀ closed₀ run)
Runs-Safe s given closed (ended s₀ given₀ closed₀ run) =
    close-Safe s₀.listen_fd s₀.clients s₀.port given₀ closed₀ (Runs-Safe s₀ given₀ closed₀ run)
