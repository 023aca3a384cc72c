-- ===== src/NetServ/Tests.antt =====
-- A server on a few descriptors.
use imud.Prelude.{ℕ, List, [], ◌∷◌, ◌++◌, none, refl, ◌≡◌, ◌==◌, if◌then◌else◌}
use imud.NetServ.{
  NetServ, Peer, Sent, whole, would_block, failed, listening, netserv_init, netserv_open,
  netserv_accept, netserv_broadcast, send_from, netserv_send_each, after_send, fill, last_of,
  all_but_last,
}
use imud.NetServ.Clients.{policy, Settled, netserv_send_each-Settled}
use imud.NetServ.Runs.{Runs, started, opened, accepted, broadcast, Safe, Runs-Safe}

-- The first client hangs up, the second has a full buffer, and the others take everything.
abbrev answers : ℕ → Sent
answers fd = if fd == 5 then failed else if fd == 6 then would_block else whole

abbrev open_server : NetServ
open_server = (netserv_open (listening 4 none) 2000).0

abbrev three : List (ℕ × ℕ)
three = (5, 100) ∷ (6, 100) ∷ (7, 100) ∷ []

abbrev serving : NetServ
serving = (netserv_accept open_server three).0

serving_run :
    Runs serving
      (5 ∷ 6 ∷ 7 ∷ 4 ∷ [])
      ((netserv_accept open_server three).1 ++ ((netserv_open (listening 4 none) 2000).2 ++ []))
unfolding netserv_open netserv_init
serving_run =
    accepted open_server (4 ∷ []) ((netserv_open (listening 4 none) 2000).2 ++ []) 4 three refl
      (opened netserv_init [] [] (listening 4 none) 2000 refl started)

Runs-Safe_example : Safe (netserv_broadcast answers 200 10 serving).0 (5 ∷ 6 ∷ 7 ∷ 4 ∷ []) (
    (netserv_broadcast answers 200 10 serving).1
    ++ ((netserv_accept open_server three).1 ++ ((netserv_open (listening 4 none) 2000).2 ++ [])))
Runs-Safe_example =
    Runs-Safe (netserv_broadcast answers 200 10 serving).0 (5 ∷ 6 ∷ 7 ∷ 4 ∷ [])
      ((netserv_broadcast answers 200 10 serving).1
        ++ ((netserv_accept open_server three).1
            ++ ((netserv_open (listening 4 none) 2000).2 ++ [])))
      (broadcast serving (5 ∷ 6 ∷ 7 ∷ 4 ∷ [])
        ((netserv_accept open_server three).1 ++ ((netserv_open (listening 4 none) 2000).2 ++ []))
        answers 200 10 serving_run)

abbrev peers : List Peer
peers =
    record { fd = 5; taken_ns = 100 }
    ∷ record { fd = 6; taken_ns = 100 }
    ∷ record { fd = 7; taken_ns = 100 }
    ∷ []

-- The last client comes to the place of the first.
moved :
    netserv_send_each answers 200 peers
    ≡ (record { fd = 7; taken_ns = 200 } ∷ record { fd = 6; taken_ns = 100 } ∷ [], 5 ∷ [])
unfolding netserv_send_each send_from after_send fill last_of all_but_last
moved = refl

netserv_send_each-Settled_example :
    Settled policy answers 200 peers (netserv_send_each answers 200 peers)
netserv_send_each-Settled_example = netserv_send_each-Settled answers 200 peers
