-- ===== src/PromHttp/Tests.antt =====
-- A scrape connection on concrete input.
use imud.Prelude.{ℕ, ◌-◌, ◌≤◌, ◌≡◌, ◌↔◌, refl, true, List, [], ◌∷◌, some, arith}
use imud.Prelude.Int.{pos}
use imud.Prelude.Text.{text, same_bytes}
use imud.PromHttp.{
  Conn, prom_conn_init, prom_conn_adopt, prom_conn_service, service_loop, check_deadline,
  request_complete, complete, dropped, Recv, got, again, prom_conn_timeout_ms,
}
use imud.PromHttp.Service.{Keeps, prom_conn_service-Keeps}
use imud.PromHttp.Deadline.{prom_conn_timeout_ms_lem}

abbrev scraper : Conn
scraper = record { fd = some 7; deadline_ms = 2500; req = [] }

-- The scraper's connection is taken at 500 ms for 2 s.
adopted : (prom_conn_adopt prom_conn_init (some 7) 500 (pos 2000) true).0 ≡ scraper
unfolding prom_conn_adopt prom_conn_init
adopted = refl

abbrev arrives : List Recv
arrives = got b'G' (text "ET / HTTP/1.1\r\n") ∷ got b'\r' (text "\n") ∷ []

is_served : (prom_conn_service scraper 2600 arrives).1 ≡ complete
unfolding prom_conn_service service_loop request_complete same_bytes
is_served = refl

-- A client that sends nothing is dropped at its deadline.
is_dropped : (prom_conn_service scraper 2500 (again ∷ [])).1 ≡ dropped
unfolding prom_conn_service service_loop check_deadline
is_dropped = refl

prom_conn_service-Keeps_example : Keeps 2500 7 2500 (prom_conn_service scraper 2500 (again ∷ []))
prom_conn_service-Keeps_example =
    prom_conn_service-Keeps 2500 scraper 7 (again ∷ []) refl (omega arith)

prom_conn_timeout_ms_lem_example :
    (t : ℕ) × (prom_conn_timeout_ms scraper 600 ≡ pos t)
    × (t ≤ scraper.deadline_ms - 600)
    × ((t ≡ 0) ↔ (scraper.deadline_ms ≤ 600))
prom_conn_timeout_ms_lem_example =
    prom_conn_timeout_ms_lem scraper 600 7 refl (omega arith) (omega arith)
