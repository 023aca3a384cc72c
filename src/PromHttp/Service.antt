-- ===== src/PromHttp/Service.antt =====
-- src/prom_http.c: what a round of reading leaves.
use imud.Prelude.{
  ℕ, ◌-◌, ◌<◌, ◌≡◌, refl, true, List, [], ◌∷◌, ◌++◌, Option, none, some, length, take, leb, ◌==◌,
  arith, Bool-cases, inl, inr, length-append, length-take, sym, ap,
}
use mathlib.Core.Option.{none-ne-some, some-injective}
use mathlib.Core.Path.{subst}
use imud.Wire.{Bytes}
use imud.PromHttp.{
  Conn, Done, prom_conn_init, prom_conn_service, service_loop, check_deadline, request_complete,
  Serviced, reading, complete, dropped, Recv, got, end_of_stream, interrupted, again, broken,
  req_max,
}

-- The request fits its buffer with the NUL.
abbrev pub Fits : Conn → Type 0
Fits c = length c.req < req_max

-- What each result promises of a connection on `fd` that is serviced at `now`.
abbrev pub Promise : ℕ → ℕ → ℕ → Conn → Serviced → List ℕ → Type 0
Promise now fd deadline c reading closed =
    (c.fd ≡ some fd) × (c.deadline_ms ≡ deadline) × Fits c × (closed ≡ []) × (now < deadline)
Promise now fd deadline c complete closed =
    (c.fd ≡ some fd) × Fits c × (closed ≡ []) × (request_complete c.req ≡ true)
Promise now fd deadline c dropped closed = (c ≡ prom_conn_init) × (closed ≡ fd ∷ [])

abbrev pub Keeps : ℕ → ℕ → ℕ → Done Serviced → Type 0
Keeps now fd deadline r = Promise now fd deadline r.0 r.1 r.2

check_deadline-Keeps :
    (now : ℕ) (c : Conn) (fd : ℕ)
    → c.fd ≡ some fd
    → Fits c
    → Keeps now fd c.deadline_ms (check_deadline now c fd)
unfolding check_deadline
check_deadline-Keeps now c fd live fits = elim (Bool-cases (leb c.deadline_ms now)) [
  | inl late ↦ rw late (refl, refl)
  | inr early ↦ rw early (live, refl, fits, refl, ground (arith, early))
]

by_fd :
    (o : Option ℕ) (deadline : ℕ) (req : Bytes) {fd : ℕ}
    → o ≡ some fd
    → (now : ℕ) (script : List Recv)
    → prom_conn_service (record { fd = o; deadline_ms = deadline; req = req }) now script
      ≡ service_loop now (record { fd = o; deadline_ms = deadline; req = req }) fd script
unfolding prom_conn_service
by_fd none deadline req {fd} e now script = absurd (none-ne-some fd e)
by_fd (some fd') deadline req {fd} e now script =
    ap
      (λ x. service_loop now (record { fd = some fd'; deadline_ms = deadline; req = req }) x script)
      (some-injective fd' fd e)

serviced :
    (c : Conn) (now fd : ℕ) (script : List Recv)
    → c.fd ≡ some fd
    → prom_conn_service c now script ≡ service_loop now c fd script
unfolding prom_conn_service
serviced c now fd script live = by_fd c.fd c.deadline_ms c.req live now script

service_loop-Keeps :
    (now : ℕ) (c : Conn) (fd : ℕ) (script : List Recv)
    → c.fd ≡ some fd
    → Fits c
    → Keeps now fd c.deadline_ms (service_loop now c fd script)
unfolding service_loop
service_loop-Keeps now c fd [] live fits = elim (Bool-cases (req_max - 1 - length c.req == 0)) [
  | inl e ↦ rw e (refl, refl)
  | inr e ↦ rw e (check_deadline-Keeps now c fd live fits)
]
service_loop-Keeps now c fd (got b bs ∷ rs) live fits =
    let room = req_max - 1 - length c.req in
    let c' : Conn = record c { req = c.req ++ take room (b ∷ bs) } in
    let fits' : Fits c' =
      omega (arith, fits, length-append c.req (take room (b ∷ bs)), length-take room (b ∷ bs)) in
    elim (Bool-cases (room == 0)) [
      | inl e ↦ rw e (refl, refl)
      | inr e ↦ elim (Bool-cases (request_complete c'.req)) [
        | inl whole ↦ rw (e, whole) (live, fits', refl, whole)
        | inr partial ↦ rw (e, partial) (service_loop-Keeps now c' fd rs live fits')
      ]
    ]
service_loop-Keeps now c fd (end_of_stream ∷ rs) live fits =
    elim (Bool-cases (req_max - 1 - length c.req == 0)) [
      | inl e ↦ rw e (refl, refl)
      | inr e ↦ rw e (refl, refl)
    ]
service_loop-Keeps now c fd (interrupted ∷ rs) live fits =
    elim (Bool-cases (req_max - 1 - length c.req == 0)) [
      | inl e ↦ rw e (refl, refl)
      | inr e ↦ rw e (service_loop-Keeps now c fd rs live fits)
    ]
service_loop-Keeps now c fd (again ∷ rs) live fits =
    elim (Bool-cases (req_max - 1 - length c.req == 0)) [
      | inl e ↦ rw e (refl, refl)
      | inr e ↦ rw e (check_deadline-Keeps now c fd live fits)
    ]
service_loop-Keeps now c fd (broken ∷ rs) live fits =
    elim (Bool-cases (req_max - 1 - length c.req == 0)) [
      | inl e ↦ rw e (refl, refl)
      | inr e ↦ rw e (refl, refl)
    ]

-- A connection whose request fits its buffer is serviced, with whatever `recv` returns, in one of three
-- ways: it is still reading, unchanged but for the request, which still fits, and its deadline is to
-- come; or its request is complete and fits; or it is idle again and its descriptor, and no other,
-- is closed. So at its deadline it is served or dropped, whatever arrives.
pub prom_conn_service-Keeps :
    (now : ℕ) (c : Conn) (fd : ℕ) (script : List Recv)
    → c.fd ≡ some fd
    → Fits c
    → Keeps now fd c.deadline_ms (prom_conn_service c now script)
unfolding prom_conn_service
prom_conn_service-Keeps now c fd script live fits =
    subst (Keeps now fd c.deadline_ms) (sym (serviced c now fd script live))
      (service_loop-Keeps now c fd script live fits)
