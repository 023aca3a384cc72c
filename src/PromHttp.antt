-- ===== src/PromHttp.antt =====
-- src/prom_http.c and include/prom_http.h: the one scrape connection of the Prometheus endpoint.
-- What the calls of the sockets return is an argument; the time is one in the source too.
use imud.Prelude.{
  ℕ, zero, suc, ◌+◌, ◌-◌, ◌%◌, ◌^◌, Bool, true, false, ◌&&◌, ◌||◌, List, [], ◌∷◌, ◌++◌, Option,
  none, some, length, take, drop, ltb, leb, ◌==◌, if◌then◌else◌,
}
use imud.Prelude.Int.{ℤ, pos, negsuc, to_int}
use imud.Prelude.Text.{is}
use imud.Wire.{Bytes}
pub mod Service
pub mod Deadline
mod Tests

abbrev pub req_max : ℕ
req_max = 1024

-- `prom_conn_t`; `req` is the `nreq` first bytes of the buffer.
pub record Conn : Type 0 where
  pub fd : Option ℕ
  pub deadline_ms : ℕ
  pub req : Bytes

unfoldable pub prom_conn_init : Conn
prom_conn_init = record { fd = none; deadline_ms = 0; req = [] }

-- An operation's state, what it returns, and the descriptors that it closed.
abbrev pub Done : Type 0 → Type 0
Done A = Conn × A × List ℕ

unfoldable pub prom_conn_close : Conn → Conn × List ℕ
prom_conn_close c = elim c.fd [ none ↦ (prom_conn_init, []) | some fd ↦ (prom_conn_init, fd ∷ []) ]

-- Whether the two flags can be set is `configures`; the result is whether 0 is returned.
unfoldable pub prom_conn_adopt : Conn → Option ℕ → ℕ → ℤ → Bool → Done Bool
prom_conn_adopt c none now_ms timeout_ms configures = (c, false, [])
prom_conn_adopt c (some fd) now_ms timeout_ms configures =
    let wait : ℕ = elim timeout_ms [ pos t ↦ t | negsuc _ ↦ 0 ] in
    elim c.fd [
      | some _ ↦ (c, false, fd ∷ [])
      | none ↦
          if configures
          then (record { fd = some fd; deadline_ms = (now_ms + wait) % 2 ^ 64; req = [] }, true, [])
          else (c, false, fd ∷ [])
    ]

unfoldable pub prom_conn_ready_to_write : Conn → Bool → Done Bool
prom_conn_ready_to_write c configures = elim c.fd [
  | none ↦ (c, false, [])
  | some fd ↦ if configures then (c, true, []) else (prom_conn_init, false, fd ∷ [])
]

-- The last `n` bytes.
abbrev pub tail_of : ℕ → Bytes → Bytes
tail_of n buf = drop (length buf - n) buf

unfoldable pub request_complete : Bytes → Bool
request_complete buf =
    (leb 4 (length buf) && is (tail_of 4 buf) "\r\n\r\n")
    || (leb 2 (length buf) && is (tail_of 2 buf) "\n\n")

-- What a `recv` returned: a byte or more, the end, EINTR, EAGAIN, or another error.
pub data Recv : Type 0 where
  got : ℕ → Bytes → Recv
  end_of_stream interrupted again broken : Recv

-- 0, 1 and -1.
pub data Serviced : Type 0 where
  reading complete dropped : Serviced

-- After the loop.
unfoldable pub check_deadline : ℕ → Conn → ℕ → Done Serviced
check_deadline now_ms c fd =
    if leb c.deadline_ms now_ms then (prom_conn_init, dropped, fd ∷ []) else (c, reading, [])

-- The loop over what the calls of `recv` return; after the last, nothing more is readable. `recv`
-- writes no more than `room` bytes.
unfoldable pub service_loop : ℕ → Conn → ℕ → List Recv → Done Serviced
service_loop now_ms c fd [] =
    if req_max - 1 - length c.req == 0
    then (prom_conn_init, dropped, fd ∷ [])
    else check_deadline now_ms c fd
service_loop now_ms c fd (r ∷ rs) =
    let room = req_max - 1 - length c.req in
    if room == 0 then (prom_conn_init, dropped, fd ∷ []) else elim r [
      | got b bs ↦
          let c' = record c { req = c.req ++ take room (b ∷ bs) } in
          if request_complete c'.req then (c', complete, []) else service_loop now_ms c' fd rs
      | end_of_stream ↦ (prom_conn_init, dropped, fd ∷ [])
      | interrupted ↦ service_loop now_ms c fd rs
      | again ↦ check_deadline now_ms c fd
      | broken ↦ (prom_conn_init, dropped, fd ∷ [])
    ]

unfoldable pub prom_conn_service : Conn → ℕ → List Recv → Done Serviced
prom_conn_service c now_ms script = elim c.fd [
  | none ↦ (c, reading, [])
  | some fd ↦ service_loop now_ms c fd script
]

-- The difference is a `uint64_t`, and what is left is cast to `int`.
unfoldable pub prom_conn_timeout_ms : Conn → ℕ → ℤ
prom_conn_timeout_ms c now_ms = elim c.fd [
  | none ↦ negsuc 0
  | some _ ↦
      let left = (c.deadline_ms + 2 ^ 64 - now_ms) % 2 ^ 64 in
      if leb c.deadline_ms now_ms
      then pos 0
      else if ltb (2 ^ 31 - 1) left
      then pos (2 ^ 31 - 1)
      else to_int left
]
