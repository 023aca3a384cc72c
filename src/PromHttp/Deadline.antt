-- ===== src/PromHttp/Deadline.antt =====
-- src/prom_http.c: the deadline of a connection.
use imud.Prelude.{
  ℕ, ◌+◌, ◌-◌, ◌%◌, ◌^◌, ◌≤◌, ◌<◌, ◌≡◌, ◌↔◌, refl, Option, none, some, ltb, leb, arith, Bool-cases,
  inl, inr, if◌then◌else◌,
}
use mathlib.Core.Option.{none-ne-some}
use imud.Prelude.Int.{pos, to_int}
use imud.Prelude.Casts.{to_int_small}
use imud.Wire.{Bytes}
use imud.PromHttp.{Conn, prom_conn_timeout_ms}

-- What is left to a deadline, as `poll` takes it.
left_lem :
    (deadline now : ℕ)
    → deadline < 2 ^ 64
    → now < 2 ^ 64
    → (t : ℕ) × ((if leb deadline now
          then pos 0
          else if ltb (2 ^ 31 - 1) ((deadline + 2 ^ 64 - now) % 2 ^ 64)
          then pos (2 ^ 31 - 1)
          else to_int ((deadline + 2 ^ 64 - now) % 2 ^ 64))
        ≡ pos t)
      × (t ≤ deadline - now)
      × ((t ≡ 0) ↔ (deadline ≤ now))
left_lem deadline now hd hn = elim (Bool-cases (leb deadline now)) [
  | inl late ↦ rw late (0, refl, omega arith, (λ _. ground (arith, late), λ _. refl))
  | inr early ↦
      let ahead : now < deadline = ground (arith, early) in
      let left : (deadline + 2 ^ 64 - now) % 2 ^ 64 ≡ deadline - now = omega arith in
      elim (Bool-cases (ltb (2 ^ 31 - 1) (deadline - now))) [
        | inl far ↦
            rw (early, left, far)
              (
                2 ^ 31 - 1,
                refl,
                ground (arith, far),
                (λ e. absurd (omega (arith, e)), λ h. absurd (omega (arith, ahead, h))),
              )
        | inr near ↦
            rw (early, left, near)
              (
                deadline - now,
                to_int_small (deadline - now) (ground (arith, near)),
                omega arith,
                (λ e. omega (arith, e), λ h. omega (arith, h)),
              )
      ]
]

timeout_left :
    (o : Option ℕ) (deadline : ℕ) (req : Bytes) (now fd : ℕ)
    → o ≡ some fd
    → deadline < 2 ^ 64
    → now < 2 ^ 64
    → (t : ℕ) × (prom_conn_timeout_ms (record { fd = o; deadline_ms = deadline; req = req }) now
        ≡ pos t)
      × (t ≤ deadline - now)
      × ((t ≡ 0) ↔ (deadline ≤ now))
unfolding prom_conn_timeout_ms
timeout_left none deadline req now fd e hd hn = absurd (none-ne-some fd e)
timeout_left (some _) deadline req now fd e hd hn = left_lem deadline now hd hn

-- While a connection is held, with the deadline and the time 64-bit numbers, the time that `poll` is
-- given is not negative, never lasts past the connection's deadline, and is 0 exactly from the
-- deadline on.
pub prom_conn_timeout_ms_lem :
    (c : Conn) (now fd : ℕ)
    → c.fd ≡ some fd
    → c.deadline_ms < 2 ^ 64
    → now < 2 ^ 64
    → (t : ℕ) × (prom_conn_timeout_ms c now ≡ pos t)
      × (t ≤ c.deadline_ms - now)
      × ((t ≡ 0) ↔ (c.deadline_ms ≤ now))
prom_conn_timeout_ms_lem c now fd live hd hn =
    timeout_left c.fd c.deadline_ms c.req now fd live hd hn
