-- ===== src/Bridge/Wait.antt =====
-- src/bridge.c: how long a bridge waits.
use imud.Prelude.{
  ℕ, ◌+◌, ◌-◌, ◌*◌, ◌/◌, ◌≤◌, ◌<◌, ◌≡◌, ◌↔◌, refl, true, false, leb, ◌==◌, arith, Bool-cases, inl,
  inr, sym, ◌∙◌, ap, List, [], ◌∷◌, ◌++◌, some, take, drop, take-append-drop, append_assoc,
}
use imud.Prelude.Int.{pos}
use imud.Prelude.Casts.{to_int_small}
use mathlib.Core.Bool.{false≢true}
use mathlib.Core.Option.{none-ne-some, some-injective}
use imud.Wire.{Bytes}
use imud.Bridge.{
  Timespec, total, bridge_wait_ms, bridge_due, bridge_write_all, Wrote, wrote, eintr, broken,
}
use imud.Bridge.Ticks.{Normal}

due_lem :
    (now next : Timespec)
    → Normal now
    → Normal next
    → bridge_due now next ≡ leb (total next) (total now)
unfolding bridge_due
due_lem now next hn hx = ground (arith, hn, hx)

-- For two normal times less than 2^31 ms apart, `bridge_wait_ms` is a number of milliseconds that
-- lasts to the deadline and is less than one longer, and it is 0 exactly where `bridge_due` holds: a
-- bridge never polls without waiting before its deadline.
pub bridge_wait_ms_lem :
    (now next : Timespec)
    → Normal now
    → Normal next
    → total next < total now + 2147483647 * 1000000
    → (w : ℕ) × (bridge_wait_ms now next ≡ pos w)
      × (total next ≤ total now + w * 1000000)
      × (w * 1000000 < (total next - total now) + 1000000)
      × ((w ≡ 0) ↔ (bridge_due now next ≡ true))
unfolding bridge_wait_ms
bridge_wait_ms_lem now next hn hx near =
    let w = (total next - total now + 999999) / 1000000 in
    (
      w,
      to_int_small w (omega (arith, near)),
      omega arith,
      omega arith,
      (
        λ none_left. due_lem now next hn hx ∙ ground (arith, none_left),
        λ due. ground (arith, sym (due_lem now next hn hx) ∙ due),
      ),
    )

-- Whatever the writes do, `bridge_write_all` sends a prefix of the buffer, and the whole of it where
-- it returns 0.
pub bridge_write_all-whole :
    (script : List Wrote) (b : Bytes)
    → (rest : Bytes) × ((bridge_write_all script b).0 ++ rest ≡ b)
      × ((bridge_write_all script b).1 ≡ some true → rest ≡ [])
unfolding bridge_write_all
bridge_write_all-whole script [] = ([], refl, λ _. refl)
bridge_write_all-whole [] (c ∷ b) = (c ∷ b, refl, λ e. absurd (none-ne-some true e))
bridge_write_all-whole (wrote w ∷ script) (c ∷ b) =
    let (rest, whole, done) = bridge_write_all-whole script (drop w (c ∷ b)) in
    elim (Bool-cases (w == 0)) [
      | inl e ↦ rw e (c ∷ b, refl, λ ok. absurd (false≢true (some-injective false true ok)))
      | inr e ↦ rw e (
        rest,
        append_assoc (take w (c ∷ b)) (bridge_write_all script (drop w (c ∷ b))).0 rest
            ∙ ap (λ t. take w (c ∷ b) ++ t) whole
            ∙ take-append-drop w (c ∷ b),
        done,
      )
    ]
bridge_write_all-whole (eintr ∷ script) (c ∷ b) = bridge_write_all-whole script (c ∷ b)
bridge_write_all-whole (broken ∷ script) (c ∷ b) =
    (c ∷ b, refl, λ e. absurd (false≢true (some-injective false true e)))
