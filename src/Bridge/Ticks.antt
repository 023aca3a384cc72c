-- ===== src/Bridge/Ticks.antt =====
-- src/bridge.c: the deadline of the emit loop.
use imud.Prelude.{
  ℕ, zero, suc, ◌+◌, ◌-◌, ◌≤◌, ◌<◌, ◌≡◌, ◌⊎◌, refl, true, false, ◌&&◌, ◌||◌, ltb, leb, ◌==◌, arith,
  Bool-cases, inl, inr, sym, ◌∙◌, ap,
}
use mathlib.Core.Path.{subst}
use imud.Bridge.{Timespec, total, second, carry, tick, advance, bridge_advance}

-- A time whose nanoseconds are less than a second.
abbrev pub Normal : Timespec → Type 0
Normal t = t.tv_nsec < second

-- `n` periods.
abbrev pub periods : ℕ → ℕ → ℕ
periods zero p = 0
periods (suc n) p = p + periods n p

-- The order of two normal times, as the source compares them.
pub order_lem :
    (a b : Timespec)
    → Normal a
    → Normal b
    → (ltb a.tv_sec b.tv_sec || (a.tv_sec == b.tv_sec && leb a.tv_nsec b.tv_nsec))
      ≡ leb (total a) (total b)
order_lem a b ha hb = ground (arith, ha, hb)

carry_lem :
    (n : ℕ) (t : Timespec) → t.tv_nsec ≤ n → (total (carry n t) ≡ total t) × Normal (carry n t)
unfolding carry
carry_lem zero t enough = (refl, omega (arith, enough))
carry_lem (suc n) t enough = elim (Bool-cases (leb second t.tv_nsec)) [
  | inr small ↦ rw small (refl, ground (arith, small))
  | inl big ↦
      let next : Timespec = record { tv_sec = t.tv_sec + 1; tv_nsec = t.tv_nsec - second } in
      let (same, normal) = carry_lem n next (ground (arith, big, enough)) in
      rw big (ground (arith, same, big), normal)
]

pub tick_lem :
    (next : Timespec) (p : ℕ) → (total (tick next p) ≡ total next + p) × Normal (tick next p)
unfolding tick
tick_lem next p =
    let later : Timespec = record next { tv_nsec = next.tv_nsec + p } in
    let (same, normal) = carry_lem (next.tv_nsec + p) later (omega arith) in
    (omega (arith, same), normal)

-- The first deadline after `now`: a whole number of periods on, and not one more than it takes.
abbrev pub Lands : Timespec → Timespec → ℕ → Timespec → Type 0
Lands next now p r =
    Normal r
    × (total now < total r)
    × ((k : ℕ) × (total r ≡ total next + p + periods k p) × ((k ≡ 0) ⊎ (total r ≤ total now + p)))

advance_again :
    (n : ℕ) (next now : Timespec) (p : ℕ)
    → (ltb (tick next p).tv_sec now.tv_sec
        || ((tick next p).tv_sec == now.tv_sec && leb (tick next p).tv_nsec now.tv_nsec))
      ≡ true
    → advance (suc n) next now p ≡ advance n (tick next p) now p
unfolding advance
advance_again n next now p e = rw e refl

advance_done :
    (n : ℕ) (next now : Timespec) (p : ℕ)
    → (ltb (tick next p).tv_sec now.tv_sec
        || ((tick next p).tv_sec == now.tv_sec && leb (tick next p).tv_nsec now.tv_nsec))
      ≡ false
    → advance (suc n) next now p ≡ tick next p
unfolding advance
advance_done n next now p e = rw e refl

-- A round before the others.
one_more :
    (next now : Timespec) (p : ℕ) (next' r : Timespec)
    → total next' ≡ total next + p
    → total next' ≤ total now
    → Lands next' now p r
    → Lands next now p r
one_more next now p next' r moved behind (normal, after, (k, at, inl first)) = (
  normal,
  after,
  (suc k, omega (arith, at, moved), inr (omega (arith, at, behind, ap (λ k. periods k p) first))),
)
one_more next now p next' r moved behind (normal, after, (k, at, inr least)) =
    (normal, after, (suc k, omega (arith, at, moved), inr least))

advance-Lands :
    (n : ℕ) (next now : Timespec) (p : ℕ)
    → Normal now
    → 0 < p
    → total now < total next + n
    → 0 < n
    → Lands next now p (advance n next now p)
unfolding advance
advance-Lands zero next now p normal positive enough some_rounds =
    absurd (omega (arith, some_rounds))
advance-Lands (suc n) next now p normal positive enough some_rounds =
    let next' = tick next p in
    let (moved, normal') = tick_lem next p in
    let order = order_lem next' now normal' normal in
    elim (Bool-cases (leb (total next') (total now))) [
      | inl behind ↦
          let rest =
            advance-Lands n next' now p normal positive (omega (arith, moved, enough, positive))
              (ground (arith, behind, moved, enough, positive)) in
          subst (Lands next now p) (sym (advance_again n next now p (order ∙ behind)))
            (one_more next now p next' (advance n next' now p) moved (ground (arith, behind)) rest)
      | inr ahead ↦
          subst (Lands next now p) (sym (advance_done n next now p (order ∙ ahead)))
            (normal', ground (arith, ahead), (0, omega (arith, moved), inl refl))
    ]

-- From any deadline and any time, with a period of a nanosecond or more, the loop of `bridge_advance`
-- ends: the deadline it leaves is after `now`, is a whole number of periods, one or more, after the
-- one before, and is the first such: if it took more than one, it is at most a period after `now`.
pub bridge_advance-Lands :
    (next now : Timespec) (p : ℕ)
    → Normal now
    → 0 < p
    → Lands next now p (bridge_advance next now p)
unfolding bridge_advance
bridge_advance-Lands next now p normal positive =
    advance-Lands (total now + 1) next now p normal positive (omega arith) (omega arith)
