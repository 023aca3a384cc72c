-- ===== src/NetServ/Accounts.antt =====
-- src/netserv.c: the loops of netserv_accept and netserv_send_each keep or close each descriptor.
use imud.Prelude.{
  ℕ, zero, suc, ◌+◌, ◌-◌, ◌%◌, ◌^◌, ◌≤◌, ◌≡◌, refl, true, false, List, [], ◌∷◌, ◌++◌, some, length,
  leb, ltb, arith, Option-cases, Bool-cases, inl, inr, ap, sym, map, append_assoc, length-append,
}
use mathlib.Core.List.Perm
use mathlib.Core.Path.{subst}
use mathlib.Core.List.{Perm, perm_middle}
use mathlib.Core.Option.{some-injective, none-ne-some}
use imud.NetServ.{
  Peer, Sent, whole, would_block, failed, stall_ns, accept_all, fds, after_send, max_clients,
  send_from, fill,
}
use imud.NetServ.Clients.{fill-Perm, length-fill, send_from_keep, send_from_drop}

abbrev pub Accounts : List ℕ → List Peer × List ℕ → Type 0
Accounts before r = Perm (fds r.0 ++ r.1) before

accept_all_full :
    (clients : List Peer) (c now : ℕ) (pending : List (ℕ × ℕ))
    → leb max_clients (length clients) ≡ true
    → accept_all clients ((c, now) ∷ pending)
      ≡ ((accept_all clients pending).0, c ∷ (accept_all clients pending).1)
unfolding accept_all
accept_all_full clients c now pending full = rw (accept_all, full) refl

accept_all_room :
    (clients : List Peer) (c now : ℕ) (pending : List (ℕ × ℕ))
    → leb max_clients (length clients) ≡ false
    → accept_all clients ((c, now) ∷ pending)
      ≡ accept_all (clients ++ (record { fd = c; taken_ns = now } ∷ [])) pending
unfolding accept_all
accept_all_room clients c now pending room = rw (accept_all, room) refl

pub fds-append : (ps qs : List Peer) → fds (ps ++ qs) ≡ fds ps ++ fds qs
fds-append [] qs = refl
fds-append (p ∷ ps) qs = ap (◌∷◌ p.fd) (fds-append ps qs)

-- `accept_all` keeps or closes what it is given.
pub accept_all-Accounts :
    (clients : List Peer) (pending : List (ℕ × ℕ))
    → Accounts (fds clients ++ map (λ p. p.0) pending) (accept_all clients pending)
unfolding accept_all
accept_all-Accounts clients [] = Perm.refl (fds clients ++ [])
accept_all-Accounts clients ((c, now) ∷ pending) =
    let before = fds clients ++ (c ∷ map (λ p. p.0) pending) in
    elim (Bool-cases (leb max_clients (length clients))) [
      | inl full ↦ subst (Accounts before) (sym (accept_all_full clients c now pending full)) (
          Perm.trans
            (perm_middle (fds (accept_all clients pending).0) (accept_all clients pending).1)
            (Perm.trans (Perm.cons c (accept_all-Accounts clients pending))
              (Perm.symm (perm_middle (fds clients) (map (λ p. p.0) pending)))))
      | inr room ↦
          let more = clients ++ (record { fd = c; taken_ns = now } ∷ []) in
          let moved : fds more ++ map (λ p. p.0) pending ≡ before =
            rw (fds-append clients (record { fd = c; taken_ns = now } ∷ []))
              (simp (append_assoc)) in
          subst (Accounts before) (sym (accept_all_room clients c now pending room)) (
            subst (λ b. Perm (fds (accept_all more pending).0 ++ (accept_all more pending).1) b)
              moved (accept_all-Accounts more pending))
    ]

-- `accept_all` keeps no more clients than fit.
pub accept_all_le :
    (clients : List Peer) (pending : List (ℕ × ℕ))
    → length clients ≤ max_clients
    → length (accept_all clients pending).0 ≤ max_clients
unfolding accept_all
accept_all_le clients [] fits = fits
accept_all_le clients ((c, now) ∷ pending) fits =
    elim (Bool-cases (leb max_clients (length clients))) [
      | inl full ↦
          subst (λ r. length r.0 ≤ max_clients) (sym (accept_all_full clients c now pending full))
            (accept_all_le clients pending fits)
      | inr room ↦
          let newcomer : Peer = record { fd = c; taken_ns = now } in
          subst (λ r. length r.0 ≤ max_clients) (sym (accept_all_room clients c now pending room))
            (accept_all_le (clients ++ (newcomer ∷ [])) pending
              (ground (arith, room, length-append clients (newcomer ∷ []))))
    ]

after_send-fd :
    (sent : Sent) (now : ℕ) (p p' : Peer) → after_send sent now p ≡ some p' → p'.fd ≡ p.fd
unfolding after_send
after_send-fd whole now p p' e = sym (ap (λ (q : Peer). q.fd) (some-injective _ _ e))
after_send-fd would_block now p p' e =
    elim (Bool-cases (ltb ((now + (2 ^ 64 - p.taken_ns)) % 2 ^ 64) stall_ns)) [
      | inl recent ↦ sym (ap (λ (q : Peer). q.fd) (some-injective _ _ (rw recent at e)))
      | inr stalled ↦ absurd (none-ne-some p' (rw stalled at e))
    ]
after_send-fd failed now p p' e = absurd (none-ne-some p' e)

-- `netserv_send_each` keeps or closes each descriptor that it sends to, and gains no client.
pub send_from-Accounts :
    (send : ℕ → Sent) (now n : ℕ) (ps : List Peer)
    → n ≡ length ps
    → Accounts (fds ps) (send_from send now n ps)
unfolding send_from
send_from-Accounts send now zero [] e = Perm.nil
send_from-Accounts send now zero (p ∷ ps) e = absurd (omega (arith, e))
send_from-Accounts send now (suc n) [] e = absurd (omega (arith, e))
send_from-Accounts send now (suc n) (p ∷ ps) e =
    elim (Option-cases (after_send (send p.fd) now p)) [
      | inr (p', t) ↦ subst (Accounts (fds (p ∷ ps))) (sym (send_from_keep send now n p p' ps t)) (
          Perm.cons' (after_send-fd (send p.fd) now p p' t)
            (send_from-Accounts send now n ps (omega (arith, e))))
      | inl t ↦
          let (kept, closed) = send_from send now n (fill ps) in
          let rest = send_from-Accounts send now n (fill ps) (omega (arith, e, length-fill ps)) in
          subst (Accounts (fds (p ∷ ps))) (sym (send_from_drop send now n p ps t)) (
            Perm.trans (perm_middle (fds kept) closed)
              (Perm.cons p.fd (Perm.trans rest (Perm.map (λ p. p.fd) (fill-Perm ps)))))
    ]

pub send_from_le :
    (send : ℕ → Sent) (now n : ℕ) (ps : List Peer) → length (send_from send now n ps).0 ≤ length ps
unfolding send_from
send_from_le send now zero ps = omega arith
send_from_le send now (suc n) [] = omega arith
send_from_le send now (suc n) (p ∷ ps) = elim (Option-cases (after_send (send p.fd) now p)) [
  | inr (p', t) ↦
      subst (λ r. length r.0 ≤ length (p ∷ ps)) (sym (send_from_keep send now n p p' ps t))
        (omega (arith, send_from_le send now n ps))
  | inl t ↦
      subst (λ r. length r.0 ≤ length (p ∷ ps)) (sym (send_from_drop send now n p ps t))
        (omega (arith, send_from_le send now n (fill ps), length-fill ps))
]
