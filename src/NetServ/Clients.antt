-- ===== src/NetServ/Clients.antt =====
-- src/netserv.c: whom a broadcast keeps and whom it drops, in whatever order.
use imud.Prelude.{
  ℕ, zero, suc, ◌+◌, ◌-◌, ◌%◌, ◌^◌, leb, if◌then◌else◌, ◌≡◌, refl, List, [], ◌∷◌, Option, none,
  some, length, arith, Option-cases, inl, inr, ap, sym,
}
use mathlib.Core.List.Perm
use mathlib.Core.Path.{subst, fun_ext}
use mathlib.Core.List.{Perm, filter_map}
use mathlib.Core.Option.{Option-elim}
use imud.NetServ.{
  Peer, Sent, whole, would_block, failed, after_send, last_of, all_but_last, fill, send_from,
  netserv_send_each,
}

-- What becomes of a client, by what its send did.
abbrev pub Rule : Type 0
Rule = Sent → ℕ → Peer → Option Peer

-- The policy for slow clients. One that took the buffer stays, with the time noted. One whose buffer
-- was full stays as it is for the 30 s after it last took something, by a 64-bit clock of
-- nanoseconds. Any other goes.
pub policy : Rule
policy whole now p = some (record { fd = p.fd; taken_ns = now })
policy would_block now p =
    if leb 30000000000 ((now + (2 ^ 64 - p.taken_ns)) % 2 ^ 64) then none else some p
policy failed now p = none

-- Who stays by a rule, in the order of the list, and the descriptors of those who do not.
abbrev pub stay : Rule → (ℕ → Sent) → ℕ → List Peer → List Peer
stay rule send now ps = filter_map (λ p. rule (send p.fd) now p) ps

abbrev pub dropped : Rule → (ℕ → Sent) → ℕ → Peer → Option ℕ
dropped rule send now p = elim (rule (send p.fd) now p) [ some _ ↦ none | none ↦ some p.fd ]

abbrev pub leave : Rule → (ℕ → Sent) → ℕ → List Peer → List ℕ
leave rule send now ps = filter_map (dropped rule send now) ps

length-all_but_last : (p : Peer) (ps : List Peer) → length (all_but_last p ps) ≡ length ps
unfolding all_but_last
length-all_but_last p [] = refl
length-all_but_last p (q ∷ ps) = ap suc (length-all_but_last q ps)

pub length-fill : (ps : List Peer) → length (fill ps) ≡ length ps
unfolding fill last_of all_but_last
length-fill [] = refl
length-fill (p ∷ ps) = ap suc (length-all_but_last p ps)

pub fill-Perm : (ps : List Peer) → Perm (fill ps) ps
unfolding fill last_of all_but_last
fill-Perm [] = Perm.refl []
fill-Perm (p ∷ ps) = last_first p ps
  where
    last_first : (p : Peer) (ps : List Peer) → Perm (last_of p ps ∷ all_but_last p ps) (p ∷ ps)
    last_first p [] = Perm.refl (p ∷ [])
    last_first p (q ∷ ps) =
        Perm.trans (Perm.swap p (last_of q ps) (all_but_last q ps)) (Perm.cons p (last_first q ps))

-- The clients kept and the descriptors closed are those that stay and those that leave.
abbrev pub Settled : Rule → (ℕ → Sent) → ℕ → List Peer → List Peer × List ℕ → Type 0
Settled rule send now ps r = Perm r.0 (stay rule send now ps) × Perm r.1 (leave rule send now ps)

pub send_from_keep :
    (send : ℕ → Sent) (now n : ℕ) (p p' : Peer) (ps : List Peer)
    → after_send (send p.fd) now p ≡ some p'
    → send_from send now (suc n) (p ∷ ps)
      ≡ (p' ∷ (send_from send now n ps).0, (send_from send now n ps).1)
unfolding send_from
send_from_keep send now n p p' ps t = rw (send_from, t) refl

pub send_from_drop :
    (send : ℕ → Sent) (now n : ℕ) (p : Peer) (ps : List Peer)
    → after_send (send p.fd) now p ≡ none
    → send_from send now (suc n) (p ∷ ps)
      ≡ ((send_from send now n (fill ps)).0, p.fd ∷ (send_from send now n (fill ps)).1)
unfolding send_from
send_from_drop send now n p ps t = rw (send_from, t) refl

-- The loop, with a round for each client.
send_from-Settled :
    (send : ℕ → Sent) (now n : ℕ) (ps : List Peer)
    → n ≡ length ps
    → Settled after_send send now ps (send_from send now n ps)
unfolding filter_map Option-elim send_from
send_from-Settled send now zero [] e = (Perm.nil, Perm.nil)
send_from-Settled send now zero (p ∷ ps) e = absurd (omega (arith, e))
send_from-Settled send now (suc n) [] e = absurd (omega (arith, e))
send_from-Settled send now (suc n) (p ∷ ps) e = elim (Option-cases (after_send (send p.fd) now p)) [
  | inr (p', t) ↦
      let (kept, closed) = send_from-Settled send now n ps (omega (arith, e)) in
      let stays : dropped after_send send now p ≡ none = rw (dropped, t) refl in
      subst (Settled after_send send now (p ∷ ps)) (sym (send_from_keep send now n p p' ps t))
        (rw t (Perm.cons p' kept), rw stays closed)
  | inl t ↦
      let (kept, closed) =
        send_from-Settled send now n (fill ps) (omega (arith, e, length-fill ps)) in
      let keep : Peer → Option Peer = λ p. after_send (send p.fd) now p in
      let refilled = fill-Perm ps in
      let gone : dropped after_send send now p ≡ some p.fd = rw (dropped, t) refl in
      subst (Settled after_send send now (p ∷ ps)) (sym (send_from_drop send now n p ps t)) (
        rw t (Perm.trans kept (Perm.filter_map keep refilled)),
        rw gone (
            Perm.cons p.fd
              (Perm.trans closed (Perm.filter_map (dropped after_send send now) refilled))),
      )
]

after_send-policy : (s : Sent) (now : ℕ) (p : Peer) → after_send s now p ≡ policy s now p
unfolding after_send policy
after_send-policy whole now p = refl
after_send-policy would_block now p = ground arith
after_send-policy failed now p = refl

-- On any clients, `netserv_send_each` keeps, up to the order, the clients that the policy keeps of
-- them, each as the policy leaves it: one that took the whole buffer with its stamp at the time, and
-- one whose buffer was full, and that took something less than 30 s before, as it was. The descriptors
-- that it closes are, up to the order, those of the other clients, as often as each is in the list.
pub netserv_send_each-Settled :
    (send : ℕ → Sent) (now : ℕ) (ps : List Peer)
    → Settled policy send now ps (netserv_send_each send now ps)
unfolding netserv_send_each
netserv_send_each-Settled send now ps =
    let same : after_send ≡ policy =
      fun_ext (λ s. fun_ext (λ t. fun_ext (λ p. after_send-policy s t p))) in
    subst (λ rule. Settled rule send now ps (send_from send now (length ps) ps)) same
      (send_from-Settled send now (length ps) ps refl)
