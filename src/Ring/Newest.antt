-- ===== src/Ring/Newest.antt =====
-- A burst pushed into a ring leaves the newest entries of all that it was given.
use imud.Prelude.{
  ℕ, suc, ◌+◌, ◌-◌, ◌^◌, ◌≤◌, ◌<◌, ◌≡◌, ap, ◌∙◌, List, [], ◌∷◌, ◌++◌, arith, length, drop,
  length-append, append_assoc, append-nil, ℕ_discrete,
}
use imud.Ring.{Ring, push_slot, push_slots}
use imud.Ring.Refine.{
  IsValid, contents, offer, offer-full, offer-room, push_slot-IsValid, push_slot_refines,
  push_slot_counts, length-contents,
}
use native.Mathlib.Nat.{one-le-pow}

-- The last `cap` entries of a list.
abbrev pub newest {ℓ} : {A : Type ℓ} → ℕ → List A → List A
newest cap l = drop (length l - cap) l

module _ {A : Type 0} where
  newest-offer_full :
      (cap : ℕ) (q xs : List A) (x : A)
      → length q ≡ cap
      → 0 < cap
      → newest cap ((drop 1 q ++ (x ∷ [])) ++ xs) ≡ newest cap (q ++ x ∷ xs)
  newest-offer_full cap [] xs x e h = absurd (omega arith)
  newest-offer_full cap (y ∷ q) xs x e h =
      let all : List A = q ++ x ∷ xs in
      let more : suc (length all - cap) ≡ suc (length all) - cap =
        omega (arith, length-append q (x ∷ xs)) in
      rw (append_assoc q (x ∷ []) xs) (ap (λ n. drop n (y ∷ all)) more)

  newest-offer :
      (cap : ℕ) (q xs : List A) (x : A)
      → length q ≤ cap
      → 0 < cap
      → newest cap ((offer cap q x).0 ++ xs) ≡ newest cap (q ++ x ∷ xs)
  newest-offer cap q xs x h pos = elim (ℕ_discrete (length q) cap) [
    | yes e ↦ rw (offer-full cap q x e) (newest-offer_full cap q xs x e pos)
    | no ne ↦ rw (offer-room cap q x ne, append_assoc q (x ∷ []) xs)
  ]

module _ {A : Type 0} (bits : ℕ) (fits : 2 ^ bits < 2 ^ 32) (blank : A) where
  pub push_slots-IsValid :
      (xs : List A) (r : Ring A) (d : ℕ) → IsValid bits r → IsValid bits (push_slots bits r xs d).0
  unfolding push_slots
  push_slots-IsValid [] r d v = v
  push_slots-IsValid (x ∷ xs) r d v =
      push_slots-IsValid xs (push_slot bits r x).0 (d + (push_slot bits r x).1)
        (push_slot-IsValid bits fits blank r x v)

  -- The ring ends with the newest of the old entries and the burst.
  pub push_slots-newest :
      (xs : List A) (r : Ring A) (d : ℕ)
      → IsValid bits r
      → contents bits blank (push_slots bits r xs d).0
        ≡ newest (2 ^ bits) (contents bits blank r ++ xs)
  unfolding push_slots
  push_slots-newest [] r d v = rw (append-nil (contents bits blank r)) (
      let none_lost : 0 ≡ length (contents bits blank r) - 2 ^ bits =
        omega (arith, length-contents bits fits blank r, v.count_in) in
      ap (λ n. drop n (contents bits blank r)) none_lost)
  push_slots-newest (x ∷ xs) r d v =
      push_slots-newest xs (push_slot bits r x).0 (d + (push_slot bits r x).1)
        (push_slot-IsValid bits fits blank r x v)
      ∙ ap (λ q. newest (2 ^ bits) (q ++ xs))
          (ap (λ p. p.0) (push_slot_refines bits fits blank r x v))
      ∙ newest-offer (2 ^ bits) (contents bits blank r) xs x
          (omega (arith, length-contents bits fits blank r, v.count_in))
          (omega (arith, one-le-pow bits 2))

  -- The count of drops is the number of entries that did not find room.
  pub push_slots-dropped :
      (xs : List A) (r : Ring A) (d : ℕ)
      → IsValid bits r
      → (push_slots bits r xs d).1 ≡ d + (r.count + length xs - 2 ^ bits)
  unfolding push_slots
  push_slots-dropped [] r d v = omega (arith, v.count_in)
  push_slots-dropped (x ∷ xs) r d v = omega (
    arith,
    push_slots-dropped xs (push_slot bits r x).0 (d + (push_slot bits r x).1)
        (push_slot-IsValid bits fits blank r x v),
    push_slot_counts bits fits blank r x v,
  )
