-- ===== src/Ring/Refine.antt =====
-- A ring of src/ring.c holds the newest entries, oldest first: each operation is the operation on
-- that list.
use imud.Prelude.{
  ◌⊎◌, inl, inr, ℕ, suc, ◌+◌, ◌-◌, ◌%◌, ◌^◌, ◌≤◌, ◌<◌, ◌≡◌, ◌≢◌, ap, sym, ◌∙◌, List, [], ◌∷◌, ◌++◌,
  Option, none, some, arith, length, get_or, set, drop, ◌==◌, if◌then◌else◌, ==_iff, length-set,
  bit_and_mask, ℕ_discrete, length-replicate,
}
use imud.Ring.{Ring, next_index, fresh_ring, push_slot, pop_slot}
use imud.Ring.Window.{window, length-window, window_of_ne_zero, window-set}
use native.Mathlib.Nat.{mod-add-mod, mod-eq_of_lt, one-le-pow, add-mod_right}

module _ {A : Type 0} (bits : ℕ) where
  pub record IsValid (r : Ring A) : Type 0 where
    pub storage : length r.buf ≡ 2 ^ bits
    pub tail_in : r.tail < 2 ^ bits
    pub count_in : r.count ≤ 2 ^ bits
    pub head_is : r.head ≡ (r.tail + r.count) % 2 ^ bits

  -- What the ring holds, oldest first.
  abbrev pub contents : A → Ring A → List A
  contents blank r = window blank (2 ^ bits) r.buf r.tail r.count

-- The reference: a list that makes room at its front when it is full.
unfoldable pub offer {ℓ} : {A : Type ℓ} → ℕ → List A → A → List A × ℕ
offer cap q x = if length q == cap then (drop 1 q ++ (x ∷ []), 1) else (q ++ (x ∷ []), 0)

pub offer-full {ℓ} :
    {A : Type ℓ} (cap : ℕ) (q : List A) (x : A)
    → length q ≡ cap
    → offer cap q x ≡ (drop 1 q ++ (x ∷ []), 1)
unfolding offer
offer-full cap q x e = rw ((==_iff (length q) cap).1 e)

pub offer-room {ℓ} :
    {A : Type ℓ} (cap : ℕ) (q : List A) (x : A)
    → length q ≢ cap
    → offer cap q x ≡ (q ++ (x ∷ []), 0)
unfolding offer
offer-room cap q x ne = ground arith

unfoldable pub poll {ℓ} : {A : Type ℓ} → List A → List A × Option A
poll [] = ([], none)
poll (x ∷ q) = (q, some x)

pub next_index-mod :
    (bits i : ℕ) → 2 ^ bits < 2 ^ 32 → i < 2 ^ bits → next_index bits i ≡ (i + 1) % 2 ^ bits
unfolding next_index
next_index-mod bits i fits h =
    let e : (i + 1) % 2 ^ 32 ≡ i + 1 = omega arith in rw e (bit_and_mask bits (i + 1))

module _ {A : Type 0} (bits : ℕ) (fits : 2 ^ bits < 2 ^ 32) (blank : A) where
  head_in : (r : Ring A) → IsValid bits r → r.head < 2 ^ bits
  head_in r v = omega (arith, one-le-pow bits 2, v)

  push_slot-room :
      (r : Ring A) (x : A)
      → IsValid bits r
      → r.count ≢ 2 ^ bits
      → push_slot bits r x ≡ (
        record r { count = r.count + 1; buf = set r.buf r.head x; head = (r.head + 1) % 2 ^ bits },
        0,
      )
  unfolding push_slot
  push_slot-room r x v ne =
      ground (arith, head_in r v, next_index-mod bits r.head fits (head_in r v))

  push_slot-full :
      (r : Ring A) (x : A)
      → IsValid bits r
      → r.count ≡ 2 ^ bits
      → push_slot bits r x ≡ (
        record r {
          tail = (r.tail + 1) % 2 ^ bits;
          buf = set r.buf r.head x;
          head = (r.head + 1) % 2 ^ bits;
        },
        1,
      )
  unfolding push_slot
  push_slot-full r x v e = ground (
    arith,
    head_in r v,
    next_index-mod bits r.tail fits v.tail_in,
    next_index-mod bits r.head fits (head_in r v),
  )

  head-full : (r : Ring A) → IsValid bits r → r.count ≡ 2 ^ bits → r.head ≡ r.tail
  head-full r v e = omega (
    arith,
    v.head_is ∙ ap (λ t. (r.tail + t) % 2 ^ bits) e,
    add-mod_right r.tail (2 ^ bits),
    mod-eq_of_lt v.tail_in,
  )

  next-lt : (i : ℕ) → (i + 1) % 2 ^ bits < 2 ^ bits
  next-lt i = omega (arith, one-le-pow bits 2)

  -- Every push keeps the ring well formed.
  pub push_slot-IsValid :
      (r : Ring A) (x : A) → IsValid bits r → IsValid bits (push_slot bits r x).0
  push_slot-IsValid r x v = elim (ℕ_discrete r.count (2 ^ bits)) [
    | yes e ↦ rw (push_slot-full r x v e) (record {
      storage = length-set r.buf r.head x ∙ v.storage;
      tail_in = next-lt r.tail;
      count_in = v.count_in;
      head_is =
          ap (λ t. (t + 1) % 2 ^ bits) (head-full r v e)
          ∙ sym (mod-eq_of_lt (next-lt r.tail))
          ∙ sym (add-mod_right ((r.tail + 1) % 2 ^ bits) (2 ^ bits))
          ∙ ap (λ t. ((r.tail + 1) % 2 ^ bits + t) % 2 ^ bits) (sym e);
    })
    | no ne ↦ rw (push_slot-room r x v ne) (record {
      storage = length-set r.buf r.head x ∙ v.storage;
      tail_in = v.tail_in;
      count_in = omega (arith, v.count_in);
      head_is =
          ap (λ t. (t + 1) % 2 ^ bits) v.head_is
          ∙ mod-add-mod (r.tail + r.count) (2 ^ bits) 1
          ∙ ap (λ t. t % 2 ^ bits) (omega arith);
    })
  ]

  pub length-contents : (r : Ring A) → length (contents bits blank r) ≡ r.count
  length-contents r = length-window blank (2 ^ bits) r.buf r.tail r.count

  -- What a push does to the two counts.
  pub push_slot_counts :
      (r : Ring A) (x : A)
      → IsValid bits r
      → let (r', d) = push_slot bits r x in
        ((r'.count ≡ r.count + 1) × (d ≡ 0))
        ⊎ ((r.count ≡ 2 ^ bits) × (r'.count ≡ 2 ^ bits) × (d ≡ 1))
  push_slot_counts r x v = elim (ℕ_discrete r.count (2 ^ bits)) [
    | yes e ↦ inr (e, rw (push_slot-full r x v e) e, rw (push_slot-full r x v e))
    | no ne ↦ inl (rw (push_slot-room r x v ne), rw (push_slot-room r x v ne))
  ]

  window-full :
      (r : Ring A) (x : A)
      → IsValid bits r
      → r.count ≡ 2 ^ bits
      → window blank (2 ^ bits) (set r.buf r.head x) ((r.tail + 1) % 2 ^ bits) r.count
        ≡ drop 1 (contents bits blank r) ++ (x ∷ [])
  window-full r x v e =
      let some_count : r.count ≢ 0 = omega (arith, one-le-pow bits 2) in
      let last : suc (r.count - 1) ≡ r.count = omega arith in
      let slot : r.head ≡ ((r.tail + 1) % 2 ^ bits + (r.count - 1)) % 2 ^ bits =
        v.head_is
        ∙ ap (λ t. t % 2 ^ bits) (omega arith)
        ∙ sym (mod-add-mod (r.tail + 1) (2 ^ bits) (r.count - 1)) in
      ap (window blank (2 ^ bits) (set r.buf r.head x) ((r.tail + 1) % 2 ^ bits)) (sym last)
      ∙ window-set blank (2 ^ bits) r.buf x (r.count - 1) ((r.tail + 1) % 2 ^ bits) r.head v.storage
          (next-lt r.tail) (omega arith) slot
      ∙ ap (λ q. drop 1 q ++ (x ∷ []))
          (sym (window_of_ne_zero blank (2 ^ bits) r.buf r.tail r.count some_count))

  window-room :
      (r : Ring A) (x : A)
      → IsValid bits r
      → r.count ≢ 2 ^ bits
      → window blank (2 ^ bits) (set r.buf r.head x) r.tail (r.count + 1)
        ≡ contents bits blank r ++ (x ∷ [])
  window-room r x v ne =
      let more : r.count + 1 ≡ suc r.count = omega arith in
      ap (window blank (2 ^ bits) (set r.buf r.head x) r.tail) more
      ∙ window-set blank (2 ^ bits) r.buf x r.count r.tail r.head v.storage v.tail_in
          (omega (arith, v.count_in)) v.head_is

  -- A push is the reference's offer, the number of lost entries included.
  pub push_slot_refines :
      (r : Ring A) (x : A)
      → IsValid bits r
      → let (r', d) = push_slot bits r x in
        (contents bits blank r', d) ≡ offer (2 ^ bits) (contents bits blank r) x
  push_slot_refines r x v = elim (ℕ_discrete r.count (2 ^ bits)) [
    | yes e ↦
        rw
          (
            push_slot-full r x v e,
            offer-full (2 ^ bits) (contents bits blank r) x (length-contents r ∙ e),
          )
          (ap (λ q. (q, 1)) (window-full r x v e))
    | no ne ↦
        rw
          (
            push_slot-room r x v ne,
            offer-room (2 ^ bits) (contents bits blank r) x (λ h. ne (sym (length-contents r) ∙ h)),
          )
          (ap (λ q. (q, 0)) (window-room r x v ne))
  ]

  pop_slot-eq :
      (r : Ring A)
      → IsValid bits r
      → pop_slot bits blank r ≡ (
        record r { tail = (r.tail + 1) % 2 ^ bits; count = r.count - 1 },
        get_or r.buf r.tail blank,
      )
  unfolding pop_slot
  pop_slot-eq r v = rw (next_index-mod bits r.tail fits v.tail_in)

  -- A pop of a ring that holds something keeps it well formed.
  pub pop_slot-IsValid :
      (r : Ring A) → IsValid bits r → r.count ≢ 0 → IsValid bits (pop_slot bits blank r).0
  pop_slot-IsValid r v ne = rw (pop_slot-eq r v) (record {
    storage = v.storage;
    tail_in = next-lt r.tail;
    count_in = omega (arith, v.count_in);
    head_is =
        v.head_is
        ∙ ap (λ t. t % 2 ^ bits) (omega arith)
        ∙ sym (mod-add-mod (r.tail + 1) (2 ^ bits) (r.count - 1));
  })

  -- It gives the oldest entry, and leaves the others in order.
  pub pop_slot_refines :
      (r : Ring A)
      → IsValid bits r
      → r.count ≢ 0
      → let (r', x) = pop_slot bits blank r in contents bits blank r ≡ x ∷ contents bits blank r'
  pop_slot_refines r v ne =
      rw (pop_slot-eq r v) (window_of_ne_zero blank (2 ^ bits) r.buf r.tail r.count ne)

  -- The ring after `memset`.
  pub fresh_ring-IsValid : IsValid bits (fresh_ring bits blank)
  unfolding fresh_ring
  fresh_ring-IsValid = record {
    storage = length-replicate (2 ^ bits) blank;
    tail_in = omega (arith, one-le-pow bits 2);
    count_in = omega arith;
    head_is = sym (mod-eq_of_lt (omega (arith, one-le-pow bits 2)));
  }
