-- ===== src/Ring/Window.antt =====
-- The entries of a circular buffer from an index on, and what a store at the end does to them.
-- Shared by the rings of src/ring.c and the tap ring of src/capture.c.
use imud.Prelude.{
  ℕ, zero, suc, ◌+◌, ◌-◌, ◌%◌, ◌<◌, ◌≡◌, ◌≢◌, refl, ap, ap₂, sym, ◌∙◌, List, [], ◌∷◌, ◌++◌, length,
  get_or, set, arith, get_or-set_self, get_or-set_ne, dec_lt,
}
use native.Mathlib.Nat.{add-zero, mod-add-mod, mod-eq_of_lt, mod-eq-sub-mod}

module _ {A : Type 0} (blank : A) (cap : ℕ) where
  -- The `n` entries from index `i` on, going round at `cap`.
  abbrev pub window : List A → ℕ → ℕ → List A
  window buf i zero = []
  window buf i (suc n) = get_or buf i blank ∷ window buf ((i + 1) % cap) n

  pub length-window : (buf : List A) (i n : ℕ) → length (window buf i n) ≡ n
  length-window buf i zero = refl
  length-window buf i (suc n) = ap suc (length-window buf ((i + 1) % cap) n)

  pub window_of_ne_zero :
      (buf : List A) (i n : ℕ)
      → n ≢ 0
      → window buf i n ≡ get_or buf i blank ∷ window buf ((i + 1) % cap) (n - 1)
  window_of_ne_zero buf i zero h = absurd (h refl)
  window_of_ne_zero buf i (suc n) h = ap (λ m. window buf i (suc m)) (omega arith)

  -- Going on from an index by less than a round does not come back to it.
  around-ne : (i k : ℕ) → i < cap → k < cap → k ≢ 0 → (i + k) % cap ≢ i
  around-ne i k hi hk ne = elim (dec_lt (i + k) cap) [
    | yes lt ↦ omega (arith, mod-eq_of_lt lt)
    | no ge ↦ omega (
      arith,
      mod-eq-sub-mod {n = i + k} {m = cap} (omega arith),
      mod-eq_of_lt {n = i + k - cap} {m = cap} (omega arith),
    )
  ]

  -- A store at the slot just past `n` entries appends to them.
  pub window-set :
      (buf : List A) (x : A) (n i slot : ℕ)
      → length buf ≡ cap
      → i < cap
      → n < cap
      → slot ≡ (i + n) % cap
      → window (set buf slot x) i (suc n) ≡ window buf i n ++ (x ∷ [])
  window-set buf x zero i slot len hi hn e =
      let at : slot ≡ i = e ∙ rw add-zero (mod-eq_of_lt hi) in
      rw at (ap (λ t. t ∷ []) (get_or-set_self buf i x blank (omega arith)))
  window-set buf x (suc n) i slot len hi hn e =
      let shift : (i + suc n) % cap ≡ ((i + 1) % cap + n) % cap =
        rw mod-add-mod (ap (λ t. t % cap) (omega arith)) in
      let ne : slot ≢ i = λ s. around-ne i (suc n) hi hn (omega arith) (sym e ∙ s) in
      ap₂ (λ h t. h ∷ t) (get_or-set_ne buf slot i x blank ne)
        (window-set buf x n ((i + 1) % cap) slot len (omega arith) (omega arith) (e ∙ shift))
