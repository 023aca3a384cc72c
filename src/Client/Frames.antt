-- ===== src/Client/Frames.antt =====
-- The reference for the stream: frames of 288 bytes one after another, of which the valid ones
-- count. Which bytes a single `read` happens to return is no part of it.
use imud.Prelude.{
  ◌≡◌, refl, ap, sym, ◌∙◌, true, false, ◌++◌, length, take, drop, take-append, drop-append,
}
use imud.Wire.{Bytes}
use imud.Client.Handle.{packet_ok}

-- `Skips s t`: `s` is whole frames that fail validation, and then `t`.
pub data Skips : Bytes → Bytes → Type 0 where
  done : (s : Bytes) → Skips s s
  bad :
      (frame : Bytes) {s rest t : Bytes}
      → s ≡ frame ++ rest
      → length frame ≡ 288
      → packet_ok frame 288 ≡ false
      → Skips rest t
      → Skips s t

-- The next valid frame of a stream, and what is behind it.
pub record NextFrame (s frame rest : Bytes) : Type 0 where
  pub skipped : Skips s (frame ++ rest)
  pub size : length frame ≡ 288
  pub ok : packet_ok frame 288 ≡ true

-- A stream splits at a frame in one way.
pub split_unique :
    (f g rest t : Bytes) → length f ≡ length g → f ++ rest ≡ g ++ t → (f ≡ g) × (rest ≡ t)
split_unique f g rest t l e = (
  sym (take-append f rest)
      ∙ ap (λ s. take (length f) s) e
      ∙ ap (λ n. take n (g ++ t)) l
      ∙ take-append g t,
  sym (drop-append f rest)
      ∙ ap (λ s. drop (length f) s) e
      ∙ ap (λ n. drop n (g ++ t)) l
      ∙ drop-append g t,
)

-- One frame is not both valid and invalid.
pub clash : {a b : Bytes} → a ≡ b → packet_ok a 288 ≡ true → packet_ok b 288 ≡ false → ⊥
clash e p q = cc

-- The next valid frame is determined by the stream alone.
pub NextFrame-unique :
    {s t : Bytes} (f g rest rest' : Bytes)
    → s ≡ t
    → NextFrame s f rest
    → NextFrame t g rest'
    → (f ≡ g) × (rest ≡ rest')
NextFrame-unique f g rest rest' e n m = go n.skipped m.skipped refl refl e n.size m.size n.ok m.ok
  where
    go :
        {s t s' t' : Bytes}
        → Skips s s'
        → Skips t t'
        → s' ≡ f ++ rest
        → t' ≡ g ++ rest'
        → s ≡ t
        → length f ≡ 288
        → length g ≡ 288
        → packet_ok f 288 ≡ true
        → packet_ok g 288 ≡ true
        → (f ≡ g) × (rest ≡ rest')
    go (done _) (done _) a b e lf lg of og =
        split_unique f g rest rest' (lf ∙ sym lg) (sym a ∙ e ∙ b)
    go (done _) (bad h p l q _) a b e lf lg of og =
        absurd (clash (split_unique f h rest _ (lf ∙ sym l) (sym a ∙ e ∙ p)).0 of q)
    go (bad h p l q _) (done _) a b e lf lg of og =
        absurd (clash (split_unique g h rest' _ (lg ∙ sym l) (sym b ∙ sym e ∙ p)).0 og q)
    go (bad h p l q k) (bad h' p' l' q' k') a b e lf lg of og =
        go k k' a b (split_unique h h' _ _ (l ∙ sym l') (sym p ∙ e ∙ p')).1 lf lg of og
