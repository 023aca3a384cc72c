-- ===== src/Config/Texts.antt =====
-- src/config.c: what `copy_str` leaves in a `char[]`.
use imud.Prelude.{
  ℕ, ◌+◌, ◌≤◌, ◌<◌, ◌≡◌, refl, true, false, ◌&&◌, [], ◌∷◌, ◌++◌, Option, none, some, length, drop,
  get_or, leb, ◌==◌, arith, Bool-cases, if◌then◌else◌, length-append, length-drop, inl, inr, ap,
}
use imud.Wire.{Bytes}
use imud.Config.Values.{
  Copied, copy_ok, copy_too_long, copy_tilde_too_long, copy_str, expand_tilde, tilde_too_long,
  unquoted,
}

-- The text with the home directory in place of a leading tilde, of whatever length.
unfoldable pub expanded : Option Bytes → Bytes → Bytes
expanded none s = s
expanded (some h) s = if get_or s 0 0 == b'~' && get_or s 1 0 == b'/' then h ++ drop 1 s else s

-- A value is stored whole, or not at all.
unfoldable pub stored : Option Bytes → ℕ → Bytes → Copied
stored home outsz s =
    if leb outsz (length s)
    then copy_too_long
    else if leb outsz (length (expanded home s))
    then copy_tilde_too_long
    else copy_ok (expanded home s)

tilde_length : (s : Bytes) → (get_or s 1 0 == b'/') ≡ true → 2 ≤ length s
tilde_length [] h = absurd (ground (arith, h))
tilde_length (a ∷ []) h = absurd (ground (arith, h))
tilde_length (a ∷ b ∷ s) h = omega arith

tilde_too_long_lem :
    (home : Option Bytes) (outsz : ℕ) (s : Bytes)
    → length s < outsz
    → tilde_too_long home outsz s ≡ leb outsz (length (expanded home s))
unfolding tilde_too_long expanded
tilde_too_long_lem none outsz s h = ground arith
tilde_too_long_lem (some hm) outsz s h = elim (Bool-cases (get_or s 0 0 == b'~')) [
  | inr e ↦ rw e (ground arith)
  | inl e ↦ elim (Bool-cases (get_or s 1 0 == b'/')) [
    | inr e' ↦ rw (e, e') (ground arith)
    | inl e' ↦
        let two = tilde_length s e' in
        let split = length-append hm (drop 1 s) in
        let rest = length-drop 1 s in rw (e, e') (ground (arith, two, split, rest))
  ]
]

expand_tilde_lem :
    (home : Option Bytes) (outsz : ℕ) (s : Bytes)
    → leb outsz (length (expanded home s)) ≡ false
    → expand_tilde home outsz s ≡ expanded home s
unfolding expand_tilde expanded
expand_tilde_lem none outsz s h = ground arith
expand_tilde_lem (some hm) outsz s h = elim (Bool-cases (get_or s 0 0 == b'~')) [
  | inr e ↦ rw e refl
  | inl e ↦ elim (Bool-cases (get_or s 1 0 == b'/')) [
    | inr e' ↦ rw (e, e') refl
    | inl e' ↦
        let split = length-append hm (drop 1 s) in
        let shorter : leb outsz (length hm + length (drop 1 s)) ≡ false =
          ground (arith, rw (e, e') at h, split) in
        rw (e, e', shorter) refl
  ]
]

-- Whatever the home directory and the buffer's size, `copy_str` either reports that the unquoted
-- value, or the value with its tilde expanded, needs more than the buffer, or stores the expanded
-- value whole: it never truncates, and never leaves a tilde because the result did not fit.
pub copy_str_lem :
    (home : Option Bytes) (outsz : ℕ) (val : Bytes)
    → copy_str home outsz val ≡ stored home outsz (unquoted val)
unfolding copy_str stored
copy_str_lem home outsz val =
    let s = unquoted val in
    elim (Bool-cases (leb outsz (length s))) [
      | inl e ↦ rw e refl
      | inr e ↦
          let same = tilde_too_long_lem home outsz s (ground (arith, e)) in
          elim (Bool-cases (leb outsz (length (expanded home s)))) [
            | inl t ↦ rw (e, same, t) refl
            | inr t ↦ rw (e, same, t) (ap copy_ok (expand_tilde_lem home outsz s t))
          ]
    ]
