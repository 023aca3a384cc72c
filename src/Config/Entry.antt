-- ===== src/Config/Entry.antt =====
-- src/config.c: a line that is written as `key = "value"  # comment` is read as that key and value.
use imud.Prelude.{
  ℕ, ◌-◌, ◌≡◌, refl, true, false, [], ◌∷◌, ◌++◌, some, length, get_or, arith, ◌==◌, ap, ◌∙◌, sym,
  take-append, append-nil, lt→ltb, ltb, append_assoc, length-append, Option,
}
use imud.Prelude.Text.{isspace}
use imud.Wire.{Bytes}
use imud.Config.Lines.{
  lstrip, rstrip, strip_onto, comment_from, strip_comment, split_eq, c_string, entry, key_value,
  stripped_line, read_line,
}
use imud.Config.Values.{copy_str, unquoted}
use imud.Config.Texts.{copy_str_lem, stored}

-- A byte of a key: no blank, no NUL, and none of the bytes that a line is cut at.
abbrev pub KeyByte : ℕ → Type 0
KeyByte c =
    (isspace c ≡ false)
    × ((c == 0) ≡ false)
    × ((c == b'=') ≡ false)
    × ((c == b'#') ≡ false)
    × ((c == b'"') ≡ false)
    × ((c == b'[') ≡ false)

-- A byte between quotes: neither NUL nor a quote.
abbrev pub QuotedByte : ℕ → Type 0
QuotedByte c = ((c == 0) ≡ false) × ((c == b'"') ≡ false)

abbrev pub Each : (ℕ → Type 0) → Bytes → Type 0
Each P [] = Unit
Each P (c ∷ s) = P c × Each P s

abbrev pub quoted : Bytes → Bytes
quoted value = b'"' ∷ (value ++ (b'"' ∷ []))

-- The line, to its end: `key = "value" #comment`.
abbrev pub written : Bytes → Bytes → Bytes → Bytes
written key value comment =
    key ++ (b' ' ∷ b'=' ∷ b' ' ∷ b'"' ∷ (value ++ (b'"' ∷ b' ' ∷ b'#' ∷ comment)))

-- What a function leaves of a byte that it copies, it leaves of a text of such bytes.
module _ (g : Bytes → Bytes) (P : ℕ → Type 0)
    (copies : (c : ℕ) (t : Bytes) → P c → g (c ∷ t) ≡ c ∷ g t) where
  copied : (s t : Bytes) → Each P s → g (s ++ t) ≡ s ++ g t
  copied [] t each = refl
  copied (c ∷ s) t each = copies c (s ++ t) each.0 ∙ ap (◌∷◌ c) (copied s t each.1)

c_string-key : (c : ℕ) (t : Bytes) → KeyByte c → c_string (c ∷ t) ≡ c ∷ c_string t
unfolding c_string
c_string-key c t (_, nul, _, _, _, _) = rw nul refl

c_string-quoted : (c : ℕ) (t : Bytes) → QuotedByte c → c_string (c ∷ t) ≡ c ∷ c_string t
unfolding c_string
c_string-quoted c t (nul, _) = rw nul refl

comment_from-key :
    (c : ℕ) (t : Bytes) → KeyByte c → comment_from false (c ∷ t) ≡ c ∷ comment_from false t
unfolding comment_from
comment_from-key c t (_, _, _, hash, quote, _) = rw (quote, hash) refl

comment_from-quoted :
    (c : ℕ) (t : Bytes) → QuotedByte c → comment_from true (c ∷ t) ≡ c ∷ comment_from true t
unfolding comment_from
comment_from-quoted c t (_, quote) = rw quote refl

-- A text before one of which a byte is left is left.
rstrip_keeps : (s t : Bytes) (d : ℕ) (u : Bytes) → rstrip t ≡ d ∷ u → rstrip (s ++ t) ≡ s ++ (d ∷ u)
unfolding rstrip strip_onto
rstrip_keeps [] t d u e = e
rstrip_keeps (c ∷ []) t d u e = rw e refl
rstrip_keeps (c ∷ c' ∷ s) t d u e = ap (strip_onto c) (rstrip_keeps (c' ∷ s) t d u e)

-- A byte that is no blank is left, with what is left after it.
rstrip_solid : (c : ℕ) (t : Bytes) → isspace c ≡ false → rstrip (c ∷ t) ≡ c ∷ rstrip t
unfolding rstrip strip_onto
rstrip_solid c t solid = onto (rstrip t)
  where
    onto : (u : Bytes) → strip_onto c u ≡ c ∷ u
    onto [] = rw solid refl
    onto (d ∷ u) = refl

rstrip-key : (c : ℕ) (t : Bytes) → KeyByte c → rstrip (c ∷ t) ≡ c ∷ rstrip t
rstrip-key c t k = rstrip_solid c t k.0

-- Up to the comment.
abbrev before : Bytes → Bytes → Bytes
before key value = key ++ (b' ' ∷ b'=' ∷ b' ' ∷ b'"' ∷ (value ++ (b'"' ∷ b' ' ∷ [])))

before_lem :
    (key value comment : Bytes) → before key value ++ (b'#' ∷ comment) ≡ written key value comment
before_lem key value comment = simp (append_assoc)

c_string-written :
    (key value comment : Bytes)
    → Each KeyByte key
    → Each QuotedByte value
    → c_string (written key value comment) ≡ written key value (c_string comment)
unfolding c_string isspace
c_string-written key value comment each_key each_value =
    let closed = b'"' ∷ b' ' ∷ b'#' ∷ comment in
    copied c_string KeyByte c_string-key key (b' ' ∷ b'=' ∷ b' ' ∷ b'"' ∷ (value ++ closed))
      each_key
    ∙ ap (λ t. key ++ (b' ' ∷ b'=' ∷ b' ' ∷ b'"' ∷ t))
        (copied c_string QuotedByte c_string-quoted value closed each_value)

rstrip-written :
    (key value comment : Bytes)
    → rstrip (written key value comment) ≡ written key value (rstrip comment)
unfolding isspace
rstrip-written key value comment =
    ap rstrip (sym (before_lem key value comment))
    ∙ rstrip_keeps (before key value) (b'#' ∷ comment) b'#' (rstrip comment)
        (rstrip_solid b'#' comment refl)
    ∙ before_lem key value (rstrip comment)

strip_comment-written :
    (key value comment : Bytes)
    → Each KeyByte key
    → Each QuotedByte value
    → strip_comment (written key value comment) ≡ before key value
unfolding strip_comment comment_from
strip_comment-written key value comment each_key each_value =
    let closed = b'"' ∷ b' ' ∷ b'#' ∷ comment in
    copied (comment_from false) KeyByte comment_from-key key
      (b' ' ∷ b'=' ∷ b' ' ∷ b'"' ∷ (value ++ closed)) each_key
    ∙ ap (λ t. key ++ (b' ' ∷ b'=' ∷ b' ' ∷ b'"' ∷ t))
        (copied (comment_from true) QuotedByte comment_from-quoted value closed each_value)

rstrip-before :
    (key value : Bytes) → rstrip (before key value) ≡ key ++ (b' ' ∷ b'=' ∷ b' ' ∷ quoted value)
unfolding rstrip strip_onto isspace
rstrip-before key value =
    let opened : Bytes = key ++ (b' ' ∷ b'=' ∷ b' ' ∷ b'"' ∷ value) in
    let split : before key value ≡ opened ++ (b'"' ∷ b' ' ∷ []) = simp (append_assoc) in
    let joined : opened ++ (b'"' ∷ []) ≡ key ++ (b' ' ∷ b'=' ∷ b' ' ∷ quoted value) =
      simp (append_assoc) in
    ap rstrip split ∙ rstrip_keeps opened (b'"' ∷ b' ' ∷ []) b'"' [] refl ∙ joined

split_eq-key :
    (key t : Bytes)
    → Each KeyByte key
    → split_eq (key ++ (b' ' ∷ b'=' ∷ t)) ≡ some (key ++ (b' ' ∷ []), t)
unfolding split_eq
split_eq-key [] t each = refl
split_eq-key (c ∷ key) t each =
    let (_, _, eq, _, _, _) = each.0 in rw (eq, split_eq-key key t each.1) refl

rstrip_blank : rstrip (b' ' ∷ []) ≡ []
unfolding rstrip strip_onto isspace
rstrip_blank = refl

rstrip_quote : rstrip (b'"' ∷ []) ≡ b'"' ∷ []
unfolding rstrip strip_onto isspace
rstrip_quote = refl

lstrip_solid : (c : ℕ) (t : Bytes) → isspace c ≡ false → lstrip (c ∷ t) ≡ c ∷ t
unfolding lstrip
lstrip_solid c t solid = rw solid refl

lstrip-quoted : (value : Bytes) → lstrip (b' ' ∷ quoted value) ≡ quoted value
unfolding lstrip isspace
lstrip-quoted value = refl

key_value-written :
    (c : ℕ) (key value : Bytes)
    → Each KeyByte (c ∷ key)
    → key_value ((c ∷ key) ++ (b' ' ∷ b'=' ∷ b' ' ∷ quoted value)) ≡ entry (c ∷ key) (quoted value)
unfolding key_value
key_value-written c key value each =
    let cut = split_eq-key (c ∷ key) (b' ' ∷ quoted value) each in
    let name : rstrip ((c ∷ key) ++ (b' ' ∷ [])) ≡ c ∷ key =
      copied rstrip KeyByte rstrip-key (c ∷ key) (b' ' ∷ []) each
      ∙ ap (λ t. (c ∷ key) ++ t) rstrip_blank
      ∙ append-nil (c ∷ key) in
    let val = rstrip_keeps (b'"' ∷ value) (b'"' ∷ []) b'"' [] rstrip_quote in
    rw (key_value, cut, name, lstrip_solid c key each.0.0, lstrip-quoted value, val) refl

stripped_line-written :
    (c : ℕ) (key value comment : Bytes)
    → Each KeyByte (c ∷ key)
    → Each QuotedByte value
    → stripped_line (written (c ∷ key) value comment) ≡ entry (c ∷ key) (quoted value)
unfolding stripped_line
stripped_line-written c key value comment each_key each_value =
    let (_, _, _, hash, _, bracket) = each_key.0 in
    rw
      (
        strip_comment-written (c ∷ key) value comment each_key each_value,
        rstrip-before (c ∷ key) value,
        hash,
        bracket,
      )
      (key_value-written c key value each_key)

last_lem : (s : Bytes) (c : ℕ) → get_or (s ++ (c ∷ [])) (length s) 0 ≡ c
last_lem [] c = refl
last_lem (_ ∷ s) c = last_lem s c

unquoted-quoted : (value : Bytes) → unquoted (quoted value) ≡ value
unfolding unquoted
unquoted-quoted value =
    let split = length-append value (b'"' ∷ []) in
    let some_bytes : ltb 0 (length (value ++ (b'"' ∷ []))) ≡ true =
      lt→ltb 0 (length (value ++ (b'"' ∷ []))) (omega (arith, split)) in
    let len : length (value ++ (b'"' ∷ [])) - 1 ≡ length value = omega (arith, split) in
    rw (some_bytes, len, last_lem value b'"') (take-append value (b'"' ∷ []))

-- A line that is written as `key = "value" #comment`, with any bytes in the comment, where the key is
-- one or more bytes other than blanks, NUL, =, #, " and [, and the value holds neither NUL nor ", is
-- read as that key and that value in its quotes: a # between the quotes starts no comment. What
-- `copy_str` then makes of that value, for any home directory and any array, is what is stored of the
-- text between the quotes: all of it, with a leading ~/ expanded, or nothing where it is too long.
pub read_line-written :
    (c : ℕ) (key value comment : Bytes) (home : Option Bytes) (n : ℕ)
    → Each KeyByte (c ∷ key)
    → Each QuotedByte value
    → (read_line (written (c ∷ key) value comment) ≡ entry (c ∷ key) (quoted value))
      × ((unquoted (quoted value) ≡ value) × (copy_str home n (quoted value) ≡ stored home n value))
unfolding read_line
read_line-written c key value comment home n each_key each_value = (
  ap (λ t. stripped_line (rstrip (lstrip t)))
        (c_string-written (c ∷ key) value comment each_key each_value)
      ∙ ap (λ t. stripped_line (rstrip t)) (lstrip_solid c _ each_key.0.0)
      ∙ ap stripped_line (rstrip-written (c ∷ key) value (c_string comment))
      ∙ stripped_line-written c key value (rstrip (c_string comment)) each_key each_value,
  (
    unquoted-quoted value,
    copy_str_lem home n (quoted value) ∙ ap (stored home n) (unquoted-quoted value),
  ),
)
