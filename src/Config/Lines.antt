-- ===== src/Config/Lines.antt =====
-- src/config.c: a line of the file, its blanks, its comment and its two parts. A line in a buffer is
-- the list of its bytes before the NUL.
use imud.Prelude.{
  ℕ, zero, suc, Bool, false, not, ◌&&◌, [], ◌∷◌, Option, none, some, ◌==◌, if◌then◌else◌,
}
use imud.Prelude.Text.{isspace}
use imud.Wire.{Bytes}

-- `lstrip`: from the first byte that is no blank.
unfoldable pub lstrip : Bytes → Bytes
lstrip [] = []
lstrip (c ∷ s) = if isspace c then lstrip s else c ∷ s

-- A byte before a text whose end is stripped.
unfoldable pub strip_onto : ℕ → Bytes → Bytes
strip_onto c [] = if isspace c then [] else c ∷ []
strip_onto c (d ∷ s) = c ∷ d ∷ s

-- `rstrip`: up to the last byte that is no blank.
unfoldable pub rstrip : Bytes → Bytes
rstrip [] = []
rstrip (c ∷ s) = strip_onto c (rstrip s)

-- `strip_comment`, in or out of quotes.
unfoldable pub comment_from : Bool → Bytes → Bytes
comment_from in_q [] = []
comment_from in_q (c ∷ s) =
    let in_q' = if c == b'"' then not in_q else in_q in
    let rest = comment_from in_q' s in if not in_q' && c == b'#' then [] else c ∷ rest

unfoldable pub strip_comment : Bytes → Bytes
strip_comment s = comment_from false s

-- `strchr(p, '=')`: what stands before it and after it.
unfoldable pub split_eq : Bytes → Option (Bytes × Bytes)
split_eq [] = none
split_eq (c ∷ s) =
    let rest = split_eq s in
    if c == b'='
    then some ([], s)
    else elim rest [ none ↦ none | some (key, val) ↦ some (c ∷ key, val) ]

-- `fgets(line, 512, f)`: at most so many bytes, to the end of a line; and the rest of the file.
unfoldable pub fgets : ℕ → Bytes → Bytes × Bytes
fgets zero f = ([], f)
fgets (suc n) [] = ([], [])
fgets (suc n) (c ∷ f) =
    let (line, rest) = fgets n f in if c == b'\n' then (c ∷ [], f) else (c ∷ line, rest)

-- A buffer read as a C string ends at its first NUL.
unfoldable pub c_string : Bytes → Bytes
c_string [] = []
c_string (c ∷ s) = let rest = c_string s in if c == 0 then [] else c ∷ rest

-- What the loop of `config_load` makes of a line.
pub data Line : Type 0 where
  blank no_eq empty_key : Line
  header : Bytes → Line
  entry : Bytes → Bytes → Line

unfoldable pub key_value : Bytes → Line
key_value p = elim (split_eq p) [
  | none ↦ no_eq
  | some (k, v) ↦
      let key = lstrip (rstrip k) in
      let val = rstrip (lstrip v) in elim key [ [] ↦ empty_key | c ∷ s ↦ entry (c ∷ s) val ]
]

unfoldable pub stripped_line : Bytes → Line
stripped_line [] = blank
stripped_line (c ∷ s) =
    let p = rstrip (strip_comment (c ∷ s)) in
    if c == b'#' then blank else if c == b'[' then header p else key_value p

unfoldable pub read_line : Bytes → Line
read_line line = stripped_line (rstrip (lstrip (c_string line)))
