-- ===== src/Prelude/Text.antt =====
-- Texts as the bytes of a C string: a `const char *` is the list of them without the NUL.
use Prim.Native.Nat.{ℕ, ◌+◌}
use Prim.Native.Char.{code}
use Prim.Native.String.{String}
use mathlib.Core.Bool.{Bool, true, false, ◌&&◌, ◌||◌}
use mathlib.Core.List.{List, [], ◌∷◌}
use imud.Prelude.Tests.{leb, ◌==◌, if◌then◌else◌}

-- The bytes of a literal, which is ASCII.
abbrev pub text : String → List ℕ
text String.[] = []
text (String.◌∷◌ c s) = code c ∷ text s

-- `strcmp(a, b) == 0`, and `memcmp(a, b, n) == 0` on two buffers of `n` bytes.
unfoldable pub same_bytes : List ℕ → List ℕ → Bool
same_bytes [] [] = true
same_bytes [] (_ ∷ _) = false
same_bytes (_ ∷ _) [] = false
same_bytes (a ∷ p) (b ∷ q) = a == b && same_bytes p q

-- `strcmp(p, s) == 0` with a literal.
abbrev pub is : List ℕ → String → Bool
is p s = same_bytes p (text s)

-- `tolower`, and `strcasecmp(p, s) == 0` with a literal in lower case.
abbrev pub to_lower : ℕ → ℕ
to_lower c = if leb b'A' c && leb c b'Z' then c + 32 else c

abbrev pub lower : List ℕ → List ℕ
lower [] = []
lower (c ∷ p) = to_lower c ∷ lower p

abbrev pub is_nocase : List ℕ → String → Bool
is_nocase p s = same_bytes (lower p) (text s)

-- `isspace` in the C locale: the blank, and tab to carriage return.
unfoldable pub isspace : ℕ → Bool
isspace c = c == b' ' || (leb 9 c && leb c 13)
