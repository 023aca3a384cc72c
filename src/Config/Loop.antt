-- ===== src/Config/Loop.antt =====
-- src/config.c: the loop of `config_load` reads every line of the file, in order.
use imud.Prelude.{
  ℕ, zero, suc, ◌≤◌, ◌≡◌, refl, [], ◌∷◌, ◌++◌, length, arith, ◌==◌, Bool-cases, inl, inr, ap,
}
use imud.Wire.{Bytes}
use imud.Config.Lines.{fgets, read_line}
use imud.Config.Values.{Host}
use imud.Config.Load.{Loading, load_line, load_lines}

-- The loop with no bound on its rounds: a line is read, and the rest of the file after it, to the
-- end.
pub data Loads (host : Host) : Bytes → Loading → Loading → Type 0 where
  ended : (st : Loading) → Loads host [] st st
  next :
      (c : ℕ) (f : Bytes) (st st' : Loading)
      → Loads host (fgets 511 (c ∷ f)).1 (load_line host st (read_line (fgets 511 (c ∷ f)).0)) st'
      → Loads host (c ∷ f) st st'

-- No byte is lost or read twice.
pub fgets-append : (n : ℕ) (f : Bytes) → (fgets n f).0 ++ (fgets n f).1 ≡ f
unfolding fgets
fgets-append zero f = refl
fgets-append (suc n) [] = refl
fgets-append (suc n) (c ∷ f) = elim (Bool-cases (c == b'\n')) [
  | inl e ↦ rw e refl
  | inr e ↦ rw e (ap (◌∷◌ c) (fgets-append n f))
]

fgets_shorter : (n : ℕ) (f : Bytes) → length (fgets n f).1 ≤ length f
unfolding fgets
fgets_shorter zero f = omega arith
fgets_shorter (suc n) [] = omega arith
fgets_shorter (suc n) (c ∷ f) = elim (Bool-cases (c == b'\n')) [
  | inl e ↦ rw e (omega arith)
  | inr e ↦ rw e (omega (arith, fgets_shorter n f))
]

-- A round takes a byte.
fgets_takes : (n : ℕ) (c : ℕ) (f : Bytes) → length (fgets (suc n) (c ∷ f)).1 ≤ length f
unfolding fgets
fgets_takes n c f = elim (Bool-cases (c == b'\n')) [
  | inl e ↦ rw e (omega arith)
  | inr e ↦ rw e (fgets_shorter n f)
]

-- With as many rounds as the file has bytes, or more, the loop of `config_load` comes to the end of
-- the file, having handled each line that `fgets` cuts from it once and in order.
pub load_lines-Loads :
    (host : Host) (rounds : ℕ) (f : Bytes) (st : Loading)
    → length f ≤ rounds
    → Loads host f st (load_lines host rounds f st)
unfolding load_lines
load_lines-Loads host zero [] st enough = ended st
load_lines-Loads host zero (c ∷ f) st enough = absurd (omega (arith, enough))
load_lines-Loads host (suc rounds) [] st enough = ended st
load_lines-Loads host (suc rounds) (c ∷ f) st enough =
    next c f st (load_lines host (suc rounds) (c ∷ f) st) (
      load_lines-Loads host rounds (fgets 511 (c ∷ f)).1
        (load_line host st (read_line (fgets 511 (c ∷ f)).0))
        (omega (arith, enough, fgets_takes 510 c f)))
