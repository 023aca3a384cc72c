-- ===== src/Config/Mount.antt =====
-- src/config.c: the `[mount]` keys. The arithmetic of doubles is the host's, in the order in which
-- the source makes it.
use imud.Prelude.{
  ℕ, zero, suc, ◌-◌, Bool, true, false, not, ◌||◌, List, [], ◌∷◌, Option, none, some, take, ◌==◌,
  if◌then◌else◌,
}
use imud.Prelude.Text.{isspace, is_nocase}
use imud.Types.{Vec3, Mat3, blank_vec}
use imud.Wire.{Bytes}
use imud.Config.Fields.{Config, mount_set, mount_preset, str_size, set_str, set_bool}
use imud.Config.Values.{Host, copy_ok, copy_too_long, copy_tilde_too_long, copy_str, Applied}

-- The numbers up to `]`, past the `skip` bytes that `strtod` took before; `none` for a bad one.
unfoldable pub numbers : Host → ℕ → Bytes → Option (List ℕ)
numbers host skip [] = some []
numbers host (suc skip) (c ∷ p) = numbers host skip p
numbers host zero (c ∷ p) =
    let (v, used) = host.strtod (c ∷ p) in
    let next = numbers host 0 p in
    let after = numbers host (used - 1) p in
    if c == b']'
    then some []
    else if isspace c || c == b','
    then next
    else if used == 0 || not (host.isfinite v)
    then none
    else elim after [ none ↦ none | some vs ↦ some (v ∷ vs) ]

-- `strchr(val, '[')`, and what follows it.
unfoldable pub after_bracket : Bytes → Option Bytes
after_bracket [] = none
after_bracket (c ∷ p) = if c == b'[' then some p else after_bracket p

unfoldable pub parse_float_array : Host → Bytes → Option (List ℕ)
parse_float_array host val = elim (after_bracket val) [ none ↦ none | some p ↦ numbers host 0 p ]

-- `m[row][column]`
abbrev pub Mat : Type 0
Mat = ℕ → ℕ → ℕ

abbrev pub vec_at : Vec3 → ℕ → ℕ
vec_at v i = if i == 0 then v.x else if i == 1 then v.y else v.z

abbrev pub mat_of : Mat3 → Mat
mat_of m i = if i == 0 then vec_at m.r0 else if i == 1 then vec_at m.r1 else vec_at m.r2

abbrev pub row : ℕ → ℕ → ℕ → Vec3
row a b c = record { x = a; y = b; z = c }

abbrev pub rows : Vec3 → Vec3 → Vec3 → Mat3
rows a b c = record { r0 = a; r1 = b; r2 = c }

-- `parse_float_array(val, vals, n) == n`, for 3 and 9 numbers.
unfoldable pub three_of : Option (List ℕ) → Option Vec3
three_of (some (a ∷ b ∷ c ∷ [])) = some (row a b c)
three_of _ = none

unfoldable pub nine_of : Option (List ℕ) → Option Mat3
nine_of (some (a ∷ b ∷ c ∷ d ∷ e ∷ f ∷ g ∷ h ∷ i ∷ [])) =
    some (rows (row a b c) (row d e f) (row g h i))
nine_of _ = none

-- `for (int i = 0; i < 3; i++)` over an accumulator.
abbrev pub for3 : (ℕ → ℕ → ℕ) → ℕ → ℕ
for3 f acc = f 2 (f 1 (f 0 acc))

-- The bits of 1.0.
abbrev pub one : ℕ
one = 0x3FF0000000000000

module _ (host : Host) where
  open host use {add, sub, mul, sqrt, cos, sin, neg, less}

  -- `err` of `validate_rotation`
  unfoldable pub rotation_error : Mat → ℕ
  rotation_error r =
      for3
        (λ i. for3 (λ j err.
          let d = for3 (λ k d. add d (mul (r k i) (r k j))) 0 in
          let d' = sub d (if i == j then one else 0) in add err (mul d' d')))
        0

  unfoldable pub determinant : Mat → ℕ
  determinant r =
      add
        (sub (mul (r 0 0) (sub (mul (r 1 1) (r 2 2)) (mul (r 1 2) (r 2 1))))
          (mul (r 0 1) (sub (mul (r 1 0) (r 2 2)) (mul (r 1 2) (r 2 0)))))
        (mul (r 0 2) (sub (mul (r 1 0) (r 2 1)) (mul (r 1 1) (r 2 0))))

  -- The bound is 1e-6.
  unfoldable pub validate_rotation : Mat → Bool
  validate_rotation r =
      if less 0x3EB0C6F7A0B5ED8D (sqrt (rotation_error r))
      then false
      else not (less (determinant r) 0)

  -- `out[i][j] = 0.0; for (k …) out[i][j] += a[i][k] * b[k][j];`
  unfoldable pub product : Mat → Mat → Mat
  product a b i j = for3 (λ k acc. add acc (mul (a i k) (b k j))) 0

  -- The factor is `M_PI / 180.0`.
  unfoldable pub euler_deg_to_rot : Vec3 → Mat3
  euler_deg_to_rot euler =
      let rad : ℕ → ℕ = λ d. mul d 0x3F91DF46A2529D39 in
      let cr = cos (rad euler.x) in
      let sr = sin (rad euler.x) in
      let cp = cos (rad euler.y) in
      let sp = sin (rad euler.y) in
      let cy = cos (rad euler.z) in
      let sy = sin (rad euler.z) in
      let rx = rows (row one 0 0) (row 0 cr (neg sr)) (row 0 sr cr) in
      let ry = rows (row cp 0 sp) (row 0 one 0) (row (neg sp) 0 cp) in
      let rz = rows (row cy (neg sy) 0) (row sy cy 0) (row 0 0 one) in
      let r = product (mat_of rz) (product (mat_of ry) (mat_of rx)) in
      rows (row (r 0 0) (r 0 1) (r 0 2)) (row (r 1 0) (r 1 1) (r 1 2)) (row (r 2 0) (r 2 1) (r 2 2))

  -- `cfg->mount_set = true`, the angles and their matrix.
  unfoldable pub set_euler : Config → Vec3 → Config
  set_euler cfg e = record (set_bool cfg mount_set true) { euler = e; rot = euler_deg_to_rot e }

  unfoldable pub apply_euler : Config → Bytes → Applied
  apply_euler cfg val = elim (three_of (parse_float_array host val)) [
    | none ↦ (cfg, false)
    | some e ↦ (set_euler cfg e, true)
  ]

  unfoldable pub apply_matrix : Config → Bytes → Applied
  apply_matrix cfg val = elim (nine_of (parse_float_array host val)) [
    | none ↦ (cfg, false)
    | some m ↦
        if validate_rotation (mat_of m)
        then (record (set_bool cfg mount_set true) { rot = m; euler = blank_vec }, true)
        else (cfg, false)
  ]

  -- The angles are 0, 90, 180 and 270.
  unfoldable pub preset_angles : Bytes → Option Vec3
  preset_angles p =
      if is_nocase p "identity" || is_nocase p "board_forward"
      then some (row 0 0 0)
      else if is_nocase p "yaw_90" || is_nocase p "rot_z_90"
      then some (row 0 0 0x4056800000000000)
      else if is_nocase p "yaw_180" || is_nocase p "rot_z_180"
      then some (row 0 0 0x4066800000000000)
      else if is_nocase p "yaw_270" || is_nocase p "rot_z_270"
      then some (row 0 0 0x4070E00000000000)
      else if is_nocase p "roll_90" || is_nocase p "rot_x_90"
      then some (row 0x4056800000000000 0 0)
      else if is_nocase p "roll_270" || is_nocase p "rot_x_270"
      then some (row 0x4070E00000000000 0 0)
      else if is_nocase p "pitch_90" || is_nocase p "rot_y_90"
      then some (row 0 0x4056800000000000 0)
      else if is_nocase p "pitch_270" || is_nocase p "rot_y_270"
      then some (row 0 0x4070E00000000000 0)
      else none

  unfoldable pub apply_preset : Config → Bytes → Applied
  apply_preset cfg val = elim (copy_str host.home 32 val) [
    | copy_ok preset ↦ elim (preset_angles preset) [
      | none ↦ (cfg, false)
      | some e ↦
          (set_euler (set_str cfg mount_preset (take (str_size mount_preset - 1) preset)) e, true)
    ]
    | copy_too_long ↦ (cfg, false)
    | copy_tilde_too_long ↦ (cfg, false)
  ]
