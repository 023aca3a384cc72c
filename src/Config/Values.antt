-- ===== src/Config/Values.antt =====
-- src/config.c: the values, and the macros of `apply_kv`, each a constructor that says which field it
-- sets. The C library's `strtol` and `strtod` and the arithmetic of doubles are a parameter.
use imud.Prelude.{
  ℕ, ◌+◌, ◌-◌, ◌^◌, Bool, true, false, not, ◌&&◌, ◌||◌, [], ◌∷◌, ◌++◌, Option, none, some, length,
  take, drop, get_or, ltb, leb, ◌==◌, if◌then◌else◌,
}
use imud.Prelude.Int.{ℤ, pos, negsuc, above}
use imud.Prelude.Text.{is}
use imud.Wire.{Bytes}
use imud.Config.Fields.{
  Config, StrField, IntField, BoolField, FloatField, DoubleField, KindField, i2c, spi, str_size,
  set_str, set_int, set_bool, set_float, set_double, set_kind,
}

-- What `strtol(val, &end, 0)` gives: the number, the bytes before `end`, and ERANGE.
pub record Strtol : Type 0 where
  pub value : ℤ
  pub used : ℕ
  pub erange : Bool

-- The process's surroundings. Doubles and floats are bit patterns.
pub record Host : Type 0 where
  pub home : Option Bytes
  pub strtol : Bytes → Strtol
  -- The number and the bytes before `end`.
  pub strtod : Bytes → ℕ × ℕ
  pub isfinite : ℕ → Bool
  -- `a < b` on doubles.
  pub less : ℕ → ℕ → Bool
  -- `(float)dv`, and `x != 0.0f`.
  pub to_float : ℕ → ℕ
  pub is_nonzero : ℕ → Bool
  -- `(int)(dv * 1000.0 + 0.5)`
  pub to_mhz : ℕ → ℤ
  pub add : ℕ → ℕ → ℕ
  pub sub : ℕ → ℕ → ℕ
  pub mul : ℕ → ℕ → ℕ
  pub div : ℕ → ℕ → ℕ
  pub neg : ℕ → ℕ
  pub sqrt : ℕ → ℕ
  pub cos : ℕ → ℕ
  pub sin : ℕ → ℕ

unfoldable pub expand_tilde : Option Bytes → ℕ → Bytes → Bytes
expand_tilde home bufsz buf =
    if not (get_or buf 0 0 == b'~') || not (get_or buf 1 0 == b'/') then buf else elim home [
      | none ↦ buf
      | some h ↦ if leb bufsz (length h + length (drop 1 buf)) then buf else h ++ drop 1 buf
    ]

-- `copy_rc_t`, with what `COPY_OK` leaves in the buffer.
pub data Copied : Type 0 where
  copy_ok : Bytes → Copied
  copy_too_long copy_tilde_too_long : Copied

-- The text between the quotes, or the whole.
unfoldable pub unquoted : Bytes → Bytes
unquoted val =
    let s = drop 1 val in
    let len = length s in
    if not (get_or val 0 0 == b'"')
    then val
    else if ltb 0 len && get_or s (len - 1) 0 == b'"'
    then take (len - 1) s
    else s

unfoldable pub tilde_too_long : Option Bytes → ℕ → Bytes → Bool
tilde_too_long none outsz s = false
tilde_too_long (some h) outsz s =
    leb 2 (length s)
    && get_or s 0 0 == b'~'
    && get_or s 1 0 == b'/'
    && leb outsz (length h + (length s - 1))

unfoldable pub copy_str : Option Bytes → ℕ → Bytes → Copied
copy_str home outsz val =
    let s = unquoted val in
    if leb outsz (length s)
    then copy_too_long
    else if tilde_too_long home outsz s
    then copy_tilde_too_long
    else copy_ok (expand_tilde home outsz s)

unfoldable pub parse_bool : Bytes → Option Bool
parse_bool val = if is val "true" then some true else if is val "false" then some false else none

-- A `long` between `INT_MIN` and `INT_MAX`.
unfoldable pub narrow : ℤ → Option ℤ
narrow (pos v) = if ltb (2 ^ 31 - 1) v then none else some (pos v)
narrow (negsuc v) = if ltb (2 ^ 31 - 1) v then none else some (negsuc v)

-- `parse_int` with a `long` of 64 bits: `none` for either failure.
unfoldable pub parse_int : Host → Bytes → Option ℤ
parse_int host val =
    let r = host.strtol val in
    if r.used == 0 || not (r.used == length val)
    then none
    else if r.erange
    then none
    else narrow r.value

unfoldable pub parse_double : Host → Bytes → Option ℕ
parse_double host val =
    let (d, used) = host.strtod val in
    if not (used == 0) && used == length val && host.isfinite d then some d else none

-- A key's macro in `apply_kv`. The bounds of `need_range_dbl` are bit patterns.
pub data Rule : Type 0 where
  need_str need_topic need_frame : StrField → Rule
  need_bool : BoolField → Rule
  need_int need_pos_int need_pos_mhz : IntField → Rule
  need_range_int : IntField → ℕ → ℕ → Rule
  need_flt : FloatField → Rule
  need_dbl need_pos_dbl : DoubleField → Rule
  need_range_dbl : DoubleField → ℕ → ℕ → Rule
  need_bus_kind : KindField → Rule
  need_declination mount_euler mount_matrix mount_preset_key warn_unknown : Rule

abbrev pub need_port : IntField → Rule
need_port f = need_range_int f 1 65535

abbrev pub need_gpio : IntField → Rule
need_gpio f = need_range_int f 0 255

abbrev pub need_rate_hz : IntField → Rule
need_rate_hz f = need_range_int f 1 32000

abbrev pub need_i2c_addr : IntField → Rule
need_i2c_addr f = need_range_int f 0x00 0x7F

-- The configuration after a key, and whether `apply_kv` returned 0.
abbrev pub Applied : Type 0
Applied = Config × Bool

unfoldable pub apply_str : Host → Config → StrField → Bytes → Applied
apply_str host cfg f val = elim (copy_str host.home (str_size f) val) [
  | copy_ok s ↦ (set_str cfg f s, true)
  | copy_too_long ↦ (cfg, false)
  | copy_tilde_too_long ↦ (cfg, false)
]

-- `strpbrk(val, "+#")`
unfoldable pub has_wildcard : Bytes → Bool
has_wildcard [] = false
has_wildcard (c ∷ s) = c == b'+' || c == b'#' || has_wildcard s

unfoldable pub apply_topic : Host → Config → StrField → Bytes → Applied
apply_topic host cfg f val = if has_wildcard val then (cfg, false) else apply_str host cfg f val

unfoldable pub apply_frame : Host → Config → StrField → Bytes → Applied
apply_frame host cfg f val = elim (copy_str host.home 8 val) [
  | copy_ok s ↦ if is s "NED" then (set_str cfg f (take (str_size f - 1) s), true) else (cfg, false)
  | copy_too_long ↦ (cfg, false)
  | copy_tilde_too_long ↦ (cfg, false)
]

unfoldable pub apply_bus_kind : Host → Config → KindField → Bytes → Applied
apply_bus_kind host cfg f val = elim (copy_str host.home 8 val) [
  | copy_ok s ↦
      if not (is s "i2c") && not (is s "spi")
      then (cfg, false)
      else (set_kind cfg f (if is s "spi" then spi else i2c), true)
  | copy_too_long ↦ (cfg, false)
  | copy_tilde_too_long ↦ (cfg, false)
]

unfoldable pub apply_int : Host → Config → IntField → Bytes → (ℤ → Bool) → Applied
apply_int host cfg f val accept = elim (parse_int host val) [
  | none ↦ (cfg, false)
  | some v ↦ if accept v then (set_int cfg f v, true) else (cfg, false)
]

-- The bound is 2000000.0. The field is set before the last test.
unfoldable pub apply_mhz : Host → Config → IntField → Bytes → Applied
apply_mhz host cfg f val = elim (parse_double host val) [
  | none ↦ (cfg, false)
  | some dv ↦
      if not (host.less 0 dv)
      then (cfg, false)
      else if host.less 0x413E848000000000 dv
      then (cfg, false)
      else (set_int cfg f (host.to_mhz dv), above (host.to_mhz dv) 0)
]

unfoldable pub apply_double : Host → Config → DoubleField → Bytes → (ℕ → Bool) → Applied
apply_double host cfg f val accept = elim (parse_double host val) [
  | none ↦ (cfg, false)
  | some dv ↦ if accept dv then (set_double cfg f dv, true) else (cfg, false)
]

unfoldable pub apply_float : Host → Config → FloatField → Bytes → Applied
apply_float host cfg f val = elim (parse_double host val) [
  | none ↦ (cfg, false)
  | some dv ↦ (set_float cfg f (host.to_float dv), true)
]

unfoldable pub apply_bool : Config → BoolField → Bytes → Applied
apply_bool cfg f val = elim (parse_bool val) [
  | none ↦ (cfg, false)
  | some b ↦ (set_bool cfg f b, true)
]
