-- ===== src/Config/Tests.antt =====
-- The configuration parser on concrete files.
use imud.Prelude.{
  none, if◌then◌else◌, ℕ, ◌+◌, ◌-◌, ◌*◌, ◌≡◌, ◌^◌, refl, true, false, not, ◌&&◌, [], ◌∷◌, some, ltb,
  leb, ◌==◌, arith,
}
use imud.Prelude.Int.{pos, below}
use imud.Prelude.Text.{text, isspace, same_bytes}
use imud.Wire.{Bytes}
use imud.Config.Fields.{
  Config, StrField, IntField, BoolField, FloatField, DoubleField, nmea_rate_hz,
  mag_uncal_reject_frac, mekf_gyro_noise, mekf_gyro_bias, mekf_accel_noise, mekf_mag_noise,
  mekf_wave_accel, mekf_wave_accel_tau_s, mekf_mag_dip_sigma_deg, mag_reject_gauss,
  accel_skip_thresh, engine_vibration_g2, engine_accel_skip_thresh, startup_settle_sec,
  gyro_bias_sec, align_window_sec, pos_lat_deg, pos_lon_deg, nmea_dest_port, imu_spi_speed_hz,
  mag_spi_speed_hz, str_size, set_int, set_str, set_kind, IntField-discrete, StrField-discrete,
  KindField-discrete,
}
use imud.Config.Defaults.{
  default_str, default_int, default_bool, default_float, default_double, config_defaults,
}
use imud.Config.Lines.{
  fgets, stripped_line, lstrip, rstrip, strip_onto, strip_comment, comment_from, c_string,
  key_value, split_eq, read_line, entry,
}
use imud.Config.Values.{
  apply_int, parse_int, narrow, apply_bus_kind, apply_str, copy_str, tilde_too_long, expand_tilde,
  Host, Strtol, unquoted,
}
use imud.Config.Keys.{nmea_rules, imu_rules}
use imud.Config.Rules.{parse_section, rule_for, section_rules, find_rule, nmea, none_yet}
use imud.Config.Load.{
  Source, config_load_resolved, missing, load_line, apply_rule, validate_bus, spi_without_dev,
  resolve_wmm_file, Loading, contents, config_load, apply_kv, load_lines, config_apply_hot, load_ok,
  config_imu_bus_spec, config_mag_bus_spec,
}
use imud.Config.Ranges.{WellFormed, held, unasked, double_range}
use imud.Config.Sound.{config_load-WellFormed, apply_kv-rejected}
use imud.Config.Hot.{hot_str, hot_int, hot_bool, hot_float, hot_double}
use imud.Config.Hot.Reload.{config_apply_hot_lem}
use imud.Config.Kept.{config_defaults-WellFormed}
use imud.Config.Texts.{stored, copy_str_lem}
use imud.Config.Loop.{Loads, load_lines-Loads}
use imud.Config.Entry.{written, quoted, Each, KeyByte, QuotedByte, read_line-written}
use imud.Config.Result.{HasNode, config_load-HasNode}

-- The leading decimal digits: their number, and how many.
abbrev digits : ℕ → ℕ → Bytes → Strtol
digits v used [] = record { value = pos v; used = used; erange = false }
digits v used (c ∷ s) =
    let rest = digits (10 * v + (c - b'0')) (used + 1) s in
    if leb b'0' c && leb c b'9' then rest else record { value = pos v; used = used; erange = false }

-- The order of the doubles that are numbers, by their bit patterns.
abbrev ordered : ℕ → ℕ
ordered d = if ltb d (2 ^ 63) then 2 ^ 63 + d else 2 ^ 64 - d

-- A process with a home directory, whose `strtod` finds no number.
abbrev machine : Host
machine = record {
  home = some (text "/root");
  strtol = digits 0 0;
  strtod = λ _. (0, 0);
  isfinite = λ _. true;
  less = λ a b. ltb (ordered a) (ordered b);
  to_float = λ d. d;
  is_nonzero = λ d. not (d == 0);
  to_mhz = pos;
  add = λ a b. a + b;
  sub = λ a b. a - b;
  mul = λ a b. a * b;
  div = λ a _. a;
  neg = λ a. a;
  sqrt = λ a. a;
  cos = λ a. a;
  sin = λ a. a;
}

abbrev good_file : Bytes
good_file = text "[nmea]\ndest_port = 10110\n"

abbrev bad_file : Bytes
bad_file = text "[nmea]\ndest_port = 70000\n"

good_file_port :
    (config_load machine false (contents good_file) config_defaults).0.ints nmea_dest_port
    ≡ pos 10110
unfolding config_load load_lines fgets load_line read_line stripped_line lstrip rstrip strip_onto
    strip_comment comment_from c_string key_value split_eq isspace parse_section same_bytes apply_kv
    rule_for section_rules find_rule nmea_rules imu_rules apply_rule apply_int parse_int narrow
    apply_bus_kind apply_str copy_str unquoted tilde_too_long expand_tilde str_size set_int set_str
    set_kind validate_bus spi_without_dev resolve_wmm_file config_defaults default_str default_int
    default_bool default_float default_double IntField-discrete StrField-discrete KindField-discrete
good_file_port = refl

defaults-held : (f : DoubleField) → held machine f (default_double f)
unfolding default_double double_range
defaults-held mag_uncal_reject_frac = (refl, refl)
defaults-held mekf_gyro_noise = refl
defaults-held mekf_gyro_bias = refl
defaults-held mekf_accel_noise = refl
defaults-held mekf_mag_noise = refl
defaults-held mekf_wave_accel = tt
defaults-held mekf_wave_accel_tau_s = tt
defaults-held mekf_mag_dip_sigma_deg = tt
defaults-held mag_reject_gauss = tt
defaults-held accel_skip_thresh = (refl, refl)
defaults-held engine_vibration_g2 = tt
defaults-held engine_accel_skip_thresh = (refl, refl)
defaults-held startup_settle_sec = tt
defaults-held gyro_bias_sec = tt
defaults-held align_window_sec = tt
defaults-held pos_lat_deg = (refl, refl)
defaults-held pos_lon_deg = (refl, refl)

config_load-WellFormed_example :
    WellFormed (held machine) (config_load machine false (contents bad_file) config_defaults).0
config_load-WellFormed_example =
    config_load-WellFormed machine false (contents bad_file) config_defaults
      (config_defaults-WellFormed (held machine) defaults-held)

apply_kv-rejected_example :
    (apply_kv machine config_defaults nmea (text "dest_port") (text "70000")).0 ≡ config_defaults
unfolding rule_for section_rules find_rule nmea_rules same_bytes apply_kv apply_rule apply_int
    parse_int narrow
apply_kv-rejected_example =
    apply_kv-rejected machine config_defaults nmea (text "dest_port") (text "70000")
      (config_defaults-WellFormed unasked (λ _. tt)) refl refl

-- A reload of a file with a bad port: the running configuration has a rate that the file does not set.
abbrev running : Config
running = set_int config_defaults nmea_rate_hz (pos 5)

config_apply_hot_lem_example :
    let src = (config_load machine false (contents bad_file) config_defaults).0 in
    let r = config_apply_hot src running in
    ((f : StrField) → r.strs f ≡ (if hot_str f then src.strs f else running.strs f))
    × ((f : IntField) → r.ints f ≡ (if hot_int f then src.ints f else running.ints f))
    × ((f : BoolField) → r.bools f ≡ (if hot_bool f then src.bools f else running.bools f))
    × ((f : FloatField) → r.floats f ≡ (if hot_float f then src.floats f else running.floats f))
    × ((f : DoubleField)
        → r.doubles f ≡ (if hot_double f then src.doubles f else running.doubles f))
    × (r.kinds ≡ running.kinds)
    × (r.euler ≡ running.euler)
    × (r.rot ≡ running.rot)
config_apply_hot_lem_example =
    config_apply_hot_lem (config_load machine false (contents bad_file) config_defaults).0 running
      config_load-WellFormed_example.1.0

abbrev start : Loading
start = record { cfg = config_defaults; sec = none_yet; failed = false }

load_lines-Loads_example : Loads machine good_file start (load_lines machine 30 good_file start)
load_lines-Loads_example = load_lines-Loads machine 30 good_file start (omega arith)

abbrev spi_file : Bytes
spi_file = text "[imu]\nbus = spi\nspi_dev = \"/dev/spidev0.0\"\n"

spi_file_loads : (config_load machine true (contents spi_file) config_defaults).1 ≡ load_ok
unfolding config_load load_lines fgets load_line read_line stripped_line lstrip rstrip strip_onto
    strip_comment comment_from c_string key_value split_eq isspace parse_section same_bytes apply_kv
    rule_for section_rules find_rule nmea_rules imu_rules apply_rule apply_int parse_int narrow
    apply_bus_kind apply_str copy_str unquoted tilde_too_long expand_tilde str_size set_int set_str
    set_kind validate_bus spi_without_dev resolve_wmm_file config_defaults default_str default_int
    default_bool default_float default_double IntField-discrete StrField-discrete KindField-discrete
spi_file_loads = refl

config_load-HasNode_example :
    HasNode (config_imu_bus_spec (config_load machine true (contents spi_file) config_defaults).0)
    × HasNode (config_mag_bus_spec (config_load machine true (contents spi_file) config_defaults).0)
    × (below
          ((config_load machine true (contents spi_file) config_defaults).0.ints imu_spi_speed_hz)
          0
        ≡ false)
    × (below
          ((config_load machine true (contents spi_file) config_defaults).0.ints mag_spi_speed_hz)
          0
        ≡ false)
config_load-HasNode_example =
    config_load-HasNode machine true (contents spi_file) config_defaults spi_file_loads

plain_key : Each KeyByte (text "file")
unfolding isspace
plain_key = (
  (refl, refl, refl, refl, refl, refl),
  (
    (refl, refl, refl, refl, refl, refl),
    ((refl, refl, refl, refl, refl, refl), ((refl, refl, refl, refl, refl, refl), tt)),
  ),
)

plain_value : Each QuotedByte (text "/tmp/a#b")
plain_value = (
  (refl, refl),
  (
    (refl, refl),
    (
      (refl, refl),
      ((refl, refl), ((refl, refl), ((refl, refl), ((refl, refl), ((refl, refl), tt))))),
    ),
  ),
)

read_line-written_example :
    (read_line (written (text "file") (text "/tmp/a#b") (text " the log"))
      ≡ entry (text "file") (quoted (text "/tmp/a#b")))
    × ((unquoted (quoted (text "/tmp/a#b")) ≡ text "/tmp/a#b")
        × (copy_str (some (text "/root")) 256 (quoted (text "/tmp/a#b"))
            ≡ stored (some (text "/root")) 256 (text "/tmp/a#b")))
unfolding isspace
read_line-written_example =
    read_line-written b'f' (text "ile") (text "/tmp/a#b") (text " the log") (some (text "/root"))
      256 plain_key plain_value

copy_str_lem_example :
    copy_str (some (text "/root")) 10 (text "\"~/imud.cal\"")
    ≡ stored (some (text "/root")) 10 (unquoted (text "\"~/imud.cal\""))
copy_str_lem_example = copy_str_lem (some (text "/root")) 10 (text "\"~/imud.cal\"")

-- Only the file under the home directory is there, and it holds a bad port.
abbrev home_only : Bytes → Source
home_only path =
    if same_bytes path (text "/root/.config/imud/imud.conf") then contents bad_file else missing

takes_home :
    (config_load_resolved machine false home_only
      (text "/etc/imud/imud.conf")
      none
      config_defaults).1
    ≡ text "/root/.config/imud/imud.conf"
unfolding config_load_resolved config_load load_lines fgets load_line read_line stripped_line lstrip
    rstrip strip_onto strip_comment comment_from c_string key_value split_eq isspace parse_section
    same_bytes apply_kv rule_for section_rules find_rule nmea_rules apply_rule apply_int parse_int
    narrow set_int set_str validate_bus spi_without_dev resolve_wmm_file config_defaults default_str
    default_int default_bool default_float default_double IntField-discrete StrField-discrete
takes_home = refl
