-- ===== src/Config/Hot/Reload.antt =====
-- src/config.c: what `config_apply_hot` makes of the running configuration.
use imud.Prelude.{◌-◌, ◌≡◌, refl, if◌then◌else◌, take, arith, take-all, ◌∙◌, ap}
use imud.Config.Fields.{
  Config, StrField, IntField, BoolField, FloatField, DoubleField, str_size, set_str, set_int,
  set_bool, set_float, set_double,
}
use imud.Config.Load.{copy_strs, copy_ints, copy_bools, copy_floats, copy_doubles, config_apply_hot}
use imud.Config.Ranges.{TextsFit}
use imud.Config.Hot.{hot_str, hot_int, hot_bool, hot_float, hot_double}
use imud.Config.Hot.Texts.{copied_str}
use imud.Config.Hot.Numbers.{copied_int, copied_bool, copied_float, copied_double}

kept_kinds : (src dst : Config) → (config_apply_hot src dst).kinds ≡ dst.kinds
unfolding config_apply_hot copy_strs copy_ints copy_bools copy_floats copy_doubles set_str set_int
    set_bool set_float set_double
kept_kinds src dst = refl

kept_mount :
    (src dst : Config)
    → ((config_apply_hot src dst).euler ≡ dst.euler) × ((config_apply_hot src dst).rot ≡ dst.rot)
unfolding config_apply_hot copy_strs copy_ints copy_bools copy_floats copy_doubles set_str set_int
    set_bool set_float set_double
kept_mount src dst = (refl, refl)

-- Where every text of the file's configuration fits its array, a reload takes from it each field that
-- the daemon can change while it runs, the magnetic field that was computed for the position included,
-- and leaves every other field of the running configuration as it was: the outputs' switches, addresses
-- and ports, the paths, the sensors' buses and the mounting.
pub config_apply_hot_lem :
    (src dst : Config)
    → TextsFit src
    → let r = config_apply_hot src dst in
      ((f : StrField) → r.strs f ≡ (if hot_str f then src.strs f else dst.strs f))
      × ((f : IntField) → r.ints f ≡ (if hot_int f then src.ints f else dst.ints f))
      × ((f : BoolField) → r.bools f ≡ (if hot_bool f then src.bools f else dst.bools f))
      × ((f : FloatField) → r.floats f ≡ (if hot_float f then src.floats f else dst.floats f))
      × ((f : DoubleField) → r.doubles f ≡ (if hot_double f then src.doubles f else dst.doubles f))
      × (r.kinds ≡ dst.kinds)
      × (r.euler ≡ dst.euler)
      × (r.rot ≡ dst.rot)
config_apply_hot_lem src dst fits = (
  λ f. whole_str f,
  copied_int src dst,
  copied_bool src dst,
  copied_float src dst,
  copied_double src dst,
  kept_kinds src dst,
  (kept_mount src dst).0,
  (kept_mount src dst).1,
)
  where
    whole_str :
        (f : StrField)
        → (config_apply_hot src dst).strs f ≡ (if hot_str f then src.strs f else dst.strs f)
    whole_str f =
        let whole : take (str_size f - 1) (src.strs f) ≡ src.strs f =
          take-all (str_size f - 1) (src.strs f) (omega (arith, fits f)) in
        copied_str src dst f ∙ ap (λ s. if hot_str f then s else dst.strs f) whole
