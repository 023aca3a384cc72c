-- ===== src/Config/Bounds.antt =====
-- src/config.c: the bounds in the tables of keys are those of the fields.
use imud.Prelude.{
  ℕ, ◌-◌, ◌^◌, ◌≡◌, refl, Bool, true, false, ◌&&◌, [], ◌∷◌, Option, none, some, Bool-cases, inl,
  inr, ◌==◌, ==_iff, ap₂,
}
use mathlib.Core.Bool.{false≢true}
use imud.Prelude.Text.{is}
use imud.Wire.{Bytes}
use imud.Config.Values.{
  Rule, need_int, need_pos_int, need_pos_mhz, need_range_int, need_dbl, need_pos_dbl,
  need_range_dbl,
}
use imud.Config.Keys.{
  Rules, mount_rules, device_rules, runtime_rules, capture_rules, imu_rules, mag_rules,
  fusion_rules, calibration_rules, nmea_rules, highrate_rules, stream_rules, signalk_rules,
  mqtt_rules, influx_rules, prom_rules, mavlink_rules, logging_rules, position_rules,
}
use imud.Config.Rules.{
  Section, none_yet, unknown, mount, device, runtime, capture, imu, mag, fusion, calibration, nmea,
  highrate, stream, signalk, mqtt, influx, prom, mavlink, logging, position, section_rules,
  find_rule, rule_for,
}
use imud.Config.Ranges.{int_range, DoubleBound, free, over_zero, between, double_range}

-- The bounds that a macro enforces on the field that it sets are the field's.
abbrev pub bounds : Option (ℕ × ℕ) → Option (ℕ × ℕ) → Bool
bounds none none = true
bounds none (some _) = false
bounds (some _) none = false
bounds (some (a, b)) (some (lo, hi)) = a == lo && b == hi

abbrev pub same_bound : DoubleBound → DoubleBound → Bool
same_bound free free = true
same_bound over_zero over_zero = true
same_bound (between a b) (between lo hi) = a == lo && b == hi
same_bound _ _ = false

unfoldable pub enforces : Rule → Bool
enforces (need_int f) = bounds (int_range f) none
enforces (need_pos_int f) = bounds (int_range f) (some (1, 2 ^ 31 - 1))
enforces (need_pos_mhz f) = bounds (int_range f) none
enforces (need_range_int f lo hi) = bounds (int_range f) (some (lo, hi))
enforces (need_dbl f) = same_bound (double_range f) free
enforces (need_pos_dbl f) = same_bound (double_range f) over_zero
enforces (need_range_dbl f lo hi) = same_bound (double_range f) (between lo hi)
enforces _ = true

abbrev all_enforce : Rules → Bool
all_enforce [] = true
all_enforce ((_, rule) ∷ rules) = enforces rule && all_enforce rules

both : (a b : Bool) → (a && b) ≡ true → (a ≡ true) × (b ≡ true)
both true true h = (refl, refl)
both true false h = absurd (false≢true h)
both false b h = absurd (false≢true h)

pub bounds_eq : (o p : Option (ℕ × ℕ)) → bounds o p ≡ true → o ≡ p
bounds_eq none none h = refl
bounds_eq none (some _) h = absurd (false≢true h)
bounds_eq (some _) none h = absurd (false≢true h)
bounds_eq (some (a, b)) (some (lo, hi)) h =
    let (same_lo, same_hi) = both (a == lo) (b == hi) h in
    ap₂ (λ x y. some (x, y)) ((==_iff a lo).0 same_lo) ((==_iff b hi).0 same_hi)

pub same_bound_eq : (b c : DoubleBound) → same_bound b c ≡ true → b ≡ c
same_bound_eq free free h = refl
same_bound_eq over_zero over_zero h = refl
same_bound_eq (between a b) (between lo hi) h =
    let (same_lo, same_hi) = both (a == lo) (b == hi) h in
    ap₂ between ((==_iff a lo).0 same_lo) ((==_iff b hi).0 same_hi)
same_bound_eq free over_zero h = absurd (false≢true h)
same_bound_eq free (between _ _) h = absurd (false≢true h)
same_bound_eq over_zero free h = absurd (false≢true h)
same_bound_eq over_zero (between _ _) h = absurd (false≢true h)
same_bound_eq (between _ _) free h = absurd (false≢true h)
same_bound_eq (between _ _) over_zero h = absurd (false≢true h)

section_rules-enforces : (sec : Section) → all_enforce (section_rules sec) ≡ true
unfolding section_rules enforces int_range double_range mount_rules device_rules runtime_rules
    capture_rules imu_rules mag_rules fusion_rules calibration_rules nmea_rules highrate_rules
    stream_rules signalk_rules mqtt_rules influx_rules prom_rules mavlink_rules logging_rules
    position_rules
section_rules-enforces none_yet = refl
section_rules-enforces unknown = refl
section_rules-enforces mount = refl
section_rules-enforces device = refl
section_rules-enforces runtime = refl
section_rules-enforces capture = refl
section_rules-enforces imu = refl
section_rules-enforces mag = refl
section_rules-enforces fusion = refl
section_rules-enforces calibration = refl
section_rules-enforces nmea = refl
section_rules-enforces highrate = refl
section_rules-enforces stream = refl
section_rules-enforces signalk = refl
section_rules-enforces mqtt = refl
section_rules-enforces influx = refl
section_rules-enforces prom = refl
section_rules-enforces mavlink = refl
section_rules-enforces logging = refl
section_rules-enforces position = refl

find_rule-enforces :
    (rules : Rules) (key : Bytes) → all_enforce rules ≡ true → enforces (find_rule rules key) ≡ true
unfolding find_rule enforces
find_rule-enforces [] key all = refl
find_rule-enforces ((name, rule) ∷ rules) key all =
    let (this, others) = both (enforces rule) (all_enforce rules) all in
    elim (Bool-cases (is key name)) [
      | inl e ↦ rw e this
      | inr e ↦ rw e (find_rule-enforces rules key others)
    ]

pub rule_for-enforces : (sec : Section) (key : Bytes) → enforces (rule_for sec key) ≡ true
unfolding rule_for
rule_for-enforces sec key = find_rule-enforces (section_rules sec) key (section_rules-enforces sec)
