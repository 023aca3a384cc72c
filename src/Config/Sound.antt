-- ===== src/Config/Sound.antt =====
-- src/config.c: whatever the file, the configuration stays well formed.
use imud.Prelude.{
  ℕ, zero, suc, ◌-◌, ◌^◌, ◌<◌, ◌≡◌, refl, Bool, true, false, not, ◌||◌, List, [], ◌∷◌, none, some,
  length, ltb, ◌==◌, arith, Bool-cases, if◌then◌else◌, inl, inr, ap, ◌∙◌, ◌⊎◌, sym,
}
use mathlib.Core.Bool.{false≢true, true≢false}
use mathlib.Core.Path.{subst}
use mathlib.Core.Option.{some-injective}
use imud.Prelude.Int.{ℤ, pos, negsuc, below, above, Between}
use imud.Prelude.Text.{text}
use imud.Wire.{Bytes}
use imud.Config.Fields.{
  Config, DoubleField, str_size, set_str, set_bool, pos_wmm_file, pos_declination_deg,
  pos_declination_valid,
}
use imud.Config.Lines.{Line, blank, no_eq, empty_key, header, entry, fgets, read_line}
use imud.Config.Values.{
  Host, Rule, need_str, need_topic, need_frame, need_bool, need_int, need_pos_int, need_pos_mhz,
  need_range_int, need_flt, need_dbl, need_pos_dbl, need_range_dbl, need_bus_kind, need_declination,
  mount_euler, mount_matrix, mount_preset_key, warn_unknown, parse_int, narrow,
}
use imud.Config.Rules.{Section, none_yet, rule_for}
use imud.Config.Load.{
  apply_declination, apply_rule, apply_kv, Loading, load_line, load_lines, resolve_wmm_file,
  config_load, Source, missing, unreadable, contents,
}
use imud.Config.Ranges.{
  int_range, WellFormed, Doubles, held, unasked, double_range, free, over_zero, between,
  set_str-TextsFit,
}
use imud.Config.Preserve.{
  Settles, Settles-WellFormed, apply_mhz-WellFormed, apply_str-Settles, apply_topic-Settles,
  apply_frame-Settles, apply_bus_kind-Settles, apply_int-Settles, apply_double-Settles,
  apply_float-Settles, apply_bool-Settles, apply_euler-Settles, apply_matrix-Settles,
  apply_preset-Settles,
}
use imud.Config.Bounds.{enforces, bounds_eq, same_bound_eq, rule_for-enforces}

none≢some {ℓ} : {A : Type ℓ} (a : A) → none ≡ some a → ⊥
none≢some a e = ground (arith, e)

List-cases {ℓ} : {A : Type ℓ} (xs : List A) → (xs ≡ []) ⊎ ((x : A) × (ys : List A) × (xs ≡ x ∷ ys))
List-cases [] = inl refl
List-cases (x ∷ xs) = inr (x, xs, refl)

narrow_pos : (w v : ℤ) → narrow w ≡ some v → above v 0 ≡ true → Between 1 (2 ^ 31 - 1) v
unfolding narrow
narrow_pos (pos w) v e positive = elim (Bool-cases (ltb (2 ^ 31 - 1) w)) [
  | inl big ↦ absurd (none≢some v (rw big at e))
  | inr small ↦
      let same : pos w ≡ v = some-injective _ _ (rw small at e) in
      subst (Between 1 (2 ^ 31 - 1)) same (ground (arith, small, rw (sym same) at positive))
]
narrow_pos (negsuc w) v e positive = elim (Bool-cases (ltb (2 ^ 31 - 1) w)) [
  | inl big ↦ absurd (none≢some v (rw big at e))
  | inr small ↦
      let same : negsuc w ≡ v = some-injective _ _ (rw small at e) in
      absurd (false≢true (rw (sym same) at positive))
]

-- A positive `int`.
parse_int_pos :
    (host : Host) (val : Bytes) (v : ℤ)
    → parse_int host val ≡ some v
    → above v 0 ≡ true
    → Between 1 (2 ^ 31 - 1) v
unfolding parse_int
parse_int_pos host val v e positive =
    let r = host.strtol val in
    elim (Bool-cases (r.used == 0 || not (r.used == length val))) [
      | inl bad ↦ absurd (none≢some v (rw bad at e))
      | inr fine ↦ elim (Bool-cases r.erange) [
        | inl out ↦ absurd (none≢some v (rw (fine, out) at e))
        | inr within ↦ narrow_pos r.value v (rw (fine, within) at e) positive
      ]
    ]

range_tested : (v : ℤ) (lo hi : ℕ) → not (below v lo || above v hi) ≡ true → Between lo hi v
range_tested (pos v) lo hi h = ground arith
range_tested (negsuc v) lo hi h = absurd (ground arith)

-- The keys of the two sample rates.
abbrev pub is_rate : Rule → Bool
is_rate (need_pos_mhz _) = true
is_rate _ = false

neither : (a b : Bool) → not (a || b) ≡ true → (a ≡ false) × (b ≡ false)
neither false false h = (refl, refl)
neither false true h = absurd (false≢true h)
neither true b h = absurd (false≢true h)

-- A host, and what each `double` is asked to be, of which each macro holds its field to enough.
module _ (host : Host) (asked : Doubles)
    (enough : (f : DoubleField) (v : ℕ) → held host f v → asked f v) where
  apply_declination-Settles :
      (cfg : Config) (val : Bytes)
      → WellFormed asked cfg
      → Settles asked cfg (apply_declination host cfg val)
  unfolding apply_declination set_bool
  apply_declination-Settles cfg val ok =
      elim (apply_float-Settles asked host cfg ok pos_declination_deg val) [
        | inl e ↦ inl (rw (apply_declination, e) refl)
        | inr (c, w, e) ↦
            let valid = host.is_nonzero (c.floats pos_declination_deg) in
            inr (set_bool c pos_declination_valid valid, w, rw (apply_declination, e) refl)
      ]

  -- Every macro but `NEED_POS_MHZ`, which sets the field before its last test.
  apply_rule-Settles :
      (cfg : Config) (rule : Rule) (val : Bytes)
      → WellFormed asked cfg
      → enforces rule ≡ true
      → is_rate rule ≡ false
      → Settles asked cfg (apply_rule host cfg rule val)
  unfolding apply_rule enforces
  apply_rule-Settles cfg (need_str f) val ok bound other = apply_str-Settles asked host cfg ok f val
  apply_rule-Settles cfg (need_topic f) val ok bound other =
      apply_topic-Settles asked host cfg ok f val
  apply_rule-Settles cfg (need_frame f) val ok bound other =
      apply_frame-Settles asked host cfg ok f val
  apply_rule-Settles cfg (need_bool f) val ok bound other =
      apply_bool-Settles asked host cfg ok f val
  apply_rule-Settles cfg (need_int f) val ok bound other =
      apply_int-Settles asked host cfg ok f val (λ _. true)
        (λ v _ _. rw (bounds_eq (int_range f) none bound) tt)
  apply_rule-Settles cfg (need_pos_int f) val ok bound other =
      apply_int-Settles asked host cfg ok f val (λ v. above v 0)
        (λ v e positive.
          rw (bounds_eq (int_range f) (some (1, 2 ^ 31 - 1)) bound)
            (parse_int_pos host val v e positive))
  apply_rule-Settles cfg (need_pos_mhz f) val ok bound other = absurd (true≢false other)
  apply_rule-Settles cfg (need_range_int f lo hi) val ok bound other =
      apply_int-Settles asked host cfg ok f val (λ v. not (below v lo || above v hi))
        (λ v _ tested.
          rw (bounds_eq (int_range f) (some (lo, hi)) bound) (range_tested v lo hi tested))
  apply_rule-Settles cfg (need_flt f) val ok bound other =
      apply_float-Settles asked host cfg ok f val
  apply_rule-Settles cfg (need_dbl f) val ok bound other =
      apply_double-Settles asked host cfg ok f val (λ _. true)
        (λ v _. enough f v (rw (same_bound_eq (double_range f) free bound) tt))
  apply_rule-Settles cfg (need_pos_dbl f) val ok bound other =
      apply_double-Settles asked host cfg ok f val (λ v. host.less 0 v)
        (λ v high. enough f v (rw (same_bound_eq (double_range f) over_zero bound) high))
  apply_rule-Settles cfg (need_range_dbl f lo hi) val ok bound other =
      apply_double-Settles asked host cfg ok f val (λ v. not (host.less v lo || host.less hi v))
        (λ v tested. enough f v (
          rw (same_bound_eq (double_range f) (between lo hi) bound)
            (neither (host.less v lo) (host.less hi v) tested)))
  apply_rule-Settles cfg (need_bus_kind f) val ok bound other =
      apply_bus_kind-Settles asked host cfg ok f val
  apply_rule-Settles cfg need_declination val ok bound other = apply_declination-Settles cfg val ok
  apply_rule-Settles cfg mount_euler val ok bound other = apply_euler-Settles asked host cfg ok val
  apply_rule-Settles cfg mount_matrix val ok bound other =
      apply_matrix-Settles asked host cfg ok val
  apply_rule-Settles cfg mount_preset_key val ok bound other =
      apply_preset-Settles asked host cfg ok val
  apply_rule-Settles cfg warn_unknown val ok bound other = inr (cfg, ok, refl)

  rate-WellFormed :
      (cfg : Config) (rule : Rule) (val : Bytes)
      → WellFormed asked cfg
      → enforces rule ≡ true
      → is_rate rule ≡ true
      → WellFormed asked (apply_rule host cfg rule val).0
  unfolding apply_rule enforces
  rate-WellFormed cfg (need_pos_mhz f) val ok bound _ =
      apply_mhz-WellFormed asked host cfg ok f val (bounds_eq (int_range f) none bound)
  rate-WellFormed cfg _ val ok bound other = absurd (false≢true other)

  apply_kv-WellFormed :
      (cfg : Config) (sec : Section) (key val : Bytes)
      → WellFormed asked cfg
      → WellFormed asked (apply_kv host cfg sec key val).0
  unfolding apply_kv
  apply_kv-WellFormed cfg sec key val ok =
      let rule = rule_for sec key in
      let bound = rule_for-enforces sec key in
      elim (Bool-cases (is_rate rule)) [
        | inl e ↦ rate-WellFormed cfg rule val ok bound e
        | inr e ↦
            Settles-WellFormed asked cfg (apply_rule host cfg rule val) ok
              (apply_rule-Settles cfg rule val ok bound e)
      ]

  load_line-WellFormed :
      (st : Loading) (line : Line)
      → WellFormed asked st.cfg
      → WellFormed asked (load_line host st line).cfg
  unfolding load_line
  load_line-WellFormed st blank ok = ok
  load_line-WellFormed st no_eq ok = ok
  load_line-WellFormed st empty_key ok = ok
  load_line-WellFormed st (header name) ok = ok
  load_line-WellFormed st (entry key val) ok = apply_kv-WellFormed st.cfg st.sec key val ok

  load_lines-WellFormed :
      (rounds : ℕ) (f : Bytes) (st : Loading)
      → WellFormed asked st.cfg
      → WellFormed asked (load_lines host rounds f st).cfg
  unfolding load_lines
  load_lines-WellFormed zero f st ok = ok
  load_lines-WellFormed (suc rounds) [] st ok = ok
  load_lines-WellFormed (suc rounds) (c ∷ f) st ok =
      let (line, rest) = fgets 511 (c ∷ f) in
      load_lines-WellFormed rounds rest (load_line host st (read_line line))
        (load_line-WellFormed st (read_line line) ok)

-- From a well-formed configuration, a key whose value `apply_kv` rejects changes nothing, unless
-- its macro is NEED_POS_MHZ.
pub apply_kv-rejected :
    (host : Host) (cfg : Config) (sec : Section) (key val : Bytes)
    → WellFormed unasked cfg
    → is_rate (rule_for sec key) ≡ false
    → (apply_kv host cfg sec key val).1 ≡ false
    → (apply_kv host cfg sec key val).0 ≡ cfg
unfolding apply_kv
apply_kv-rejected host cfg sec key val ok other refused =
    elim (apply_rule-Settles host unasked (λ _ _ _. tt) cfg (rule_for sec key) val ok
      (rule_for-enforces sec key) other) [
        | inl e ↦ ap (λ r. r.0) e
        | inr (c, w, e) ↦ absurd (true≢false (sym (ap (λ r. r.1) e) ∙ refused))
      ]

path_fits :
    (b : Bool)
    → length (if b then text "/etc/imud/WMM.COF" else text "/usr/local/share/imud/WMM.COF")
      < str_size pos_wmm_file
unfolding str_size
path_fits true = omega arith
path_fits false = omega arith

pub resolve_wmm_file-WellFormed :
    (asked : Doubles) (etc_readable : Bool) (cfg : Config)
    → WellFormed asked cfg
    → WellFormed asked (resolve_wmm_file etc_readable cfg)
unfolding resolve_wmm_file set_str str_size
resolve_wmm_file-WellFormed asked etc_readable cfg ok = elim (List-cases (cfg.strs pos_wmm_file)) [
  | inl e ↦
      let path : Bytes =
        if etc_readable then text "/etc/imud/WMM.COF" else text "/usr/local/share/imud/WMM.COF" in
      let eq : resolve_wmm_file etc_readable cfg ≡ set_str cfg pos_wmm_file path =
        rw (resolve_wmm_file, e) refl in
      subst (WellFormed asked) (sym eq)
        (ok.0, (set_str-TextsFit cfg pos_wmm_file path ok.1.0 (path_fits etc_readable), ok.1.1))
  | inr (c, s, e) ↦
      let eq : resolve_wmm_file etc_readable cfg ≡ cfg = rw (resolve_wmm_file, e) refl in
      subst (WellFormed asked) (sym eq) ok
]

-- Whatever each `double` is asked to be, where the macros hold it to that.
pub config_load-keeps :
    (asked : Doubles) (host : Host) (etc_readable : Bool) (file : Source) (cfg : Config)
    → ((f : DoubleField) (v : ℕ) → held host f v → asked f v)
    → WellFormed asked cfg
    → WellFormed asked (config_load host etc_readable file cfg).0
unfolding config_load
config_load-keeps asked host etc_readable missing cfg enough ok =
    resolve_wmm_file-WellFormed asked etc_readable cfg ok
config_load-keeps asked host etc_readable unreadable cfg enough ok =
    resolve_wmm_file-WellFormed asked etc_readable cfg ok
config_load-keeps asked host etc_readable (contents f) cfg enough ok =
    let start : Loading = record { cfg = cfg; sec = none_yet; failed = false } in
    resolve_wmm_file-WellFormed asked etc_readable (load_lines host (length f) f start).cfg
      (load_lines-WellFormed host asked enough (length f) f start ok)

-- Whatever the host, the file and whether the model file is readable, `config_load` leaves a
-- well-formed configuration well formed, with every result, failures included: each `int` that
-- NEED_POS_INT or NEED_RANGE_INT sets is within its key's bounds; each `double` that NEED_POS_DBL sets
-- is positive, and none that NEED_RANGE_DBL sets is below or above its key's bounds, by the
-- processor's comparison; and each text is shorter than its array. The two rates of NEED_POS_MHZ, and
-- the fields that are set with no bounds, are not in this.
pub config_load-WellFormed :
    (host : Host) (etc_readable : Bool) (file : Source) (cfg : Config)
    → WellFormed (held host) cfg
    → WellFormed (held host) (config_load host etc_readable file cfg).0
config_load-WellFormed host etc_readable file cfg ok =
    config_load-keeps (held host) host etc_readable file cfg (λ _ _ h. h) ok
