-- ===== src/Config/Preserve.antt =====
-- src/config.c: what each macro of `apply_kv` leaves well formed.
use imud.Prelude.{
  ℕ, ◌-◌, ◌<◌, ◌≡◌, refl, Bool, true, false, not, ◌&&◌, Option, none, some, length, leb, arith,
  Bool-cases, Option-cases, if◌then◌else◌, inl, inr, ◌⊎◌, sym, take,
}
use imud.Prelude.Int.{ℤ, above}
use imud.Prelude.Text.{is}
use imud.Wire.{Bytes}
use mathlib.Core.Path.{subst}
use imud.Types.{blank_vec}
use imud.Config.Fields.{
  Config, StrField, IntField, BoolField, FloatField, DoubleField, KindField, str_size, set_str,
  set_int, set_bool, set_float, set_double, set_kind, mount_preset, mount_set, i2c, spi,
}
use imud.Config.Values.{
  Host, Copied, copy_ok, copy_too_long, copy_tilde_too_long, copy_str, parse_int, parse_double,
  parse_bool, apply_str, apply_topic, apply_frame, apply_bus_kind, apply_int, apply_mhz,
  apply_double, apply_float, apply_bool, Applied, has_wildcard, unquoted,
}
use imud.Config.Mount.{
  apply_euler, apply_matrix, apply_preset, preset_angles, parse_float_array, set_euler, three_of,
  nine_of, mat_of, validate_rotation,
}
use imud.Config.Texts.{copy_str_lem, stored, expanded}
use imud.Config.Ranges.{
  int_range, Within, Doubles, WellFormed, set_double-DoublesAre, set_int-InRange, set_str-TextsFit,
  length-take_fits,
}

-- A copy that was made fits its buffer.
abbrev pub CopyFits : ℕ → Copied → Type 0
CopyFits n (copy_ok s) = length s < n
CopyFits n copy_too_long = Unit
CopyFits n copy_tilde_too_long = Unit

pub copy_str-CopyFits :
    (home : Option Bytes) (n : ℕ) (val : Bytes) → CopyFits n (copy_str home n val)
unfolding stored
copy_str-CopyFits home n val =
    let s = unquoted val in
    elim (Bool-cases (leb n (length s))) [
      | inl e ↦ rw (copy_str_lem home n val, e) tt
      | inr e ↦ elim (Bool-cases (leb n (length (expanded home s)))) [
        | inl e' ↦ rw (copy_str_lem home n val, e, e') tt
        | inr e' ↦ rw (copy_str_lem home n val, e, e') (ground (arith, e'))
      ]
    ]

-- The three results of a copy.
copy_cases :
    (home : Option Bytes) (n : ℕ) (val : Bytes)
    → ((s : Bytes) × (copy_str home n val ≡ copy_ok s) × (length s < n))
      ⊎ ((copy_str home n val ≡ copy_too_long) ⊎ (copy_str home n val ≡ copy_tilde_too_long))
copy_cases home n val = cases (copy_str home n val) refl (copy_str-CopyFits home n val)
  where
    cases :
        (r : Copied)
        → copy_str home n val ≡ r
        → CopyFits n (copy_str home n val)
        → ((s : Bytes) × (copy_str home n val ≡ copy_ok s) × (length s < n))
          ⊎ ((copy_str home n val ≡ copy_too_long) ⊎ (copy_str home n val ≡ copy_tilde_too_long))
    cases (copy_ok s) e fits = inl (s, e, rw e at fits)
    cases copy_too_long e fits = inr (inl e)
    cases copy_tilde_too_long e fits = inr (inr e)

-- A key's value is rejected and the configuration is as it was, or it is taken and the configuration
-- is well formed.
abbrev pub Settles : Doubles → Config → Applied → Type 0
Settles asked cfg r = (r ≡ (cfg, false)) ⊎ ((c : Config) × WellFormed asked c × (r ≡ (c, true)))

pub Settles-WellFormed :
    (asked : Doubles) (cfg : Config) (r : Applied)
    → WellFormed asked cfg
    → Settles asked cfg r
    → WellFormed asked r.0
Settles-WellFormed asked cfg r ok (inl e) = subst (λ r. WellFormed asked r.0) (sym e) ok
Settles-WellFormed asked cfg r ok (inr (c, w, e)) = subst (λ r. WellFormed asked r.0) (sym e) w

becomes : (asked : Doubles) (r r' : Applied) → r ≡ r' → WellFormed asked r'.0 → WellFormed asked r.0
becomes asked r r' e w = subst (λ r. WellFormed asked r.0) (sym e) w

module _ (asked : Doubles) (host : Host) (cfg : Config) (ok : WellFormed asked cfg) where
  pub apply_str-Settles :
      (f : StrField) (val : Bytes) → Settles asked cfg (apply_str host cfg f val)
  unfolding apply_str set_str
  apply_str-Settles f val = elim (copy_cases host.home (str_size f) val) [
    | inl (s, e, fits) ↦ inr (
      set_str cfg f s,
      (ok.0, (set_str-TextsFit cfg f s ok.1.0 fits, ok.1.1)),
      rw (apply_str, e) refl,
    )
    | inr (inl e) ↦ inl (rw (apply_str, e) refl)
    | inr (inr e) ↦ inl (rw (apply_str, e) refl)
  ]

  topic_eq :
      (f : StrField) (val : Bytes)
      → has_wildcard val ≡ false
      → apply_topic host cfg f val ≡ apply_str host cfg f val
  unfolding apply_topic
  topic_eq f val e = rw (apply_topic, e) refl

  pub apply_topic-Settles :
      (f : StrField) (val : Bytes) → Settles asked cfg (apply_topic host cfg f val)
  unfolding apply_topic
  apply_topic-Settles f val = elim (Bool-cases (has_wildcard val)) [
    | inl e ↦ inl (rw (apply_topic, e) refl)
    | inr e ↦ subst (Settles asked cfg) (sym (topic_eq f val e)) (apply_str-Settles f val)
  ]

  pub apply_frame-Settles :
      (f : StrField) (val : Bytes) → Settles asked cfg (apply_frame host cfg f val)
  unfolding apply_frame set_str
  apply_frame-Settles f val = elim (copy_cases host.home 8 val) [
    | inl (s, e, fits) ↦ elim (Bool-cases (is s "NED")) [
      | inl ned ↦ inr (
        set_str cfg f (take (str_size f - 1) s),
        (
          ok.0,
          (set_str-TextsFit cfg f (take (str_size f - 1) s) ok.1.0 (length-take_fits f s), ok.1.1),
        ),
        rw (apply_frame, e, ned) refl,
      )
      | inr other ↦ inl (rw (apply_frame, e, other) refl)
    ]
    | inr (inl e) ↦ inl (rw (apply_frame, e) refl)
    | inr (inr e) ↦ inl (rw (apply_frame, e) refl)
  ]

  pub apply_bus_kind-Settles :
      (f : KindField) (val : Bytes) → Settles asked cfg (apply_bus_kind host cfg f val)
  unfolding apply_bus_kind set_kind
  apply_bus_kind-Settles f val = elim (copy_cases host.home 8 val) [
    | inl (s, e, fits) ↦ elim (Bool-cases (not (is s "i2c") && not (is s "spi"))) [
      | inl bad ↦ inl (rw (apply_bus_kind, e, bad) refl)
      | inr good ↦
          inr (
            set_kind cfg f (if is s "spi" then spi else i2c),
            ok,
            rw (apply_bus_kind, e, good) refl,
          )
    ]
    | inr (inl e) ↦ inl (rw (apply_bus_kind, e) refl)
    | inr (inr e) ↦ inl (rw (apply_bus_kind, e) refl)
  ]

  -- An accepted number has to be in the field's range.
  pub apply_int-Settles :
      (f : IntField) (val : Bytes) (accept : ℤ → Bool)
      → ((v : ℤ) → parse_int host val ≡ some v → accept v ≡ true → Within (int_range f) v)
      → Settles asked cfg (apply_int host cfg f val accept)
  unfolding apply_int set_int
  apply_int-Settles f val accept within = elim (Option-cases (parse_int host val)) [
    | inl e ↦ inl (rw (apply_int, e) refl)
    | inr (v, e) ↦ elim (Bool-cases (accept v)) [
      | inl taken ↦ inr (
        set_int cfg f v,
        (set_int-InRange cfg f v ok.0 (within v e taken), ok.1),
        rw (apply_int, e, taken) refl,
      )
      | inr refused ↦ inl (rw (apply_int, e, refused) refl)
    ]
  ]

  pub apply_mhz-WellFormed :
      (f : IntField) (val : Bytes)
      → int_range f ≡ none
      → WellFormed asked (apply_mhz host cfg f val).0
  unfolding apply_mhz set_int
  apply_mhz-WellFormed f val free = elim (Option-cases (parse_double host val)) [
    | inl e ↦ becomes asked (apply_mhz host cfg f val) (cfg, false) (rw (apply_mhz, e) refl) ok
    | inr (v, e) ↦ elim (Bool-cases (host.less 0 v)) [
      | inr low ↦
          becomes asked (apply_mhz host cfg f val) (cfg, false) (rw (apply_mhz, e, low) refl) ok
      | inl high ↦ elim (Bool-cases (host.less 0x413E848000000000 v)) [
        | inl too_high ↦
            becomes asked (apply_mhz host cfg f val) (cfg, false)
              (rw (apply_mhz, e, high, too_high) refl) ok
        | inr fine ↦
            becomes asked (apply_mhz host cfg f val)
              (set_int cfg f (host.to_mhz v), above (host.to_mhz v) 0)
              (rw (apply_mhz, e, high, fine) refl)
              (set_int-InRange cfg f (host.to_mhz v) ok.0 (rw free tt), ok.1)
      ]
    ]
  ]

  pub apply_double-Settles :
      (f : DoubleField) (val : Bytes) (accept : ℕ → Bool)
      → ((v : ℕ) → accept v ≡ true → asked f v)
      → Settles asked cfg (apply_double host cfg f val accept)
  unfolding apply_double set_double
  apply_double-Settles f val accept good = elim (Option-cases (parse_double host val)) [
    | inl e ↦ inl (rw (apply_double, e) refl)
    | inr (v, e) ↦ elim (Bool-cases (accept v)) [
      | inl taken ↦ inr (
        set_double cfg f v,
        (ok.0, (ok.1.0, set_double-DoublesAre asked cfg f v ok.1.1 (good v taken))),
        rw (apply_double, e, taken) refl,
      )
      | inr refused ↦ inl (rw (apply_double, e, refused) refl)
    ]
  ]

  pub apply_float-Settles :
      (f : FloatField) (val : Bytes) → Settles asked cfg (apply_float host cfg f val)
  unfolding apply_float set_float
  apply_float-Settles f val = elim (Option-cases (parse_double host val)) [
    | inl e ↦ inl (rw (apply_float, e) refl)
    | inr (v, e) ↦ inr (set_float cfg f (host.to_float v), ok, rw (apply_float, e) refl)
  ]

  pub apply_bool-Settles : (f : BoolField) (val : Bytes) → Settles asked cfg (apply_bool cfg f val)
  unfolding apply_bool set_bool
  apply_bool-Settles f val = elim (Option-cases (parse_bool val)) [
    | inl e ↦ inl (rw (apply_bool, e) refl)
    | inr (v, e) ↦ inr (set_bool cfg f v, ok, rw (apply_bool, e) refl)
  ]

  pub apply_euler-Settles : (val : Bytes) → Settles asked cfg (apply_euler host cfg val)
  unfolding apply_euler set_euler set_bool
  apply_euler-Settles val = elim (Option-cases (three_of (parse_float_array host val))) [
    | inl e ↦ inl (rw (apply_euler, e) refl)
    | inr (v, e) ↦ inr (set_euler host cfg v, ok, rw (apply_euler, e) refl)
  ]

  pub apply_matrix-Settles : (val : Bytes) → Settles asked cfg (apply_matrix host cfg val)
  unfolding apply_matrix set_bool
  apply_matrix-Settles val = elim (Option-cases (nine_of (parse_float_array host val))) [
    | inl e ↦ inl (rw (apply_matrix, e) refl)
    | inr (v, e) ↦ elim (Bool-cases (validate_rotation host (mat_of v))) [
      | inl taken ↦ inr (
        record (set_bool cfg mount_set true) { rot = v; euler = blank_vec },
        ok,
        rw (apply_matrix, e, taken) refl,
      )
      | inr refused ↦ inl (rw (apply_matrix, e, refused) refl)
    ]
  ]

  pub apply_preset-Settles : (val : Bytes) → Settles asked cfg (apply_preset host cfg val)
  unfolding apply_preset set_euler set_str set_bool
  apply_preset-Settles val = elim (copy_cases host.home 32 val) [
    | inl (s, e, fits) ↦ elim (Option-cases (preset_angles host s)) [
      | inl none_such ↦ inl (rw (apply_preset, e, none_such) refl)
      | inr (v, angles) ↦ inr (
        set_euler host (set_str cfg mount_preset (take (str_size mount_preset - 1) s)) v,
        (
          ok.0,
          (
            set_str-TextsFit cfg mount_preset (take (str_size mount_preset - 1) s) ok.1.0
                (length-take_fits mount_preset s),
            ok.1.1,
          ),
        ),
        rw (apply_preset, e, angles) refl,
      )
    ]
    | inr (inl e) ↦ inl (rw (apply_preset, e) refl)
    | inr (inr e) ↦ inl (rw (apply_preset, e) refl)
  ]
