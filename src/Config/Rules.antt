-- ===== src/Config/Rules.antt =====
-- src/config.c, `apply_kv`: the section's key decides which macro takes the value.
use imud.Prelude.{[], ◌∷◌, if◌then◌else◌}
use imud.Prelude.Text.{is}
use imud.Wire.{Bytes}
use imud.Config.Values.{Rule, warn_unknown}
use imud.Config.Keys.{
  Rules, mount_rules, device_rules, runtime_rules, capture_rules, imu_rules, mag_rules,
  fusion_rules, calibration_rules, nmea_rules, highrate_rules, stream_rules, signalk_rules,
  mqtt_rules, influx_rules, prom_rules, mavlink_rules, logging_rules, position_rules,
}

-- `section_t`
pub data Section : Type 0 where
  none_yet unknown mount device runtime capture imu mag fusion calibration nmea highrate : Section
  stream signalk mqtt influx prom mavlink logging position : Section

unfoldable pub parse_section : Bytes → Section
parse_section s =
    if is s "[mount]"
    then mount
    else if is s "[device]"
    then device
    else if is s "[runtime]"
    then runtime
    else if is s "[capture]"
    then capture
    else if is s "[imu]"
    then imu
    else if is s "[mag]"
    then mag
    else if is s "[fusion]"
    then fusion
    else if is s "[calibration]"
    then calibration
    else if is s "[nmea]"
    then nmea
    else if is s "[highrate]"
    then highrate
    else if is s "[stream]"
    then stream
    else if is s "[imud-signalk]"
    then signalk
    else if is s "[imud-mqtt]"
    then mqtt
    else if is s "[imud-influxdb]"
    then influx
    else if is s "[imud-prometheus]"
    then prom
    else if is s "[imud-mavlink]"
    then mavlink
    else if is s "[logging]"
    then logging
    else if is s "[position]"
    then position
    else unknown

-- `switch (sec)`. A key before any section, and one of an unknown section, has no rule.
unfoldable pub section_rules : Section → Rules
section_rules none_yet = []
section_rules unknown = []
section_rules mount = mount_rules
section_rules device = device_rules
section_rules runtime = runtime_rules
section_rules capture = capture_rules
section_rules imu = imu_rules
section_rules mag = mag_rules
section_rules fusion = fusion_rules
section_rules calibration = calibration_rules
section_rules nmea = nmea_rules
section_rules highrate = highrate_rules
section_rules stream = stream_rules
section_rules signalk = signalk_rules
section_rules mqtt = mqtt_rules
section_rules influx = influx_rules
section_rules prom = prom_rules
section_rules mavlink = mavlink_rules
section_rules logging = logging_rules
section_rules position = position_rules

-- `else if (strcmp(key, …) == 0)`, to the last.
unfoldable pub find_rule : Rules → Bytes → Rule
find_rule [] key = warn_unknown
find_rule ((name, rule) ∷ rules) key = if is key name then rule else find_rule rules key

unfoldable pub rule_for : Section → Bytes → Rule
rule_for sec key = find_rule (section_rules sec) key
