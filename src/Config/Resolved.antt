-- ===== src/Config/Resolved.antt =====
-- src/config.c: which file `config_load_resolved` takes.
use imud.Prelude.{
  Bool, true, false, not, ◌&&◌, Option, none, some, take, if◌then◌else◌, ◌++◌, ◌≡◌, ◌⊎◌,
}
use imud.Prelude.Text.{text}
use imud.Wire.{Bytes}
use imud.Config.Fields.{Config}
use imud.Config.Values.{Host}
use imud.Config.Load.{Source, missing, LoadRc, load_ok, err_open, err_parse, err_perm, config_load}

abbrev is_missing : Source → Bool
is_missing missing = true
is_missing _ = false

-- The file under the home directory; without one, the system's file again.
abbrev pub home_path : Option Bytes → Bytes → Bytes
home_path home sys_path = elim home [
  | some dir ↦ take 255 (dir ++ text "/.config/imud/imud.conf")
  | none ↦ take 255 sys_path
]

-- With no explicit path, the file under the home directory is taken if it is there and the system's
-- is not.
pub falls_back : (Bytes → Source) → Option Bytes → Bytes → Option Bytes → Bool
falls_back files home sys_path (some _) = false
falls_back files home sys_path none =
    is_missing (files sys_path) && not (is_missing (files (home_path home sys_path)))

-- The path whose file is taken.
pub path_taken : (Bytes → Source) → Option Bytes → Bytes → Option Bytes → Bytes
path_taken files home sys_path (some path) = path
path_taken files home sys_path none =
    if falls_back files home sys_path none then home_path home sys_path else sys_path

-- The choice between the two loads, by their results and whether the two paths are one.
abbrev choice : Config → Config → LoadRc → LoadRc → Bool → Bytes → Bytes → Config × Bytes × LoadRc
choice first second rc alt_rc same sys_path alt = elim rc [
  | load_ok ↦ (first, sys_path, load_ok)
  | err_parse ↦ (first, sys_path, err_parse)
  | err_perm ↦ (first, sys_path, err_perm)
  | err_open ↦ if same then (first, sys_path, err_open) else elim alt_rc [
    | err_open ↦ (second, sys_path, err_open)
    | load_ok ↦ (second, alt, load_ok)
    | err_parse ↦ (second, alt, err_parse)
    | err_perm ↦ (second, alt, err_perm)
  ]
]

abbrev IsVerdict : LoadRc → Type 0
IsVerdict rc = (rc ≡ load_ok) ⊎ (rc ≡ err_parse)

module _ (host : Host) (etc_readable : Bool) (cfg : Config) (sys_path alt : Bytes) where
  -- What the two files and the comparison of their paths make of a configuration.
  abbrev outcome : Source → Source → Bool → Config × Bytes × LoadRc
  outcome s a same =
      let first = config_load host etc_readable s cfg in
      let second = config_load host etc_readable a first.0 in
      choice first.0 second.0 first.1 second.1 same sys_path alt

  -- The load of one file, with the path that is reported.
  abbrev loaded : Source → Config → Bytes → Config × Bytes × LoadRc
  loaded s c path = let r = config_load host etc_readable s c in (r.0, path, r.1)
