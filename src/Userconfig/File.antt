-- ===== src/Userconfig/File.antt =====
-- `Load`, `Save`, `Ensure` and `DistroDir` of internal/userconfig/userconfig.go.
use dockup.Base.{
  ◌⊎◌, ◌≡◌, Bool, true, not, Option, none, some, [], ◌∷◌, ◌++◌, Str, codes, str_eq, str_eq_refl,
  arith, if◌then◌else◌,
}
use dockup.Records.{Config, zero_config}
use dockup.Env.{Call, Env, mkdir, stat, read_file, write_file}
use dockup.Io.{
  World, ask, M, pure, ◌>>=◌, Result, ok, err, is_ok, Done, Read, content, not_exist, read_error,
  attempt, read_path, write_path, is_file,
}
use dockup.Io.Keeps.{Keeps, SameFiles, same_files_rules, Only, only_rules}
use dockup.Userconfig.Paths.{defaults, with_defaults, install_root}

home_or : Str → Option Str → Str
home_or profile none = profile
home_or profile (some home) = if str_eq home [] then profile else home

module _ (e : Env) where
  -- `Dir`
  pub config_dir : Str
  config_dir = e.join (home_or (e.getenv (codes "USERPROFILE")) e.user_home ∷ codes ".dockup" ∷ [])

  -- `File`
  unfoldable pub config_file : Str
  config_file = e.join (config_dir ∷ codes "config.json" ∷ [])

  pub decode_config : Read → Result Config
  decode_config not_exist = ok (defaults e)
  decode_config read_error = err (codes "read config.json")
  decode_config (content text) = elim (e.config_json.decode text) [
    | none ↦ err (codes "parse config.json")
    | some c ↦ ok (with_defaults e c)
  ]

  unfoldable pub load_config : M (Result Config)
  load_config = do r ← read_path e config_file; pure (decode_config r)

  -- `cfg, _ := Load()` and then `WithDefaults`
  pub config_or_defaults : Result Config → Config
  config_or_defaults (ok c) = with_defaults e c
  config_or_defaults (err m) = with_defaults e zero_config

  pub current_config : M Config
  current_config = do r ← load_config; pure (config_or_defaults r)

  unfoldable pub save_config : Config → M Done
  save_config c = do
    made ← attempt e (mkdir config_dir) (codes "mkdir")
    if not (is_ok made)
        then pure made
        else write_path e config_file (e.config_json.encode (with_defaults e c) ++ codes "\n")

  unfoldable pub saved_or : Config → Done → Result Config
  saved_or c (ok u) = ok c
  saved_or c (err m) = err m

  -- `Ensure`
  unfoldable pub ensure_config : M (Result Config)
  ensure_config = do
    there ← is_file e config_file
    if there then load_config else do d ← save_config (defaults e); pure (saved_or (defaults e) d)

  -- `InstallRoot`; an error of `Load` counts as the zero record.
  pub current_root : M Str
  current_root = do c ← current_config; pure (install_root e c)

  has_vhdx : Str → M Bool
  has_vhdx dir = is_file e (e.join (dir ∷ codes "ext4.vhdx" ∷ []))

  -- `DistroDir`
  pub distro_dir : Str → M Str
  distro_dir root = do
    let nested = e.join (root ∷ codes "distro" ∷ [])
    new ← has_vhdx nested
    if new then pure nested else do old ← has_vhdx root; pure (if old then root else nested)

  pub distro_dir-cases :
      (root : Str) (w : World)
      → ((distro_dir root w).0 ≡ e.join (root ∷ codes "distro" ∷ []))
        ⊎ ((distro_dir root w).0 ≡ root)
  unfolding distro_dir pure ◌>>=◌
  distro_dir-cases root w = ground arith

  -- A successful save leaves the encoded record in config.json.
  pub save_config-ok :
      (c : Config) (w : World)
      → is_ok (save_config c w).0 ≡ true
      → (save_config c w).1.files config_file
        ≡ some (e.config_json.encode (with_defaults e c) ++ codes "\n")
  unfolding save_config attempt write_path ask ◌>>=◌
  save_config-ok c w h = ground (arith, str_eq_refl config_file)

module _ (e : Env) (fs : Str → Option Str) where
  pub load_config-SameFiles : Keeps (SameFiles fs) (load_config e)
  unfolding load_config
  load_config-SameFiles = search same_files_rules

  pub current_config-SameFiles : Keeps (SameFiles fs) (current_config e)
  unfolding current_config
  current_config-SameFiles = search (same_files_rules, load_config-SameFiles)

  pub current_root-SameFiles : Keeps (SameFiles fs) (current_root e)
  unfolding current_root
  current_root-SameFiles = search (same_files_rules, current_config-SameFiles)

  has_vhdx-SameFiles : (dir : Str) → Keeps (SameFiles fs) (has_vhdx e dir)
  unfolding has_vhdx
  has_vhdx-SameFiles dir = search same_files_rules

  pub distro_dir-SameFiles : (root : Str) → Keeps (SameFiles fs) (distro_dir e root)
  unfolding distro_dir
  distro_dir-SameFiles root = search (same_files_rules, has_vhdx-SameFiles)

-- The calls that reading and writing config.json make.
abbrev pub AllowsConfig : Env → (Call → Bool) → Type 0
AllowsConfig e allowed =
    (allowed (read_file (config_file e)) ≡ true)
    × (allowed (mkdir (config_dir e)) ≡ true)
    × (allowed (write_file (config_file e)) ≡ true)
    × ((p : Str) → allowed (stat p) ≡ true)

module _ (e : Env) (allowed : Call → Bool) (allows : AllowsConfig e allowed) where
  pub load_config-Only : Keeps (Only allowed) (load_config e)
  unfolding load_config
  load_config-Only = search (only_rules, allows)

  pub current_config-Only : Keeps (Only allowed) (current_config e)
  unfolding current_config
  current_config-Only = search (only_rules, load_config-Only)

  pub current_root-Only : Keeps (Only allowed) (current_root e)
  unfolding current_root
  current_root-Only = search (only_rules, current_config-Only)

  pub save_config-Only : (c : Config) → Keeps (Only allowed) (save_config e c)
  unfolding save_config
  save_config-Only c = search (only_rules, allows)

  has_vhdx-Only : (dir : Str) → Keeps (Only allowed) (has_vhdx e dir)
  unfolding has_vhdx
  has_vhdx-Only dir = search (only_rules, allows.3)

  pub distro_dir-Only : (root : Str) → Keeps (Only allowed) (distro_dir e root)
  unfolding distro_dir
  distro_dir-Only root = search (only_rules, has_vhdx-Only)

  pub ensure_config-Only : Keeps (Only allowed) (ensure_config e)
  unfolding ensure_config
  ensure_config-Only = search (only_rules, allows.3, load_config-Only, save_config-Only)
