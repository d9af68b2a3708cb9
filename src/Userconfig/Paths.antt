-- ===== src/Userconfig/Paths.antt =====
-- The pure part of internal/userconfig/userconfig.go: defaults, ports, paths. `filepath.Clean`,
-- `IsAbs` and `Join` are the environment's; `ToSlash` and `FromSlash` are those of Windows.
use dockup.Base.{
  ℕ, ◌≤◌, ◌≡◌, ◌↔◌, refl, Bool, true, false, not, ◌&&◌, ◌||◌, Option, none, some, List, [], ◌∷◌,
  ◌++◌, Str, codes, str_eq, map, trim, trim_space, arith, ◌==◌, if◌then◌else◌,
}
use dockup.Base.Int.{ℤ, pos, negsuc, eq_ℤ, lt_ℤ}
use dockup.Base.Decimal.{decimal}
use dockup.Records.{Config}
use dockup.Env.{Env}
use dockup.Config.{default_pipe, default_install_root, wsl_install_dir}

abbrev pub default_port : ℤ
default_port = pos 2375

abbrev pub max_port : ℤ
max_port = pos 65535

-- `filepath.ToSlash` and `filepath.FromSlash`
pub to_slash : Str → Str
to_slash s = map (λ c. if c == b'\\' then b'/' else c) s

pub from_slash : Str → Str
from_slash s = map (λ c. if c == b'/' then b'\\' else c) s

-- `ValidatePort`: true for a nil error
unfoldable pub validate_port : ℤ → Bool
validate_port p = not (lt_ℤ p (pos 1) || lt_ℤ max_port p)

unfoldable pub effective_pipe : Config → Str
effective_pipe c = if not (str_eq c.pipe_name []) then c.pipe_name else default_pipe

unfoldable pub effective_port : Config → ℤ
effective_port c = if not (eq_ℤ c.port (pos 0)) then c.port else default_port

unfoldable pub print_int : ℤ → Str
print_int (pos n) = decimal n
print_int (negsuc n) = b'-' ∷ decimal (ℕ.suc n)

pub tcp_addr : Config → Str
unfolding print_int
tcp_addr c = codes "127.0.0.1:" ++ print_int (effective_port c)

is_quote_mark : ℕ → Bool
is_quote_mark c = (c == b'"') || (c == b'\'')

module _ (e : Env) where
  pub defaults : Config
  defaults = record {
    default_path = to_slash (default_install_root e);
    current_path = [];
    port = default_port;
    use_tcp = false;
    pipe_name = default_pipe;
    color = true;
    autostart = false;
    docker_context_prev = [];
  }

  unfoldable pub with_defaults : Config → Config
  unfolding defaults
  with_defaults c = record c {
    default_path = if str_eq c.default_path [] then defaults.default_path else c.default_path;
    port = if eq_ℤ c.port (pos 0) then defaults.port else c.port;
    pipe_name = if str_eq c.pipe_name [] then defaults.pipe_name else c.pipe_name;
  }

  -- `none` is an error: an empty path, or one that is not absolute.
  pub normalize_path : Str → Option Str
  unfolding is_quote_mark
  normalize_path s =
      let p = trim_space (trim is_quote_mark (trim_space s)) in
      if str_eq p []
      then none
      else if not (e.is_abs p) && not (e.is_abs (from_slash p))
      then none
      else some (to_slash (e.clean (from_slash p)))

  native : Option Str → Option Str
  native none = none
  native (some p) = some (from_slash p)

  pub resolve_install_dir : Str → Config → Option Str
  unfolding native
  resolve_install_dir flag_path cfg =
      if not (str_eq (trim_space flag_path) [])
      then native (normalize_path flag_path)
      else native (normalize_path cfg.default_path)

  first_root : List Str → Str
  first_root [] = wsl_install_dir e
  first_root (raw ∷ more) =
      let rest = first_root more in
      if str_eq (trim_space raw) []
      then rest
      else elim (normalize_path raw) [ none ↦ rest | some p ↦ from_slash p ]

  -- `InstallRoot`, of the config that `Load` gave
  pub install_root : Config → Str
  unfolding first_root
  install_root cfg = let c = with_defaults cfg in first_root (c.current_path ∷ c.default_path ∷ [])

-- A port is accepted exactly in the range 1 to 65535.
pub validate_port_iff :
    (p : ℤ) → (validate_port p ≡ true) ↔ ((n : ℕ) × (p ≡ pos n) × (1 ≤ n) × (n ≤ 65535))
unfolding validate_port
validate_port_iff (pos n) = (λ h. (n, refl, ground arith, ground arith), λ h. ground arith)
validate_port_iff (negsuc n) = (λ h. absurd (ground arith), λ h. ground arith)

module _ (e : Env) (c : Config) where
  -- Filling in the defaults twice is filling them in once, and what the relay serves by the record,
  -- its effective pipe and port, is not changed by it and stands in its fields afterwards.
  pub with_defaults_idem :
      (with_defaults e (with_defaults e c) ≡ with_defaults e c)
      × (effective_pipe (with_defaults e c) ≡ effective_pipe c)
      × (effective_port (with_defaults e c) ≡ effective_port c)
      × ((with_defaults e c).pipe_name ≡ effective_pipe c)
      × ((with_defaults e c).port ≡ effective_port c)
  unfolding with_defaults effective_pipe effective_port
  with_defaults_idem = ground arith

  -- The install root is current_path if that normalizes, else default_path with the default filled in
  -- if that does, else the legacy directory; a blank current_path is passed over.
  pub install_root-order :
      ((p : Str)
        → str_eq (trim_space c.current_path) [] ≡ false
        → normalize_path e c.current_path ≡ some p
        → install_root e c ≡ from_slash p)
      × ((p : Str)
          → str_eq (trim_space c.current_path) [] ≡ true
          → str_eq (trim_space (with_defaults e c).default_path) [] ≡ false
          → normalize_path e (with_defaults e c).default_path ≡ some p
          → install_root e c ≡ from_slash p)
      × (normalize_path e c.current_path ≡ none
          → normalize_path e (with_defaults e c).default_path ≡ none
          → install_root e c ≡ wsl_install_dir e)
  unfolding install_root with_defaults
  install_root-order = (
    λ p blank norm. ground arith,
    λ p blank filled norm. ground arith,
    λ none1 none2. ground arith,
  )
