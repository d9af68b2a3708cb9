-- ===== src/Restore/Full.antt =====
-- `Run` and `runFull` of internal/restore/restore.go: a full restore is a setup in the same place.
use dockup.Base.{ℕ, Bool, true, false, not, Option, some, [], Str, codes, str_eq, if◌then◌else◌}
use dockup.Records.{State}
use dockup.Env.{Env}
use dockup.Io.{M, pure, ◌>>=◌, Result, ok, err}
use dockup.State.{load_state}
use dockup.Userconfig.File.{current_root, ensure_config, config_or_defaults}
use dockup.Wsl.Listing.{exists}
use dockup.Ui.{confirm}
use dockup.Image.Verify.{Crypto}
use dockup.Image.Cache.{is_arch}
use dockup.Setup.Install.{setup}
use dockup.Cli.Options.{RestoreOptions}
use dockup.Restore.Light.{run_light}

unfoldable pub arch_of : Result State → Str
arch_of (err m) = []
arch_of (ok s) = if is_arch s.arch then s.arch else []

abbrev pub known_arch : Str → Str
known_arch arch = if is_arch arch then arch else codes "amd64"

module _ (e : Env) (c : Crypto) (key : Str) (rounds : ℕ) where
  -- The arch that was asked for, or that of the last setup
  unfoldable pub restore_arch : Str → M Str
  restore_arch arch =
      if str_eq arch []
      then (do r ← load_state e; pure (known_arch (arch_of r)))
      else pure (known_arch arch)

  unfoldable pub restore_dir : Str → M Str
  restore_dir path = if str_eq path [] then current_root e else pure path

  unfoldable pub full_agreed : Bool → M Bool
  full_agreed force = if force then pure true else confirm e

  -- `runFull`
  unfoldable pub run_full : RestoreOptions → M (Option ℕ)
  run_full o = do
    arch ← restore_arch o.arch
    dir ← restore_dir o.path
    go ← full_agreed o.force
    if not go then pure (some 0) else do
      cfg ← ensure_config e
      setup e c key rounds
          (record { arch = arch; path = dir; dry_run = false; cfg = config_or_defaults e cfg })

  -- `Run`
  unfoldable pub run_restore : RestoreOptions → M (Option ℕ)
  run_restore o = do
    there ← exists e
    if not there
        then pure (some 1)
        else if o.full
        then run_full o
        else do n ← run_light e o.force; pure (some n)
