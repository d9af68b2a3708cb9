-- ===== src/Cli/Prune.antt =====
-- `cmdPrune` and `cmdUpgrade` of cmd/dockup/main.go: what they do and return, without what they print.
use dockup.Base.{
  ℕ, ◌≡◌, Bool, true, false, not, ◌&&◌, Option, none, some, List, Str, codes, arith, if◌then◌else◌,
}
use dockup.Records.{State}
use dockup.Env.{Env}
use dockup.Io.{M, pure, ◌>>=◌, ok, err, is_ok, Done}
use dockup.Io.Keeps.{Keeps, SameFiles, same_files_rules}
use dockup.State.{current_state}
use dockup.State.Laws.{current_state-SameFiles}
use dockup.Userconfig.File.{current_root, current_root-SameFiles}
use dockup.Wsl.Listing.{exists, exists-SameFiles}
use dockup.Wsl.Retry.{exec_script-SameFiles}
use dockup.Docker.{upgrade}
use dockup.Docker.Prune.{prune}
use dockup.Image.Verify.{Crypto}
use dockup.Image.Cache.{is_arch, ensure_with_key}
use dockup.Image.Clear.{cache_exists, clear, cache_exists-SameFiles}
use dockup.Ui.{confirm}
use dockup.Cli.Flags.{has_help_flag}
use dockup.Cli.Options.{PruneOptions, prune_options}

module _ (e : Env) where
  unfoldable pub prune_agreed : Bool → M Bool
  prune_agreed force = if force then pure true else confirm e

  unfoldable pub prune_distro : PruneOptions → Bool → M Bool
  prune_distro o there =
      if there then (do d ← prune e o.all o.volumes; pure (is_ok d)) else pure true

  unfoldable pub prune_cache : Str → Bool → M Bool
  prune_cache root wanted = if wanted then (do n ← clear e root; pure (is_ok n)) else pure true

  -- Both parts are tried; the first error is the one that is shown.
  unfoldable pub prune_parts : PruneOptions → Str → Bool → Bool → M ℕ
  prune_parts o root there cached = do
    a ← prune_distro o there
    b ← prune_cache root (cached && not o.keep_image)
    pure (if a && b then 0 else 1)

  unfoldable pub prune_with : PruneOptions → M ℕ
  prune_with o = do
    root ← current_root e
    s ← current_state e
    there ← exists e
    cached ← cache_exists e root
    if not there && not cached then pure 1 else if not there && o.keep_image then pure 0 else do
      go ← prune_agreed o.force
      if not go then pure 0 else prune_parts o root there cached

  unfoldable pub prune_of : Option PruneOptions → M ℕ
  prune_of none = pure 1
  prune_of (some o) = prune_with o

  -- `cmdPrune`
  unfoldable pub cmd_prune : List Str → M ℕ
  cmd_prune args = if has_help_flag args then pure 0 else prune_of (prune_options args)

module _ (e : Env) (c : Crypto) (key : Str) where
  unfoldable pub upgrade_arch : State → Str
  upgrade_arch s = if is_arch s.arch then s.arch else codes "amd64"

  -- The cached image is refreshed last, and its failure is only warned of.
  unfoldable pub refresh_image : Bool → Str → Str → M ℕ
  refresh_image cached root arch =
      if cached then (do r ← ensure_with_key e c key root arch true; pure 0) else pure 0

  unfoldable pub after_upgrade : Bool → Str → Str → Done → M ℕ
  after_upgrade cached root arch (err m) = pure 1
  after_upgrade cached root arch (ok u) = refresh_image cached root arch

  unfoldable pub upgrade_installed : State → M ℕ
  upgrade_installed s = do
    root ← current_root e
    cached ← cache_exists e root
    go ← confirm e
    if not go then pure 0 else do d ← upgrade e; after_upgrade cached root (upgrade_arch s) d

  unfoldable pub gone_from : State → M Bool
  gone_from s = if s.installed then pure false else do there ← exists e; pure (not there)

  -- `cmdUpgrade`
  unfoldable pub cmd_upgrade : M ℕ
  cmd_upgrade = do
    s ← current_state e
    gone ← gone_from s
    if gone then pure 1 else upgrade_installed s

module _ (e : Env) (fs : Str → Option Str) where
  prune-SameFiles : (all volumes : Bool) → Keeps (SameFiles fs) (prune e all volumes)
  unfolding prune
  prune-SameFiles all volumes = exec_script-SameFiles e fs _

  agreed-SameFiles : (force : Bool) → Keeps (SameFiles fs) (prune_agreed e force)
  unfolding prune_agreed confirm
  agreed-SameFiles force = search same_files_rules

  parts-SameFiles :
      (o : PruneOptions) (root : Str) (there cached : Bool)
      → (cached && not o.keep_image) ≡ false
      → Keeps (SameFiles fs) (prune_parts e o root there cached)
  unfolding prune_parts prune_distro prune_cache
  parts-SameFiles o root there cached kept =
      rw kept (search (same_files_rules, prune-SameFiles) depth 12)

  -- With --keep-image, whatever else is asked for or fails, `dockup prune` changes no file on Windows.
  pub prune_with-kept :
      (o : PruneOptions) → o.keep_image ≡ true → Keeps (SameFiles fs) (prune_with e o)
  unfolding prune_with
  prune_with-kept o keep =
      search
        (
          same_files_rules, current_root-SameFiles, current_state-SameFiles, exists-SameFiles,
          cache_exists-SameFiles, agreed-SameFiles, parts-SameFiles, kept,
        )
        depth 16
    where
      kept : (cached : Bool) → (cached && not o.keep_image) ≡ false
      kept cached = ground (arith, keep)
