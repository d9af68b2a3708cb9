-- ===== src/Setup/Install.antt =====
-- `RunEx` of internal/setup/setup.go with its prompts. A retry starts `Run` anew, which is given a
-- number of rounds; `none` where they are used up.
use dockup.Base.{
  ℕ, zero, suc, Bool, true, false, not, ◌||◌, ◌&&◌, Option, none, some, List, [], ◌∷◌, Str, codes,
  str_eq, trim_space, ◌++◌, if◌then◌else◌,
}
use dockup.Base.Int.{ℤ, pos, negsuc}
use dockup.Records.{State, Config, zero_state}
use dockup.Env.{Env, read_line, mkdir, stat, unregister, now}
use dockup.Io.{M, pure, ◌>>=◌, ◌>>◌, ◌>>?◌, Result, ok, err, Done, ask, run, attempt, remove_path}
use dockup.Config.{
  distro_subdir, image_url, rootfs_url, rootfs_fallback_url, temp_tar, temp_tar_fallback,
}
use dockup.State.{with_lock, updates}
use dockup.Userconfig.Paths.{
  with_defaults, effective_pipe, resolve_install_dir, to_slash, from_slash,
}
use dockup.Userconfig.File.{ensure_config, config_or_defaults, save_config}
use dockup.Wsl.Listing.{exists}
use dockup.Wsl.Retry.{exec, import_distro}
use dockup.Download.{fetch, format_mb, size}
use dockup.Image.Verify.{Crypto}
use dockup.Image.Cache.{Chosen, is_arch, ensure_with_key}
use dockup.Docker.{install, configure, wait_daemon, manual_packages}
use dockup.Dockctx.{available, ensure}
use dockup.Relay.Poll.{alive_on}
use dockup.Ui.{confirm, answer_of}

-- `Options`
pub record Options : Type 0 where
  pub arch : Str
  pub path : Str
  pub dry_run : Bool
  pub cfg : Config

-- The tar to import: the signed image, or a Debian rootfs, and the temporary file of the latter.
pub record Source : Type 0 where
  pub tar : Str
  pub image_used : Bool
  pub dest : Str

unfoldable pub is_retry : Str → Bool
is_retry line =
    let answer = answer_of line in
    str_eq answer (codes "retry")
    || (str_eq answer (codes "r") || (str_eq answer (codes "y") || str_eq answer (codes "yes")))

abbrev pub installed_state : Str → Str → Str → List Str → State → State
installed_state arch setup_at taken_at names s = record s {
  installed = true;
  arch = arch;
  setup_at = setup_at;
  snapshot = record { at = taken_at; manual = names };
}

abbrev pub names_of : Result (List Str) → List Str
names_of (ok names) = names
names_of (err m) = []

-- `sizeOf` of an answer
abbrev pub size_text : ℤ → Str
size_text (pos b) = format_mb (pos b) ++ codes " MB"
size_text (negsuc n) = codes "size unknown"

module _ (e : Env) where
  -- `askRetryAbort`
  unfoldable pub ask_retry_abort : M Bool
  ask_retry_abort = do r ← ask e read_line; pure (is_retry r.out)

  abbrev pub or_default_path : Config → Option Str → Str
  or_default_path cfg none = from_slash cfg.default_path
  or_default_path cfg (some dir) = dir

  -- `askInstallPath`
  unfoldable pub ask_install_path : Config → Str → M (Option Str)
  ask_install_path cfg flag =
      if not (str_eq (trim_space flag) []) then pure (resolve_install_dir e flag cfg) else do
        r ← ask e read_line
        pure (
            if str_eq (trim_space r.out) []
            then some (or_default_path cfg (resolve_install_dir e [] cfg))
            else resolve_install_dir e r.out cfg)

  -- `sizeOf`
  abbrev pub size_of : Str → M Str
  size_of url = size e url >>= λ n. pure (size_text n)

  -- `dryRunPlan`: it prints the sizes that it asks of the network.
  unfoldable pub dry_run_plan : Str → M ℕ
  dry_run_plan arch = do
    shown ← size_of (image_url e arch)
    shown ← size_of (rootfs_url arch)
    shown ← size_of (rootfs_fallback_url arch)
    pure 0

  -- `fail`
  unfoldable pub fail_setup : Config → M (Option ℕ)
  fail_setup cfg = do d ← save_config e (record cfg { current_path = [] }); pure (some 1)

  -- Step 1 without an image: the Debian rootfs, or its fallback.
  unfoldable pub second_source : Str → Done → M (Result Source)
  second_source arch (ok u) =
      pure (ok (record { tar = temp_tar e arch; image_used = false; dest = temp_tar e arch }))
  second_source arch (err m) =
      fetch e (rootfs_fallback_url arch) (temp_tar_fallback e arch) >>? λ u. pure (
        ok (record {
          tar = temp_tar_fallback e arch;
          image_used = false;
          dest = temp_tar_fallback e arch;
        }))

  unfoldable pub from_image : Str → Result Chosen → M (Result Source)
  from_image arch (ok img) =
      pure (ok (record { tar = img.tar; image_used = true; dest = temp_tar e arch }))
  from_image arch (err m) = do
    total ← size e (rootfs_url arch)
    r ← fetch e (rootfs_url arch) (temp_tar e arch)
    second_source arch r

  -- Step 2
  unfoldable pub import_rootfs : Str → Source → M Done
  import_rootfs dir src =
      attempt e (mkdir (e.join (dir ∷ distro_subdir ∷ []))) (codes "mkdir wsl dir") >>? λ u.
      attempt e (stat src.tar) (codes "rootfs missing") >>? λ v.
      import_distro e (e.join (dir ∷ distro_subdir ∷ [])) src.tar

  -- Steps 4 to 6 of an install from packages, which an image whose engine does not start falls back to.
  unfoldable pub install_engine : M Done
  install_engine = install e >>? λ u. configure e >>? λ v. wait_daemon e 90000

  unfoldable pub or_install : Done → M Done
  or_install (ok u) = pure (ok tt)
  or_install (err m) = install_engine

  unfoldable pub start_engine : Bool → M Done
  start_engine false = install_engine
  start_engine true = do r ← (configure e >>? λ u. wait_daemon e 90000); or_install r

  -- Steps 3 to 6
  unfoldable pub check_distro : Source → M Done
  check_distro src = exec e (codes "sh -c echo ok") >>? λ u. start_engine src.image_used

  unfoldable pub add_context : Config → M Unit
  add_context cfg = do
    cli ← available e
    if not cli then pure tt else do r ← ensure e (effective_pipe cfg); pure tt

  -- The body of the update that ends a setup.
  unfoldable pub record_install : Str → List Str → State → M (Done × State)
  record_install arch names s = do
    at ← ask e now
    taken ← ask e now
    pure (ok tt, installed_state arch at.out taken.out names s)

  -- Step 7 and what is recorded: the failures of the record are ignored.
  unfoldable pub finish_setup : Str → Config → Str → Source → M (Option ℕ)
  finish_setup arch cfg dir src = do
    held ← alive_on e (effective_pipe cfg)
    snap ← manual_packages e
    d ← with_lock e (record_install arch (names_of snap))
    s ← save_config e (record cfg { default_path = to_slash dir; current_path = to_slash dir })
    a ← remove_path e src.dest
    b ← remove_path e (temp_tar_fallback e arch)
    add_context cfg
    pure (some 0)

module _ (e : Env) (c : Crypto) (key : Str) where
  -- Step 1
  unfoldable pub find_rootfs : Str → Str → M (Result Source)
  find_rootfs arch dir = do img ← ensure_with_key e c key dir arch false; from_image e arch img

  -- Steps 1 and 2
  unfoldable pub place_rootfs : Str → Str → M (Result Source)
  place_rootfs arch dir =
      find_rootfs arch dir >>? λ src. import_rootfs e dir src >>? λ u. pure (ok src)

  module _ (again : M (Option ℕ)) (arch : Str) (cfg : Config) where
    unfoldable pub retry_or_fail : Bool → M (Option ℕ)
    retry_or_fail retry = if retry then again else fail_setup e cfg

    unfoldable pub after_check : Str → Source → Done → M (Option ℕ)
    after_check dir src (ok u) = finish_setup e arch cfg dir src
    after_check dir src (err m) = do retry ← ask_retry_abort e; retry_or_fail retry

    unfoldable pub after_rootfs : Str → Result Source → M (Option ℕ)
    after_rootfs dir (err m) = fail_setup e cfg
    after_rootfs dir (ok src) = do r ← check_distro e src; after_check dir src r

    -- Behind the prompts
    unfoldable pub install_at : Bool → Option Str → M (Option ℕ)
    install_at dry none = pure (some 1)
    install_at dry (some dir) =
        if dry
        then (do n ← dry_run_plan e arch; pure (some n))
        else do src ← place_rootfs arch dir; after_rootfs dir src

    unfoldable pub drop_old : M Unit
    drop_old = do run e unregister; d ← with_lock e (updates (λ s. zero_state)); pure tt

    -- An installed distro is dropped once that is confirmed.
    unfoldable pub confirmed : Bool → Str → Bool → M (Option ℕ)
    confirmed dry path there =
        if there && dry then (do n ← dry_run_plan e arch; pure (some n)) else do
          (if there then drop_old else pure tt)
          dir ← ask_install_path e cfg path
          install_at dry dir

  unfoldable pub run_ex : M (Option ℕ) → Options → M (Option ℕ)
  run_ex again o = if not (is_arch o.arch) then pure (some 1) else do
    there ← exists e
    go ← confirm e
    if not go
        then pure (some 0)
        else confirmed again o.arch (with_defaults e o.cfg) o.dry_run o.path there

  -- `Run`
  unfoldable pub run_setup : ℕ → Str → M (Option ℕ)
  run_setup zero arch = pure none
  run_setup (suc rounds) arch = do
    cfg ← ensure_config e
    run_ex (run_setup rounds arch)
        (record { arch = arch; path = []; dry_run = false; cfg = config_or_defaults e cfg })

  -- `RunEx` with the rounds that a retry may use
  unfoldable pub setup : ℕ → Options → M (Option ℕ)
  setup rounds o = run_ex (run_setup rounds o.arch) o
