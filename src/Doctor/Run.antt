-- ===== src/Doctor/Run.antt =====
-- `RunEx` and `fixDistro` of internal/doctor/doctor.go, and which calls they may make.
use dockup.Base.{ℕ, ◌+◌, Bool, not, codes, ltb, if◌then◌else◌}
use dockup.Env.{Env, terminate, sleep}
use dockup.Io.{M, pure, ◌>>=◌, ◌>>◌, ◌>>?◌, ok, err, is_ok, Done, run}
use dockup.State.{current_state}
use dockup.Wsl.Listing.{exists}
use dockup.Wsl.Retry.{exec_script, run_retry}
use dockup.Docker.{test_daemon, wait_daemon, preflight_script, install_script, configure_script}
use dockup.Doctor.Reconcile.{reconcile_distro}
use dockup.Doctor.Checks.{
  check_config, check_memory, check_wsl, check_distro, check_running, look_around, clear_stale,
}

module _ (e : Env) where
  -- An engine that does not answer is installed again.
  unfoldable pub reinstall : Done → M Done
  reinstall (ok u) = pure (ok tt)
  reinstall (err m) = exec_script e preflight_script >>? λ u. run_retry e 2 install_script

  -- `fixDistro`
  unfoldable pub fix_distro : M Done
  fix_distro = do
    r ← test_daemon e
    reinstall r >>? λ u. exec_script e configure_script >>? λ v. do
      run e terminate
      run e (sleep 3000)
      wait_daemon e 90000

  unfoldable pub report : ℕ → Done
  report failures = if ltb 0 failures then err (codes "critical check(s) failed") else ok tt

  unfoldable pub fix_if : Bool → ℕ → M Done
  fix_if fix failures = if not fix then pure (report failures) else do
    there ← exists e
    if not there
        then pure (report failures)
        else do d ← fix_distro; pure (if is_ok d then report failures else d)

  -- `RunEx`
  unfoldable pub run_doctor : Bool → M Done
  run_doctor fix = do
    config ← check_config e
    check_memory e e.user_home
    wsl ← check_wsl e
    s ← current_state e
    distro ← check_distro e s
    running ← check_running e
    pipe ← look_around e
    clear_stale e s pipe
    present ← reconcile_distro e
    fix_if fix (config + (wsl + (distro + running)))
