-- ===== src/Daemon.antt =====
-- internal/daemon/daemon.go: starting, stopping and describing the background process.
pub mod Process
pub mod Status
pub mod StopLaws
pub mod StartLaws
use dockup.Base.{ℕ, Bool, true, false, not, ◌&&◌, ◌||◌, List, [], ◌∷◌, Str, codes, if◌then◌else◌}
use dockup.Base.Int.{ℤ, pos, eq_ℤ}
use dockup.Records.{State, Config, zero_daemon}
use dockup.Env.{Call, Env, spawn_serve, executable, open_log, mkdir, now, kill}
use dockup.Io.{World, M, pure, ◌>>=◌, ◌>>◌, Result, ok, err, is_ok, Done, ask, run, attempt}
use dockup.Config.{log_file}
use dockup.State.{current_state, with_lock, updates}
use dockup.Userconfig.Paths.{effective_pipe}
use dockup.Userconfig.File.{current_config}
use dockup.Wsl.Retry.{exec}
use dockup.Relay.Poll.{alive_on, wait_alive_on, wait_dead_on}
use dockup.Doctor.Reconcile.{Presence, reconcile_distro}
use dockup.Daemon.Process.{process_alive, kill_quiet}

abbrev pub no_daemon : State → State
no_daemon s = record s { daemon = zero_daemon }

abbrev pub pid_is_zero : State → Bool
pid_is_zero s = eq_ℤ s.daemon.pid (pos 0)

module _ (e : Env) where
  -- The end of the body of `Start`'s update: spawn `__serve` and record its pid.
  unfoldable pub spawn : State → M (Done × State)
  spawn s = do
    exe ← attempt e executable (codes "executable")
    if not (is_ok exe) then pure (exe, s) else do
      run e (mkdir (e.dir (log_file e)))
      logf ← attempt e open_log (codes "open log")
      if not (is_ok logf) then pure (logf, s) else do
        child ← ask e spawn_serve
        if not child.ok then pure (err (codes "couldn't start the background process"), s) else do
          at ← ask e now
          pure (
            ok tt,
            record s {
              daemon = record { pid = pos child.num; started_at = at.out; mirror = false };
            },
          )

  -- The body of `Start`'s update of the state.
  unfoldable pub start_locked : Str → State → M (Done × State)
  start_locked pipe s =
      if not s.installed then pure (err (codes "dockup has not been setup yet"), s) else do
        alive ← alive_on e pipe
        if alive && pid_is_zero s
            then pure (err (codes "dockup is already running in the foreground"), s)
            else if pid_is_zero s
            then spawn s
            else do
              running ← process_alive e s.daemon.pid
              if running
                  then pure (err (codes "dockup is already running in the background"), s)
                  else spawn (no_daemon s)

  -- With autostart on, a login boot with nothing installed is refused.
  refuses_autostart : Config → M Bool
  refuses_autostart ucfg =
      if ucfg.autostart then (do st ← current_state e; pure (not st.installed)) else pure false

  -- State claims an install that WSL has lost.
  distro_missing : M Bool
  distro_missing = do
    st ← current_state e
    if not st.installed
        then pure false
        else do p ← reconcile_distro e; pure (not p.failed && not p.present)

  -- Takes the child down that was just spawned.
  take_down : State → M (Done × State)
  take_down s = do kill_quiet e s.daemon.pid; pure (ok tt, no_daemon s)

  after_spawn : Str → M Done
  after_spawn pipe = do
    up ← wait_alive_on e pipe 15000
    if not up
        then (do d ← with_lock e (updates no_daemon); pure (err (codes "helper failed to come up")))
        else do
          warm ← exec e (codes "echo ok")
          if is_ok warm then pure (ok tt) else do
            d ← with_lock e take_down
            b ← wait_dead_on e pipe 5000
            pure (err (codes "distro is present but not responding"))

  -- `Start`
  pub start : M Done
  start = do
    ucfg ← current_config e
    let pipe = effective_pipe ucfg
    refused ← refuses_autostart ucfg
    if refused then pure (err (codes "dockup is not installed, autostart skipped")) else do
      missing ← distro_missing
      if missing then pure (err (codes "distro is missing from WSL")) else do
        r ← with_lock e (start_locked pipe)
        if not (is_ok r) then pure r else after_spawn pipe

  -- The body of `Stop`'s update: the pid of an alive process is killed and forgotten.
  stop_locked : State → M (Done × State)
  stop_locked s = if pid_is_zero s then pure (err (codes "dockup daemon is not running"), s) else do
    running ← process_alive e s.daemon.pid
    if not running
        then pure (err (codes "dockup daemon is not running (stale pid repaired)"), no_daemon s)
        else do kill_quiet e s.daemon.pid; pure (ok tt, no_daemon s)

  -- `Stop`; where the update succeeds the pid was not zero.
  pub stop : M Done
  stop = do
    r ← with_lock e stop_locked
    if not (is_ok r) then pure r else do
      ucfg ← current_config e
      b ← wait_dead_on e (effective_pipe ucfg) 10000
      pure (ok tt)
