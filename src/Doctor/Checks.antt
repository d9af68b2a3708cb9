-- ===== src/Doctor/Checks.antt =====
-- The checks of `RunEx` in internal/doctor/doctor.go: each gives the number of failures that it adds;
-- what they print is left out.
use dockup.Base.{
  ℕ, ◌+◌, Bool, true, false, not, ◌&&◌, Option, none, some, [], ◌∷◌, Str, codes, contains, str_eq,
  if◌then◌else◌,
}
use dockup.Base.Int.{ℤ, pos, eq_ℤ}
use dockup.Records.{State, Config, zero_daemon}
use dockup.Env.{Env, look_path, wsl_exec}
use dockup.Io.{M, pure, ◌>>=◌, ◌>>◌, Result, ok, err, ask, run, succeeds, read_path}
use dockup.Config.{default_pipe}
use dockup.State.{with_lock, updates}
use dockup.Userconfig.Paths.{
  with_defaults, normalize_path, validate_port, effective_port, effective_pipe, tcp_addr,
}
use dockup.Userconfig.File.{load_config}
use dockup.Wsl.Listing.{exists, is_running}
use dockup.Relay.Poll.{alive_on, tcp_alive}
use dockup.Dockctx.{context_info}
use dockup.Autostart.{is_enabled}

abbrev pub fails : Bool → ℕ
fails true = 1
fails false = 0

abbrev missing : Option Str → Bool
missing none = true
missing (some p) = false

module _ (e : Env) where
  -- The paths and the port of a configuration that could be loaded.
  unfoldable pub config_failures : Config → ℕ
  config_failures cfg =
      fails (missing (normalize_path e cfg.default_path))
      + (fails (not (str_eq cfg.current_path []) && missing (normalize_path e cfg.current_path))
          + fails (not (validate_port (effective_port cfg))))

  unfoldable pub config_of : Result Config → M ℕ
  config_of (err m) = pure 1
  config_of (ok loaded) = do
    shortcut ← is_enabled e
    pure (config_failures (with_defaults e loaded))

  unfoldable pub check_config : M ℕ
  check_config = do c ← load_config e; config_of c

  -- .wslconfig is read for advice only.
  unfoldable pub check_memory : Option Str → M Unit
  check_memory none = pure tt
  check_memory (some home) = do
    text ← read_path e (e.join (home ∷ codes ".wslconfig" ∷ []))
    pure tt

  unfoldable pub check_wsl : M ℕ
  check_wsl = do found ← succeeds e (look_path (codes "wsl.exe")); pure (fails (not found))

  unfoldable pub check_distro : State → M ℕ
  check_distro s = do there ← exists e; pure (fails (not there && s.installed))

  -- What a running distro answers: PID 1 counts, the socket is only looked at.
  unfoldable pub ask_distro : M ℕ
  ask_distro = do
    r ← ask e (wsl_exec (codes "sh -c ps -p 1 -o comm="))
    run e (wsl_exec (codes "sh -c test -S /var/run/docker.sock && echo ok"))
    pure (fails (r.ok && not (contains r.out (codes "systemd"))))

  unfoldable pub check_running : M ℕ
  check_running = do
    shown ← is_running e
    there ← exists e
    if not there then pure 0 else do running ← is_running e; if running then ask_distro else pure 0

  unfoldable pub pipe_of : Result Config → Str
  pipe_of (err m) = default_pipe
  pipe_of (ok loaded) = effective_pipe (with_defaults e loaded)

  unfoldable pub tcp_of : Result Config → M Unit
  tcp_of (err m) = pure tt
  tcp_of (ok loaded) =
      let c = with_defaults e loaded in
      if c.use_tcp then (do up ← tcp_alive e (tcp_addr c); pure tt) else pure tt

  -- The pipe, the docker context, the TCP bridge and the docker CLI, which never fail the run; the
  -- pipe is what the rest goes by.
  unfoldable pub look_around : M Str
  look_around = do
    c ← load_config e
    held ← alive_on e (pipe_of c)
    info ← context_info e (pipe_of c)
    again ← load_config e
    tcp_of again
    run e (look_path (codes "docker.exe"))
    pure (pipe_of c)

  -- The update that clears a stale pid, if it still is the recorded one.
  abbrev pub clear_pid : ℤ → State → State
  clear_pid pid s = if eq_ℤ s.daemon.pid pid then record s { daemon = zero_daemon } else s

  unfoldable pub clear_stale : State → Str → M Unit
  clear_stale s pipe = if eq_ℤ s.daemon.pid (pos 0) then pure tt else do
    held ← alive_on e pipe
    if held then pure tt else do d ← with_lock e (updates (clear_pid s.daemon.pid)); pure tt
