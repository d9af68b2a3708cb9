-- ===== src/Daemon/Status.antt =====
-- `Status` of internal/daemon/daemon.go.
use dockup.Base.{ℕ, ◌≡◌, Bool, false, not, ◌&&◌, ◌||◌, arith, if◌then◌else◌}
use dockup.Env.{Env}
use dockup.Io.{M, pure, ◌>>=◌}
use dockup.State.{current_state}
use dockup.Userconfig.Paths.{effective_pipe, tcp_addr}
use dockup.Userconfig.File.{current_config}
use dockup.Relay.Poll.{alive_on, tcp_alive}
use dockup.Daemon.{pid_is_zero}
use dockup.Daemon.Process.{process_alive}

-- The `switch` of `Status`, as far as its exit code goes.
unfoldable pub status_code : Bool → Bool → Bool → Bool → ℕ
status_code daemon_up alive installed no_pid =
    if daemon_up && alive
    then 0
    else if alive && (installed && no_pid)
    then 0
    else if alive && not installed
    then 1
    else if installed && alive
    then 0
    else 1

module _ (e : Env) where
  pub status : M ℕ
  status = do
    s ← current_state e
    ucfg ← current_config e
    alive ← alive_on e (effective_pipe ucfg)
    daemon_up ← process_alive e s.daemon.pid
    tcp ← (if ucfg.use_tcp then tcp_alive e (tcp_addr ucfg) else pure false)
    pure (status_code daemon_up alive s.installed (pid_is_zero s))

-- The status is 0, running, exactly when the pipe answers and either the recorded daemon is up or the
-- install record is there, and else 1.
pub status_code_lem :
    (daemon_up alive installed no_pid : Bool)
    → status_code daemon_up alive installed no_pid
      ≡ (if alive && (daemon_up || installed) then 0 else 1)
unfolding status_code
status_code_lem daemon_up alive installed no_pid = ground arith
