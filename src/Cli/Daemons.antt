-- ===== src/Cli/Daemons.antt =====
-- `cmdDaemon` and `cmdSSH` of cmd/dockup/main.go with `Shell` of internal/wsl/wsl.go: what they do and
-- return, without what they print.
use dockup.Base.{ℕ, Bool, true, false, not, ◌&&◌, List, [], ◌∷◌, Str, codes, str_eq, if◌then◌else◌}
use dockup.Records.{State, Config}
use dockup.Env.{Env, wsl_shell, sleep}
use dockup.Io.{M, pure, ◌>>=◌, ◌>>◌, is_ok, Done, ask, run}
use dockup.State.{current_state}
use dockup.Userconfig.Paths.{effective_pipe}
use dockup.Wsl.Listing.{exists}
use dockup.Wsl.Command.{shell_argv}
use dockup.Config.{distro_name}
use dockup.Relay.Poll.{alive_on}
use dockup.Daemon.{start, stop, pid_is_zero}
use dockup.Daemon.Process.{process_alive}
use dockup.Daemon.Status.{status}
use dockup.Cli.Flags.{has_help_flag}
use dockup.Cli.Commands.{cmd_autostart}

abbrev pub no_words : List Str → Bool
no_words [] = true
no_words (w ∷ ws) = false

abbrev pub code_of : Done → ℕ
code_of d = if is_ok d then 0 else 1

module _ (e : Env) where
  unfoldable pub restart : M Done
  restart = do d ← stop e; run e (sleep 1000); start e

  -- The commands of `dockup daemon`; `log`, which ends with Ctrl+C, is in Log.
  unfoldable pub daemon_word : Str → List Str → M ℕ
  daemon_word word more =
      if str_eq word (codes "autostart")
      then cmd_autostart e more
      else if not (no_words more)
      then pure 1
      else if str_eq word (codes "start")
      then (do d ← start e; pure (code_of d))
      else if str_eq word (codes "stop")
      then (do d ← stop e; pure (code_of d))
      else if str_eq word (codes "restart")
      then (do d ← restart; pure (code_of d))
      else if str_eq word (codes "status")
      then status e
      else if str_eq word (codes "log")
      then pure 0
      else pure 1

  -- A foreground holds the pipe.
  unfoldable pub in_foreground : Config → State → M Bool
  in_foreground cfg s = do
    held ← alive_on e (effective_pipe cfg)
    if not (held && pid_is_zero s)
        then pure false
        else do up ← process_alive e s.daemon.pid; pure (not up)

  unfoldable pub daemon_args : Config → List Str → M ℕ
  daemon_args cfg [] = pure 1
  daemon_args cfg (word ∷ more) = do
    s ← current_state e
    front ← in_foreground cfg s
    if front && str_eq word (codes "start") then pure 1 else daemon_word word more

  -- `cmdDaemon`
  unfoldable pub cmd_daemon : Config → List Str → M ℕ
  cmd_daemon cfg args =
      if not (no_words args) && has_help_flag args then pure 0 else daemon_args cfg args

  -- `Shell`: `ok` that the child ran to its end, `flag` that it could be started and its code is known
  unfoldable pub shell : List Str → M ℕ
  shell args = do
    r ← ask e (wsl_shell (shell_argv distro_name args))
    pure (if r.ok then 0 else if r.flag then r.num else 1)

  unfoldable pub shell_installed : List Str → M ℕ
  shell_installed args = do
    s ← current_state e
    if s.installed then shell args else do there ← exists e; if there then shell args else pure 1

  -- `cmdSSH`
  unfoldable pub cmd_ssh : List Str → M ℕ
  cmd_ssh [] = shell_installed []
  cmd_ssh (word ∷ more) =
      if str_eq word (codes "--")
      then shell_installed more
      else if has_help_flag (word ∷ more)
      then pure 0
      else shell_installed (word ∷ more)
