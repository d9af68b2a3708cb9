-- ===== src/Cli/Remote.antt =====
-- What `dockup ssh` may do, whatever words it is given.
use dockup.Base.{refl, Bool, true, false, List, [], ◌∷◌, Str}
use dockup.Env.{Call, Env, wsl_shell, read_file, api_registered, list_distros}
use dockup.Io.{M}
use dockup.Io.Keeps.{Keeps, Only, only_rules}
use dockup.Config.{distro_name}
use dockup.State.{load_state, current_state}
use dockup.Wsl.Listing.{exists, exists-Only}
use dockup.Wsl.Command.{root_options, options_of, same_words, options_of-shell_argv}
use dockup.Cli.Daemons.{shell, shell_installed, cmd_ssh}

-- A call that reads a file, one that asks whether the distro is there, or one of wsl.exe whose own
-- options are the distro and the user root.
unfoldable pub remote : Call → Bool
remote (wsl_shell argv) = same_words (options_of argv) (root_options distro_name)
remote (read_file path) = true
remote api_registered = true
remote list_distros = true
remote _ = false

module _ (e : Env) where
  abbrev Remotely : {A : Type 0} → M A → Type 0
  Remotely m = Keeps (Only remote) m

  state-Remotely : Remotely (current_state e)
  unfolding remote current_state load_state
  state-Remotely = search only_rules

  exists-Remotely : Remotely (exists e)
  unfolding remote
  exists-Remotely = exists-Only e remote refl refl

  shell-Remotely : (args : List Str) → Remotely (shell e args)
  unfolding shell remote
  shell-Remotely args = search (only_rules, options_of-shell_argv args)

  installed-Remotely : (args : List Str) → Remotely (shell_installed e args)
  unfolding shell_installed
  installed-Remotely args = search (only_rules, state-Remotely, exists-Remotely, shell-Remotely)

  -- Whatever words follow dockup ssh, with a leading "--" or without one, it only reads files, asks
  -- whether the distro is there, and starts wsl.exe as root in the distro dockup, where none of the
  -- words is read by wsl.exe as an option.
  pub cmd_ssh-Remotely : (args : List Str) → Keeps (Only remote) (cmd_ssh e args)
  unfolding cmd_ssh
  cmd_ssh-Remotely [] = installed-Remotely []
  cmd_ssh-Remotely (word ∷ more) = search (only_rules, installed-Remotely)
