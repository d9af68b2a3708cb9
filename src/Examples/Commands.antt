-- ===== src/Examples/Commands.antt =====
-- The theorems on commands on concrete machines and command lines.
use dockup.Base.{◌≡◌, refl, Bool, true, false, some, [], ◌∷◌, ◌++◌, codes, str_eq, has_prefix}
use dockup.Env.{Call, Env, unregister}
use dockup.Io.{pure, ◌>>=◌, ask, run, attempt}
use dockup.Wsl.Listing.{exists}
use dockup.Docker.Spares.{Spares}
use dockup.Restore.Light.{run_light, run_light-Spares}
use dockup.Setup.Uninstall.{
  uninstall, agreed, uninstall_agreed, uninstall_at, drop_distro, after_unregister,
  uninstall-undone,
}
use dockup.Cli.Flags.{InstallFlags, IsOther, parse_install_flags, shown, parse_install_flags-shown}
use dockup.Examples.Machine.{machine, answer, kind, no_files}

run_light-Spares_example : Spares (run_light kind true)
run_light-Spares_example = run_light-Spares kind true

-- The distro is there and cannot be unregistered.
abbrev clinging_reply : Call → Bool
clinging_reply unregister = false
clinging_reply _ = true

abbrev clinging : Env
clinging = machine (λ t c. answer (clinging_reply c) true 0)

uninstall-undone_example : (uninstall clinging true no_files).1.files ≡ no_files.files
unfolding uninstall agreed uninstall_agreed uninstall_at drop_distro after_unregister exists attempt
    ask run pure ◌>>=◌
uninstall-undone_example = uninstall-undone clinging true no_files refl

abbrev arm_flags : InstallFlags
arm_flags = record { amd = false; arm = true; path = codes "D:/WSL" }

parse_install_flags-shown_example :
    parse_install_flags (shown arm_flags ++ (codes "--full" ∷ []))
    ≡ some (arm_flags, codes "--full" ∷ [])
unfolding IsOther str_eq has_prefix
parse_install_flags-shown_example =
    parse_install_flags-shown arm_flags (codes "--full" ∷ []) ((refl, refl, refl, refl), tt)
