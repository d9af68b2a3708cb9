-- ===== src/Wsl/Command.antt =====
-- The command lines that internal/wsl/wsl.go gives wsl.exe, and the texts of its errors. wsl.exe reads
-- the words before the first "--" as its own options, and hands the others to the distro.
use dockup.Base.{
  ◌≡◌, refl, Bool, true, false, ◌&&◌, List, [], ◌∷◌, ◌++◌, Str, codes, str_eq, join_with,
  if◌then◌else◌,
}
use dockup.Config.{distro_name}
use dockup.Wsl.Retry.{tail}

-- `List`, `RunningSet`, `Unregister` and `Terminate`
abbrev pub list_argv : List Str
list_argv = codes "--list" ∷ codes "--quiet" ∷ []

abbrev pub running_argv : List Str
running_argv = codes "--list" ∷ codes "--running" ∷ codes "--quiet" ∷ []

abbrev pub unregister_argv : Str → List Str
unregister_argv distro = codes "--unregister" ∷ distro ∷ []

abbrev pub terminate_argv : Str → List Str
terminate_argv distro = codes "--terminate" ∷ distro ∷ []

-- `Import`
abbrev pub import_argv : Str → Str → Str → List Str
import_argv distro dir tar =
    codes "--import" ∷ distro ∷ dir ∷ tar ∷ codes "--version" ∷ codes "2" ∷ []

abbrev pub root_options : Str → List Str
root_options distro = codes "-d" ∷ distro ∷ codes "-u" ∷ codes "root" ∷ []

-- `ExecCtx`
unfoldable pub exec_argv : Str → List Str → List Str
exec_argv distro args = root_options distro ++ (codes "--" ∷ args)

-- `ExecScript`, which gives the script on the standard input
abbrev pub script_argv : Str → List Str
script_argv distro = exec_argv distro (codes "sh" ∷ codes "-s" ∷ [])

-- `Shell`
unfoldable pub shell_argv : Str → List Str → List Str
shell_argv distro [] = root_options distro
shell_argv distro (word ∷ more) = root_options distro ++ (codes "--" ∷ (word ∷ more))

-- The error of `runWsl`, with that of the process and what it has printed to stderr
unfoldable pub run_error : List Str → Str → Str → Str
run_error args cause stderr =
    codes "wsl "
    ++ (join_with (codes " ") args ++ (codes ": " ++ (cause ++ (codes "\n" ++ tail stderr 2000))))

-- The error of `ExecCtx`
unfoldable pub exec_error : Str → Str → Str → Str
exec_error distro cause stderr =
    codes "wsl -d " ++ (distro ++ (codes ": " ++ (cause ++ (codes "\n" ++ tail stderr 2000))))

-- What wsl.exe reads as its own options.
unfoldable pub options_of : List Str → List Str
options_of [] = []
options_of (word ∷ more) = if str_eq word (codes "--") then [] else word ∷ options_of more

unfoldable pub same_words : List Str → List Str → Bool
same_words [] [] = true
same_words [] (w ∷ ws) = false
same_words (v ∷ vs) [] = false
same_words (v ∷ vs) (w ∷ ws) = str_eq v w && same_words vs ws

-- Whatever words are to run in the distro, none of them is an option of wsl.exe.
pub options_of-shell_argv :
    (args : List Str)
    → same_words (options_of (shell_argv distro_name args)) (root_options distro_name) ≡ true
unfolding options_of shell_argv same_words str_eq
options_of-shell_argv [] = refl
options_of-shell_argv (word ∷ more) = refl
