-- ===== src/Setup/DryRun.antt =====
-- What `dockup setup --dry-run` may do, and what a setup that is declined may do.
use dockup.Base.{ℕ, ◌≡◌, refl, Bool, true, false, Option, none, some, Str}
use dockup.Records.{Config}
use dockup.Env.{Call, Env, api_registered, list_distros, read_line, size_head}
use dockup.Io.{World, M}
use dockup.Io.Keeps.{Keeps, Only, only_rules, SameFiles, same_files_rules}
use dockup.Image.Verify.{Crypto}
use dockup.Wsl.Listing.{exists, exists-Only, exists-SameFiles}
use dockup.Ui.{confirm}
use dockup.Setup.Install.{
  Options, ask_install_path, dry_run_plan, install_at, confirmed, run_ex, setup, run_setup,
}

-- The calls that only look: is the distro there, what does the user say, how long is a download.
unfoldable pub looks : Call → Bool
looks api_registered = true
looks list_distros = true
looks read_line = true
looks (size_head url) = true
looks _ = false

-- Every call so far looks, and the files are those of `fs`.
abbrev pub Looking : (Str → Option Str) → World → Type 0
Looking fs w = Only looks w × SameFiles fs w

module _ (e : Env) (fs : Str → Option Str) where
  Looking-of :
      {A : Type 0} (m : M A) → Keeps (Only looks) m → Keeps (SameFiles fs) m → Keeps (Looking fs) m
  Looking-of m only same = record { at = λ w h. (only.at w h.0, same.at w h.1) }

  exists-Looking : Keeps (Looking fs) (exists e)
  unfolding looks
  exists-Looking = Looking-of _ (exists-Only e looks refl refl) (exists-SameFiles e fs)

  confirm-Looking : Keeps (Looking fs) (confirm e)
  unfolding confirm looks
  confirm-Looking = Looking-of _ (search only_rules) (search same_files_rules)

  plan-Looking : (arch : Str) → Keeps (Looking fs) (dry_run_plan e arch)
  unfolding dry_run_plan looks
  plan-Looking arch = Looking-of _ (search only_rules depth 10) (search same_files_rules depth 10)

  path-Looking : (cfg : Config) (flag : Str) → Keeps (Looking fs) (ask_install_path e cfg flag)
  unfolding ask_install_path looks
  path-Looking cfg flag = Looking-of _ (search only_rules) (search same_files_rules)

  module _ (c : Crypto) (key : Str) (again : M (Option ℕ)) (arch : Str) (cfg : Config) where
    install_at-Looking :
        (dir : Option Str) → Keeps (Looking fs) (install_at e c key again arch cfg true dir)
    unfolding install_at
    install_at-Looking none = search same_files_rules
    install_at-Looking (some dir) = search (same_files_rules, plan-Looking)

    confirmed-Looking :
        (path : Str) (there : Bool)
        → Keeps (Looking fs) (confirmed e c key again arch cfg true path there)
    unfolding confirmed
    confirmed-Looking path true = search (same_files_rules, plan-Looking)
    confirmed-Looking path false = search (same_files_rules, path-Looking, install_at-Looking)

  module _ (c : Crypto) (key : Str) (again : M (Option ℕ)) where
    run_ex-Looking : (o : Options) → o.dry_run ≡ true → Keeps (Looking fs) (run_ex e c key again o)
    unfolding run_ex
    run_ex-Looking o dry =
        rw dry
          (search (same_files_rules, exists-Looking, confirm-Looking, confirmed-Looking) depth 10)

  -- A dry run of setup, whatever is installed and whatever is answered, only looks: every call asks
  -- whether the distro is there, what the user says or how long a download is, and no file changes.
  pub setup_dry :
      (c : Crypto) (key : Str) (rounds : ℕ) (o : Options)
      → o.dry_run ≡ true
      → Keeps (Looking fs) (setup e c key rounds o)
  unfolding setup
  setup_dry c key rounds o = run_ex-Looking c key (run_setup e c key rounds o.arch) o
