-- ===== src/Cli/Options.antt =====
-- What `cmdSetup`, `cmdRestore`, `cmdPrune` and the flag loops of `run` in cmd/dockup/main.go read
-- the arguments as; `none` is a message and exit code 1. The help flags are looked for before.
use dockup.Base.{
  ◌≡◌, ◌⊎◌, Bool, true, false, not, ◌&&◌, ◌||◌, Option, none, some, List, [], ◌∷◌, Str, codes,
  arith, str_eq, if◌then◌else◌,
}
use dockup.Config.{normalize_arch}
use dockup.Cli.Flags.{InstallFlags, parse_install_flags}

pub record SetupOptions : Type 0 where
  pub arch : Str
  pub path : Str
  pub dry_run : Bool

dry_runs : Bool → List Str → Option Bool
dry_runs dry [] = some dry
dry_runs dry (a ∷ more) = elim (str_eq a (codes "--dry-run")) [
  | true ↦ dry_runs true more
  | false ↦ none
]

setup_of : InstallFlags → Option Bool → Option SetupOptions
setup_of f none = none
setup_of f (some dry) = elim (normalize_arch f.amd f.arm) [
  | none ↦ none
  | some arch ↦ some (record { arch = arch; path = f.path; dry_run = dry })
]

-- `cmdSetup`
unfoldable pub setup_options : List Str → Option SetupOptions
unfolding setup_of dry_runs
setup_options args = elim (parse_install_flags args) [
  | none ↦ none
  | some (f, rest) ↦ setup_of f (dry_runs false rest)
]

-- `restore.Options`
pub record RestoreOptions : Type 0 where
  pub full : Bool
  pub arch : Str
  pub path : Str
  pub force : Bool

unfoldable pub restore_flag : Bool × Bool → Str → Option (Bool × Bool)
restore_flag (full, force) a =
    if str_eq a (codes "--full")
    then some (true, force)
    else if str_eq a (codes "--force") || str_eq a (codes "-f")
    then some (full, true)
    else none

unfoldable pub restore_flags : Bool × Bool → List Str → Option (Bool × Bool)
restore_flags b [] = some b
restore_flags b (a ∷ more) = elim (restore_flag b a) [ none ↦ none | some c ↦ restore_flags c more ]

unfoldable pub full_only : InstallFlags → Bool
full_only f = not (str_eq f.path []) || (f.amd || f.arm)

unfoldable pub with_arch : InstallFlags → Bool → Bool → Option Str → Option RestoreOptions
with_arch f full force none = none
with_arch f full force (some arch) =
    if full_only f && not full
    then none
    else some (record {
      full = full;
      arch = if f.amd || f.arm then arch else [];
      path = f.path;
      force = force;
    })

unfoldable pub restore_of : InstallFlags → Option (Bool × Bool) → Option RestoreOptions
restore_of f none = none
restore_of f (some (full, force)) = with_arch f full force (normalize_arch f.amd f.arm)

-- `cmdRestore`
unfoldable pub restore_options : List Str → Option RestoreOptions
unfolding restore_of restore_flags restore_flag with_arch full_only
restore_options args = elim (parse_install_flags args) [
  | none ↦ none
  | some (f, rest) ↦ restore_of f (restore_flags (false, false) rest)
]

-- What a run of `restore` may be given.
pub IsSound : RestoreOptions → Type 0
IsSound o =
    ((o.full ≡ true) ⊎ ((o.arch ≡ []) × (str_eq o.path [] ≡ true)))
    × ((o.arch ≡ []) ⊎ (o.arch ≡ codes "amd64") ⊎ (o.arch ≡ codes "arm64"))

with_arch-IsSound :
    (f : InstallFlags) (full force : Bool) (o : RestoreOptions)
    → with_arch f full force (normalize_arch f.amd f.arm) ≡ some o
    → IsSound o
unfolding with_arch full_only normalize_arch IsSound
with_arch-IsSound f full force o h = ground arith

restore_of-IsSound :
    (f : InstallFlags) (r : Option (Bool × Bool)) (o : RestoreOptions)
    → restore_of f r ≡ some o
    → IsSound o
unfolding restore_of
restore_of-IsSound f none o h = cc
restore_of-IsSound f (some (full, force)) o h = with_arch-IsSound f full force o h

parsed-IsSound :
    (parsed : Option (InstallFlags × List Str)) (o : RestoreOptions)
    → elim parsed [
      | none ↦ none
      | some (f, rest) ↦ restore_of f (restore_flags (false, false) rest)
    ]
      ≡ some o
    → IsSound o
parsed-IsSound none o h = cc
parsed-IsSound (some (f, rest)) o h = restore_of-IsSound f (restore_flags (false, false) rest) o h

-- Where the arguments of `dockup restore` are accepted, an arch or a path is there only for a full
-- restore, and the arch is none, amd64 or arm64.
pub restore_options-IsSound :
    (args : List Str) (o : RestoreOptions) → restore_options args ≡ some o → IsSound o
unfolding restore_options
restore_options-IsSound args = parsed-IsSound (parse_install_flags args)

-- The flags of `cmdPrune`
pub record PruneOptions : Type 0 where
  pub all : Bool
  pub volumes : Bool
  pub force : Bool
  pub keep_image : Bool

prune_flag : PruneOptions → Str → Option PruneOptions
prune_flag o a =
    if str_eq a (codes "--all")
    then some (record o { all = true })
    else if str_eq a (codes "--volumes")
    then some (record o { volumes = true })
    else if str_eq a (codes "--force") || str_eq a (codes "-f")
    then some (record o { force = true })
    else if str_eq a (codes "--keep-image")
    then some (record o { keep_image = true })
    else none

prune_flags : PruneOptions → List Str → Option PruneOptions
prune_flags o [] = some o
prune_flags o (a ∷ more) = elim (prune_flag o a) [ none ↦ none | some p ↦ prune_flags p more ]

unfoldable pub prune_options : List Str → Option PruneOptions
unfolding prune_flags prune_flag
prune_options args =
    prune_flags (record { all = false; volumes = false; force = false; keep_image = false }) args
