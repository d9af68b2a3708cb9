-- ===== src/Docker/Prune.antt =====
-- `PruneScript` and `Prune` of internal/docker/docker.go.
use dockup.Base.{
  ◌≡◌, refl, Bool, true, false, [], ◌++◌, Str, codes, contains, has_prefix, if◌then◌else◌,
}
use dockup.Env.{Env}
use dockup.Io.{M, Done}
use dockup.Wsl.Retry.{exec_script}

unfoldable pub prune_script : Bool → Bool → Str
prune_script all volumes =
    codes "set -eu\ndocker system prune -f"
    ++ ((if all then codes " --all" else [])
        ++ ((if volumes then codes " --volumes" else []) ++ codes "\n"))

unfoldable pub prune : Env → Bool → Bool → M Done
prune e all volumes = exec_script e (prune_script all volumes)

-- The script removes unused volumes exactly where --volumes was given, and all unused images exactly
-- where --all was.
pub contains-prune_script :
    (all volumes : Bool)
    → (contains (prune_script all volumes) (codes "--volumes") ≡ volumes)
      × (contains (prune_script all volumes) (codes "--all") ≡ all)
unfolding prune_script contains has_prefix
contains-prune_script true true = (refl, refl)
contains-prune_script true false = (refl, refl)
contains-prune_script false true = (refl, refl)
contains-prune_script false false = (refl, refl)
