-- ===== src/Doctor/Reconcile.antt =====
-- `ReconcileDistro` and `clearInstallRecord` of internal/doctor/doctor.go.
use dockup.Base.{
  ◌≡◌, ◌⊎◌, refl, Bool, true, false, not, Option, none, some, List, [], Str, arith, str_eq, inl,
  inr, Bool-cases, if◌then◌else◌,
}
use dockup.Records.{State, Config}
use dockup.Env.{Env, api_registered, list_distros}
use dockup.Io.{World, M, pure, ◌>>=◌, ◌>>◌, Result, ok, err, ask}
use dockup.Config.{distro_name}
use dockup.State.{with_lock, updates}
use dockup.Userconfig.Paths.{with_defaults}
use dockup.Userconfig.File.{load_config, save_config}
use dockup.Wsl.Listing.{list, lists_name, list-SameFiles}

pub record Presence : Type 0 where
  pub present : Bool
  pub failed : Bool

-- The update of `clearInstallRecord`: the flag alone.
abbrev pub not_installed : State → State
not_installed s = record s { installed = false }

module _ (e : Env) where
  unfoldable pub forget_path : Result Config → M Unit
  forget_path (err m) = pure tt
  forget_path (ok loaded) =
      let c = with_defaults e loaded in
      if str_eq c.current_path []
      then pure tt
      else (do d ← save_config e (record c { current_path = [] }); pure tt)

  unfoldable pub clear_install_record : M Unit
  clear_install_record = do
    c ← load_config e
    forget_path c
    d ← with_lock e (updates not_installed)
    pure tt

  unfoldable pub gone : M Presence
  gone = do clear_install_record; pure (record { present = false; failed = false })

  unfoldable pub by_list : Option (List Str) → M Presence
  by_list none = pure (record { present = true; failed = true })
  by_list (some ds) =
      if lists_name distro_name ds then pure (record { present = true; failed = false }) else gone

  unfoldable pub reconcile_distro : M Presence
  reconcile_distro = do
    r ← ask e api_registered
    if r.ok
        then (if r.flag then pure (record { present = true; failed = false }) else gone)
        else (do ds ← list e list_distros; by_list ds)

  -- The distro counts as absent: the API answers that it is not registered, or the API fails and what
  -- wsl --list has printed does not name it. Of a wsl.exe that fails only one that prints nothing at all
  -- is told from one that works.
  list_lacks : Option (List Str) → Bool
  list_lacks none = false
  list_lacks (some ds) = not (lists_name distro_name ds)

  pub counts_absent : World → Bool
  counts_absent w =
      let r = e.reply w.trace api_registered in
      if r.ok then not r.flag else list_lacks (list e list_distros (ask e api_registered w).1).0

  gone-present : (w : World) → (gone w).0.present ≡ false
  unfolding gone pure ◌>>=◌
  gone-present w = refl

  by_list-present :
      (ds : Option (List Str)) (w : World)
      → ((by_list ds w).0.present ≡ not (list_lacks ds))
        × (list_lacks ds ≡ false → (by_list ds w).1.files ≡ w.files)
  unfolding by_list list_lacks pure
  by_list-present none w = (refl, λ h. refl)
  by_list-present (some ds) w = elim (Bool-cases (lists_name distro_name ds)) [
    | inl there ↦ rw there (refl, λ h. refl)
    | inr missing ↦ rw missing (gone-present w, λ h. cc)
  ]

  reconcile_distro-report :
      (w : World)
      → ((reconcile_distro w).0.present ≡ not (counts_absent w))
        × (counts_absent w ≡ false → (reconcile_distro w).1.files ≡ w.files)
  unfolding reconcile_distro counts_absent ask pure ◌>>=◌
  reconcile_distro-report w =
      let w1 = (ask e api_registered w).1 in
      let listed = list e list_distros w1 in
      ground (
        arith,
        gone-present w1,
        by_list-present listed.0 listed.1,
        (list-SameFiles e w1.files list_distros).at w1 refl,
      )

  pub reconcile_distro-counts_absent :
      (w : World)
      → ((reconcile_distro w).0.present ≡ not (counts_absent w))
        × ((counts_absent w ≡ true) ⊎ ((reconcile_distro w).1.files ≡ w.files))
  reconcile_distro-counts_absent w =
      let (report, same) = reconcile_distro-report w in
      (
        report,
        elim (Bool-cases (counts_absent w)) [
          | inl sure ↦ inl sure
          | inr unsure ↦ inr (same unsure)
        ],
      )
