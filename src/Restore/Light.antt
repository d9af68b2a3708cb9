-- ===== src/Restore/Light.antt =====
-- `runLight` of internal/restore/restore.go: what it does and returns, without what it prints.
use dockup.Base.{
  ℕ, refl, Bool, true, not, List, [], ◌∷◌, ◌++◌, Str, codes, join_with, if◌then◌else◌,
}
use dockup.Records.{State}
use dockup.Env.{Env, now}
use dockup.Io.{M, pure, ◌>>=◌, ◌>>◌, Result, ok, err, Done, ask}
use dockup.Io.Keeps.{only_rules}
use dockup.State.{current_state, with_lock}
use dockup.State.Laws.{current_state-Only, with_lock-Only, AllowsState}
use dockup.Ui.{confirm}
use dockup.Wsl.Retry.{run_retry, exec_script, exec}
use dockup.Docker.{install, repair, test_daemon, manual_packages}
use dockup.Docker.Spares.{
  spares, Spares, script-Spares, exec-Spares, retry-Spares, install-Spares, repair-Spares,
  test_daemon-Spares, manual_packages-Spares,
}
use dockup.Restore.Removal.{removal_list}

unfoldable pub removal_script : List Str → Str
removal_script removal =
    codes "set -eu\nexport DEBIAN_FRONTEND=noninteractive\napt-get remove -y "
    ++ (join_with (codes " ") removal ++ codes "\napt-get autoremove -y\n")

abbrev pub with_snapshot : Str → List Str → State → State
with_snapshot at manual s = record s { snapshot = record { at = at; manual = manual } }

module _ (e : Env) where
  -- `triage`, of which only the calls matter.
  triage : M Unit
  triage = do
    a ← exec e (codes "systemctl status docker.service --no-pager")
    b ← exec_script e (codes "journalctl -u docker.service --no-pager -n 15 || true")
    pure tt

  -- `snap, _ := docker.ManualPackages(distro)`
  names_or_none : Result (List Str) → List Str
  names_or_none (ok names) = names
  names_or_none (err m) = []

  take_snapshot : List Str → State → M (Done × State)
  take_snapshot names s = do at ← ask e now; pure (ok tt, with_snapshot at.out names s)

  -- The snapshot that ends a light restore; its failure is not reported.
  renew_snapshot : M Unit
  renew_snapshot = do
    snap ← manual_packages e
    d ← with_lock e (take_snapshot (names_or_none snap))
    pure tt

  after_health : Done → M ℕ
  after_health (err m) = do triage; pure 1
  after_health (ok u) = do renew_snapshot; pure 0

  after_repair : Result Str → M ℕ
  after_repair (err m) = pure 1
  after_repair (ok note) = do r ← test_daemon e; after_health r

  after_install : Done → M ℕ
  after_install (err m) = pure 1
  after_install (ok u) = do r ← repair e; after_repair r

  after_removal : Done → M ℕ
  after_removal (err m) = pure 1
  after_removal (ok u) = do r ← install e; after_install r

  remove_packages : List Str → M Done
  remove_packages [] = pure (ok tt)
  remove_packages (p ∷ ps) = run_retry e 2 (removal_script (p ∷ ps))

  agreed : Bool → M Bool
  agreed force = if force then pure true else confirm e

  with_current : Bool → State → Result (List Str) → M ℕ
  with_current force st (err m) = pure 1
  with_current force st (ok current) = do
    go ← agreed force
    if not go
        then pure 0
        else do r ← remove_packages (removal_list current st.snapshot.manual); after_removal r

  -- `runLight`
  pub run_light : Bool → M ℕ
  run_light force = do
    st ← current_state e
    current ← manual_packages e
    with_current force st current

  allows_state : AllowsState e spares
  unfolding spares
  allows_state = (refl, refl, refl, refl, refl, refl, refl, refl, refl, refl)

  current_state-Spares : Spares (current_state e)
  current_state-Spares = current_state-Only e spares allows_state

  confirm-Spares : Spares (confirm e)
  unfolding confirm spares
  confirm-Spares = search only_rules

  agreed-Spares : (force : Bool) → Spares (agreed force)
  unfolding agreed
  agreed-Spares force = search (only_rules, confirm-Spares)

  take_snapshot-Spares : (names : List Str) (s : State) → Spares (take_snapshot names s)
  unfolding take_snapshot spares
  take_snapshot-Spares names s = search only_rules

  with_lock-Spares : (names : List Str) → Spares (with_lock e (take_snapshot names))
  with_lock-Spares names =
      with_lock-Only e spares (take_snapshot names) allows_state (take_snapshot-Spares names)

  renew_snapshot-Spares : Spares renew_snapshot
  unfolding renew_snapshot spares
  renew_snapshot-Spares = search (only_rules, manual_packages-Spares, with_lock-Spares)

  triage-Spares : Spares triage
  unfolding triage
  triage-Spares = search (only_rules, exec-Spares, script-Spares)

  after_health-Spares : (r : Done) → Spares (after_health r)
  unfolding after_health
  after_health-Spares (err m) = search (only_rules, triage-Spares)
  after_health-Spares (ok u) = search (only_rules, renew_snapshot-Spares)

  after_repair-Spares : (r : Result Str) → Spares (after_repair r)
  unfolding after_repair
  after_repair-Spares (err m) = search only_rules
  after_repair-Spares (ok note) = search (only_rules, test_daemon-Spares, after_health-Spares)

  after_install-Spares : (r : Done) → Spares (after_install r)
  unfolding after_install
  after_install-Spares (err m) = search only_rules
  after_install-Spares (ok u) = search (only_rules, repair-Spares, after_repair-Spares)

  after_removal-Spares : (r : Done) → Spares (after_removal r)
  unfolding after_removal
  after_removal-Spares (err m) = search only_rules
  after_removal-Spares (ok u) = search (only_rules, install-Spares, after_install-Spares)

  remove_packages-Spares : (ps : List Str) → Spares (remove_packages ps)
  unfolding remove_packages
  remove_packages-Spares [] = search only_rules
  remove_packages-Spares (p ∷ ps) = retry-Spares e 2 _

  with_current-Spares :
      (force : Bool) (st : State) (r : Result (List Str)) → Spares (with_current force st r)
  unfolding with_current
  with_current-Spares force st (err m) = search only_rules
  with_current-Spares force st (ok current) =
      search (only_rules, agreed-Spares, remove_packages-Spares, after_removal-Spares)

  -- Whatever happens in a light restore, no call of it unregisters or imports the distro.
  pub run_light-Spares : (force : Bool) → Spares (run_light force)
  unfolding run_light
  run_light-Spares force =
      search (only_rules, current_state-Spares, manual_packages-Spares, with_current-Spares)
