-- ===== src/Docker/Spares.antt =====
-- Which calls the engine's routines make: none that removes or imports the distro.
use dockup.Base.{ℕ, zero, suc, refl, Bool, true, false, Str}
use dockup.Env.{Call, Env, unregister, wsl_import}
use dockup.Io.{M, Result, ok, err, Done, ◌>>?◌}
use dockup.Io.Keeps.{Keeps, Keeps-then, Only, only_rules}
use dockup.Wsl.Retry.{exec_script, exec, run_retry, exec_script-Only, exec-Only, run_retry-Only}
use dockup.Docker.{
  install, not_systemd, test_daemon, wait_test, daemon_round, daemon_loop, wait_daemon,
  manual_packages, after_wait, wait_again, after_rescue, rescue, after_test, reboot, repair,
}

-- All calls but `wsl --unregister` and `wsl --import`.
unfoldable pub spares : Call → Bool
spares unregister = false
spares (wsl_import dir tar) = false
spares _ = true

abbrev pub Spares : {A : Type 0} → M A → Type 0
Spares m = Keeps (Only spares) m

pub then-Spares :
    {A B : Type 0} (m : M (Result A)) (f : A → M (Result B))
    → Spares m
    → ((a : A) → Spares (f a))
    → Spares (m >>? f)
then-Spares m f hm hf = Keeps-then m f hm hf

module _ (e : Env) where
  pub script-Spares : (script : Str) → Spares (exec_script e script)
  unfolding spares
  script-Spares script = exec_script-Only e spares script refl

  pub exec-Spares : (command : Str) → Spares (exec e command)
  unfolding spares
  exec-Spares command = exec-Only e spares command refl

  pub retry-Spares : (tries : ℕ) (script : Str) → Spares (run_retry e tries script)
  unfolding spares
  retry-Spares tries script = run_retry-Only e spares script refl (λ ms. refl) tries

  pub test_daemon-Spares : Spares (test_daemon e)
  unfolding test_daemon spares
  test_daemon-Spares = search only_rules

  not_systemd-Spares : Spares (not_systemd e)
  unfolding not_systemd spares
  not_systemd-Spares = search only_rules

  pub manual_packages-Spares : Spares (manual_packages e)
  unfolding manual_packages spares
  manual_packages-Spares = search only_rules

  wait_test-Spares :
      (again : Done → M Done)
      → ((r : Done) → Spares (again r))
      → (r : Done) → Spares (wait_test e again r)
  unfolding wait_test spares
  wait_test-Spares again h (ok u) = search only_rules
  wait_test-Spares again h (err m) = search (only_rules, h)

  daemon_round-Spares :
      (ms : ℕ) (again : Done → M Done) (last : Done)
      → ((r : Done) → Spares (again r))
      → Spares (daemon_round e ms again last)
  unfolding daemon_round spares
  daemon_round-Spares ms again last h = search (only_rules, test_daemon-Spares, wait_test-Spares, h)

  daemon_loop-Spares : (ms rounds : ℕ) (last : Done) → Spares (daemon_loop e ms rounds last)
  unfolding daemon_loop
  daemon_loop-Spares ms zero last = search only_rules
  daemon_loop-Spares ms (suc rounds) last =
      daemon_round-Spares ms _ last (daemon_loop-Spares ms rounds)

  pub wait_daemon-Spares : (ms : ℕ) → Spares (wait_daemon e ms)
  unfolding wait_daemon
  wait_daemon-Spares ms = daemon_loop-Spares ms _ _

  pub install-Spares : Spares (install e)
  unfolding install
  install-Spares = then-Spares _ _ (script-Spares _) (λ u. retry-Spares 3 _)

  after_wait-Spares : (r : Done) → Spares (after_wait e r)
  unfolding after_wait
  after_wait-Spares (ok u) = search only_rules
  after_wait-Spares (err m) = search only_rules

  wait_again-Spares : Spares (wait_again e)
  unfolding wait_again
  wait_again-Spares = search (only_rules, wait_daemon-Spares, after_wait-Spares)

  after_rescue-Spares : (r : Done) → Spares (after_rescue e r)
  unfolding after_rescue
  after_rescue-Spares (ok u) = search only_rules
  after_rescue-Spares (err m) = wait_again-Spares

  rescue-Spares : (r : Done) → Spares (rescue e r)
  unfolding rescue
  rescue-Spares (ok u) = search (only_rules, script-Spares, wait_daemon-Spares, after_rescue-Spares)
  rescue-Spares (err m) = wait_again-Spares

  after_test-Spares : (r : Done) → Spares (after_test e r)
  unfolding after_test
  after_test-Spares (ok u) = search only_rules
  after_test-Spares (err m) = search (only_rules, exec-Spares, rescue-Spares)

  reboot-Spares : (b : Bool) → Spares (reboot e b)
  unfolding reboot spares
  reboot-Spares true = search only_rules
  reboot-Spares false = search only_rules

  pub repair-Spares : Spares (repair e)
  unfolding repair
  repair-Spares = then-Spares _ _ (script-Spares _) λ u.
      search (only_rules, not_systemd-Spares, reboot-Spares, test_daemon-Spares, after_test-Spares)
