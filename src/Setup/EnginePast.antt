-- ===== src/Setup/EnginePast.antt =====
-- The calls of the other steps of a setup come on top of those before them.
use dockup.Base.{ℕ, zero, suc, ◌+◌, ◌/◌, Bool, true, false, Option, none, some, Str}
use dockup.Env.{Call, Env}
use dockup.Records.{State, Config}
use dockup.Io.{M, pure, ◌>>=◌, Result, ok, err, Done}
use dockup.Io.Keeps.{Keeps, Keeps-bind, Keeps-if}
use dockup.Io.Past.{Past, past_rules}
use dockup.State.{
  load_state, acquire_round, acquire, lock_rounds, save_state, save_after, update_loaded, locked,
  after_acquire, after_mkdir, with_lock, updates,
}
use dockup.Userconfig.File.{load_config, save_config, ensure_config}
use dockup.Wsl.Listing.{list, exists}
use dockup.Wsl.Retry.{exec_script, exec, retry_round, retry_from, run_retry, import_distro}
use dockup.Docker.{
  install, not_systemd, after_reboot, configure, test_daemon, wait_test, daemon_round, daemon_loop,
  wait_daemon,
}

module _ (n : ℕ) (e : Env) where
  load_state-Past : Keeps (Past n) (load_state e)
  unfolding load_state
  load_state-Past = search past_rules

  save_state-Past : (s : State) → Keeps (Past n) (save_state e s)
  unfolding save_state
  save_state-Past s = search past_rules depth 12

  updated-Past :
      (f : State → State) (r : Result State) → Keeps (Past n) (update_loaded e (updates f) r)
  unfolding update_loaded save_after pure ◌>>=◌
  updated-Past f (err m) = search past_rules
  updated-Past f (ok s) = save_state-Past (f s)

  locked-Past : (f : State → State) → Keeps (Past n) (locked e (updates f))
  unfolding locked
  locked-Past f = search (past_rules, load_state-Past, updated-Past)

  round-Past :
      (again : M (Option Done)) → Keeps (Past n) again → Keeps (Past n) (acquire_round e again)
  unfolding acquire_round
  round-Past again h = search past_rules depth 12

  acquire-Past : (rounds : ℕ) → Keeps (Past n) (acquire e rounds)
  unfolding acquire
  acquire-Past zero = search past_rules
  acquire-Past (suc rounds) = round-Past (acquire e rounds) (acquire-Past rounds)

  acquired-Past :
      (f : State → State) (got : Option Done) → Keeps (Past n) (after_acquire e (updates f) got)
  unfolding after_acquire
  acquired-Past f none = search past_rules
  acquired-Past f (some (err m)) = search past_rules
  acquired-Past f (some (ok u)) = locked-Past f

  made-Past : (f : State → State) (d : Done) → Keeps (Past n) (after_mkdir e (updates f) d)
  unfolding after_mkdir
  made-Past f (err m) = search past_rules
  made-Past f (ok u) = Keeps-bind _ _ (acquire-Past lock_rounds) λ got. acquired-Past f got

  pub with_lock-Past : (f : State → State) → Keeps (Past n) (with_lock e (updates f))
  unfolding with_lock
  with_lock-Past f = search (past_rules, made-Past)

  pub save_config-Past : (c : Config) → Keeps (Past n) (save_config e c)
  unfolding save_config
  save_config-Past c = search past_rules

  list-Past : (c : Call) → Keeps (Past n) (list e c)
  unfolding list
  list-Past c = search past_rules

  pub exists-Past : Keeps (Past n) (exists e)
  unfolding exists
  exists-Past = search (past_rules, list-Past)

  script-Past : (s : Str) → Keeps (Past n) (exec_script e s)
  unfolding exec_script
  script-Past s = search past_rules

  pub exec-Past : (s : Str) → Keeps (Past n) (exec e s)
  unfolding exec
  exec-Past s = search past_rules

  pub import_distro-Past : (dir tar : Str) → Keeps (Past n) (import_distro e dir tar)
  unfolding import_distro
  import_distro-Past dir tar = search past_rules

  try-Past :
      (i : ℕ) (s : Str) (again : M Done)
      → Keeps (Past n) again
      → Keeps (Past n) (retry_round e i s again)
  unfolding retry_round
  try-Past i s again h = search (past_rules, script-Past)

  tries-Past : (left i : ℕ) (s : Str) → Keeps (Past n) (retry_from e left i s)
  unfolding retry_from
  tries-Past zero i s = search past_rules
  tries-Past (suc left) i s = try-Past i s (retry_from e left (i + 1) s) (tries-Past left (i + 1) s)

  retry-Past : (tries : ℕ) (s : Str) → Keeps (Past n) (run_retry e tries s)
  unfolding run_retry
  retry-Past tries s = tries-Past tries 1 s

  pub install-Past : Keeps (Past n) (install e)
  unfolding install
  install-Past = search (past_rules, script-Past, retry-Past)

  reboot-Past : (bad : Bool) → Keeps (Past n) (after_reboot e bad)
  unfolding after_reboot
  reboot-Past true = search past_rules
  reboot-Past false = search (past_rules, script-Past)

  systemd-Past : Keeps (Past n) (not_systemd e)
  unfolding not_systemd
  systemd-Past = search past_rules

  pub configure-Past : Keeps (Past n) (configure e)
  unfolding configure
  configure-Past = search (past_rules, script-Past, reboot-Past, systemd-Past) depth 12

  test-Past : Keeps (Past n) (test_daemon e)
  unfolding test_daemon
  test-Past = search past_rules depth 10

  tested-Past :
      (again : Done → M Done) (d : Done)
      → ((r : Done) → Keeps (Past n) (again r))
      → Keeps (Past n) (wait_test e again d)
  unfolding wait_test
  tested-Past again (ok u) h = search past_rules
  tested-Past again (err m) h = search (past_rules, h)

  waited-Past :
      (ms : ℕ) (again : Done → M Done) (last : Done)
      → ((r : Done) → Keeps (Past n) (again r))
      → Keeps (Past n) (daemon_round e ms again last)
  unfolding daemon_round
  waited-Past ms again last h =
      let tested = λ (d : Done). tested-Past again d h in
      Keeps-bind _ _ (search past_rules) λ early.
        Keeps-if early (test_daemon e >>= wait_test e again) (pure last)
          (Keeps-bind _ _ test-Past tested) (search past_rules)

  loop-Past : (ms rounds : ℕ) (last : Done) → Keeps (Past n) (daemon_loop e ms rounds last)
  unfolding daemon_loop
  loop-Past ms zero last = search past_rules
  loop-Past ms (suc rounds) last =
      waited-Past ms (daemon_loop e ms rounds) last (loop-Past ms rounds)

  pub wait_daemon-Past : (ms : ℕ) → Keeps (Past n) (wait_daemon e ms)
  unfolding wait_daemon
  wait_daemon-Past ms = loop-Past ms (ms / 3000 + 1) (ok tt)

  pub ensure_config-Past : Keeps (Past n) (ensure_config e)
  unfolding ensure_config load_config
  ensure_config-Past = search (past_rules, save_config-Past)
