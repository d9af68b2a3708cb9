-- ===== src/Doctor/Examines.antt =====
-- Which calls `RunEx` of internal/doctor/doctor.go makes, with a repair and without.
use dockup.Base.{
  ℕ, ◌≡◌, refl, Bool, true, false, ◌&&◌, ◌||◌, Option, none, some, [], ◌∷◌, ◌++◌, Str, codes,
  str_eq, str_eq_refl, arith,
}
use dockup.Records.{State, Config}
use dockup.Env.{
  Call, Env, api_registered, list_distros, list_running, wsl_exec, dial, dial_tcp, look_path,
  docker_cli, before, sleep, read_file, stat, mkdir, lock_create, lock_stale, lock_remove,
  lock_expired, write_file, rename,
}
use dockup.Config.{state_file}
use dockup.Wsl.Command.{same_words}
use dockup.Io.{Result, ok, err, Done}
use dockup.Io.Keeps.{Keeps, Keeps-bind, Only, only_rules}
use dockup.State.{with_lock, updates}
use dockup.State.Laws.{AllowsState, current_state-Only, with_lock-Only}
use dockup.Userconfig.File.{
  config_file, AllowsConfig, load_config, load_config-Only, save_config-Only,
}
use dockup.Wsl.Listing.{exists, list-Only, exists-Only, is_running-Only}
use dockup.Relay.Poll.{AllowsPoll, alive_on, tcp_alive, alive_on-Only}
use dockup.Dockctx.{context_info, available, inspect, inspect_args, run_cli}
use dockup.Autostart.{is_enabled}
use dockup.Docker.Spares.{
  spares, Spares, then-Spares, script-Spares, retry-Spares, test_daemon-Spares, wait_daemon-Spares,
}
use dockup.Doctor.Reconcile.{reconcile_distro, by_list, gone, clear_install_record, forget_path}
use dockup.Doctor.Checks.{
  config_of, check_config, check_memory, check_wsl, check_distro, ask_distro, check_running, tcp_of,
  look_around, clear_stale,
}
use dockup.Doctor.Run.{reinstall, fix_distro, fix_if, run_doctor}

-- A call that looks: it reads a file, asks whether something is there or answers, waits, makes a
-- directory or works on the lock file; or one that writes config.json or state.json, the latter by
-- its temporary file. In the distro it runs the two tests of `ask_distro`, and of docker it asks
-- what `context_info` shows.
unfoldable pub examines : Env → Call → Bool
examines e api_registered = true
examines e list_distros = true
examines e list_running = true
examines e (wsl_exec command) =
    str_eq command (codes "sh -c ps -p 1 -o comm=")
    || str_eq command (codes "sh -c test -S /var/run/docker.sock && echo ok")
examines e (dial pipe) = true
examines e (dial_tcp addr) = true
examines e (look_path name) = true
examines e (docker_cli args) =
    same_words args inspect_args || same_words args (codes "context" ∷ codes "show" ∷ [])
examines e (before ms) = true
examines e (sleep ms) = true
examines e (read_file path) = true
examines e (stat path) = true
examines e (mkdir path) = true
examines e lock_create = true
examines e lock_stale = true
examines e lock_remove = true
examines e lock_expired = true
examines e (write_file path) =
    str_eq path (state_file e ++ codes ".tmp") || str_eq path (config_file e)
examines e (rename old new) = str_eq old (state_file e ++ codes ".tmp") && str_eq new (state_file e)
examines e _ = false

module _ (e : Env) (allowed : Call → Bool)
    (allows : (c : Call) → examines e c ≡ true → allowed c ≡ true) where
  writes_state : examines e (write_file (state_file e ++ codes ".tmp")) ≡ true
  unfolding examines
  writes_state = rw (str_eq_refl (state_file e ++ codes ".tmp")) refl

  renames_state : examines e (rename (state_file e ++ codes ".tmp") (state_file e)) ≡ true
  unfolding examines
  renames_state =
      rw (str_eq_refl (state_file e ++ codes ".tmp")) (rw (str_eq_refl (state_file e)) refl)

  writes_config : examines e (write_file (config_file e)) ≡ true
  unfolding examines
  writes_config = ground (arith, str_eq_refl (config_file e))

  allows_state : AllowsState e allowed
  unfolding examines
  allows_state = (
    allows _ refl,
    allows _ refl,
    allows _ writes_state,
    allows _ renames_state,
    allows _ refl,
    allows _ refl,
    allows _ refl,
    allows _ refl,
    allows _ refl,
    allows _ refl,
  )

  allows_config : AllowsConfig e allowed
  unfolding examines
  allows_config = (allows _ refl, allows _ refl, allows _ writes_config, λ p. allows _ refl)

  allows_poll : AllowsPoll allowed
  unfolding examines
  allows_poll = (λ p. allows _ refl, λ ms. allows _ refl, λ ms. allows _ refl)

  load-Only : Keeps (Only allowed) (load_config e)
  load-Only = load_config-Only e allowed allows_config

  update-Only : (f : State → State) → Keeps (Only allowed) (with_lock e (updates f))
  update-Only f = with_lock-Only e allowed (updates f) allows_state (λ s. search only_rules)

  there-Only : Keeps (Only allowed) (exists e)
  unfolding examines
  there-Only = exists-Only e allowed (allows _ refl) (allows _ refl)

  alive-Only : (pipe : Str) → Keeps (Only allowed) (alive_on e pipe)
  alive-Only = alive_on-Only e allowed allows_poll

  forget-Only : (c : Result Config) → Keeps (Only allowed) (forget_path e c)
  unfolding forget_path
  forget-Only (err m) = search only_rules
  forget-Only (ok c) = search (only_rules, save_config-Only e allowed allows_config)

  gone-Only : Keeps (Only allowed) (gone e)
  unfolding gone clear_install_record
  gone-Only = search (only_rules, load-Only, forget-Only, update-Only)

  by_list-Only : (ds : _) → Keeps (Only allowed) (by_list e ds)
  unfolding by_list
  by_list-Only none = search only_rules
  by_list-Only (some ds) = search (only_rules, gone-Only)

  pub reconcile-Only : Keeps (Only allowed) (reconcile_distro e)
  unfolding reconcile_distro examines
  reconcile-Only = search (only_rules, allows, list-Only e allowed, gone-Only, by_list-Only)

  config_of-Only : (c : Result Config) → Keeps (Only allowed) (config_of e c)
  unfolding config_of is_enabled examines
  config_of-Only (err m) = search only_rules
  config_of-Only (ok c) = search (only_rules, allows)

  memory-Only : (home : Option Str) → Keeps (Only allowed) (check_memory e home)
  unfolding check_memory examines
  memory-Only none = search only_rules
  memory-Only (some home) = search (only_rules, allows)

  running-Only : Keeps (Only allowed) (check_running e)
  unfolding check_running ask_distro examines str_eq
  running-Only = search (only_rules, allows, there-Only, is_running-Only e allowed) depth 12

  info-Only : (pipe : Str) → Keeps (Only allowed) (context_info e pipe)
  unfolding context_info available inspect run_cli examines same_words str_eq
  info-Only pipe = search (only_rules, allows) depth 12

  tcp-Only : (c : Result Config) → Keeps (Only allowed) (tcp_of e c)
  unfolding tcp_of tcp_alive examines
  tcp-Only (err m) = search only_rules
  tcp-Only (ok c) = search (only_rules, allows)

  wsl-Only : Keeps (Only allowed) (check_wsl e)
  unfolding check_wsl examines
  wsl-Only = search (only_rules, allows)

  around-Only : Keeps (Only allowed) (look_around e)
  unfolding look_around examines
  around-Only = search (only_rules, allows, load-Only, alive-Only, info-Only, tcp-Only) depth 14

  stale-Only : (s : State) (pipe : Str) → Keeps (Only allowed) (clear_stale e s pipe)
  unfolding clear_stale
  stale-Only s pipe = search (only_rules, alive-Only, update-Only)

  distro-Only : (s : State) → Keeps (Only allowed) (check_distro e s)
  unfolding check_distro
  distro-Only s = search (only_rules, there-Only)

  config-Only : Keeps (Only allowed) (check_config e)
  unfolding check_config
  config-Only = search (only_rules, load-Only, config_of-Only)

  -- The whole run, but for what the repair at its end does.
  run_doctor-with :
      (fix : Bool)
      → ((failures : ℕ) → Keeps (Only allowed) (fix_if e fix failures))
      → Keeps (Only allowed) (run_doctor e fix)
  unfolding run_doctor
  run_doctor-with fix fixes = Keeps-bind _ _ config-Only λ config.
      Keeps-bind _ _ (memory-Only e.user_home) λ u. Keeps-bind _ _ wsl-Only λ wsl.
        Keeps-bind _ _ (current_state-Only e allowed allows_state) λ s.
          Keeps-bind _ _ (distro-Only s) λ distro. Keeps-bind _ _ running-Only λ running.
            Keeps-bind _ _ around-Only λ pipe.
              Keeps-bind _ _ (stale-Only s pipe)
                λ v. Keeps-bind _ _ reconcile-Only λ present. fixes _

module _ (e : Env) where
  -- Without --fix, whatever is wrong, doctor makes no other calls than these: it reads files, asks WSL,
  -- the pipe, the TCP bridge and the docker context, runs two tests in the distro, and corrects its own
  -- records, config.json and state.json, making their directories and holding the lock file. It writes
  -- no other file, and it ends, unregisters, starts, serves and installs nothing.
  pub run_doctor-Examines : Keeps (Only (examines e)) (run_doctor e false)
  unfolding fix_if
  run_doctor-Examines =
      run_doctor-with e (examines e) (λ c h. h) false (λ failures. search only_rules)

  reinstall-Spares : (r : Done) → Spares (reinstall e r)
  unfolding reinstall
  reinstall-Spares (ok u) = search only_rules
  reinstall-Spares (err m) = then-Spares _ _ (script-Spares e _) (λ u. retry-Spares e 2 _)

  fix_distro-Spares : Spares (fix_distro e)
  unfolding fix_distro spares
  fix_distro-Spares =
      search
        (
          only_rules, then-Spares, test_daemon-Spares, reinstall-Spares, script-Spares,
          wait_daemon-Spares,
        )
        depth 14

  spares-examines : (c : Call) → examines e c ≡ true → spares c ≡ true
  unfolding examines spares
  spares-examines c h = ground arith

  fix_if-Spares : (fix : Bool) (failures : ℕ) → Spares (fix_if e fix failures)
  unfolding fix_if
  fix_if-Spares false failures = search only_rules
  fix_if-Spares true failures =
      Keeps-bind _ _ (there-Only e spares spares-examines)
        λ there. search (only_rules, fix_distro-Spares)

  -- With --fix or without, doctor never unregisters the distro and never imports one: what it cannot
  -- repair is left for setup.
  pub run_doctor-Spares : (fix : Bool) → Spares (run_doctor e fix)
  run_doctor-Spares fix = run_doctor-with e spares spares-examines fix (fix_if-Spares fix)
