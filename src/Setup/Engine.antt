-- ===== src/Setup/Engine.antt =====
-- What the checks of the engine in `RunEx` of internal/setup/setup.go say where they pass.
use dockup.Base.{◌≡◌, refl, Bool, true, false, List, ◌∷◌, codes}
use dockup.Env.{Call, Env, wsl_script, before, terminate, sleep}
use dockup.Io.{World, M, pure, ◌>>=◌, ◌>>◌, ◌>>?◌, next_of, ok, err, is_ok, Done, ask, run, attempt}
use dockup.Docker.{configure, after_reboot, not_systemd, wait_daemon}
use dockup.Docker.Answers.{Answered, AnswersIfOk, then-Answered, wait_daemon-Answered}
use dockup.Wsl.Retry.{exec_script}
use dockup.Setup.Install.{Source, install_engine, or_install, start_engine, check_distro}

abbrev start_services : Call
start_services = wsl_script (codes "systemctl start containerd.service docker.service || true")

-- The clock of a wait starts where the services have been started: the first look at it is not 90 s
-- later.
unfoldable pub StartsInTime : Env → Type 0
StartsInTime e = (t : List Call) → (e.reply (start_services ∷ t) (before 90000)).ok ≡ true

module _ (e : Env) (in_time : StartsInTime e) where
  -- The end of a configuration that succeeds, and the wait behind it.
  rebooted-Answered : (bad : Bool) → AnswersIfOk e (after_reboot e bad >>? λ u. wait_daemon e 90000)
  unfolding after_reboot exec_script attempt ask next_of pure ◌>>?◌ ◌>>=◌ StartsInTime
  rebooted-Answered true w h = absurd cc
  rebooted-Answered false w h = wait_daemon-Answered e 90000 _ (in_time w.trace) h

  -- The part of `Configure` behind its script.
  abbrev restarted : Unit {0} → M Done
  restarted u = do run e terminate; run e (sleep 3000); bad ← not_systemd e; after_reboot e bad

  restarted-Answered :
      (r : Done) (w : World)
      → is_ok
          (next_of (λ u. wait_daemon e 90000) (next_of restarted r w).0 (next_of restarted r w).1).0
        ≡ true
      → Answered e
          (next_of (λ u. wait_daemon e 90000) (next_of restarted r w).0 (next_of restarted r w).1).1
  unfolding next_of pure ◌>>?◌ ◌>>=◌
  restarted-Answered (err m) w h = absurd cc
  restarted-Answered (ok u) w h = rebooted-Answered _ _ h

  configured-Answered : AnswersIfOk e (configure e >>? λ u. wait_daemon e 90000)
  unfolding configure ◌>>?◌ ◌>>=◌
  configured-Answered w h = restarted-Answered _ _ h

  install_engine-Answered : AnswersIfOk e (install_engine e)
  unfolding install_engine
  install_engine-Answered = then-Answered e _ _ (λ u. configured-Answered)

  or_install-Answered :
      (r : Done) (w : World)
      → (is_ok r ≡ true → Answered e w)
      → is_ok (or_install e r w).0 ≡ true
      → Answered e (or_install e r w).1
  unfolding or_install pure
  or_install-Answered (ok u) w first h = first refl
  or_install-Answered (err m) w first h = install_engine-Answered w h

  start_engine-Answered : (image_used : Bool) → AnswersIfOk e (start_engine e image_used)
  unfolding start_engine ◌>>=◌
  start_engine-Answered false w h = install_engine-Answered w h
  start_engine-Answered true w h = or_install-Answered _ _ (configured-Answered w) h

  -- Where the checks of a setup pass, with the image or with packages, or with packages because the
  -- engine of the image did not start, the last thing that was done was to ask the engine for its
  -- version, and it gave one: no install is recorded of an engine that does not answer. The clock of a
  -- wait is assumed to start within its 90 s.
  pub check_distro-Answered :
      (src : Source) (w : World)
      → is_ok (check_distro e src w).0 ≡ true
      → Answered e (check_distro e src w).1
  unfolding check_distro
  check_distro-Answered src = then-Answered e _ _ (λ u. start_engine-Answered src.image_used)
