-- ===== src/Doctor/Repairs.antt =====
-- What the success of `fixDistro` in internal/doctor/doctor.go says.
use dockup.Base.{◌≡◌, true, List, ◌∷◌}
use dockup.Env.{Call, Env, terminate, sleep, before}
use dockup.Io.{World, ◌>>=◌, ◌>>◌, is_ok, ask, run}
use dockup.Docker.{test_daemon, wait_daemon}
use dockup.Docker.Answers.{Answered, AnswersIfOk, then-Answered, wait_daemon-Answered}
use dockup.Doctor.Run.{reinstall, fix_distro}

-- The clock of the last wait starts behind the restart of the distro: the first look at it is not
-- 90 s later.
unfoldable pub InTime : Env → Type 0
InTime e = (t : List Call) → (e.reply (sleep 3000 ∷ terminate ∷ t) (before 90000)).ok ≡ true

module _ (e : Env) where
  restart-Answered :
      InTime e → AnswersIfOk e (run e terminate >> (run e (sleep 3000) >> wait_daemon e 90000))
  unfolding run ask ◌>>=◌ InTime
  restart-Answered in_time w = wait_daemon-Answered e 90000 _ (in_time w.trace)

  -- Where doctor --fix reports that the engine is restored, the last thing that it did was to ask the
  -- engine for its version, and the engine gave one; the clock of the last wait is assumed to start
  -- within its 90 s.
  pub fix_distro-Answered :
      (w : World) → InTime e → is_ok (fix_distro e w).0 ≡ true → Answered e (fix_distro e w).1
  unfolding fix_distro ◌>>=◌
  fix_distro-Answered w in_time =
      then-Answered e (reinstall e (test_daemon e w).0) _
        (λ u. then-Answered e _ _ (λ v. restart-Answered in_time)) (test_daemon e w).1
