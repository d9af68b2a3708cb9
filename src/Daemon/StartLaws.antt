-- ===== src/Daemon/StartLaws.antt =====
-- When `Start` spawns a process, and what it records.
use dockup.Base.{◌≡◌, ◌⊎◌, true, false, Str, arith}
use dockup.Records.{State}
use dockup.Env.{Env}
use dockup.Io.{World, pure, ◌>>=◌, is_ok, ask, run, attempt}
use dockup.Relay.Poll.{alive_on}
use dockup.Daemon.{spawn, start_locked, no_daemon, pid_is_zero}
use dockup.Daemon.Process.{process_alive}

module _ (e : Env) where
  spawn-ok :
      (s : State) (w : World)
      → is_ok (spawn e s w).0.0 ≡ true
      → ((spawn e s w).0.1 ≡ record s { daemon = (spawn e s w).0.1.daemon })
        × ((spawn e s w).0.1.daemon.mirror ≡ false)
  unfolding spawn attempt run ask pure ◌>>=◌
  spawn-ok s w h = ground arith

  -- Where the body of `Start`'s update reports no error, dockup was installed, with no recorded pid
  -- the pipe did not answer, with one its process was dead, and of the state only the daemon record
  -- has changed, to one that is no mirror.
  pub start_locked-ok :
      (pipe : Str) (s : State) (w : World)
      → is_ok (start_locked e pipe s w).0.0 ≡ true
      → (s.installed ≡ true)
        × ((pid_is_zero s ≡ false) ⊎ ((alive_on e pipe w).0 ≡ false))
        × ((pid_is_zero s ≡ true)
            ⊎ ((process_alive e s.daemon.pid (alive_on e pipe w).1).0 ≡ false))
        × ((start_locked e pipe s w).0.1
            ≡ record s { daemon = (start_locked e pipe s w).0.1.daemon })
        × ((start_locked e pipe s w).0.1.daemon.mirror ≡ false)
  unfolding start_locked ◌>>=◌ pure
  start_locked-ok pipe s w h =
      let w1 = (alive_on e pipe w).1 in
      ground (arith, spawn-ok s w1, spawn-ok (no_daemon s) (process_alive e s.daemon.pid w1).1)
