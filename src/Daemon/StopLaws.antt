-- ===== src/Daemon/StopLaws.antt =====
-- What `Stop` does to state.json and to processes.
use dockup.Base.{◌≡◌, Bool, true, false, ◌&&◌, List, Option, Str, arith, equal_fold, ◌==◌}
use dockup.Base.Int.{ℤ}
use dockup.Records.{State}
use dockup.Env.{Call, Env, query_process}
use dockup.Io.{World, pure, ◌>>=◌, ask, run}
use dockup.Io.Keeps.{Keeps, SameFiles, same_files_rules, Only}
use dockup.State.Laws.{Refuses, with_lock-refused}
use dockup.Userconfig.File.{current_config-SameFiles}
use dockup.Relay.Poll.{wait_dead_on-SameFiles}
use dockup.Daemon.{stop_locked, stop}
use dockup.Daemon.Process.{process_alive, kill_quiet, still_active}

-- No process of ours answers to any pid.
unfoldable pub NoneAlive : Env → Type 0
NoneAlive e =
    (t : List Call) (pid : ℤ)
    → (let r = e.reply t (query_process pid) in
        r.ok && ((r.num == still_active) && equal_fold r.out e.own_name))
      ≡ false

module _ (e : Env) (none_alive : NoneAlive e) where
  process_alive-dead : (pid : ℤ) (w : World) → (process_alive e pid w).0 ≡ false
  unfolding process_alive ask pure ◌>>=◌ NoneAlive
  process_alive-dead pid w = ground (arith, none_alive w.trace pid)

  stop_locked-Refuses : (fs : Str → Option Str) (s : State) → Refuses fs (stop_locked e s)
  unfolding stop_locked process_alive ask pure ◌>>=◌ NoneAlive
  stop_locked-Refuses fs s = record { at = λ w h. ground (arith, none_alive w.trace s.daemon.pid) }

  -- Where the recorded daemon is dead, `dockup daemon stop` leaves every file as it is: the stale pid
  -- that its message calls repaired is still in state.json.
  pub stop-stale : (fs : Str → Option Str) → Keeps (SameFiles fs) (stop e)
  unfolding stop
  stop-stale fs =
      search
        (
          same_files_rules, with_lock-refused, stop_locked-Refuses, current_config-SameFiles,
          wait_dead_on-SameFiles,
        )
        depth 8

  stop_locked-Only :
      (allowed : Call → Bool) (q : (pid : ℤ) → allowed (query_process pid) ≡ true) (s : State)
      → Keeps (Only allowed) (stop_locked e s)
  unfolding stop_locked kill_quiet run process_alive ask pure ◌>>=◌ NoneAlive
  stop_locked-Only allowed q s = record {
    at = λ w h. ground (arith, none_alive w.trace s.daemon.pid, q s.daemon.pid, h);
  }
