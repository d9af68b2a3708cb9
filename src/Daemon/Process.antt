-- ===== src/Daemon/Process.antt =====
-- `processAlive` and `killQuiet` of internal/daemon/daemon.go. The answer to `query_process` gathers
-- those of OpenProcess, GetExitCodeProcess and QueryFullProcessImageName: `ok` that none failed,
-- `num` the exit code, `out` the base name of the image.
use dockup.Base.{
  ℕ, ◌≡◌, Bool, true, false, ◌&&◌, ◌||◌, not, Str, Option, equal_fold, ◌==◌, if◌then◌else◌,
}
use dockup.Base.Int.{ℤ, pos, eq_ℤ, lt_ℤ}
use dockup.Env.{Call, Env, query_process, kill}
use dockup.Io.{M, pure, ◌>>=◌, ask, run}
use dockup.Io.Keeps.{Keeps, SameFiles, same_files_rules, Only, only_rules}

abbrev pub still_active : ℕ
still_active = 259

module _ (e : Env) where
  unfoldable pub process_alive : ℤ → M Bool
  process_alive pid = if not (lt_ℤ (pos 0) pid) || lt_ℤ (pos 4294967295) pid then pure false else do
    r ← ask e (query_process pid)
    pure (r.ok && ((r.num == still_active) && equal_fold r.out e.own_name))

  unfoldable pub kill_quiet : ℤ → M Unit
  kill_quiet pid = if eq_ℤ pid (pos 0) then pure tt else run e (kill pid)

module _ (e : Env) (fs : Str → Option Str) where
  pub process_alive-SameFiles : (pid : ℤ) → Keeps (SameFiles fs) (process_alive e pid)
  unfolding process_alive
  process_alive-SameFiles pid = search same_files_rules

  pub kill_quiet-SameFiles : (pid : ℤ) → Keeps (SameFiles fs) (kill_quiet e pid)
  unfolding kill_quiet
  kill_quiet-SameFiles pid = search same_files_rules

module _ (e : Env) (allowed : Call → Bool) where
  pub process_alive-Only :
      (pid : ℤ) → allowed (query_process pid) ≡ true → Keeps (Only allowed) (process_alive e pid)
  unfolding process_alive
  process_alive-Only pid a = search only_rules

  pub kill_quiet-Only :
      (pid : ℤ) → allowed (kill pid) ≡ true → Keeps (Only allowed) (kill_quiet e pid)
  unfolding kill_quiet
  kill_quiet-Only pid a = search only_rules
