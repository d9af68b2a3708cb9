-- ===== src/Relay/Poll.antt =====
-- `AliveOn`, `WaitAliveOn` and `WaitDeadOn` of internal/relay/relay.go. A round of a wait sleeps
-- 200 ms, so that ms / 200 + 1 rounds reach any deadline of `ms` milliseconds.
use dockup.Base.{ℕ, zero, suc, ◌+◌, ◌/◌, ◌≡◌, Bool, true, false, not, Option, Str, if◌then◌else◌}
use dockup.Env.{Call, Env, dial, dial_tcp, before, sleep}
use dockup.Io.{M, pure, ◌>>=◌, ◌>>◌, run, succeeds}
use dockup.Io.Keeps.{Keeps, SameFiles, same_files_rules, Only, only_rules}

module _ (e : Env) where
  unfoldable pub alive_on : Str → M Bool
  alive_on pipe = succeeds e (dial pipe)

  unfoldable pub tcp_alive : Str → M Bool
  tcp_alive addr = succeeds e (dial_tcp addr)

  -- One round of a wait for `target`, with the rounds after it.
  wait_round : Bool → Str → ℕ → M Bool → M Bool
  wait_round target pipe ms again = do
    early ← succeeds e (before ms)
    if not early then pure false else do
      alive ← alive_on pipe
      if (if target then alive else not alive) then pure true else do run e (sleep 200); again

  wait_loop : ℕ → Bool → Str → ℕ → M Bool
  wait_loop zero target pipe ms = pure false
  wait_loop (suc rounds) target pipe ms =
      wait_round target pipe ms (wait_loop rounds target pipe ms)

  pub wait_alive_on : Str → ℕ → M Bool
  wait_alive_on pipe ms = wait_loop (ms / 200 + 1) true pipe ms

  pub wait_dead_on : Str → ℕ → M Bool
  wait_dead_on pipe ms = wait_loop (ms / 200 + 1) false pipe ms

module _ (e : Env) (fs : Str → Option Str) where
  pub alive_on-SameFiles : (pipe : Str) → Keeps (SameFiles fs) (alive_on e pipe)
  unfolding alive_on
  alive_on-SameFiles pipe = search same_files_rules

  pub tcp_alive-SameFiles : (addr : Str) → Keeps (SameFiles fs) (tcp_alive e addr)
  unfolding tcp_alive
  tcp_alive-SameFiles addr = search same_files_rules

  wait_round-SameFiles :
      (target : Bool) (pipe : Str) (ms : ℕ) (again : M Bool)
      → Keeps (SameFiles fs) again
      → Keeps (SameFiles fs) (wait_round e target pipe ms again)
  unfolding wait_round
  wait_round-SameFiles target pipe ms again h =
      search (same_files_rules, alive_on-SameFiles) depth 10

  wait_loop-SameFiles :
      (rounds : ℕ) (target : Bool) (pipe : Str) (ms : ℕ)
      → Keeps (SameFiles fs) (wait_loop e rounds target pipe ms)
  unfolding wait_loop
  wait_loop-SameFiles zero target pipe ms = search same_files_rules
  wait_loop-SameFiles (suc rounds) target pipe ms =
      wait_round-SameFiles target pipe ms _ (wait_loop-SameFiles rounds target pipe ms)

  pub wait_alive_on-SameFiles :
      (pipe : Str) (ms : ℕ) → Keeps (SameFiles fs) (wait_alive_on e pipe ms)
  unfolding wait_alive_on
  wait_alive_on-SameFiles pipe ms = wait_loop-SameFiles (ms / 200 + 1) true pipe ms

  pub wait_dead_on-SameFiles : (pipe : Str) (ms : ℕ) → Keeps (SameFiles fs) (wait_dead_on e pipe ms)
  unfolding wait_dead_on
  wait_dead_on-SameFiles pipe ms = wait_loop-SameFiles (ms / 200 + 1) false pipe ms

-- The calls of a wait.
abbrev pub AllowsPoll : (Call → Bool) → Type 0
AllowsPoll allowed =
    ((pipe : Str) → allowed (dial pipe) ≡ true)
    × ((ms : ℕ) → allowed (before ms) ≡ true)
    × ((ms : ℕ) → allowed (sleep ms) ≡ true)

module _ (e : Env) (allowed : Call → Bool) (allows : AllowsPoll allowed) where
  pub alive_on-Only : (pipe : Str) → Keeps (Only allowed) (alive_on e pipe)
  unfolding alive_on
  alive_on-Only pipe = search (only_rules, allows.0)

  wait_round-Only :
      (target : Bool) (pipe : Str) (ms : ℕ) (again : M Bool)
      → Keeps (Only allowed) again
      → Keeps (Only allowed) (wait_round e target pipe ms again)
  unfolding wait_round
  wait_round-Only target pipe ms again h =
      search (only_rules, alive_on-Only, allows.1, allows.2) depth 10

  wait_loop-Only :
      (rounds : ℕ) (target : Bool) (pipe : Str) (ms : ℕ)
      → Keeps (Only allowed) (wait_loop e rounds target pipe ms)
  unfolding wait_loop
  wait_loop-Only zero target pipe ms = search only_rules
  wait_loop-Only (suc rounds) target pipe ms =
      wait_round-Only target pipe ms _ (wait_loop-Only rounds target pipe ms)

  pub wait_alive_on-Only : (pipe : Str) (ms : ℕ) → Keeps (Only allowed) (wait_alive_on e pipe ms)
  unfolding wait_alive_on
  wait_alive_on-Only pipe ms = wait_loop-Only (ms / 200 + 1) true pipe ms

  pub wait_dead_on-Only : (pipe : Str) (ms : ℕ) → Keeps (Only allowed) (wait_dead_on e pipe ms)
  unfolding wait_dead_on
  wait_dead_on-Only pipe ms = wait_loop-Only (ms / 200 + 1) false pipe ms
