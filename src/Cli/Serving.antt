-- ===== src/Cli/Serving.antt =====
-- `foreground` and `serveForever` of cmd/dockup/main.go: what they do and return, without what they
-- print. A foreground runs `ServeEx` in a goroutine, which it sees through its calls; the hidden
-- child runs it itself.
use dockup.Base.{ℕ, ◌≡◌, refl, Bool, true, false, not, ◌&&◌, Str, codes, arith, if◌then◌else◌}
use dockup.Records.{State, Config}
use dockup.Env.{Call, Reply, Env, interrupted, serve, mirror_told, serve_failed, serve_ended}
use dockup.Io.{M, pure, ◌>>=◌, ◌>>◌, is_ok, ask, run, succeeds}
use dockup.Io.Keeps.{Keeps, Only, only_rules}
use dockup.State.{current_state, with_lock, updates}
use dockup.State.Laws.{AllowsState, current_state-Only, with_lock-Only}
use dockup.Userconfig.Paths.{effective_pipe, effective_port, validate_port}
use dockup.Wsl.Listing.{exists}
use dockup.Wsl.Retry.{exec}
use dockup.Relay.Poll.{alive_on, wait_alive_on, wait_dead_on}
use dockup.Relay.Serve.{serve_ex, serves_locally, serve_ex-Locally}
use dockup.Daemon.{pid_is_zero}
use dockup.Daemon.Process.{process_alive}
use dockup.Doctor.Reconcile.{reconcile_distro}
use dockup.Doctor.Examines.{examines, reconcile-Only}
use dockup.Cli.Commands.{record_mirror}

module _ (e : Env) where
  -- `wasInterrupted`
  unfoldable pub was_interrupted : M Bool
  was_interrupted = succeeds e interrupted

  unfoldable pub exit_code : ℕ → M ℕ
  exit_code code = do in_time ← was_interrupted; pure (if in_time then 130 else code)

  unfoldable pub note_mirror : Reply → M Unit
  note_mirror told = if told.ok then record_mirror e told.flag else pure tt

  -- The end of a foreground that is up: it waits for the relay.
  unfoldable pub wait_served : Str → M ℕ
  wait_served pipe = do
    fine ← succeeds e serve_ended
    if not fine then pure 1 else do dead ← wait_dead_on e pipe 5000; pure 130

  unfoldable pub warm_up : Str → M ℕ
  warm_up pipe = do
    warm ← exec e (codes "sh -c echo ok")
    if is_ok warm then wait_served pipe else exit_code 1

  unfoldable pub serve_inline : Str → M ℕ
  serve_inline pipe = do
    run e serve
    up ← wait_alive_on e pipe 10000
    if not up
        then (do
          in_time ← was_interrupted
          (if in_time then pure tt else run e serve_failed)
          pure (if in_time then 130 else 1))
        else do told ← ask e mirror_told; note_mirror told; warm_up pipe

  -- State claims an install that WSL has lost.
  unfoldable pub install_lost : State → M Bool
  install_lost s =
      if not s.installed
      then pure false
      else do p ← reconcile_distro e; pure (not p.failed && not p.present)

  unfoldable pub never_set_up : State → M Bool
  never_set_up s = if s.installed then pure false else do there ← exists e; pure (not there)

  unfoldable pub background_up : State → M Bool
  background_up s = if pid_is_zero s then pure false else process_alive e s.daemon.pid

  -- The checks before a foreground serves: a code where one refuses.
  unfoldable pub foreground : Config → M ℕ
  foreground cfg = do
    s ← current_state e
    missing ← never_set_up s
    if missing then pure 1 else do
      behind ← background_up s
      if behind then pure 1 else do
        held ← alive_on e (effective_pipe cfg)
        if held then pure 1 else do
          in_time ← was_interrupted
          if in_time then pure 130 else do
            lost ← install_lost s
            if lost then pure 1 else serve_inline (effective_pipe cfg)

  -- `serveForever`
  unfoldable pub serve_child : Config → M ℕ
  serve_child cfg = do
    d ← serve_ex e (effective_pipe cfg) cfg.use_tcp (effective_port cfg) (record_mirror e)
    pure (if is_ok d then 0 else 1)

  unfoldable pub serve_forever : Config → M ℕ
  serve_forever cfg = do
    s ← current_state e
    if not s.installed then pure 1 else do
      p ← reconcile_distro e
      if not p.failed && not p.present
          then pure 1
          else if cfg.use_tcp && not (validate_port (effective_port cfg))
          then pure 1
          else serve_child cfg

module _ (e : Env) (cfg : Config) where
  abbrev local : Call → Bool
  local = serves_locally (effective_pipe cfg) cfg.use_tcp (effective_port cfg)

  abbrev Locally : {A : Type 0} → M A → Type 0
  Locally m = Keeps (Only local) m

  examined :
      (c : Call)
      → examines e c ≡ true
      → serves_locally (effective_pipe cfg) cfg.use_tcp (effective_port cfg) c ≡ true
  unfolding examines serves_locally
  examined c h = ground arith

  allows_state : AllowsState e local
  unfolding serves_locally
  allows_state = (refl, refl, refl, refl, refl, refl, refl, refl, refl, refl)

  state-Locally : Locally (current_state e)
  state-Locally = current_state-Only e local allows_state

  update-Locally : (f : State → State) → Locally (with_lock e (updates f))
  update-Locally f = with_lock-Only e local (updates f) allows_state (λ s. search only_rules)

  reconcile-Locally : Locally (reconcile_distro e)
  reconcile-Locally = reconcile-Only e local examined

  mirror-Locally : (served : Bool) → Locally (record_mirror e served)
  unfolding record_mirror
  mirror-Locally served = search (only_rules, state-Locally, update-Locally)

  child-Locally : Locally (serve_child e cfg)
  unfolding serve_child
  child-Locally = search (
    only_rules,
    serve_ex-Locally e (effective_pipe cfg) cfg.use_tcp (effective_port cfg) (record_mirror e)
        mirror-Locally,
  )

  -- The background process, with its checks, the repair of a stale record and what it records of the
  -- mirror, listens only on the pipe of the configuration, on Docker Desktop's pipe and, if the
  -- configuration says so and its port is valid, on that port of 127.0.0.1.
  pub serve_forever-Locally : Locally (serve_forever e cfg)
  unfolding serve_forever
  serve_forever-Locally =
      search (only_rules, state-Locally, reconcile-Locally, child-Locally) depth 12
