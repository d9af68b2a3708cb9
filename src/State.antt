-- ===== src/State.antt =====
-- internal/state/state.go: state.json, and its read-modify-write under the lock file. What other
-- processes do to the lock file is in the answers to the `lock_` calls: it is no file of the World.
-- `with_lock` makes at most `lock_rounds` rounds of the loop, and an error stands for those that are
-- used up, where the code goes on. Where the loop ends in time there is none: `acquire-ends`.
pub mod Laws
pub mod Acquire
pub mod Update
pub mod Register
pub mod Exclusion
use dockup.Base.{
  ℕ, zero, suc, Bool, true, false, not, Option, none, some, List, ◌++◌, Str, codes, if◌then◌else◌,
}
use dockup.Records.{State, zero_state}
use dockup.Env.{Call, Env, sleep, mkdir, lock_create, lock_stale, lock_remove, lock_expired}
use dockup.Io.{
  M, pure, ◌>>=◌, ◌>>◌, Result, ok, err, is_ok, Done, Read, content, not_exist, read_error, run,
  succeeds, attempt, read_path, write_path, rename_path,
}
use dockup.Config.{state_file, lock_file}

unfoldable pub lock_rounds : ℕ
lock_rounds = 1000

-- An update that cannot fail and makes no call.
abbrev pub updates : (State → State) → State → M (Done × State)
updates f s = pure (ok tt, f s)

module _ (e : Env) where
  unfoldable pub decode_state : Read → Result State
  decode_state not_exist = ok zero_state
  decode_state read_error = err (codes "read state.json")
  decode_state (content text) = elim (e.state_json.decode text) [
    | none ↦ err (codes "parse state.json")
    | some s ↦ ok s
  ]

  -- `Load`
  unfoldable pub load_state : M (Result State)
  unfolding decode_state
  load_state = do r ← read_path e (state_file e); pure (decode_state r)

  -- `s, _ := state.Load()`: on an error `Load` returns what it has, the zero state here.
  unfoldable pub state_or_zero : Result State → State
  state_or_zero (ok s) = s
  state_or_zero (err m) = zero_state

  unfoldable pub current_state : M State
  unfolding state_or_zero
  current_state = do r ← load_state; pure (state_or_zero r)

  -- `Save`: a temporary file, then a rename.
  unfoldable pub save_state : State → M Done
  save_state s = do
    made ← attempt e (mkdir (e.dir (state_file e))) (codes "mkdir")
    if not (is_ok made) then pure made else do
      let tmp = state_file e ++ codes ".tmp"
      wrote ← write_path e tmp (e.state_json.encode s)
      if not (is_ok wrote) then pure wrote else rename_path e tmp (state_file e)

  -- One round of the loop of `WithLock`, with the rounds after it.
  unfoldable pub acquire_round : M (Option Done) → M (Option Done)
  acquire_round again = do
    created ← succeeds e lock_create
    if created then pure (some (ok tt)) else do
      stale ← succeeds e lock_stale
      if stale then run e lock_remove >> again else do
        expired ← succeeds e lock_expired
        if expired
            then pure (some (err (codes "state is locked by another dockup process")))
            else run e (sleep 100) >> again

  -- The loop: `none` when the rounds are used up.
  unfoldable pub acquire : ℕ → M (Option Done)
  acquire zero = pure none
  acquire (suc rounds) = acquire_round (acquire rounds)

  unfoldable pub save_after : Done → State → M Done
  save_after (err m) s = pure (err m)
  save_after (ok u) s = save_state s

  unfoldable pub update_loaded : (State → M (Done × State)) → Result State → M Done
  update_loaded fn (err m) = pure (err m)
  update_loaded fn (ok s) = do r ← fn s; save_after r.0 r.1

  -- What `WithLock` does once it holds the lock; the deferred removal comes last.
  unfoldable pub locked : (State → M (Done × State)) → M Done
  locked fn = do s ← load_state; r ← update_loaded fn s; run e lock_remove; pure r

  unfoldable pub after_acquire : (State → M (Done × State)) → Option Done → M Done
  after_acquire fn none = pure (err (codes "out of rounds"))
  after_acquire fn (some (err m)) = pure (err m)
  after_acquire fn (some (ok u)) = locked fn

  unfoldable pub after_mkdir : (State → M (Done × State)) → Done → M Done
  after_mkdir fn (err m) = pure (err m)
  after_mkdir fn (ok u) = do got ← acquire lock_rounds; after_acquire fn got

  -- `WithLock`
  unfoldable pub with_lock : (State → M (Done × State)) → M Done
  with_lock fn = do
    made ← attempt e (mkdir (e.dir (lock_file e))) (codes "mkdir")
    after_mkdir fn made
