-- ===== src/State/Laws.antt =====
-- What reads and writes of state.json keep, for every environment.
use dockup.Base.{ℕ, zero, suc, ◌≡◌, Bool, true, false, Option, none, some, Str, codes, ◌++◌}
use dockup.Records.{State}
use dockup.Env.{
  Call, Env, sleep, mkdir, read_file, write_file, rename, lock_create, lock_stale, lock_remove,
  lock_expired,
}
use dockup.Io.{World, M, ◌>>=◌, Result, ok, err, is_ok, Done}
use dockup.Io.Keeps.{Keeps, SameFiles, same_files_rules, Only, only_rules}
use dockup.Config.{state_file, lock_file}
use dockup.State.{
  load_state, current_state, save_state, after_mkdir, acquire_round, acquire, save_after,
  update_loaded, locked, after_acquire, with_lock,
}

module _ (e : Env) (fs : Str → Option Str) where
  pub load_state-SameFiles : Keeps (SameFiles fs) (load_state e)
  unfolding load_state
  load_state-SameFiles = search same_files_rules

  pub current_state-SameFiles : Keeps (SameFiles fs) (current_state e)
  unfolding current_state
  current_state-SameFiles = search (same_files_rules, load_state-SameFiles)

  acquire_round-SameFiles :
      (again : M (Option Done))
      → Keeps (SameFiles fs) again
      → Keeps (SameFiles fs) (acquire_round e again)
  unfolding acquire_round
  acquire_round-SameFiles again h = search same_files_rules depth 12

  pub acquire-SameFiles : (n : ℕ) → Keeps (SameFiles fs) (acquire e n)
  unfolding acquire
  acquire-SameFiles zero = search same_files_rules
  acquire-SameFiles (suc n) = acquire_round-SameFiles (acquire e n) (acquire-SameFiles n)

-- The calls that a read-modify-write makes, besides those of its body.
abbrev pub AllowsState : Env → (Call → Bool) → Type 0
AllowsState e allowed =
    (allowed (read_file (state_file e)) ≡ true)
    × (allowed (mkdir (e.dir (state_file e))) ≡ true)
    × (allowed (write_file (state_file e ++ codes ".tmp")) ≡ true)
    × (allowed (rename (state_file e ++ codes ".tmp") (state_file e)) ≡ true)
    × (allowed (mkdir (e.dir (lock_file e))) ≡ true)
    × (allowed lock_create ≡ true)
    × (allowed lock_stale ≡ true)
    × (allowed lock_remove ≡ true)
    × (allowed lock_expired ≡ true)
    × (allowed (sleep 100) ≡ true)

module _ (e : Env) (allowed : Call → Bool) where
  pub load_state-Only : AllowsState e allowed → Keeps (Only allowed) (load_state e)
  unfolding load_state
  load_state-Only a = search only_rules

  pub current_state-Only : AllowsState e allowed → Keeps (Only allowed) (current_state e)
  unfolding current_state
  current_state-Only a = search (only_rules, load_state-Only a)

  pub save_state-Only : (s : State) → AllowsState e allowed → Keeps (Only allowed) (save_state e s)
  unfolding save_state
  save_state-Only s a = search only_rules depth 12

  module _ (fn : State → M (Done × State)) (allows : AllowsState e allowed) where
    save_after-Only : (d : Done) (s : State) → Keeps (Only allowed) (save_after e d s)
    unfolding save_after
    save_after-Only (err m) s = search only_rules
    save_after-Only (ok u) s = save_state-Only s allows

    update_loaded-Only :
        ((s : State) → Keeps (Only allowed) (fn s))
        → (r : Result State) → Keeps (Only allowed) (update_loaded e fn r)
    unfolding update_loaded
    update_loaded-Only body (err m) = search only_rules
    update_loaded-Only body (ok s) = search (only_rules, body, save_after-Only)

    locked-Only : ((s : State) → Keeps (Only allowed) (fn s)) → Keeps (Only allowed) (locked e fn)
    unfolding locked
    locked-Only body = search (only_rules, allows, load_state-Only, update_loaded-Only)

    acquire-Only : (n : ℕ) → Keeps (Only allowed) (acquire e n)
    unfolding acquire
    acquire-Only zero = search only_rules
    acquire-Only (suc n) = acquire_round-Only (acquire e n) (acquire-Only n)
      where
        acquire_round-Only :
            (again : M (Option Done))
            → Keeps (Only allowed) again
            → Keeps (Only allowed) (acquire_round e again)
        acquire_round-Only again h = unfold acquire_round in search only_rules depth 12

    after_acquire-Only :
        ((s : State) → Keeps (Only allowed) (fn s))
        → (got : Option Done) → Keeps (Only allowed) (after_acquire e fn got)
    unfolding after_acquire
    after_acquire-Only body none = search only_rules
    after_acquire-Only body (some (err m)) = search only_rules
    after_acquire-Only body (some (ok u)) = locked-Only body

    after_mkdir-Only :
        ((s : State) → Keeps (Only allowed) (fn s))
        → (made : Done) → Keeps (Only allowed) (after_mkdir e fn made)
    unfolding after_mkdir
    after_mkdir-Only body (err m) = search only_rules
    after_mkdir-Only body (ok u) = search (only_rules, acquire-Only, after_acquire-Only body)

    -- A locked update makes the calls of its body and those of `AllowsState`, and no others.
    pub with_lock-Only :
        ((s : State) → Keeps (Only allowed) (fn s)) → Keeps (Only allowed) (with_lock e fn)
    unfolding with_lock
    with_lock-Only body = search (only_rules, after_mkdir-Only body)

-- A body that reports an error has changed nothing on disk: `WithLock` saves only after a nil error.
pub record Refuses {A : Type 0} (fs : Str → Option Str) (m : M (Done × A)) : Type 0 where
  pub at : (w : World) → SameFiles fs w → SameFiles fs (m w).1 × (is_ok (m w).0.0 ≡ false)

module _ (e : Env) (fs : Str → Option Str) (fn : State → M (Done × State)) where
  save_after-refused :
      (d : Done) (s : State) → is_ok d ≡ false → Keeps (SameFiles fs) (save_after e d s)
  unfolding save_after
  save_after-refused (err m) s h = search same_files_rules
  save_after-refused (ok u) s h = cc

  update_loaded-refused :
      ((s : State) → Refuses fs (fn s))
      → (r : Result State) → Keeps (SameFiles fs) (update_loaded e fn r)
  unfolding update_loaded ◌>>=◌
  update_loaded-refused refuses (err m) = search same_files_rules
  update_loaded-refused refuses (ok s) = record {
    at = λ w h.
        let (same, refused) = (refuses s).at w h in
        (save_after-refused (fn s w).0.0 (fn s w).0.1 refused).at (fn s w).1 same;
  }

  locked-refused : ((s : State) → Refuses fs (fn s)) → Keeps (SameFiles fs) (locked e fn)
  unfolding locked
  locked-refused refuses = search (same_files_rules, load_state-SameFiles, update_loaded-refused)

  after_acquire-refused :
      ((s : State) → Refuses fs (fn s))
      → (got : Option Done) → Keeps (SameFiles fs) (after_acquire e fn got)
  unfolding after_acquire
  after_acquire-refused refuses none = search same_files_rules
  after_acquire-refused refuses (some (err m)) = search same_files_rules
  after_acquire-refused refuses (some (ok u)) = locked-refused refuses

  after_mkdir-refused :
      ((s : State) → Refuses fs (fn s))
      → (made : Done) → Keeps (SameFiles fs) (after_mkdir e fn made)
  unfolding after_mkdir
  after_mkdir-refused refuses (err m) = search same_files_rules
  after_mkdir-refused refuses (ok u) =
      search (same_files_rules, acquire-SameFiles e fs, after_acquire-refused refuses)

  pub with_lock-refused : ((s : State) → Refuses fs (fn s)) → Keeps (SameFiles fs) (with_lock e fn)
  unfolding with_lock
  with_lock-refused refuses = search (same_files_rules, after_mkdir-refused refuses)
