-- ===== src/State/Register.antt =====
-- state.json as an atomic register: what `WithLock` of internal/state/state.go does to the state that
-- `Load` reads, whether it reports success or not.
use dockup.Base.{
  ◌≡◌, ◌∙◌, refl, sym, ap, true, false, Option, none, some, ◌++◌, Str, codes, arith, Bool-cases,
  inl, inr, str_eq_refl, str_eq_comm, if◌then◌else◌,
}
use dockup.Records.{State}
use dockup.Env.{Env, mkdir}
use dockup.Io.{
  World, pure, ◌>>=◌, Result, ok, err, is_ok, Done, ask, run, attempt, write_path, rename_path,
}
use dockup.Config.{state_file, lock_file}
use dockup.State.{
  decode_state, load_state, save_state, acquire, save_after, update_loaded, locked, after_acquire,
  after_mkdir, with_lock, lock_rounds, updates,
}
use dockup.State.Laws.{acquire-SameFiles, load_state-SameFiles}
use dockup.State.Update.{tmp_ne, stored, with_lock-ok}

-- An update of a register that may not be readable.
abbrev pub updated : (State → State) → Result State → Result State
updated f (ok s) = ok (f s)
updated f (err m) = err m

module _ (e : Env) where
  stored-files :
      (fs gs : Str → Option Str) → gs (state_file e) ≡ fs (state_file e) → stored e gs ≡ stored e fs
  unfolding stored
  stored-files fs gs h = cc

  stored-encoded :
      (fs : Str → Option Str) (s : State)
      → fs (state_file e) ≡ some (e.state_json.encode s)
      → stored e fs ≡ ok s
  unfolding stored decode_state
  stored-encoded fs s h = ground (arith, h, e.state_json.decode-encode s)

  -- A save that fails leaves state.json as it was.
  save_state-failed :
      (s : State) (w : World)
      → is_ok (save_state e s w).0 ≡ false
      → (save_state e s w).1.files (state_file e) ≡ w.files (state_file e)
  unfolding save_state attempt write_path rename_path ask ◌>>=◌ pure
  save_state-failed s w h = ground (
    arith,
    tmp_ne e,
    str_eq_comm (state_file e) (state_file e ++ codes ".tmp"),
    str_eq_refl (state_file e),
    str_eq_refl (state_file e ++ codes ".tmp"),
  )

  module _ (f : State → State) where
    update_loaded-failed :
        (r : Result State) (w : World)
        → is_ok (update_loaded e (updates f) r w).0 ≡ false
        → (update_loaded e (updates f) r w).1.files (state_file e) ≡ w.files (state_file e)
    unfolding update_loaded save_after pure ◌>>=◌
    update_loaded-failed (err m) w h = refl
    update_loaded-failed (ok s) w h = save_state-failed (f s) w h

    locked-failed :
        (w : World)
        → is_ok (locked e (updates f) w).0 ≡ false
        → (locked e (updates f) w).1.files (state_file e) ≡ w.files (state_file e)
    unfolding locked run ask pure ◌>>=◌
    locked-failed w h =
        update_loaded-failed (load_state e w).0 (load_state e w).1 h
        ∙ ap (λ fs. fs (state_file e)) ((load_state-SameFiles e w.files).at w refl)

    after_acquire-failed :
        (got : Option Done) (w : World)
        → is_ok (after_acquire e (updates f) got w).0 ≡ false
        → (after_acquire e (updates f) got w).1.files (state_file e) ≡ w.files (state_file e)
    unfolding after_acquire pure
    after_acquire-failed none w h = refl
    after_acquire-failed (some (err m)) w h = refl
    after_acquire-failed (some (ok u)) w h = locked-failed w h

    after_mkdir-failed :
        (made : Done) (w : World)
        → is_ok (after_mkdir e (updates f) made w).0 ≡ false
        → (after_mkdir e (updates f) made w).1.files (state_file e) ≡ w.files (state_file e)
    unfolding after_mkdir pure ◌>>=◌
    after_mkdir-failed (err m) w h = refl
    after_mkdir-failed (ok u) w h =
        after_acquire-failed (acquire e lock_rounds w).0 (acquire e lock_rounds w).1 h
        ∙ ap (λ fs. fs (state_file e)) ((acquire-SameFiles e w.files lock_rounds).at w refl)

    with_lock-failed :
        (w : World)
        → is_ok (with_lock e (updates f) w).0 ≡ false
        → (with_lock e (updates f) w).1.files (state_file e) ≡ w.files (state_file e)
    unfolding with_lock attempt ask ◌>>=◌
    with_lock-failed w h =
        let (made, w') = attempt e (mkdir (e.dir (lock_file e))) (codes "mkdir") w in
        after_mkdir-failed made w' h

    with_lock-read :
        (w : World)
        → is_ok (with_lock e (updates f) w).0 ≡ true
        → stored e (with_lock e (updates f) w).1.files ≡ updated f (stored e w.files)
    with_lock-read w h =
        let (s, was, saved) = with_lock-ok e f w h in
        stored-encoded (with_lock e (updates f) w).1.files (f s) saved ∙ sym (ap (updated f) was)

    -- A locked update implements the update of an atomic register: what `Load` reads afterwards is the
    -- update of what it read before where success is reported, and exactly what it read before where an
    -- error is, at whatever call and however the environment fails.
    pub with_lock-atomic :
        (w : World)
        → stored e (with_lock e (updates f) w).1.files ≡ (
            if is_ok (with_lock e (updates f) w).0
            then updated f (stored e w.files)
            else stored e w.files)
    with_lock-atomic w = elim (Bool-cases (is_ok (with_lock e (updates f) w).0)) [
      | inl good ↦ rw good (with_lock-read w good)
      | inr bad ↦
          rw bad (stored-files w.files (with_lock e (updates f) w).1.files (with_lock-failed w bad))
    ]
