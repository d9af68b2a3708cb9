-- ===== src/State/Update.antt =====
-- What `Save` and `WithLock` leave in state.json.
use dockup.Base.{
  ◌≡◌, refl, sym, ap, ◌∙◌, true, false, Option, none, some, Str, codes, ◌++◌, arith, str_eq,
  str_eq_refl, str_eq-append_self, str_eq_comm,
}
use dockup.Records.{State}
use dockup.Env.{Env, mkdir}
use dockup.Io.{
  World, run, pure, ◌>>=◌, Result, ok, err, is_ok, Done, content, not_exist, ask, read_path,
  write_path, rename_path, attempt,
}
use dockup.Config.{state_file, lock_file}
use dockup.State.{
  decode_state, load_state, save_state, acquire, save_after, update_loaded, locked, after_acquire,
  after_mkdir, with_lock, lock_rounds,
}
use dockup.State.Laws.{acquire-SameFiles}

module _ (e : Env) where
  pub tmp_ne : str_eq (state_file e ++ codes ".tmp") (state_file e) ≡ false
  tmp_ne = str_eq-append_self (state_file e) b'.' (codes "tmp")

  -- A successful save leaves the encoded record in state.json.
  pub save_state-ok :
      (s : State) (w : World)
      → is_ok (save_state e s w).0 ≡ true
      → (save_state e s w).1.files (state_file e) ≡ some (e.state_json.encode s)
  unfolding save_state attempt write_path rename_path ask ◌>>=◌
  save_state-ok s w h = ground (
    arith,
    tmp_ne,
    str_eq_comm (state_file e) (state_file e ++ codes ".tmp"),
    str_eq_refl (state_file e),
    str_eq_refl (state_file e ++ codes ".tmp"),
  )

  -- What `Load` answers on these files, where they can be read.
  unfoldable pub stored : (Str → Option Str) → Result State
  unfolding decode_state
  stored fs =
      decode_state e (elim (fs (state_file e)) [ none ↦ not_exist | some text ↦ content text ])

  load_state-stored : (w : World) (s : State) → (load_state e w).0 ≡ ok s → stored w.files ≡ ok s
  unfolding load_state stored decode_state read_path ask ◌>>=◌
  load_state-stored w s h = ground arith

  update_loaded-ok :
      (f : State → State) (r : Result State) (w : World)
      → is_ok (update_loaded e (λ s. pure (ok tt, f s)) r w).0 ≡ true
      → (s : State) × (r ≡ ok s)
        × ((update_loaded e (λ s. pure (ok tt, f s)) r w).1.files (state_file e)
            ≡ some (e.state_json.encode (f s)))
  unfolding update_loaded save_after pure ◌>>=◌
  update_loaded-ok f (err m) w h = absurd (cc)
  update_loaded-ok f (ok s) w h = (s, refl, save_state-ok (f s) w h)

  locked-ok :
      (f : State → State) (w : World)
      → is_ok (locked e (λ s. pure (ok tt, f s)) w).0 ≡ true
      → (s : State) × (stored w.files ≡ ok s)
        × ((locked e (λ s. pure (ok tt, f s)) w).1.files (state_file e)
            ≡ some (e.state_json.encode (f s)))
  unfolding locked run ask ◌>>=◌
  locked-ok f w h =
      let (r, w') = load_state e w in
      let (s, loaded, saved) = update_loaded-ok f (load_state e w).0 (load_state e w).1 h in
      (s, load_state-stored w s loaded, saved)

  after_acquire-ok :
      (f : State → State) (got : Option Done) (w : World)
      → is_ok (after_acquire e (λ s. pure (ok tt, f s)) got w).0 ≡ true
      → (s : State) × (stored w.files ≡ ok s)
        × ((after_acquire e (λ s. pure (ok tt, f s)) got w).1.files (state_file e)
            ≡ some (e.state_json.encode (f s)))
  unfolding after_acquire pure
  after_acquire-ok f none w h = absurd (cc)
  after_acquire-ok f (some (err m)) w h = absurd (cc)
  after_acquire-ok f (some (ok u)) w h = locked-ok f w h

  after_mkdir-ok :
      (f : State → State) (made : Done) (w : World)
      → is_ok (after_mkdir e (λ s. pure (ok tt, f s)) made w).0 ≡ true
      → (s : State) × (stored w.files ≡ ok s)
        × ((after_mkdir e (λ s. pure (ok tt, f s)) made w).1.files (state_file e)
            ≡ some (e.state_json.encode (f s)))
  unfolding after_mkdir pure ◌>>=◌
  after_mkdir-ok f (err m) w h = absurd (cc)
  after_mkdir-ok f (ok u) w h =
      let (s, was, saved) =
        after_acquire-ok f (acquire e lock_rounds w).0 (acquire e lock_rounds w).1 h in
      (s, ap stored (sym ((acquire-SameFiles e w.files lock_rounds).at w refl)) ∙ was, saved)

  -- Whatever the environment does: where a locked update reports success, state.json was readable and
  -- held a state `s` (the zero state if the file was missing), and it now holds exactly `f s`.
  pub with_lock-ok :
      (f : State → State) (w : World)
      → is_ok (with_lock e (λ s. pure (ok tt, f s)) w).0 ≡ true
      → (s : State) × (stored w.files ≡ ok s)
        × ((with_lock e (λ s. pure (ok tt, f s)) w).1.files (state_file e)
            ≡ some (e.state_json.encode (f s)))
  unfolding with_lock attempt ask ◌>>=◌
  with_lock-ok f w h =
      let (made, w') = attempt e (mkdir (e.dir (lock_file e))) (codes "mkdir") w in
      after_mkdir-ok f made w' h
