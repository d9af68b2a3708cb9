-- ===== src/Setup/Uninstall/Spared.antt =====
-- What an uninstall leaves alone: the cached images, and all else outside the distro's directory.
use dockup.Base.{
  ℕ, zero, suc, ◌+◌, ◌≡◌, refl, Bool, true, false, Option, none, some, List, [], ◌∷◌, ◌++◌, Str,
  codes, str_eq, str_eq_refl, ◌⊎◌, inl, inr, ◌∙◌, if◌then◌else◌,
}
use dockup.Records.{State, Config, zero_state}
use dockup.Env.{Env}
use dockup.Io.{World, M, ◌>>=◌, pure, Result, ok, err, Done, under, remove_tree}
use dockup.Io.Keeps.{Keeps, Keeps-bind}
use dockup.Io.Holds.{Holds, holds_rules, SameFiles-Holds, remove_tree-Holds}
use dockup.Config.{state_file, lock_file}
use dockup.State.{
  lock_rounds, save_state, save_after, update_loaded, locked, after_acquire, after_mkdir, with_lock,
  updates,
}
use dockup.State.Laws.{load_state-SameFiles, acquire-SameFiles}
use dockup.Userconfig.File.{
  config_file, load_config, save_config, current_root, distro_dir, load_config-SameFiles,
  current_root-SameFiles, distro_dir-SameFiles, distro_dir-cases,
}
use dockup.Wsl.Listing.{exists-SameFiles}
use dockup.Dockctx.{available, inspect, remove_if, remove_context, run_cli}
use dockup.Autostart.{set_enabled, shortcut_path}
use dockup.Setup.Uninstall.{
  remove_round, remove_from, remove_dir_retry, remove_legacy, forget_config, clean_up,
  after_unregister, uninstall_at, uninstall_agreed, agreed, uninstall, agreed-SameFiles,
  drop_distro-SameFiles,
}

-- A path that is none of the program's own files, and that lies outside the directory of the distro.
pub record IsApart (e : Env) (root x : Str) : Type 0 where
  pub no_state : str_eq x (state_file e) ≡ false
  pub no_new_state : str_eq x (state_file e ++ codes ".tmp") ≡ false
  pub no_lock : str_eq x (lock_file e) ≡ false
  pub no_config : str_eq x (config_file e) ≡ false
  pub no_link : str_eq x (shortcut_path e) ≡ false
  pub no_distro : under (e.join (root ∷ codes "distro" ∷ [])) x ≡ false
  pub no_disk : str_eq x (e.join (root ∷ codes "ext4.vhdx" ∷ [])) ≡ false
  pub no_rootfs : str_eq x (e.join (root ∷ codes "rootfs" ∷ [])) ≡ false

module _ (e : Env) (root x : Str) (v : Option Str) (apart : IsApart e root x) where
  save_state-Holds : (s : State) → Keeps (Holds x v) (save_state e s)
  unfolding save_state
  save_state-Holds s = search (holds_rules, apart.no_state, apart.no_new_state) depth 12

  update_loaded-Holds :
      (f : State → State) (r : Result State) → Keeps (Holds x v) (update_loaded e (updates f) r)
  unfolding update_loaded save_after pure ◌>>=◌
  update_loaded-Holds f (err m) = search holds_rules
  update_loaded-Holds f (ok s) = save_state-Holds (f s)

  locked-Holds : (f : State → State) → Keeps (Holds x v) (locked e (updates f))
  unfolding locked
  locked-Holds f =
      Keeps-bind _ _ (SameFiles-Holds x v _ (λ fs. load_state-SameFiles e fs))
        λ s. search (holds_rules, update_loaded-Holds)

  after_acquire-Holds :
      (f : State → State) (got : Option Done) → Keeps (Holds x v) (after_acquire e (updates f) got)
  unfolding after_acquire
  after_acquire-Holds f none = search holds_rules
  after_acquire-Holds f (some (err m)) = search holds_rules
  after_acquire-Holds f (some (ok u)) = locked-Holds f

  after_mkdir-Holds :
      (f : State → State) (d : Done) → Keeps (Holds x v) (after_mkdir e (updates f) d)
  unfolding after_mkdir
  after_mkdir-Holds f (err m) = search holds_rules
  after_mkdir-Holds f (ok u) =
      Keeps-bind _ _ (SameFiles-Holds x v _ (λ fs. acquire-SameFiles e fs lock_rounds))
        λ got. after_acquire-Holds f got

  with_lock-Holds : (f : State → State) → Keeps (Holds x v) (with_lock e (updates f))
  unfolding with_lock
  with_lock-Holds f = search (holds_rules, after_mkdir-Holds)

  save_config-Holds : (c : Config) → Keeps (Holds x v) (save_config e c)
  unfolding save_config
  save_config-Holds c = search (holds_rules, apart.no_config)

  forget_config-Holds : (r : Result Config) → Keeps (Holds x v) (forget_config e r)
  unfolding forget_config
  forget_config-Holds (err m) = search holds_rules
  forget_config-Holds (ok c) = search (holds_rules, save_config-Holds)

  tree-Holds : Keeps (Holds x v) (remove_tree e (e.join (root ∷ codes "distro" ∷ [])))
  tree-Holds = remove_tree-Holds x v e (e.join (root ∷ codes "distro" ∷ [])) apart.no_distro

  round-Holds :
      (i : ℕ) (again : M Done)
      → Keeps (Holds x v) again
      → Keeps (Holds x v) (remove_round e i (e.join (root ∷ codes "distro" ∷ [])) again)
  unfolding remove_round
  round-Holds i again h = Keeps-bind _ _ tree-Holds λ gone. search holds_rules

  remove_from-Holds :
      (left i : ℕ) → Keeps (Holds x v) (remove_from e left i (e.join (root ∷ codes "distro" ∷ [])))
  unfolding remove_from
  remove_from-Holds zero i = search holds_rules
  remove_from-Holds (suc left) i = round-Holds i _ (remove_from-Holds left (i + 1))

  remove_legacy-Holds : Keeps (Holds x v) (remove_legacy e root)
  unfolding remove_legacy
  remove_legacy-Holds = search (holds_rules, apart.no_disk, apart.no_rootfs)

  run_cli-Holds : (args : List Str) → Keeps (Holds x v) (run_cli e args)
  unfolding run_cli
  run_cli-Holds args = search holds_rules

  remove_if-Holds : (want : Str) (r : Result Str) → Keeps (Holds x v) (remove_if e want r)
  unfolding remove_if
  remove_if-Holds want (err m) = search holds_rules
  remove_if-Holds want (ok h) = search (holds_rules, run_cli-Holds)

  remove_context-Holds : (pipe : Str) → Keeps (Holds x v) (remove_context e pipe)
  unfolding remove_context available inspect
  remove_context-Holds pipe = search (holds_rules, run_cli-Holds, remove_if-Holds)

  set_enabled-Holds : Keeps (Holds x v) (set_enabled e [] false)
  unfolding set_enabled
  set_enabled-Holds = search (holds_rules, apart.no_link)

  load_config-Holds : Keeps (Holds x v) (load_config e)
  load_config-Holds = SameFiles-Holds x v _ (load_config-SameFiles e)

  clean_up-Holds :
      (dir : Str)
      → Keeps (Holds x v) (if str_eq dir root then remove_legacy e root else remove_dir_retry e dir)
      → Keeps (Holds x v) (clean_up e root dir)
  unfolding clean_up
  clean_up-Holds dir removal = Keeps-bind _ _ (with_lock-Holds (λ s. zero_state)) λ d.
      Keeps-bind _ _ removal λ r.
        Keeps-bind _ _ load_config-Holds
          λ c. search (holds_rules, forget_config-Holds, remove_context-Holds, set_enabled-Holds)

  removal_of_nested :
      (b : Bool)
      → Keeps (Holds x v) (
          if b
          then remove_legacy e root
          else remove_dir_retry e (e.join (root ∷ codes "distro" ∷ [])))
  unfolding remove_dir_retry
  removal_of_nested true = remove_legacy-Holds
  removal_of_nested false = remove_from-Holds 10 0

  removal_of_root :
      Keeps (Holds x v) (if str_eq root root then remove_legacy e root else remove_dir_retry e root)
  removal_of_root = rw (str_eq_refl root) remove_legacy-Holds

  after_unregister-Holds :
      (dir : Str)
      → Keeps (Holds x v) (clean_up e root dir)
      → (r : Done) → Keeps (Holds x v) (after_unregister e root dir r)
  unfolding after_unregister
  after_unregister-Holds dir h (err m) = search holds_rules
  after_unregister-Holds dir h (ok u) = h

  at-Holds :
      (dir : Str)
      → Keeps (Holds x v) (clean_up e root dir)
      → Keeps (Holds x v) (uninstall_at e root dir)
  unfolding uninstall_at
  at-Holds dir h = Keeps-bind _ _ (search holds_rules) λ u.
      Keeps-bind _ _ (SameFiles-Holds x v _ (exists-SameFiles e)) λ there.
        Keeps-bind _ _ (SameFiles-Holds x v _ (λ fs. drop_distro-SameFiles e fs there))
          λ r. after_unregister-Holds dir h r

  -- The directory of the distro is the one below the root, or the root itself.
  dir-Holds :
      (dir : Str)
      → (dir ≡ e.join (root ∷ codes "distro" ∷ [])) ⊎ (dir ≡ root)
      → Keeps (Holds x v) (uninstall_at e root dir)
  dir-Holds dir (inl nested) = rw nested (at-Holds _ (clean_up-Holds _ (removal_of_nested _)))
  dir-Holds dir (inr own) = rw own (at-Holds root (clean_up-Holds root removal_of_root))

module _ (e : Env) (x : Str) where
  agreed_at :
      (w : World) → IsApart e (current_root e w).0 x → (uninstall_agreed e w).1.files x ≡ w.files x
  unfolding uninstall_agreed ◌>>=◌
  agreed_at w apart =
      let root = (current_root e w).0 in
      let placed = (current_root e w).1 in
      (dir-Holds e root x (w.files x) apart (distro_dir e root placed).0
          (distro_dir-cases e root placed)).at
        (distro_dir e root placed).1
        ((SameFiles-Holds x (w.files x) _ (λ fs. distro_dir-SameFiles e fs root)).at placed
          ((SameFiles-Holds x (w.files x) _ (current_root-SameFiles e)).at w refl))

  asked_at :
      (go : Bool) (w : World)
      → IsApart e (current_root e w).0 x
      → ((if go then uninstall_agreed e else pure 0) w).1.files x ≡ w.files x
  unfolding pure
  asked_at true w apart = agreed_at w apart
  asked_at false w apart = refl

  -- Whatever happens in an uninstall, whether it is confirmed or forced and whichever calls fail: no write,
  -- rename or removal of the program itself changes a file outside the directory of the distro, such as
  -- a cached image, unless it is the disk or rootfs of an old install, config.json, state.json with its
  -- temporary file and its lock file, or the Startup shortcut. What wsl.exe and the docker CLI do to the
  -- files of their own is not in it.
  pub uninstall-spared :
      (force : Bool) (w : World)
      → IsApart e (current_root e (agreed e force w).1).0 x
      → (uninstall e force w).1.files x ≡ w.files x
  unfolding uninstall ◌>>=◌
  uninstall-spared force w apart =
      asked_at (agreed e force w).0 (agreed e force w).1 apart
      ∙ (SameFiles-Holds x (w.files x) _ (λ fs. agreed-SameFiles e fs force)).at w refl
