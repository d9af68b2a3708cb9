-- ===== src/Setup/Uninstall.antt =====
-- `Uninstall` and `removeDirRetry` of internal/setup/setup.go: what they do and return, without what
-- they print. A removal of a directory that fails keeps one file, which the answer names.
pub mod Spared
use dockup.Base.{
  ℕ, zero, suc, ◌+◌, ◌*◌, ◌≡◌, refl, Bool, true, false, Option, [], ◌∷◌, Str, codes, arith, str_eq,
  if◌then◌else◌,
}
use dockup.Records.{Config, zero_state}
use dockup.Env.{Env, terminate, unregister, sleep}
use dockup.Io.{
  World, M, pure, ◌>>=◌, ◌>>◌, Result, ok, err, Done, run, attempt, remove_path, remove_tree,
}
use dockup.Io.Keeps.{Keeps, SameFiles, same_files_rules}
use dockup.Config.{default_pipe}
use dockup.State.{with_lock, updates}
use dockup.Userconfig.Paths.{with_defaults, effective_pipe}
use dockup.Userconfig.File.{
  load_config, save_config, current_root, distro_dir, current_root-SameFiles, distro_dir-SameFiles,
}
use dockup.Wsl.Listing.{exists, exists-SameFiles}
use dockup.Dockctx.{remove_context}
use dockup.Autostart.{set_enabled}
use dockup.Ui.{confirm}

module _ (e : Env) where
  pub remove_round : ℕ → Str → M Done → M Done
  remove_round i dir again = do
    gone ← remove_tree e dir
    if gone then pure (ok tt) else do run e (sleep (500 + i * 500)); again

  pub remove_from : ℕ → ℕ → Str → M Done
  remove_from zero i dir = pure (err (codes "remove"))
  remove_from (suc left) i dir = remove_round i dir (remove_from left (i + 1) dir)

  -- `removeDirRetry`
  pub remove_dir_retry : Str → M Done
  remove_dir_retry dir = remove_from 10 0 dir

  -- A legacy install has the disk in the root, beside the cache.
  pub remove_legacy : Str → M Done
  remove_legacy root = do
    a ← remove_path e (e.join (root ∷ codes "ext4.vhdx" ∷ []))
    b ← remove_path e (e.join (root ∷ codes "rootfs" ∷ []))
    pure (ok tt)

  abbrev pub forgotten : Config → Config
  forgotten c = record c { current_path = []; autostart = false; docker_context_prev = [] }

  -- The pipe of the docker context, once config.json is written anew.
  pub forget_config : Result Config → M Str
  forget_config (err m) = pure default_pipe
  forget_config (ok loaded) = do
    let c = with_defaults e loaded
    d ← save_config e (forgotten c)
    pure (effective_pipe c)

  pub clean_up : Str → Str → M ℕ
  clean_up root dir = do
    d ← with_lock e (updates (λ s. zero_state))
    r ← (if str_eq dir root then remove_legacy root else remove_dir_retry dir)
    c ← load_config e
    pipe ← forget_config c
    x ← remove_context e pipe
    unlinked ← set_enabled e [] false
    pure 0

  unfoldable pub after_unregister : Str → Str → Done → M ℕ
  after_unregister root dir (err m) = pure 1
  after_unregister root dir (ok u) = clean_up root dir

  unfoldable pub drop_distro : Bool → M Done
  drop_distro there = if there then attempt e unregister (codes "unregister") else pure (ok tt)

  -- What is done with the install root and the directory of the distro
  unfoldable pub uninstall_at : Str → Str → M ℕ
  uninstall_at root dir = do
    run e terminate
    there ← exists e
    r ← drop_distro there
    after_unregister root dir r

  unfoldable pub uninstall_agreed : M ℕ
  uninstall_agreed = do root ← current_root e; dir ← distro_dir e root; uninstall_at root dir

  unfoldable pub agreed : Bool → M Bool
  agreed force = if force then pure true else confirm e

  -- `Uninstall`
  unfoldable pub uninstall : Bool → M ℕ
  uninstall force = do go ← agreed force; if go then uninstall_agreed else pure 0

-- A program that fails leaves the files as they were.
record Undone (fs : Str → Option Str) (m : M ℕ) : Type 0 where
  at : (w : World) → SameFiles fs w → (m w).0 ≡ 1 → SameFiles fs (m w).1

module _ (e : Env) (fs : Str → Option Str) where
  Undone-bind :
      {A : Type 0} (m : M A) (f : A → M ℕ)
      → Keeps (SameFiles fs) m
      → ((a : A) → Undone fs (f a))
      → Undone fs (m >>= f)
  unfolding ◌>>=◌
  Undone-bind m f km uf = record { at = λ w h. (uf (m w).0).at (m w).1 (km.at w h) }

  clean_up-zero : (root dir : Str) (w : World) → (clean_up e root dir w).0 ≡ 0
  unfolding clean_up ◌>>=◌ pure
  clean_up-zero root dir w = refl

  after_unregister-Undone : (root dir : Str) (r : Done) → Undone fs (after_unregister e root dir r)
  unfolding after_unregister pure
  after_unregister-Undone root dir (err m) = record { at = λ w h r. h }
  after_unregister-Undone root dir (ok u) = record {
    at = λ w h r. absurd (ground (arith, clean_up-zero root dir w));
  }

  drop_distro-SameFiles : (there : Bool) → Keeps (SameFiles fs) (drop_distro e there)
  unfolding drop_distro
  drop_distro-SameFiles there = search same_files_rules

  agreed-SameFiles : (force : Bool) → Keeps (SameFiles fs) (agreed e force)
  unfolding agreed confirm
  agreed-SameFiles force = search same_files_rules

  uninstall_at-Undone : (root dir : Str) → Undone fs (uninstall_at e root dir)
  unfolding uninstall_at
  uninstall_at-Undone root dir = Undone-bind _ _ (search same_files_rules) λ u.
      Undone-bind _ _ (exists-SameFiles e fs) λ there.
        Undone-bind _ _ (drop_distro-SameFiles there) λ r. after_unregister-Undone root dir r

  uninstall_agreed-Undone : Undone fs (uninstall_agreed e)
  unfolding uninstall_agreed
  uninstall_agreed-Undone =
      Undone-bind _ _ (current_root-SameFiles e fs)
        λ root. Undone-bind _ _ (distro_dir-SameFiles e fs root) λ dir. uninstall_at-Undone root dir

  asked-Undone : (go : Bool) → Undone fs (if go then uninstall_agreed e else pure 0)
  unfolding pure
  asked-Undone true = uninstall_agreed-Undone
  asked-Undone false = record { at = λ w h r. h }

-- An uninstall that reports a failure has changed no file: where the distro cannot be unregistered,
-- the install record and the configuration stay as they are.
pub uninstall-undone :
    (e : Env) (force : Bool) (w : World)
    → (uninstall e force w).0 ≡ 1
    → (uninstall e force w).1.files ≡ w.files
unfolding uninstall
uninstall-undone e force w =
    (Undone-bind e w.files _ _ (agreed-SameFiles e w.files force) (asked-Undone e w.files)).at w
      refl
