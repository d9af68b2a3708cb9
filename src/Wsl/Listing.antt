-- ===== src/Wsl/Listing.antt =====
-- The output of `wsl --list` in internal/wsl/wsl.go: its names, `Exists` and `IsRunning`.
use dockup.Base.{
  ℕ, ◌≡◌, refl, Bool, true, false, not, ◌&&◌, ◌||◌, Option, none, some, List, [], ◌∷◌, Str,
  equal_fold, split, trim, trim_space, str_eq, ◌==◌, if◌then◌else◌,
}
use dockup.Env.{Call, Env, api_registered, list_distros, list_running}
use dockup.Io.{World, M, pure, ◌>>=◌, ask}
use dockup.Io.Keeps.{Keeps, SameFiles, same_files_rules, Only, only_rules}
use dockup.Config.{distro_name}
use dockup.Wsl.Utf16.{decode_wsl_output}

-- `"\x00\r"`, the characters that are cut off a line
unfoldable pub is_end : ℕ → Bool
is_end c = (c == 0) || (c == b'\r')

unfoldable pub names : List Str → List Str
unfolding is_end
names [] = []
names (raw ∷ lines) =
    let line = trim_space (trim is_end raw) in
    let rest = names lines in if str_eq line [] then rest else line ∷ rest

-- `ParseListOutput`
unfoldable pub parse_list_output : Str → List Str
unfolding names
parse_list_output bytes = names (split b'\n' (decode_wsl_output bytes))

-- The loops of `Exists`, `IsRunning` and `ReconcileDistro` over the names.
unfoldable pub lists_name : Str → List Str → Bool
lists_name name [] = false
lists_name name (d ∷ ds) = equal_fold (trim_space d) name || lists_name name ds

module _ (e : Env) where
  -- `List` and `RunningSet`: an error counts only where there is no output.
  unfoldable pub list : Call → M (Option (List Str))
  list c = do
    r ← ask e c
    pure (if not r.ok && str_eq r.out [] then none else some (parse_list_output r.out))

  pub in_list : Str → Option (List Str) → Bool
  in_list name none = false
  in_list name (some ds) = lists_name name ds

  -- `Exists`: the API where it answers, the list otherwise.
  unfoldable pub exists : M Bool
  exists = do
    r ← ask e api_registered
    if r.ok then pure r.flag else do ds ← list list_distros; pure (in_list distro_name ds)

  pub is_running : M Bool
  is_running = do ds ← list list_running; pure (in_list distro_name ds)

  pub is_running-list :
      (w : World) (ds : List Str)
      → (list list_running w).0 ≡ some ds
      → (is_running w).0 ≡ lists_name distro_name ds
  unfolding is_running pure ◌>>=◌ in_list
  is_running-list w ds h = rw h refl

module _ (e : Env) (fs : Str → Option Str) where
  pub list-SameFiles : (c : Call) → Keeps (SameFiles fs) (list e c)
  unfolding list
  list-SameFiles c = search same_files_rules

  pub exists-SameFiles : Keeps (SameFiles fs) (exists e)
  unfolding exists
  exists-SameFiles = search (same_files_rules, list-SameFiles)

module _ (e : Env) (allowed : Call → Bool) where
  pub list-Only : (c : Call) → allowed c ≡ true → Keeps (Only allowed) (list e c)
  unfolding list
  list-Only c a = search only_rules

  pub exists-Only :
      allowed api_registered ≡ true → allowed list_distros ≡ true → Keeps (Only allowed) (exists e)
  unfolding exists
  exists-Only a b = search (only_rules, list-Only)

  pub is_running-Only : allowed list_running ≡ true → Keeps (Only allowed) (is_running e)
  unfolding is_running
  is_running-Only a = search (only_rules, list-Only)
