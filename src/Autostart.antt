-- ===== src/Autostart.antt =====
-- internal/autostart/autostart.go: the entry in the Startup folder.
use dockup.Base.{
  Bool, true, false, not, none, some, [], ◌∷◌, ◌++◌, Str, codes, str_eq, ◌==◌, if◌then◌else◌,
}
use dockup.Env.{Env, stat, executable, powershell}
use dockup.Io.{M, pure, ◌>>=◌, ok, err, Done, Removed, remove_error, ask, attempt, remove_path}

-- `strings.ReplaceAll(s, "'", "''")`
unfoldable pub doubled : Str → Str
doubled [] = []
doubled (c ∷ s) = let rest = doubled s in if c == b'\'' then b'\'' ∷ b'\'' ∷ rest else c ∷ rest

unfoldable pub ps_quote : Str → Str
ps_quote s = b'\'' ∷ (doubled s ++ b'\'' ∷ [])

module _ (e : Env) where
  roaming : Str → Str
  roaming appdata = if not (str_eq appdata []) then appdata else elim e.user_home [
    | none ↦ []
    | some home ↦ e.join (home ∷ codes "AppData" ∷ codes "Roaming" ∷ [])
  ]

  -- `ShortcutPath`
  unfoldable pub shortcut_path : Str
  unfolding roaming
  shortcut_path = e.join (
      roaming (e.getenv (codes "APPDATA"))
      ∷ codes "Microsoft"
      ∷ codes "Windows"
      ∷ codes "Start Menu"
      ∷ codes "Programs"
      ∷ codes "Startup"
      ∷ codes "dockup.lnk"
      ∷ [])

  -- `IsEnabled`
  unfoldable pub is_enabled : M Bool
  is_enabled = do r ← ask e (stat shortcut_path); pure r.ok

  pub shortcut_script : Str → Str
  shortcut_script exe =
      codes "$ws = New-Object -ComObject WScript.Shell; $sc = $ws.CreateShortcut("
      ++ (ps_quote shortcut_path
          ++ (codes "); $sc.TargetPath = "
              ++ (ps_quote exe
                  ++ (codes "; $sc.Arguments = 'daemon start'; $sc.WorkingDirectory = "
                      ++ (ps_quote (e.dir exe)
                          ++ codes
                              "; $sc.WindowStyle = 7; $sc.Description = 'dockup docker engine (autostart)'; $sc.Save()")))))

  unfoldable pub unlinked : Removed → Done
  unlinked remove_error = err (codes "remove")
  unlinked _ = ok tt

  unfoldable pub create_shortcut : Str → M Done
  create_shortcut exe =
      attempt e (powershell (shortcut_script exe)) (codes "create startup shortcut")

  -- `SetEnabled`
  unfoldable pub set_enabled : Str → Bool → M Done
  set_enabled exe false = do r ← remove_path e shortcut_path; pure (unlinked r)
  set_enabled exe true = if not (str_eq exe []) then create_shortcut exe else do
    r ← ask e executable
    if not r.ok then pure (err (codes "executable")) else create_shortcut r.out
