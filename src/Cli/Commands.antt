-- ===== src/Cli/Commands.antt =====
-- `recordMirror`, `cmdAutostart` and `cmdShutdown` of cmd/dockup/main.go: what they do and return,
-- without what they print. The log lines after a failed kill change nothing else.
use dockup.Base.{
  ℕ, ◌≡◌, refl, Bool, true, false, not, ◌||◌, Option, none, some, List, [], ◌∷◌, Str, codes, All,
  arith, str_eq, to_lower, trim_space, if◌then◌else◌,
}
use dockup.Base.Int.{ℤ, eq_ℤ}
use dockup.Records.{State, Config}
use dockup.Env.{Call, Env, tasklist, kill, terminate, executable}
use dockup.Io.{World, M, pure, ◌>>=◌, ◌>>◌, Result, ok, err, is_ok, Done, ask, run}
use dockup.Io.Keeps.{Keeps, Keeps-bind, run-Only, Only, only_rules}
use dockup.State.{current_state, with_lock, updates}
use dockup.State.Laws.{current_state-SameFiles}
use dockup.Userconfig.Paths.{with_defaults, effective_pipe}
use dockup.Userconfig.File.{ensure_config, save_config}
use dockup.Sysinfo.Tasklist.{DockupProc, parse_tasklist, dockup_pids, parse_tasklist-ne_self}
use dockup.Relay.Poll.{alive_on, wait_dead_on}
use dockup.Autostart.{set_enabled}
use dockup.Daemon.{stop}

-- The update of `recordMirror`
abbrev pub mirrored : ℤ → Bool → State → State
mirrored me served s =
    if eq_ℤ s.daemon.pid me then record s { daemon = record s.daemon { mirror = served } } else s

abbrev pub switch_word : Str → Option Bool
switch_word word =
    let w = to_lower (trim_space word) in
    if str_eq w (codes "on") || (str_eq w (codes "enable") || str_eq w (codes "true"))
    then some true
    else if str_eq w (codes "off") || (str_eq w (codes "disable") || str_eq w (codes "false"))
    then some false
    else none

module _ (e : Env) where
  -- `recordMirror`
  unfoldable pub record_mirror : Bool → M Unit
  record_mirror served = do
    s ← current_state e
    if not (eq_ℤ s.daemon.pid e.own_pid)
        then pure tt
        else do d ← with_lock e (updates (mirrored e.own_pid served)); pure tt

  saved_code : Done → ℕ
  saved_code (ok u) = 0
  saved_code (err m) = 1

  switch : Config → Bool → M ℕ
  switch cfg on = do
    exe ← ask e executable
    set ← set_enabled e (if exe.ok then exe.out else []) on
    if not (is_ok set)
        then pure 1
        else do d ← save_config e (record cfg { autostart = on }); pure (saved_code d)

  switch_to : Config → Option Bool → M ℕ
  switch_to cfg none = pure 1
  switch_to cfg (some on) = switch cfg on

  autostart_args : List Str → Config → M ℕ
  autostart_args [] cfg = pure 0
  autostart_args (word ∷ []) cfg = switch_to cfg (switch_word word)
  autostart_args (word ∷ extra ∷ more) cfg = pure 1

  autostart_with : List Str → Result Config → M ℕ
  autostart_with args (err m) = pure 1
  autostart_with args (ok cfg) = autostart_args args (with_defaults e cfg)

  -- `cmdAutostart`, without the help flag
  pub cmd_autostart : List Str → M ℕ
  cmd_autostart args = do r ← ensure_config e; autostart_with args r

  kill_all : List ℤ → M Unit
  kill_all [] = pure tt
  kill_all (pid ∷ pids) = do run e (kill pid); kill_all pids

  -- The loop over `sysinfo.DockupPIDs`
  pub kill_others : M Unit
  kill_others = do
    r ← ask e tasklist
    if r.ok then kill_all (dockup_pids (parse_tasklist r.out e.own_pid e.own_name)) else pure tt

  -- `cmdShutdown`
  pub cmd_shutdown : Config → M ℕ
  cmd_shutdown cfg = do
    d ← stop e
    kill_others
    dead ← wait_dead_on e (effective_pipe cfg) 10000
    run e terminate
    held ← alive_on e (effective_pipe cfg)
    pure (if held then 1 else 0)

  -- A call that does not kill the program itself.
  unfoldable pub spares_self : Call → Bool
  spares_self (kill pid) = not (eq_ℤ pid e.own_pid)
  spares_self _ = true

  kill_all-Only :
      (procs : List DockupProc)
      → All (λ p. eq_ℤ p.pid e.own_pid ≡ false) procs
      → Keeps (Only spares_self) (kill_all (dockup_pids procs))
  unfolding kill_all dockup_pids spares_self
  kill_all-Only [] h = search only_rules
  kill_all-Only (p ∷ procs) (hp, hs) =
      let not_self : not (eq_ℤ p.pid e.own_pid) ≡ true = ground (arith, hp) in
      Keeps-bind _ _ (run-Only spares_self e (kill p.pid) not_self) (λ u. kill_all-Only procs hs)

  -- The loop of `shutdown` over the other processes of our name never kills the program itself,
  -- whatever tasklist printed.
  pub kill_others-Only : Keeps (Only spares_self) kill_others
  unfolding kill_others spares_self
  kill_others-Only = search (only_rules, kill_all-Only, parse_tasklist-ne_self)

  -- A process whose pid is not the one that state.json records, a foreground, records no mirror: no
  -- file changes.
  pub record_mirror-foreground :
      (served : Bool) (w : World)
      → eq_ℤ (current_state e w).0.daemon.pid e.own_pid ≡ false
      → (record_mirror served w).1.files ≡ w.files
  unfolding record_mirror ◌>>=◌ pure
  record_mirror-foreground served w other = rw other ((current_state-SameFiles e w.files).at w refl)
