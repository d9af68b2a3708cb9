-- ===== src/Cli/Context.antt =====
-- `cmdContext`, `contextUse` and `contextOff` of cmd/dockup/main.go: what they do and return, without
-- what they print.
use dockup.Base.{
  ℕ, ◌≡◌, ◌⊎◌, refl, Bool, true, false, not, ◌||◌, ◌&&◌, Option, none, some, List, [], ◌∷◌, Str,
  codes, arith, str_eq, trim_space, if◌then◌else◌,
}
use dockup.Records.{Config}
use dockup.Env.{Call, Env, docker_cli}
use dockup.Io.{World, M, pure, ◌>>=◌, ◌>>◌, is_ok}
use dockup.Io.Keeps.{Keeps, Keeps-bind, Keeps-then, Keeps-pure, ask-Only, Only, only_rules}
use dockup.Userconfig.Paths.{effective_pipe}
use dockup.Userconfig.File.{AllowsConfig, save_config, save_config-Only}
use dockup.Relay.Poll.{alive_on}
use dockup.Dockctx.{
  Info, context_name, context_info, available, inspect, run_cli, use_managed, use_context,
  context_exists,
}
use dockup.Cli.Flags.{has_help_flag}

-- The context to go back to: none if it is none or our own.
unfoldable pub previous : Info → Str
previous info =
    if not (str_eq info.current []) && not (str_eq info.current context_name)
    then info.current
    else []

module _ (e : Env) where
  unfoldable pub remember : Config → Str → M Unit
  remember cfg prev =
      if not (str_eq prev []) && not (str_eq prev cfg.docker_context_prev)
      then (do d ← save_config e (record cfg { docker_context_prev = prev }); pure tt)
      else pure tt

  -- `contextUse`
  unfoldable pub context_use : Config → M ℕ
  context_use cfg = do
    info ← context_info e (effective_pipe cfg)
    if not info.cli then pure 1 else do
      d ← use_managed e (effective_pipe cfg)
      if not (is_ok d)
          then pure 1
          else do remember cfg (previous info); held ← alive_on e (effective_pipe cfg); pure 0

  -- Where `contextOff` goes back to: a context that is not there is not chosen.
  unfoldable pub target_of : Config → M Str
  target_of cfg =
      let target = trim_space cfg.docker_context_prev in
      if str_eq target [] || str_eq target context_name
      then pure (codes "default")
      else do there ← context_exists e target; pure (if there then target else codes "default")

  unfoldable pub forget_previous : Config → M Unit
  forget_previous cfg =
      if not (str_eq cfg.docker_context_prev [])
      then (do d ← save_config e (record cfg { docker_context_prev = [] }); pure tt)
      else pure tt

  unfoldable pub switch_off : Config → Str → M ℕ
  switch_off cfg target = do
    d ← use_context e target
    if not (is_ok d) then pure 1 else do forget_previous cfg; pure 0

  -- `contextOff`
  unfoldable pub context_off : Config → M ℕ
  context_off cfg = do
    info ← context_info e (effective_pipe cfg)
    if not info.cli
        then pure 1
        else if not info.active
        then pure 0
        else do target ← target_of cfg; switch_off cfg target

  unfoldable pub show_context : Config → M ℕ
  show_context cfg = do
    info ← context_info e (effective_pipe cfg)
    pure (if not info.cli then 1 else 0)

  unfoldable pub context_word : Config → List Str → M ℕ
  context_word cfg [] = show_context cfg
  context_word cfg (word ∷ []) =
      if str_eq word (codes "use")
      then context_use cfg
      else if str_eq word (codes "off")
      then context_off cfg
      else pure 1
  context_word cfg (word ∷ extra ∷ more) = pure 1

  -- `cmdContext`
  unfoldable pub cmd_context : Config → List Str → M ℕ
  cmd_context cfg args = if has_help_flag args then pure 0 else context_word cfg args

-- A docker command that selects a context.
abbrev selected : List Str → Option Str
selected (context ∷ verb ∷ name ∷ []) =
    if str_eq context (codes "context") && str_eq verb (codes "use") then some name else none
selected _ = none

abbrev is_own : Option Str → Bool
is_own none = false
is_own (some name) = str_eq name context_name

-- All calls but `docker context use dockup`.
unfoldable pub leaves_own : Call → Bool
leaves_own (docker_cli args) = not (is_own (selected args))
leaves_own _ = true

module _ (e : Env) where
  allows_config : AllowsConfig e leaves_own
  unfolding leaves_own
  allows_config = (refl, refl, refl, λ p. refl)

  info-Leaves : (pipe : Str) → Keeps (Only leaves_own) (context_info e pipe)
  unfolding context_info available inspect run_cli leaves_own str_eq
  info-Leaves pipe = search only_rules depth 12

  exists-Leaves : (name : Str) → Keeps (Only leaves_own) (context_exists e name)
  unfolding leaves_own run_cli context_exists str_eq
  exists-Leaves name = search only_rules depth 12

  use-Leaves :
      (name : Str) → str_eq name context_name ≡ false → Keeps (Only leaves_own) (use_context e name)
  unfolding leaves_own run_cli str_eq use_context
  use-Leaves name h =
      Keeps-then _ _
        (Keeps-bind _ _ (ask-Only leaves_own e _ (ground (arith, h))) (λ r. Keeps-pure _))
        (λ out. Keeps-pure _)

  off-Leaves :
      (cfg : Config) (target : Str)
      → str_eq target context_name ≡ false
      → Keeps (Only leaves_own) (switch_off e cfg target)
  unfolding switch_off forget_previous
  off-Leaves cfg target h =
      search (only_rules, use-Leaves, h, save_config-Only e leaves_own allows_config) depth 12

  target-Leaves : (cfg : Config) → Keeps (Only leaves_own) (target_of e cfg)
  unfolding target_of
  target-Leaves cfg = search (only_rules, exists-Leaves)

  target_ne : (cfg : Config) (w : World) → str_eq (target_of e cfg w).0 context_name ≡ false
  unfolding target_of pure ◌>>=◌ str_eq
  target_ne cfg w = ground arith

  go_off-Leaves : (cfg : Config) → Keeps (Only leaves_own) (target_of e cfg >>= switch_off e cfg)
  unfolding ◌>>=◌
  go_off-Leaves cfg = record {
    at = λ w h.
        (off-Leaves cfg (target_of e cfg w).0 (target_ne cfg w)).at (target_of e cfg w).1
          ((target-Leaves cfg).at w h);
  }

  -- Whatever the configuration remembers and whatever docker answers, `dockup context off` never
  -- selects the context that it leaves.
  pub context_off-Leaves : (cfg : Config) → Keeps (Only leaves_own) (context_off e cfg)
  unfolding context_off
  context_off-Leaves cfg = search (only_rules, info-Leaves, go_off-Leaves)

-- The context that `dockup context use` would remember is none, or one that is current and not our own.
pub previous-Foreign :
    (info : Info)
    → (previous info ≡ [])
      ⊎ ((previous info ≡ info.current) × (str_eq info.current context_name ≡ false))
unfolding previous
previous-Foreign info = ground arith
