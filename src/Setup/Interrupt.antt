-- ===== src/Setup/Interrupt.antt =====
-- The goroutine of `RunEx` in internal/setup/setup.go that runs where Ctrl+C comes: it clears the
-- install location with `fail` and exits with 130. It is armed before setup has asked anything.
use dockup.Base.{ℕ, ◌≡◌, ◌≢◌, refl, ap, sym, ◌∙◌, true, some, [], ◌++◌, Str, codes, arith}
use mathlib.Core.List.{append_cancel_right}
use dockup.Records.{Config}
use dockup.Env.{Env}
use dockup.Io.{World, M, pure, ◌>>=◌, is_ok}
use dockup.Userconfig.Paths.{with_defaults}
use dockup.Userconfig.File.{config_file, save_config, save_config-ok}
use dockup.Wsl.Listing.{exists}
use dockup.Setup.Install.{Options, fail_setup}

module _ (e : Env) where
  -- The goroutine, with the configuration of the run.
  unfoldable pub on_interrupt : Config → M ℕ
  on_interrupt cfg = do failed ← fail_setup e cfg; pure 130

  -- A setup that is interrupted while its first prompt waits for an answer.
  unfoldable pub interrupted_prompt : Options → M ℕ
  interrupted_prompt o = do there ← exists e; on_interrupt (with_defaults e o.cfg)

  -- What `fail` saves.
  unfoldable pub cleared : Config → Config
  cleared cfg = with_defaults e (record cfg { current_path = [] })

  cleared-path : (cfg : Config) → (cleared cfg).current_path ≡ []
  unfolding cleared with_defaults
  cleared-path cfg = refl

  save_text : Config → Str
  save_text c = e.config_json.encode c ++ codes "\n"

  save_text_inj : (c d : Config) → save_text c ≡ save_text d → c ≡ d
  unfolding save_text
  save_text_inj c d h =
      let same = ap e.config_json.decode (append_cancel_right _ _ (codes "\n") h) in
      ground (arith, same, e.config_json.decode-encode c, e.config_json.decode-encode d)

  clears-path :
      (cfg c : Config)
      → some (e.config_json.encode (cleared cfg) ++ codes "\n")
        ≡ some (e.config_json.encode c ++ codes "\n")
      → c.current_path ≡ []
  unfolding save_text
  clears-path cfg c h = cc (save_text_inj (cleared cfg) c (cc), cleared-path cfg)

  -- A setup that is interrupted at its first prompt, a dry run too, exits with 130 and saves the
  -- configuration without its current path, where that can be written: of a configuration that names
  -- where dockup is installed the file does not stay as it was.
  pub interrupted_prompt-clears :
      (o : Options) (c : Config) (w : World)
      → w.files (config_file e) ≡ some (e.config_json.encode c ++ codes "\n")
      → c.current_path ≢ []
      → is_ok
          (save_config e (record (with_defaults e o.cfg) { current_path = [] }) (exists e w).1).0
        ≡ true
      → ((interrupted_prompt o w).0 ≡ 130)
        × ((interrupted_prompt o w).1.files (config_file e)
            ≡ some (e.config_json.encode (cleared (with_defaults e o.cfg)) ++ codes "\n"))
        × ((cleared (with_defaults e o.cfg)).current_path ≡ [])
        × ((interrupted_prompt o w).1.files (config_file e) ≢ w.files (config_file e))
  unfolding interrupted_prompt on_interrupt fail_setup cleared pure ◌>>=◌
  interrupted_prompt-clears o c w kept named saved =
      let after =
        save_config-ok e (record (with_defaults e o.cfg) { current_path = [] }) (exists e w).1
          saved in
      (
        refl,
        after,
        cleared-path (with_defaults e o.cfg),
        λ same. named (clears-path (with_defaults e o.cfg) c (sym after ∙ (same ∙ kept))),
      )
