-- ===== src/Cli/Dispatch.antt =====
-- `ensureUserConfig`, `run` and `helpTopic` of cmd/dockup/main.go: which command a command line runs.
use dockup.Base.{
  ℕ, ◌≡◌, refl, Bool, true, false, not, ◌&&◌, Option, none, some, List, [], ◌∷◌, Str, codes, arith,
  str_eq, mem_str, if◌then◌else◌,
}
use dockup.Records.{Config}
use dockup.Env.{Env}
use dockup.Io.{World, M, pure, ◌>>=◌, Result, ok, err}
use dockup.Userconfig.Paths.{defaults, with_defaults}
use dockup.Userconfig.File.{ensure_config}
use dockup.Image.Verify.{Crypto}
use dockup.Setup.Install.{setup}
use dockup.Setup.Uninstall.{uninstall}
use dockup.Restore.Full.{run_restore}
use dockup.Doctor.Run.{run_doctor}
use dockup.Cli.Flags.{has_help_flag}
use dockup.Cli.Options.{SetupOptions, setup_options, RestoreOptions, restore_options}
use dockup.Cli.Commands.{cmd_shutdown}
use dockup.Cli.Context.{cmd_context}
use dockup.Cli.Prune.{cmd_prune, cmd_upgrade}
use dockup.Cli.Ps.{ps_row}
use dockup.Cli.Serving.{foreground, serve_forever}
use dockup.Cli.Daemons.{no_words, code_of, cmd_daemon, cmd_ssh}

-- Every argument is one of the flags; is one of them there?
unfoldable pub all_flags : List Str → List Str → Bool
all_flags flags [] = true
all_flags flags (a ∷ more) = mem_str a flags && all_flags flags more

abbrev pub help_topics : List Str
help_topics =
    codes "setup"
    ∷ codes "uninstall"
    ∷ codes "restore"
    ∷ codes "ps"
    ∷ codes "context"
    ∷ codes "daemon"
    ∷ codes "shutdown"
    ∷ codes "ssh"
    ∷ codes "prune"
    ∷ codes "doctor"
    ∷ codes "upgrade"
    ∷ codes "update"
    ∷ codes "version"
    ∷ []

-- `helpTopic`
unfoldable pub help_topic : Str → ℕ
help_topic name = if mem_str name help_topics then 0 else 1

unfoldable pub help_words : List Str → ℕ
unfolding help_topic
help_words [] = 0
help_words (name ∷ []) = help_topic name
help_words (name ∷ extra ∷ more) = 1

module _ (e : Env) where
  or_defaults : Result Config → Config
  or_defaults (err m) = defaults e
  or_defaults (ok cfg) = with_defaults e cfg

  -- `ensureUserConfig`
  unfoldable pub ensure_user_config : M Config
  unfolding or_defaults
  ensure_user_config = do r ← ensure_config e; pure (or_defaults r)

  module _ (c : Crypto) (key : Str) (rounds : ℕ) where
    setup_with : Config → Option SetupOptions → M (Option ℕ)
    setup_with cfg none = pure (some 1)
    setup_with cfg (some o) =
        setup e c key rounds
          (record { arch = o.arch; path = o.path; dry_run = o.dry_run; cfg = cfg })

    -- `cmdSetup`
    unfoldable pub cmd_setup : Config → List Str → M (Option ℕ)
    unfolding setup_with
    cmd_setup cfg args =
        if has_help_flag args then pure (some 0) else setup_with cfg (setup_options args)

    restore_with : Option RestoreOptions → M (Option ℕ)
    restore_with none = pure (some 1)
    restore_with (some o) = run_restore e c key rounds o

    -- `cmdRestore`
    unfoldable pub cmd_restore : List Str → M (Option ℕ)
    unfolding restore_with
    cmd_restore args =
        if has_help_flag args then pure (some 0) else restore_with (restore_options args)

    some_code : M ℕ → M (Option ℕ)
    some_code m = do n ← m; pure (some n)

    unless_help : List Str → M (Option ℕ) → M (Option ℕ)
    unless_help more m = if has_help_flag more then pure (some 0) else m

    -- A command whose only arguments are the flags; one of them may be there.
    flagged : List Str → List Str → M (Option ℕ) → M (Option ℕ)
    flagged flags more m = unless_help more (if all_flags flags more then m else pure (some 1))

    is_one_of : Str → List Str → Bool
    is_one_of word words = mem_str word words

    -- The commands that examine, maintain or serve
    unfoldable pub run_more : Config → Str → List Str → M (Option ℕ)
    unfolding some_code unless_help flagged is_one_of
    run_more cfg word more =
        if str_eq word (codes "shutdown")
        then flagged [] more (some_code (cmd_shutdown e cfg))
        else if str_eq word (codes "ssh")
        then some_code (cmd_ssh e more)
        else if str_eq word (codes "prune")
        then some_code (cmd_prune e more)
        else if str_eq word (codes "doctor")
        then flagged (codes "--fix" ∷ []) more
            (some_code (do d ← run_doctor e (not (no_words more)); pure (code_of d)))
        else if is_one_of word (codes "upgrade" ∷ codes "update" ∷ [])
        then flagged [] more (some_code (cmd_upgrade e c key))
        else if str_eq word (codes "__serve")
        then some_code (serve_forever e cfg)
        else pure (some 1)

    unfoldable pub run_word : Config → Str → List Str → M (Option ℕ)
    unfolding some_code unless_help flagged is_one_of
    run_word cfg word more =
        if is_one_of word (codes "--version" ∷ codes "-v" ∷ [])
        then pure (some 0)
        else if is_one_of word (codes "--help" ∷ codes "-h" ∷ codes "help" ∷ [])
        then pure (some (help_words more))
        else if str_eq word (codes "version")
        then flagged [] more (pure (some 0))
        else if str_eq word (codes "setup")
        then cmd_setup cfg more
        else if str_eq word (codes "uninstall")
        then flagged (codes "--force" ∷ codes "-f" ∷ []) more
            (some_code (uninstall e (not (no_words more))))
        else if str_eq word (codes "restore")
        then cmd_restore more
        else if str_eq word (codes "ps")
        then flagged (codes "--json" ∷ codes "-j" ∷ []) more
            (some_code (do row ← ps_row e cfg (not (no_words more)); pure 0))
        else if str_eq word (codes "context")
        then some_code (cmd_context e cfg more)
        else if str_eq word (codes "daemon")
        then some_code (cmd_daemon e cfg more)
        else run_more cfg word more

    run_args : Config → List Str → M (Option ℕ)
    run_args cfg [] = some_code (foreground e cfg)
    run_args cfg (word ∷ more) = run_word cfg word more

    -- `run`
    unfoldable pub run_main : List Str → M (Option ℕ)
    unfolding run_args some_code
    run_main args = do cfg ← ensure_user_config; run_args cfg args

    some_words : (more : List Str) → has_help_flag more ≡ true → no_words more ≡ false
    unfolding has_help_flag
    some_words [] h = cc
    some_words (w ∷ ws) h = refl

    more-help :
        (cfg : Config) (word : Str) (more : List Str) (w : World)
        → has_help_flag more ≡ true
        → str_eq word (codes "ssh") ≡ false
        → str_eq word (codes "__serve") ≡ false
        → (run_more cfg word more w).1 ≡ w
    unfolding run_more cmd_prune pure ◌>>=◌
    more-help cfg word more w help no_ssh no_serve = rw (help, no_ssh, no_serve) (ground arith)

    -- With a help flag behind any command but ssh, which may hand it on, and the hidden __serve, nothing
    -- is done: no call is made and no file changes, whatever the other arguments are.
    pub run_word-help :
        (cfg : Config) (word : Str) (more : List Str) (w : World)
        → has_help_flag more ≡ true
        → str_eq word (codes "ssh") ≡ false
        → str_eq word (codes "__serve") ≡ false
        → (run_word cfg word more w).1 ≡ w
    unfolding run_word cmd_setup cmd_restore cmd_context cmd_daemon pure ◌>>=◌
    run_word-help cfg word more w help no_ssh no_serve =
        rw (help, some_words more help)
          (ground (arith, more-help cfg word more w help no_ssh no_serve))
