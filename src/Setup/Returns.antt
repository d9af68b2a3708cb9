-- ===== src/Setup/Returns.antt =====
-- That `RunEx` of internal/setup/setup.go returns: only a retry runs it anew.
use dockup.Base.{
  ℕ, zero, suc, ◌+◌, ◌≤◌, ◌≡◌, ◌≢◌, Bool, true, false, Option, none, some, List, Str, arith, length,
  not, ◌&&◌, if◌then◌else◌,
}
use dockup.Records.{Config}
use dockup.Env.{Call, Env, read_line}
use dockup.Io.{World, M, pure, ◌>>=◌, Result, ok, err, Done, ask}
use dockup.Io.Keeps.{Keeps, Keeps-if}
use dockup.Io.Past.{Past, past_rules}
use dockup.Image.Verify.{Crypto}
use dockup.Image.Cache.{is_arch}
use dockup.State.{acquire, lock_rounds}
use dockup.Ui.{confirm}
use dockup.Setup.Install.{
  Options, Source, is_retry, ask_retry_abort, fail_setup, finish_setup, retry_or_fail, after_check,
  after_rootfs, install_at, confirmed, run_ex, setup, run_setup, dry_run_plan,
}
use dockup.Setup.EnginePast.{exists-Past, ensure_config-Past}
use dockup.Setup.StepsPast.{path-Past, check_distro-Past, place_rootfs-Past, drop_old-Past}

-- It returns a code where at least `n` calls have been made.
Returns : ℕ → M (Option ℕ) → Type 0
Returns n m = (w : World) → Past n w → (m w).0 ≢ none

Always : M (Option ℕ) → Type 0
Always m = (w : World) → (m w).0 ≢ none

Always-some : (k : ℕ) → Always (pure (some k))
unfolding Always pure
Always-some k w h = cc

Always-bind :
    {A : Type 0} (m : M A) (f : A → M (Option ℕ)) → ((a : A) → Always (f a)) → Always (m >>= f)
unfolding Always ◌>>=◌
Always-bind m f hf w = hf (m w).0 (m w).1

ruleset always_rules = (Always-some, Always-bind)

Returns-Always : (n : ℕ) (m : M (Option ℕ)) → Always m → Returns n m
unfolding Returns Always
Returns-Always n m h w past = h w

Returns-bind :
    {A : Type 0} (n : ℕ) (m : M A) (f : A → M (Option ℕ))
    → Keeps (Past n) m
    → ((a : A) → Returns n (f a))
    → Returns n (m >>= f)
unfolding Returns ◌>>=◌
Returns-bind n m f km hf w past = hf (m w).0 (m w).1 (km.at w past)

Returns-if :
    (n : ℕ) (b : Bool) (m k : M (Option ℕ))
    → Returns n m
    → Returns n k
    → Returns n (if b then m else k)
Returns-if n true m k hm hk = hm
Returns-if n false m k hm hk = hk

-- From the `n`-th call on, the user never answers that setup is to be tried again.
unfoldable pub GivesUp : Env → ℕ → Type 0
GivesUp e n = (t : List Call) → n ≤ length t → is_retry (e.reply t read_line).out ≡ false

module _ (e : Env) (cfg : Config) where
  fail-Always : Always (fail_setup e cfg)
  unfolding fail_setup
  fail-Always = search always_rules

  finish-Always : (arch dir : Str) (src : Source) → Always (finish_setup e arch cfg dir src)
  unfolding finish_setup
  finish-Always arch dir src = search always_rules depth 16

-- What is asked after a failed check returns, whatever the answer.
unfoldable Retried : ℕ → Env → Crypto → Str → M (Option ℕ) → Type 0
Retried n e c key again =
    (arch : Str) (cfg : Config)
    → Returns n (ask_retry_abort e >>= retry_or_fail e c key again arch cfg)

module _ (n : ℕ) (e : Env) (c : Crypto) (key : Str) (again : M (Option ℕ))
    (retries : Retried n e c key again) where
  module _ (arch : Str) (cfg : Config) where
    check-Returns :
        (dir : Str) (src : Source) (d : Done)
        → Returns n (after_check e c key again arch cfg dir src d)
    unfolding after_check Retried
    check-Returns dir src (ok u) = Returns-Always n _ (finish-Always e cfg arch dir src)
    check-Returns dir src (err m) = retries arch cfg

    rootfs-Returns :
        (dir : Str) (src : Result Source) → Returns n (after_rootfs e c key again arch cfg dir src)
    unfolding after_rootfs
    rootfs-Returns dir (err m) = Returns-Always n _ (fail-Always e cfg)
    rootfs-Returns dir (ok src) =
        Returns-bind n _ _ (check_distro-Past n e src) (check-Returns dir src)

    plan-Returns : Returns n (dry_run_plan e arch >>= λ k. pure (some k))
    plan-Returns = Returns-Always n _ (Always-bind _ _ Always-some)

    install-Returns :
        (dry : Bool) (dir : Option Str) → Returns n (install_at e c key again arch cfg dry dir)
    unfolding install_at
    install-Returns dry none = Returns-Always n _ (Always-some 1)
    install-Returns dry (some dir) =
        Returns-if n dry _ _ plan-Returns
          (Returns-bind n _ _ (place_rootfs-Past n e c key arch dir) (rootfs-Returns dir))

    confirmed-Returns :
        (dry : Bool) (path : Str) (there : Bool)
        → Returns n (confirmed e c key again arch cfg dry path there)
    unfolding confirmed
    confirmed-Returns dry path there = Returns-if n (there && dry) _ _ plan-Returns (
        Returns-bind n _ _
          (Keeps-if there _ _ (drop_old-Past n e c key again arch cfg) (search past_rules))
          λ u. Returns-bind n _ _ (path-Past n e cfg path) (install-Returns dry))

  run_ex-Returns : (o : Options) → Returns n (run_ex e c key again o)
  unfolding run_ex confirm
  run_ex-Returns o = Returns-if n (not (is_arch o.arch)) _ _ (Returns-Always n _ (Always-some 1)) (
      Returns-bind n _ _ (exists-Past n e) λ there. Returns-bind n _ _ (search past_rules) λ go.
        Returns-if n (not go) _ _ (Returns-Always n _ (Always-some 0))
          (confirmed-Returns o.arch _ o.dry_run o.path there))

module _ (e : Env) (c : Crypto) (key : Str) where
  quits-Retried : (m n : ℕ) (again : M (Option ℕ)) → GivesUp e m → m ≤ n → Retried n e c key again
  unfolding Retried Returns ask_retry_abort retry_or_fail ask pure ◌>>=◌ GivesUp Always
  quits-Retried m n again gives le arch cfg w past =
      rw (gives w.trace (omega arith)) (fail-Always e cfg _)

  again-Retried : (n : ℕ) (again : M (Option ℕ)) → Returns (n + 1) again → Retried n e c key again
  unfolding Retried Returns ask_retry_abort retry_or_fail ask pure ◌>>=◌
  again-Retried n again h arch cfg w past =
      Returns-if (n + 1) _ again (fail_setup e cfg) h (Returns-Always (n + 1) _ (fail-Always e cfg))
        _ (ground arith)

  -- Every retry has made a call more, so that the rounds reach the call from which on none is asked.
  rounds-Retried :
      (m rounds n : ℕ) (arch : Str)
      → GivesUp e m
      → m ≤ n + rounds
      → Retried n e c key (run_setup e c key rounds arch)
  unfolding run_setup
  rounds-Retried m zero n arch gives le = quits-Retried m n _ gives (omega arith)
  rounds-Retried m (suc rounds) n arch gives le = again-Retried n _ (
      Returns-bind (n + 1) _ _ (ensure_config-Past (n + 1) e) λ cfg.
        run_ex-Returns (n + 1) e c key _ (rounds-Retried m rounds (n + 1) arch gives (omega arith))
          _)

-- The loop of `WithLock` always ends, within the rounds that the model gives it: `acquire-ends` of
-- State/Acquire says when it does. Where a stale lock cannot be removed it does not, and a setup hangs.
unfoldable pub LockEnds : Env → Type 0
LockEnds e = (w : World) → (acquire e lock_rounds w).0 ≢ none

-- Where the loop of WithLock always ends and the user asks for no retry from the `n`-th call on, setup
-- returns an exit code within `n` rounds of `Run`, whatever the calls answer.
pub setup-returns :
    (e : Env) (c : Crypto) (key : Str) (o : Options) (w : World) (n rounds : ℕ)
    → LockEnds e
    → GivesUp e n
    → n ≤ rounds
    → (setup e c key rounds o w).0 ≢ none
unfolding setup Returns
setup-returns e c key o w n rounds ends gives le =
    run_ex-Returns 0 e c key _ (rounds-Retried e c key n rounds 0 o.arch gives (omega arith)) o w
      (omega arith)
