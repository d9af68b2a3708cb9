-- ===== src/Dockctx.antt =====
-- internal/dockctx/dockctx.go: the managed docker context.
use dockup.Base.{
  ◌≡◌, ◌⊎◌, Bool, true, false, not, List, [], ◌∷◌, ◌++◌, Str, codes, arith, str_eq, trim_space,
  has_prefix, trim_prefix, if◌then◌else◌,
}
use dockup.Env.{Call, Env, look_path, docker_cli}
use dockup.Io.{World, M, pure, ◌>>=◌, ◌>>?◌, Result, ok, err, is_ok, Done, ask, succeeds}

abbrev pub context_name : Str
context_name = codes "dockup"

abbrev pub description : Str
description = codes "dockup Docker engine (WSL2)"

-- `Host`
unfoldable pub host : Str → Str
host pipe =
    let p = trim_space pipe in
    if has_prefix p (codes "npipe://")
    then p
    else codes "npipe:////./pipe/" ++ trim_prefix p (codes "\\\\.\\pipe\\")

pub record Info : Type 0 where
  pub cli : Bool
  pub created : Bool
  pub active : Bool
  pub host_found : Str
  pub current : Str
  pub want_host : Str

abbrev pub rm_args : List Str
rm_args = codes "context" ∷ codes "rm" ∷ codes "-f" ∷ context_name ∷ []

abbrev pub inspect_args : List Str
inspect_args =
    codes "context"
    ∷ codes "inspect"
    ∷ context_name
    ∷ codes "--format"
    ∷ codes "{{.Endpoints.docker.Host}}"
    ∷ []

module _ (e : Env) where
  -- `Available`
  unfoldable pub available : M Bool
  available = succeeds e (look_path (codes "docker"))

  -- `run`
  unfoldable pub run_cli : List Str → M (Result Str)
  run_cli args = do
    r ← ask e (docker_cli args)
    pure (if r.ok then ok (trim_space r.out) else err (codes "docker"))

  -- `inspect`
  unfoldable pub inspect : M (Result Str)
  inspect = run_cli inspect_args

  pub with_host : Info → Result Str → Info
  with_host i (err m) = i
  with_host i (ok h) = record i { created = true; host_found = h }

  pub with_current : Info → Result Str → Info
  with_current i (err m) = i
  with_current i (ok cur) = record i { current = cur; active = str_eq cur context_name }

  -- `Get`
  unfoldable pub context_info : Str → M Info
  context_info pipe = do
    cli ← available
    let info : Info = record {
      cli = cli;
      created = false;
      active = false;
      host_found = [];
      current = [];
      want_host = host pipe;
    }
    if not cli then pure info else do
      h ← inspect
      cur ← run_cli (codes "context" ∷ codes "show" ∷ [])
      pure (with_current (with_host info h) cur)

  pub create_context : Str → M (Result Bool)
  create_context want =
      run_cli (
        codes "context"
        ∷ codes "create"
        ∷ context_name
        ∷ codes "--description"
        ∷ description
        ∷ codes "--docker"
        ∷ (codes "host=" ++ want)
        ∷ [])
      >>? λ out. pure (ok true)

  pub ensure_from : Str → Result Str → M (Result Bool)
  ensure_from want (err m) = create_context want
  ensure_from want (ok h) =
      if str_eq h want then pure (ok false) else (run_cli rm_args >>? λ out. create_context want)

  -- `Ensure`
  unfoldable pub ensure : Str → M (Result Bool)
  ensure pipe = do
    cli ← available
    if not cli
        then pure (err (codes "docker CLI not found on PATH"))
        else do h ← inspect; ensure_from (host pipe) h

  -- `UseContext`
  unfoldable pub use_context : Str → M Done
  use_context name = run_cli (codes "context" ∷ codes "use" ∷ name ∷ []) >>? λ out. pure (ok tt)

  -- `Use`
  unfoldable pub use_managed : Str → M Done
  use_managed pipe = ensure pipe >>? λ wrote. use_context context_name

  -- `Exists`
  unfoldable pub context_exists : Str → M Bool
  context_exists name = do
    r ← run_cli (codes "context" ∷ codes "inspect" ∷ name ∷ [])
    pure (is_ok r)

  unfoldable pub remove_if : Str → Result Str → M Done
  remove_if want (err m) = pure (ok tt)
  remove_if want (ok h) =
      if str_eq h want then (run_cli rm_args >>? λ out. pure (ok tt)) else pure (ok tt)

  -- `Remove`
  unfoldable pub remove_context : Str → M Done
  remove_context pipe = do
    cli ← available
    if not cli then pure (ok tt) else do h ← inspect; remove_if (host pipe) h

-- The context with our name never has the host of our pipe.
unfoldable pub Foreign : Env → Str → Type 0
Foreign e pipe =
    (t : List Call)
    → str_eq (trim_space (e.reply t (docker_cli inspect_args)).out) (host pipe) ≡ false

module _ (e : Env) (pipe : Str) where
  -- Where the context named dockup points elsewhere, `Remove` reports no error and only asks for the
  -- docker CLI and, if it is there, for the host of the context: a context of the user's is left alone.
  pub remove_context-Foreign :
      (w : World)
      → Foreign e pipe
      → ((remove_context e pipe w).0 ≡ ok tt)
        × (((remove_context e pipe w).1.trace ≡ look_path (codes "docker") ∷ w.trace)
            ⊎ ((remove_context e pipe w).1.trace
                ≡ docker_cli inspect_args ∷ look_path (codes "docker") ∷ w.trace))
  unfolding remove_context remove_if available inspect run_cli succeeds ask pure ◌>>=◌ Foreign
  remove_context-Foreign w foreign = ground (arith, foreign (look_path (codes "docker") ∷ w.trace))
