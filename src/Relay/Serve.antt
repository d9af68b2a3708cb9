-- ===== src/Relay/Serve.antt =====
-- `ServeEx` of internal/relay/relay.go. What the goroutines of `serveListener` do for each connection
-- is in Bridge; a listener is closed at the end, by its deferred `Close`.
use dockup.Base.{
  ◌≡◌, refl, Bool, true, false, not, ◌&&◌, ◌||◌, [], ◌++◌, Str, codes, arith, str_eq, equal_fold,
  str_eq_refl, Bool-cases, inl, inr, if◌then◌else◌,
}
use dockup.Base.Int.{ℤ}
use dockup.Env.{Call, Env, listen, listen_tcp, close_listener, cancelled}
use dockup.Io.{M, pure, ◌>>=◌, ◌>>◌, ok, err, is_ok, Done, run, attempt, succeeds}
use dockup.Io.Keeps.{Keeps, Only, only_rules}
use dockup.Config.{default_pipe}
use dockup.Userconfig.Paths.{validate_port, print_int}

-- `DefaultDockerPipe`
abbrev pub docker_pipe : Str
docker_pipe = codes "\\\\.\\pipe\\docker_engine"

unfoldable pub served_pipe : Str → Str
served_pipe pipe = if str_eq pipe [] then default_pipe else pipe

unfoldable pub bridge_addr : ℤ → Str
unfolding print_int
bridge_addr port = codes "127.0.0.1:" ++ print_int port

module _ (e : Env) where
  -- The TCP bridge, if it is on, and the wait for the end.
  serve_tcp : Bool → ℤ → M Done
  serve_tcp use_tcp port = if not use_tcp then (do run e cancelled; pure (ok tt)) else do
    l ← attempt e (listen_tcp (bridge_addr port)) (codes "listen")
    if not (is_ok l)
        then pure l
        else do run e cancelled; run e (close_listener (bridge_addr port)); pure (ok tt)

  -- The mirror of Docker Desktop's pipe, where nobody holds it.
  listen_mirror : Str → M Bool
  listen_mirror pipe =
      if equal_fold pipe docker_pipe then pure false else succeeds e (listen docker_pipe)

  serve_pipe : Str → Bool → ℤ → (Bool → M Unit) → M Done
  serve_pipe pipe use_tcp port on_mirror = do
    mirror ← listen_mirror pipe
    on_mirror mirror
    d ← serve_tcp use_tcp port
    (if mirror then run e (close_listener docker_pipe) else pure tt)
    run e (close_listener pipe)
    pure d

  -- `ServeEx` of our own distro, whose name is not empty
  pub serve_ex : Str → Bool → ℤ → (Bool → M Unit) → M Done
  serve_ex pipe use_tcp port on_mirror =
      if use_tcp && not (validate_port port) then pure (err (codes "port")) else do
        l ← attempt e (listen (served_pipe pipe)) (codes "listen")
        if not (is_ok l) then pure l else serve_pipe (served_pipe pipe) use_tcp port on_mirror

-- A call that serves nothing but our pipe, its mirror and, with TCP on, the bridge of a valid port on
-- 127.0.0.1.
unfoldable pub serves_locally : Str → Bool → ℤ → Call → Bool
unfolding bridge_addr
serves_locally pipe use_tcp port (listen p) = str_eq p (served_pipe pipe) || str_eq p docker_pipe
serves_locally pipe use_tcp port (listen_tcp addr) =
    use_tcp && (validate_port port && str_eq addr (bridge_addr port))
serves_locally pipe use_tcp port _ = true

tcp-Locally :
    (e : Env) (pipe : Str) (use_tcp : Bool) (port : ℤ)
    → (use_tcp && not (validate_port port)) ≡ false
    → Keeps (Only (serves_locally pipe use_tcp port)) (serve_tcp e use_tcp port)
unfolding serve_tcp serves_locally
tcp-Locally e pipe false port valid = search only_rules
tcp-Locally e pipe true port valid =
    let in_range : validate_port port ≡ true = ground (arith, valid) in
    search (only_rules, allowed_addr in_range) depth 12
  where
    allowed_addr :
        validate_port port ≡ true
        → (validate_port port && str_eq (bridge_addr port) (bridge_addr port)) ≡ true
    allowed_addr h = rw (h, str_eq_refl (bridge_addr port)) refl

module _ (e : Env) (pipe : Str) (use_tcp : Bool) (port : ℤ) (on_mirror : Bool → M Unit)
    (told : (mirror : Bool)
      → Keeps (Only (serves_locally pipe use_tcp port)) (on_mirror mirror)) where
  mirror-allowed : serves_locally pipe use_tcp port (listen docker_pipe) ≡ true
  unfolding serves_locally str_eq
  mirror-allowed = ground arith

  pipe-allowed : serves_locally pipe use_tcp port (listen (served_pipe pipe)) ≡ true
  unfolding serves_locally
  pipe-allowed = rw (str_eq_refl (served_pipe pipe)) refl

  mirror-Locally :
      Keeps (Only (serves_locally pipe use_tcp port)) (listen_mirror e (served_pipe pipe))
  unfolding listen_mirror
  mirror-Locally = search (only_rules, mirror-allowed)

  pipe-Locally :
      (use_tcp && not (validate_port port)) ≡ false
      → Keeps
          (Only (serves_locally pipe use_tcp port))
          (serve_pipe e (served_pipe pipe) use_tcp port on_mirror)
  unfolding serve_pipe serves_locally
  pipe-Locally valid = search (only_rules, mirror-Locally, tcp-Locally, told, valid) depth 12

  listening-Locally :
      (use_tcp && not (validate_port port)) ≡ false
      → Keeps (Only (serves_locally pipe use_tcp port)) (do
        l ← attempt e (listen (served_pipe pipe)) (codes "listen")
        if not (is_ok l) then pure l else serve_pipe e (served_pipe pipe) use_tcp port on_mirror)
  listening-Locally valid = search (only_rules, pipe-allowed, pipe-Locally, valid)

  -- Whatever happens, a serving process listens only on its own pipe, on Docker Desktop's pipe and, if
  -- TCP is on and the port is valid, on that port of 127.0.0.1, provided that the callback for the
  -- mirror listens on nothing more.
  pub serve_ex-Locally :
      Keeps (Only (serves_locally pipe use_tcp port)) (serve_ex e pipe use_tcp port on_mirror)
  unfolding serve_ex
  serve_ex-Locally = elim (Bool-cases (use_tcp && not (validate_port port))) [
    | inl bad ↦ rw bad (search only_rules)
    | inr good ↦ rw good (listening-Locally good)
  ]
