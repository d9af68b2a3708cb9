-- ===== src/Docker/Answers.antt =====
-- What the success of `TestDaemon` and `WaitDaemon` of internal/docker/docker.go says.
use dockup.Base.{
  ℕ, zero, suc, ◌+◌, ◌/◌, ◌≡◌, refl, subst, Bool, true, false, List, [], ◌∷◌, Str, codes, arith,
  str_eq, trim_space, if◌then◌else◌,
}
use dockup.Env.{Call, Env, wsl_script, before}
use dockup.Io.{World, M, pure, ◌>>=◌, ◌>>?◌, next_of, Result, ok, err, is_ok, Done, ask, succeeds}
use dockup.Docker.{test_daemon, wait_test, daemon_round, daemon_loop, wait_daemon}

abbrev pub version_call : Call
version_call = wsl_script (codes "docker version --format '{{.Server.Version}}'")

module _ (e : Env) where
  -- The last call asked the engine for its version, and it gave one.
  unfoldable pub Answered : World → Type 0
  Answered w =
      (t : List Call) × (w.trace ≡ version_call ∷ t)
      × ((e.reply t version_call).ok ≡ true)
      × (str_eq (trim_space (e.reply t version_call).out) [] ≡ false)

  test_daemon-Answered :
      (w : World) → is_ok (test_daemon e w).0 ≡ true → Answered (test_daemon e w).1
  unfolding test_daemon Answered ask pure ◌>>=◌
  test_daemon-Answered w h = (w.trace, ground arith, ground (arith, h), ground (arith, h))

  module _ (ms : ℕ) where
    -- A round after an error succeeds only by an answer.
    abbrev Answers : (Done → M Done) → Type 0
    Answers again =
        (m : Str) (w : World) → is_ok (again (err m) w).0 ≡ true → Answered (again (err m) w).1

    tested-Answered :
        (again : Done → M Done) (r : Done) (w : World)
        → Answers again
        → (is_ok r ≡ true → Answered w)
        → is_ok (wait_test e again r w).0 ≡ true
        → Answered (wait_test e again r w).1
    unfolding wait_test pure ◌>>=◌
    tested-Answered again (ok u) w more first h = first refl
    tested-Answered again (err m) w more first h = more m _ h

    if-Answered :
        (b : Bool) (m k : M Done) (w : World)
        → (is_ok (m w).0 ≡ true → Answered (m w).1)
        → (b ≡ false → is_ok (k w).0 ≡ true → Answered (k w).1)
        → is_ok ((if b then m else k) w).0 ≡ true
        → Answered ((if b then m else k) w).1
    if-Answered true m k w hm hk h = hm h
    if-Answered false m k w hm hk h = hk refl h

    -- A round succeeds by an answer, or by a deadline that it finds passed, with what it was given.
    round-Answered :
        (again : Done → M Done) (last : Done) (w : World)
        → Answers again
        → ((e.reply w.trace (before ms)).ok ≡ false
            → is_ok last ≡ true
            → Answered (record w { trace = before ms ∷ w.trace }))
        → is_ok (daemon_round e ms again last w).0 ≡ true
        → Answered (daemon_round e ms again last w).1
    unfolding daemon_round succeeds ask pure ◌>>=◌
    round-Answered again last w more late h =
        let w1 : World = record w { trace = before ms ∷ w.trace } in
        if-Answered (e.reply w.trace (before ms)).ok _ _ w1
          (tested-Answered again (test_daemon e w1).0 (test_daemon e w1).1 more
            (test_daemon-Answered w1))
          late h

    loop-Answers : (rounds : ℕ) → Answers (daemon_loop e ms rounds)
    unfolding daemon_loop pure
    loop-Answers zero m w h = absurd cc
    loop-Answers (suc rounds) m w h =
        round-Answered (daemon_loop e ms rounds) (err m) w (loop-Answers rounds)
          (λ late failed. absurd cc) h

    first-Answered :
        (rounds : ℕ) (w : World)
        → (e.reply w.trace (before ms)).ok ≡ true
        → is_ok (daemon_loop e ms (suc rounds) (ok tt) w).0 ≡ true
        → Answered (daemon_loop e ms (suc rounds) (ok tt) w).1
    unfolding daemon_loop
    first-Answered rounds w in_time h =
        round-Answered (daemon_loop e ms rounds) (ok tt) w (loop-Answers rounds)
          (λ late good. absurd (ground (arith, in_time))) h

    -- Where the deadline has not passed at the start, WaitDaemon reports success only after a last call
    -- that asked the engine for its version and got one.
    pub wait_daemon-Answered :
        (w : World)
        → (e.reply w.trace (before ms)).ok ≡ true
        → is_ok (wait_daemon e ms w).0 ≡ true
        → Answered (wait_daemon e ms w).1
    unfolding wait_daemon
    wait_daemon-Answered w in_time =
        let one_more : suc (ms / 3000) ≡ ms / 3000 + 1 = omega arith in
        subst
          (λ n.
            is_ok (daemon_loop e ms n (ok tt) w).0 ≡ true
            → Answered (daemon_loop e ms n (ok tt) w).1)
          one_more (first-Answered (ms / 3000) w in_time)

  -- A program whose success comes with an answer.
  abbrev pub AnswersIfOk : M Done → Type 0
  AnswersIfOk m = (w : World) → is_ok (m w).0 ≡ true → Answered (m w).1

  next-Answered :
      {A : Type 0} (f : A → M Done) (r : Result A)
      → ((a : A) → AnswersIfOk (f a))
      → AnswersIfOk (next_of f r)
  unfolding next_of pure
  next-Answered f (ok a) h w good = h a w good
  next-Answered f (err m) h w good = absurd cc

  pub then-Answered :
      {A : Type 0} (m : M (Result A)) (f : A → M Done)
      → ((a : A) → AnswersIfOk (f a))
      → AnswersIfOk (m >>? f)
  unfolding ◌>>?◌ ◌>>=◌
  then-Answered m f h w = next-Answered f (m w).0 h (m w).1
