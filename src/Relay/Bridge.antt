-- ===== src/Relay/Bridge.antt =====
-- `bridgeConn` of internal/relay/relay.go: the goroutine that owns a connection, between the steps of
-- the two that copy, of the timers and of the shutdown. What it writes to the client is the gateway
-- error; the copying goroutine writes the daemon's bytes.
use dockup.Base.{
  ℕ, ◌+◌, ◌≡◌, Bool, true, false, not, ◌&&◌, ◌||◌, Option, none, some, List, [], ◌∷◌, ◌++◌, ◌==◌,
  if◌then◌else◌,
}

-- `sideResult`
pub data SideResult : Type 0 where
  stdin_ended : SideResult
  stdout_ended : ℕ → SideResult

-- Where the goroutine stands: at the first `<-done`, in the 60 s of grace, before `Kill` and `Wait`, in
-- the 10 s that insist on the daemon's side, before the switch, and returned.
pub data Stage : Type 0 where
  serving grace reaping insisting deciding over : Stage

-- `copied` counts the daemon's bytes that reached the client; `done` is the channel, oldest first.
pub record Bridge : Type 0 where
  pub stage : Stage
  pub copied : ℕ
  pub stdin_open : Bool
  pub stdout_open : Bool
  pub done : List SideResult
  pub out_n : Option ℕ
  pub wait_failed : Bool
  pub cancelled : Bool
  pub refused : Bool
  pub logged : Bool

-- Before the copies start: the two pipes, then the process; a process that cannot be spawned is told
-- to the client.
unfoldable pub opening : Bool → Bool → Bool → Bridge
opening in_pipe out_pipe started =
    let closed : Bridge = record {
      stage = over;
      copied = 0;
      stdin_open = false;
      stdout_open = false;
      done = [];
      out_n = none;
      wait_failed = false;
      cancelled = false;
      refused = false;
      logged = false;
    } in
    if not (in_pipe && out_pipe)
    then closed
    else if not started
    then record closed { refused = true }
    else record closed { stage = serving; stdin_open = true; stdout_open = true }

-- `note`
unfoldable pub note : SideResult → Option ℕ → Option ℕ
note stdin_ended n = n
note (stdout_ended n) old = some n

-- After the first result: grace for an end of stdin only.
abbrev pub after_first : SideResult → Stage
after_first stdin_ended = grace
after_first (stdout_ended n) = reaping

-- After `Wait`: `outN < 0` insists.
abbrev pub after_wait : Option ℕ → Stage
after_wait none = insisting
after_wait (some n) = deciding

abbrev pub no_output : Option ℕ → Bool
no_output none = false
no_output (some n) = n == 0

abbrev pub unknown_output : Option ℕ → Bool
unknown_output none = true
unknown_output (some n) = false

-- The end: the test of `ctx.Err()` and the switch.
unfoldable pub decided : Bridge → Bridge
decided b = record b {
  stage = over;
  refused = not b.cancelled && (b.wait_failed && no_output b.out_n);
  logged = not b.cancelled && (b.wait_failed && (no_output b.out_n || unknown_output b.out_n));
}

abbrev pub received : Stage → SideResult → List SideResult → Bridge → Bridge
received stage r rest b = record b { stage = stage; done = rest; out_n = note r b.out_n }

pub data Step : Bridge → Bridge → Type 0 where
  -- the goroutines that copy
  copy : (b : Bridge) (n : ℕ) → b.stdout_open ≡ true → Step b (record b { copied = b.copied + n })
  end_stdin :
      (b : Bridge)
      → b.stdin_open ≡ true
      → Step b (record b { stdin_open = false; done = b.done ++ (stdin_ended ∷ []) })
  end_stdout :
      (b : Bridge)
      → b.stdout_open ≡ true
      → Step b (record b { stdout_open = false; done = b.done ++ (stdout_ended b.copied ∷ []) })
  -- the shutdown
  cancel : (b : Bridge) → Step b (record b { cancelled = true })
  -- the goroutine of the connection
  first :
      (b : Bridge) (r : SideResult) (rest : List SideResult)
      → b.stage ≡ serving
      → b.done ≡ r ∷ rest
      → Step b (received (after_first r) r rest b)
  graced :
      (b : Bridge) (r : SideResult) (rest : List SideResult)
      → b.stage ≡ grace
      → b.done ≡ r ∷ rest
      → Step b (received reaping r rest b)
  grace_over : (b : Bridge) → b.stage ≡ grace → Step b (record b { stage = reaping })
  reap :
      (b : Bridge) (failed : Bool)
      → b.stage ≡ reaping
      → Step b (record b { stage = after_wait b.out_n; wait_failed = failed })
  insisted :
      (b : Bridge) (r : SideResult) (rest : List SideResult)
      → b.stage ≡ insisting
      → b.done ≡ r ∷ rest
      → Step b (received deciding r rest b)
  insist_over : (b : Bridge) → b.stage ≡ insisting → Step b (record b { stage = deciding })
  decide : (b : Bridge) → b.stage ≡ deciding → Step b (decided b)

pub data Run (b : Bridge) : Bridge → Type 0 where
  here : Run b b
  next : {c d : Bridge} → Run b c → Step c d → Run b d
