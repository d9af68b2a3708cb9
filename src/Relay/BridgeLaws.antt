-- ===== src/Relay/BridgeLaws.antt =====
-- What a client of `bridgeConn` in internal/relay/relay.go is told: the daemon's bytes or the gateway
-- error, never both.
use dockup.Base.{
  ℕ, ◌+◌, ◌≡◌, ◌≢◌, refl, subst, Bool, true, false, Option, none, some, List, [], ◌∷◌, All,
  All-append, All-map, arith,
}
use dockup.Relay.Bridge.{
  SideResult, stdin_ended, stdout_ended, Stage, over, Bridge, opening, note, no_output, decided,
  received, Step, copy, end_stdin, end_stdout, cancel, first, graced, grace_over, reap, insisted,
  insist_over, decide, Run, here, next,
}

-- A count is that of a copy that has ended.
Ended : Bool → ℕ → ℕ → Type 0
Ended is_open copied n = (is_open ≡ false) × (copied ≡ n)

Told : Bool → ℕ → SideResult → Type 0
Told is_open copied stdin_ended = Unit
Told is_open copied (stdout_ended n) = Ended is_open copied n

record Consistent (b : Bridge) : Type 0 where
  queue : All (Told b.stdout_open b.copied) b.done
  counted : (n : ℕ) → b.out_n ≡ some n → Ended b.stdout_open b.copied n
  apart : b.refused ≡ true → (b.stage ≡ over) × Ended b.stdout_open b.copied 0

-- While the daemon's side is copied, nothing is told of it.
Told-open :
    (is_open later : Bool) (copied after : ℕ) (r : SideResult)
    → is_open ≡ true
    → Told is_open copied r
    → Told later after r
unfolding Told Ended
Told-open is_open later copied after stdin_ended h t = tt
Told-open is_open later copied after (stdout_ended n) h (shut, same) = absurd cc

note-Ended :
    (is_open : Bool) (copied : ℕ) (r : SideResult) (old : Option ℕ)
    → Told is_open copied r
    → ((n : ℕ) → old ≡ some n → Ended is_open copied n)
    → (n : ℕ) → note r old ≡ some n
    → Ended is_open copied n
unfolding note Told Ended
note-Ended is_open copied stdin_ended old t h n e = h n e
note-Ended is_open copied (stdout_ended m) old t h n e = ground (arith, t)

-- A result is taken from the channel before the end.
received-Consistent :
    (b : Bridge) (stage : Stage) (r : SideResult) (rest : List SideResult)
    → b.stage ≢ over
    → b.done ≡ r ∷ rest
    → Consistent b
    → Consistent (received stage r rest b)
received-Consistent b stage r rest before has h =
    let told : All (Told b.stdout_open b.copied) (r ∷ rest) =
      subst (All (Told b.stdout_open b.copied)) has h.queue in
    record {
      queue = told.1;
      counted = note-Ended b.stdout_open b.copied r b.out_n told.0 h.counted;
      apart = λ refused. absurd (before (h.apart refused).0);
    }

no_output-some : (o : Option ℕ) → no_output o ≡ true → o ≡ some 0
no_output-some none h = absurd cc
no_output-some (some n) h = ground arith

Step-Consistent : {b c : Bridge} → Step b c → Consistent b → Consistent c
unfolding Told Ended decided
Step-Consistent (copy b n is_open) h = record {
  queue =
      All-map (λ r. Told-open b.stdout_open b.stdout_open b.copied (b.copied + n) r is_open) b.done
        h.queue;
  counted = λ m e. absurd (ground (arith, h.counted m));
  apart = λ r. absurd (ground (arith, h.apart));
}
Step-Consistent (end_stdin b is_open) h = record {
  queue = All-append _ b.done (stdin_ended ∷ []) h.queue (tt, tt);
  counted = h.counted;
  apart = h.apart;
}
Step-Consistent (end_stdout b is_open) h = record {
  queue =
      All-append _ b.done (stdout_ended b.copied ∷ [])
        (All-map (λ r. Told-open b.stdout_open false b.copied b.copied r is_open) b.done h.queue)
        ((refl, refl), tt);
  counted = λ n e. (refl, (h.counted n e).1);
  apart = λ r. absurd (ground (arith, h.apart));
}
Step-Consistent (cancel b) h = record { queue = h.queue; counted = h.counted; apart = h.apart }
Step-Consistent (first b r rest at has) h = received-Consistent b _ r rest (λ e. cc) has h
Step-Consistent (graced b r rest at has) h = received-Consistent b _ r rest (λ e. cc) has h
Step-Consistent (insisted b r rest at has) h = received-Consistent b _ r rest (λ e. cc) has h
Step-Consistent (grace_over b at) h = record {
  queue = h.queue;
  counted = h.counted;
  apart = λ r. absurd (ground (arith, h.apart));
}
Step-Consistent (reap b failed at) h = record {
  queue = h.queue;
  counted = h.counted;
  apart = λ r. absurd (ground (arith, h.apart));
}
Step-Consistent (insist_over b at) h = record {
  queue = h.queue;
  counted = h.counted;
  apart = λ r. absurd (ground (arith, h.apart));
}
Step-Consistent (decide b at) h = record {
  queue = h.queue;
  counted = h.counted;
  apart = λ r. (refl, h.counted 0 (no_output-some b.out_n (ground arith)));
}

Run-Consistent : {b c : Bridge} → Consistent b → Run b c → Consistent c
Run-Consistent h here = h
Run-Consistent h (next r step) = Step-Consistent step (Run-Consistent h r)

opening-Consistent :
    (in_pipe out_pipe started : Bool) → Consistent (opening in_pipe out_pipe started)
unfolding opening Ended
opening-Consistent false out_pipe started = record {
  queue = tt;
  counted = λ n e. cc;
  apart = λ r. absurd cc;
}
opening-Consistent true false started = record {
  queue = tt;
  counted = λ n e. cc;
  apart = λ r. absurd cc;
}
opening-Consistent true true false = record {
  queue = tt;
  counted = λ n e. cc;
  apart = λ r. (refl, (refl, refl));
}
opening-Consistent true true true = record {
  queue = tt;
  counted = λ n e. cc;
  apart = λ r. absurd cc;
}

-- Whatever the two copies, the timers and a shutdown do to a connection and in whatever order: where
-- the gateway error was written to the client, no byte of the daemon has reached it or ever will, and
-- the connection is over.
pub opening-Unmixed :
    (in_pipe out_pipe started : Bool) (b : Bridge)
    → Run (opening in_pipe out_pipe started) b
    → b.refused ≡ true
    → (b.copied ≡ 0) × (b.stdout_open ≡ false) × (b.stage ≡ over)
unfolding Ended
opening-Unmixed in_pipe out_pipe started b run refused =
    let (at, (shut, none_copied)) =
      (Run-Consistent (opening-Consistent in_pipe out_pipe started) run).apart refused in
    (none_copied, shut, at)
