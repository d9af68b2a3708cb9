-- ===== src/Relay/BridgeEnds.antt =====
-- That `bridgeConn` of internal/relay/relay.go comes to its end.
use dockup.Base.{
  ℕ, ◌+◌, ◌≤◌, ◌≡◌, ◌≢◌, ◌⊎◌, inl, inr, refl, Bool, true, false, Option, none, some, List, [], ◌∷◌,
  ◌++◌, arith, if◌then◌else◌,
}
use dockup.Relay.Bridge.{
  SideResult, stdin_ended, stdout_ended, Stage, serving, grace, reaping, insisting, deciding, over,
  Bridge, after_first, after_wait, decided, Step, copy, end_stdin, end_stdout, cancel, first,
  graced, grace_over, reap, insisted, insist_over, decide, Run, here, next,
}

-- The steps of the connection's goroutine and of its timers, which no one else has to take.
pub is_own : {b c : Bridge} → Step b c → Bool
is_own (copy b n o) = false
is_own (end_stdin b o) = false
is_own (end_stdout b o) = false
is_own (cancel b) = false
is_own _ = true

-- How many of them a run takes.
pub own_steps : {b c : Bridge} → Run b c → ℕ
own_steps here = 0
own_steps (next r s) = let before = own_steps r in if is_own s then before + 1 else before

-- How many of them are left at most.
pub left_at : Stage → ℕ
left_at serving = 5
left_at grace = 4
left_at reaping = 3
left_at insisting = 2
left_at deciding = 1
left_at over = 0

-- One side has ended, or its end has been received before.
abbrev pub OneEnded : Bridge → Type 0
OneEnded b = b.stage ≡ serving → b.done ≢ []

left-after_first : (r : SideResult) → left_at (after_first r) ≤ 4
unfolding left_at
left-after_first stdin_ended = omega arith
left-after_first (stdout_ended n) = omega arith

left-after_wait : (o : Option ℕ) → left_at (after_wait o) ≤ 2
unfolding left_at
left-after_wait none = omega arith
left-after_wait (some n) = omega arith

-- A step of the connection's own leaves one less, and no other step changes what is left.
Step-left :
    {b c : Bridge} (s : Step b c) → left_at c.stage + (if is_own s then 1 else 0) ≤ left_at b.stage
unfolding is_own left_at decided
Step-left (copy b n o) = omega arith
Step-left (end_stdin b o) = omega arith
Step-left (end_stdout b o) = omega arith
Step-left (cancel b) = omega arith
Step-left (first b r rest at d) = ground (arith, left-after_first r)
Step-left (graced b r rest at d) = ground arith
Step-left (grace_over b at) = ground arith
Step-left (reap b failed at) = ground (arith, left-after_wait b.out_n)
Step-left (insisted b r rest at d) = ground arith
Step-left (insist_over b at) = ground arith
Step-left (decide b at) = ground arith

Run-left : {b c : Bridge} (r : Run b c) → own_steps r + left_at c.stage ≤ left_at b.stage
unfolding own_steps
Run-left here = omega arith
Run-left (next r s) = ground (arith, Run-left r, Step-left s)

some_left : (x : SideResult) (xs : List SideResult) → (xs ++ x ∷ []) ≢ []
some_left x [] h = cc
some_left x (y ∷ ys) h = cc

received-OneEnded : (r : SideResult) → after_first r ≢ serving
received-OneEnded stdin_ended h = cc
received-OneEnded (stdout_ended n) h = cc

waited-OneEnded : (o : Option ℕ) → after_wait o ≢ serving
waited-OneEnded none h = cc
waited-OneEnded (some n) h = cc

-- The other steps only add to the channel.
Step-OneEnded : {b c : Bridge} → Step b c → OneEnded b → OneEnded c
unfolding decided
Step-OneEnded (copy b n o) h = h
Step-OneEnded (end_stdin b o) h = λ at. some_left stdin_ended b.done
Step-OneEnded (end_stdout b o) h = λ at. some_left (stdout_ended b.copied) b.done
Step-OneEnded (cancel b) h = h
Step-OneEnded (first b r rest at d) h = λ s. absurd (received-OneEnded r s)
Step-OneEnded (graced b r rest at d) h = λ s. absurd cc
Step-OneEnded (grace_over b at) h = λ s. absurd cc
Step-OneEnded (reap b failed at) h = λ s. absurd (waited-OneEnded b.out_n s)
Step-OneEnded (insisted b r rest at d) h = λ s. absurd cc
Step-OneEnded (insist_over b at) h = λ s. absurd cc
Step-OneEnded (decide b at) h = λ s. absurd cc

Run-OneEnded : {b c : Bridge} → Run b c → OneEnded b → OneEnded c
Run-OneEnded here h = h
Run-OneEnded (next r s) h = Step-OneEnded s (Run-OneEnded r h)

-- The goroutine or one of its timers can take a step.
abbrev pub CanGoOn : Bridge → Type 0
CanGoOn b = (c : Bridge) × (s : Step b c) × (is_own s ≡ true)

received-CanGoOn :
    (b : Bridge) (d : List SideResult) → b.done ≡ d → d ≢ [] → b.stage ≡ serving → CanGoOn b
unfolding is_own
received-CanGoOn b [] e h at = absurd (h refl)
received-CanGoOn b (r ∷ rest) e h at = (_, first b r rest at e, refl)

OneEnded-CanGoOn : (b : Bridge) (s : Stage) → b.stage ≡ s → OneEnded b → (s ≡ over) ⊎ CanGoOn b
unfolding is_own
OneEnded-CanGoOn b serving at h = inr (received-CanGoOn b b.done refl (h at) at)
OneEnded-CanGoOn b grace at h = inr (_, grace_over b at, refl)
OneEnded-CanGoOn b reaping at h = inr (_, reap b true at, refl)
OneEnded-CanGoOn b insisting at h = inr (_, insist_over b at, refl)
OneEnded-CanGoOn b deciding at h = inr (_, decide b at, refl)
OneEnded-CanGoOn b over at h = inl refl

-- In every run of a connection of which one side has ended, whatever the copies and the shutdown do
-- in between, the goroutine and its timers take at most as many steps as `left_at` says of where it
-- stood, five at most, and until the connection is over they can take one more: no second result,
-- no byte and no shutdown is waited for.
pub Run-ends :
    {b c : Bridge} (r : Run b c)
    → OneEnded b
    → (own_steps r + left_at c.stage ≤ left_at b.stage) × ((c.stage ≡ over) ⊎ CanGoOn c)
Run-ends {c = c} r h = (Run-left r, OneEnded-CanGoOn c c.stage refl (Run-OneEnded r h))
