-- ===== src/State/Acquire.antt =====
-- Whether the loop of `WithLock` ends.
use dockup.Base.{
  ℕ, zero, suc, ◌+◌, ◌≤◌, ◌≡◌, ◌≢◌, ◌∙◌, refl, Bool, true, false, Option, none, List, [], ◌∷◌,
  arith, if◌then◌else◌,
}
use dockup.Env.{Call, Env, sleep, lock_create, lock_stale, lock_remove, lock_expired}
use dockup.Io.{World, M, pure, ◌>>=◌, Done, ask, run, succeeds}
use dockup.State.{acquire_round, acquire}

-- How often the loop has slept or removed a stale lock so far.
is_pause : Call → Bool
is_pause (sleep ms) = true
is_pause lock_remove = true
is_pause _ = false

unfoldable pub pauses : List Call → ℕ
unfolding is_pause
pauses [] = 0
pauses (c ∷ t) = if is_pause c then suc (pauses t) else pauses t

module _ (e : Env) (limit : ℕ) where
  -- From `limit` pauses on no lock is stale and the deadline has passed.
  unfoldable pub Patient : Type 0
  Patient =
      (t : List Call)
      → limit ≤ pauses t
      → ((e.reply t lock_stale).ok ≡ false) × ((e.reply t lock_expired).ok ≡ true)

  round_ends :
      (again : M (Option Done)) (w : World)
      → Patient
      → limit ≤ pauses w.trace
      → (acquire_round e again w).0 ≢ none
  unfolding acquire_round pauses succeeds run ask pure ◌>>=◌ Patient
  round_ends again w patient h =
      ground (arith, patient (lock_create ∷ w.trace), patient (lock_stale ∷ lock_create ∷ w.trace))

  round_goes_on :
      (again : M (Option Done)) (w : World)
      → ((w' : World) → pauses w'.trace ≡ pauses w.trace + 1 → (again w').0 ≢ none)
      → (acquire_round e again w).0 ≢ none
  unfolding acquire_round pauses succeeds run ask pure ◌>>=◌
  round_goes_on again w ih = ground (
    arith,
    ih (record w { trace = lock_remove ∷ lock_stale ∷ lock_create ∷ w.trace }),
    ih (record w { trace = sleep 100 ∷ lock_expired ∷ lock_stale ∷ lock_create ∷ w.trace }),
  )

  -- Where the clock moves on and stale locks do go away, so that after `limit` pauses of the loop in
  -- all there is none and the deadline has passed, the loop of `WithLock` ends within
  -- limit + 1 rounds.
  pub acquire-ends :
      (n : ℕ) (w : World) → Patient → limit ≤ pauses w.trace + n → (acquire e (suc n) w).0 ≢ none
  unfolding acquire
  acquire-ends zero w patient h = round_ends (acquire e zero) w patient (omega arith)
  acquire-ends (suc n) w patient h =
      round_goes_on (acquire e (suc n)) w (λ w' more. acquire-ends n w' patient (omega arith))

  -- A stale lock that cannot be removed: its age stays above the limit and it cannot be created anew.
  unfoldable pub Stuck : Type 0
  Stuck =
      (t : List Call) → ((e.reply t lock_create).ok ≡ false) × ((e.reply t lock_stale).ok ≡ true)

  round_spins :
      (again : M (Option Done)) (w : World)
      → Stuck
      → (acquire_round e again w).0
        ≡ (again (record w { trace = lock_remove ∷ lock_stale ∷ lock_create ∷ w.trace })).0
  unfolding acquire_round succeeds run ask pure ◌>>=◌ Stuck
  round_spins again w stuck = ground (arith, stuck w.trace, stuck (lock_create ∷ w.trace))

  -- Then the loop never ends: the 15 s deadline is not looked at and no round sleeps.
  pub acquire-spins : (n : ℕ) (w : World) → Stuck → (acquire e n w).0 ≡ none
  unfolding acquire
  acquire-spins zero w stuck = unfold pure in refl
  acquire-spins (suc n) w stuck =
      round_spins (acquire e n) w stuck
      ∙ acquire-spins n (record w { trace = lock_remove ∷ lock_stale ∷ lock_create ∷ w.trace })
          stuck
