-- ===== src/Cli/Interrupt/Laws.antt =====
-- What the terminal can show, in whatever order the command and the goroutine take their steps.
use dockup.Base.{
  ℕ, ◌+◌, ◌≤◌, ◌≡◌, refl, Bool, true, false, ◌&&◌, ◌||◌, List, [], ◌∷◌, Str, arith, ◌==◌,
  if◌then◌else◌,
}
use dockup.Ui.Spinner.{Spinner, begin, done, stop}
use dockup.Cli.Interrupt.{
  Line, step_shown, done_shown, down_shown, forced_shown, Stage, left, Watch, halted, holding,
  announced, cancelled, Session, new_session, say_down, begin_step, finish_step, stop_step, Step,
  signal, give_up, refuse_early, start_spinner, register, warm_up_fails, warm_up_succeeds,
  stop_spinner, say_failed, refuse, finish_spinner, leave, catch, take_spinner, halt, announce,
  announce_bare, cancel, force, Reach, here, next,
}

-- How often the shutdown has been announced.
unfoldable pub downs : List Line → ℕ
downs [] = 0
downs (down_shown ∷ s) = downs s + 1
downs (step_shown ∷ s) = downs s
downs (done_shown ∷ s) = downs s
downs (forced_shown ∷ s) = downs s

-- No completion line is shown below the announcement.
unfoldable pub calm : List Line → Bool
calm [] = true
calm (done_shown ∷ s) = (downs s == 0) && calm s
calm (down_shown ∷ s) = calm s
calm (step_shown ∷ s) = calm s
calm (forced_shown ∷ s) = calm s

-- The goroutine has read the pointer before there was a spinner.
unfoldable pub missed : Watch → Bool
missed (holding false) = true
missed (announced false) = true
missed (cancelled false) = true
missed _ = false

-- The goroutine has come to its announcement, or past it.
unfoldable pub has_announced : Watch → Bool
has_announced (announced b) = true
has_announced (cancelled b) = true
has_announced _ = false

abbrev is_left : Stage → Bool
is_left left = true
is_left _ = false

abbrev is_halted : Watch → Bool
is_halted halted = true
is_halted _ = false

record IsOrderly (s : Session) : Type 0 where
  once : downs s.screen ≡ (if s.said then 1 else 0)
  said : has_announced s.watch ≡ true → s.said ≡ true
  stopped_first : is_halted s.watch ≡ true → s.spinner.finished ≡ true
  quiet : s.said ≡ true → (s.spinner.finished || (missed s.watch || is_left s.stage)) ≡ true
  unmissed : missed s.watch ≡ false → calm s.screen ≡ true
  last : s.over ≡ true → s.said ≡ true

begin-finished : (on : Bool) (s : Spinner) → (begin on s).finished ≡ s.finished
unfolding begin
begin-finished on s = ground arith

done-finished : (on : Bool) (s : Spinner) → (done on s).finished ≡ true
unfolding done
done-finished on s = ground arith

stop-finished : (s : Spinner) → (stop s).finished ≡ true
unfolding stop
stop-finished s = ground arith

new_session-IsOrderly : (text : Str) → IsOrderly (new_session text)
unfolding downs calm missed has_announced
new_session-IsOrderly text = record {
  once = refl;
  said = λ h. absurd cc;
  stopped_first = λ h. absurd cc;
  quiet = λ h. absurd cc;
  unmissed = λ h. refl;
  last = λ h. absurd cc;
}

module _ {on : Bool} where
  Step-IsOrderly : {s t : Session} → Step on s t → IsOrderly s → IsOrderly t
  unfolding say_down begin_step finish_step stop_step downs calm missed has_announced
  Step-IsOrderly (signal s o n) h = ground arith
  Step-IsOrderly (give_up s o g t) h = ground arith
  Step-IsOrderly (refuse_early s o g) h = ground arith
  Step-IsOrderly (start_spinner s o g) h = ground (arith, begin-finished on s.spinner)
  Step-IsOrderly (register s o g) h = ground arith
  Step-IsOrderly (warm_up_fails s o g) h = ground arith
  Step-IsOrderly (warm_up_succeeds s o g) h = ground arith
  Step-IsOrderly (stop_spinner s o g) h = ground (arith, stop-finished s.spinner)
  Step-IsOrderly (say_failed s o g t) h = ground arith
  Step-IsOrderly (refuse s o g t) h = ground arith
  Step-IsOrderly (finish_spinner s o g) h = ground (arith, done-finished on s.spinner)
  Step-IsOrderly (leave s o g) h = ground arith
  Step-IsOrderly (catch s n o g k) h = ground arith
  Step-IsOrderly (take_spinner s o g) h = ground arith
  Step-IsOrderly (halt s o g) h = ground (arith, stop-finished s.spinner)
  Step-IsOrderly (announce s o g) h = ground arith
  Step-IsOrderly (announce_bare s o g) h = ground arith
  Step-IsOrderly (cancel s b o g) h = ground arith
  Step-IsOrderly (force s n b o g k) h = ground arith

  Reach-IsOrderly : {s t : Session} → IsOrderly s → Reach on s t → IsOrderly t
  Reach-IsOrderly h here = h
  Reach-IsOrderly h (next r step) = Step-IsOrderly step (Reach-IsOrderly h r)

  -- In whatever order a foreground that warms the distro up, the goroutine that watches for Ctrl+C and
  -- the user's signals take their steps: the shutdown is announced once at most, and once before a
  -- second signal forces the exit; and unless the goroutine has looked for the spinner before there
  -- was one, no completion line is ever shown below the announcement.
  pub Reach-announced :
      {s : Session} (text : Str)
      → Reach on (new_session text) s
      → (downs s.screen ≤ 1)
        × (s.over ≡ true → downs s.screen ≡ 1)
        × (missed s.watch ≡ false → calm s.screen ≡ true)
  Reach-announced {s} text r =
      let h = Reach-IsOrderly (new_session-IsOrderly text) r in
      (ground (arith, h.once), λ o. ground (arith, h.once, h.last o), h.unmissed)
