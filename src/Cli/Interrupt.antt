-- ===== src/Cli/Interrupt.antt =====
-- `interrupter` of cmd/dockup/main.go with the goroutine that `arm` starts, beside a `foreground` that
-- warms the distro up: the steps that the two take, in any order between one another, and what they
-- show on the terminal, latest first.
pub mod Laws
use dockup.Base.{ℕ, ◌+◌, ◌<◌, ◌≡◌, Bool, true, false, List, [], ◌∷◌, Str, if◌then◌else◌}
use dockup.Ui.Spinner.{Spinner, new_spinner, begin, done, stop}

-- What the two print besides the spinner: the announcement of `sayDown`, and the error of a second
-- signal before `os.Exit(130)`. The spinner's lines are told apart by the call that shows them.
pub data Line : Type 0 where
  step_shown done_shown down_shown forced_shown : Line

-- Where `foreground` stands: before the spinner's start, started, registered, the warm-up has failed
-- or succeeded, the spinner has been stopped after a failure, it waits for the relay, it has returned.
pub data Stage : Type 0 where
  checking started registered failed warm stopped serving left : Stage

-- Where the goroutine stands: before the first signal, the signal noted, the spinner's pointer read
-- (`true` where it was not nil), the spinner stopped, the shutdown announced, the context cancelled.
pub data Watch : Type 0 where
  armed tripped_now halted : Watch
  holding announced cancelled : Bool → Watch

-- `pointer` is that `interrupter.spinner` is not nil; `signals` are those in the channel, of which it keeps two; `said` is the `sync.Once` of `sayDown`;
-- `over` that the process has exited with 130.
pub record Session : Type 0 where
  pub stage : Stage
  pub watch : Watch
  pub spinner : Spinner
  pub pointer : Bool
  pub signals : ℕ
  pub tripped : Bool
  pub said : Bool
  pub over : Bool
  pub screen : List Line

abbrev pub new_session : Str → Session
new_session text = record {
  stage = checking;
  watch = armed;
  spinner = new_spinner text;
  pointer = false;
  signals = 0;
  tripped = false;
  said = false;
  over = false;
  screen = [];
}

-- `sayDown`
unfoldable pub say_down : Session → Session
say_down s = if s.said then s else record s { said = true; screen = down_shown ∷ s.screen }

-- `Start`, `Done` and `Stop` of the spinner
unfoldable pub begin_step : Bool → Session → Session
begin_step on s = record s { spinner = begin on s.spinner; screen = step_shown ∷ s.screen }

unfoldable pub finish_step : Bool → Session → Session
finish_step on s = record s {
  spinner = done on s.spinner;
  screen = if s.spinner.finished then s.screen else done_shown ∷ s.screen;
}

unfoldable pub stop_step : Session → Session
stop_step s = record s { spinner = stop s.spinner }

-- One step of a process that has not exited; `on` is whether output is styled.
pub data Step (on : Bool) : Session → Session → Type 0 where
  -- the user
  signal :
      (s : Session)
      → s.over ≡ false
      → s.signals < 2
      → Step on s (record s { signals = s.signals + 1 })
  -- `foreground`
  give_up :
      (s : Session)
      → s.over ≡ false
      → s.stage ≡ checking
      → s.tripped ≡ true
      → Step on s (record (say_down s) { stage = left })
  refuse_early :
      (s : Session) → s.over ≡ false → s.stage ≡ checking → Step on s (record s { stage = left })
  start_spinner :
      (s : Session)
      → s.over ≡ false
      → s.stage ≡ checking
      → Step on s (record (begin_step on s) { stage = started })
  register :
      (s : Session)
      → s.over ≡ false
      → s.stage ≡ started
      → Step on s (record s { stage = registered; pointer = true })
  warm_up_fails :
      (s : Session)
      → s.over ≡ false
      → s.stage ≡ registered
      → Step on s (record s { stage = failed })
  warm_up_succeeds :
      (s : Session) → s.over ≡ false → s.stage ≡ registered → Step on s (record s { stage = warm })
  stop_spinner :
      (s : Session)
      → s.over ≡ false
      → s.stage ≡ failed
      → Step on s (record (stop_step s) { stage = stopped })
  say_failed :
      (s : Session)
      → s.over ≡ false
      → s.stage ≡ stopped
      → s.tripped ≡ true
      → Step on s (record (say_down s) { stage = left })
  refuse :
      (s : Session)
      → s.over ≡ false
      → s.stage ≡ stopped
      → s.tripped ≡ false
      → Step on s (record s { stage = left })
  finish_spinner :
      (s : Session)
      → s.over ≡ false
      → s.stage ≡ warm
      → Step on s (record (finish_step on s) { stage = serving })
  leave : (s : Session) → s.over ≡ false → s.stage ≡ serving → Step on s (record s { stage = left })
  -- the goroutine
  catch :
      (s : Session) (n : ℕ)
      → s.over ≡ false
      → s.watch ≡ armed
      → s.signals ≡ n + 1
      → Step on s (record s { signals = n; tripped = true; watch = tripped_now })
  take_spinner :
      (s : Session)
      → s.over ≡ false
      → s.watch ≡ tripped_now
      → Step on s (record s { watch = holding s.pointer })
  halt :
      (s : Session)
      → s.over ≡ false
      → s.watch ≡ holding true
      → Step on s (record (stop_step s) { watch = halted })
  announce :
      (s : Session)
      → s.over ≡ false
      → s.watch ≡ halted
      → Step on s (record (say_down s) { watch = announced true })
  announce_bare :
      (s : Session)
      → s.over ≡ false
      → s.watch ≡ holding false
      → Step on s (record (say_down s) { watch = announced false })
  cancel :
      (s : Session) (held : Bool)
      → s.over ≡ false
      → s.watch ≡ announced held
      → Step on s (record s { watch = cancelled held })
  force :
      (s : Session) (n : ℕ) (held : Bool)
      → s.over ≡ false
      → s.watch ≡ cancelled held
      → s.signals ≡ n + 1
      → Step on s (record s { signals = n; over = true; screen = forced_shown ∷ s.screen })

pub data Reach (on : Bool) (s : Session) : Session → Type 0 where
  here : Reach on s s
  next : {t u : Session} → Reach on s t → Step on t u → Reach on s u
