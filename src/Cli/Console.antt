-- ===== src/Cli/Console.antt =====
-- cmd/dockup/console_windows.go. The calls of Windows are the parameter `ConsoleApi`; a console mode is
-- a number, whose lowest three bits are ENABLE_PROCESSED_INPUT, ENABLE_LINE_INPUT and
-- ENABLE_ECHO_INPUT.
use dockup.Base.{
  ℕ, ◌+◌, ◌*◌, ◌/◌, ◌%◌, ◌≡◌, Bool, true, false, ◌||◌, Option, none, some, arith, ◌==◌,
  if◌then◌else◌,
}

-- GetStdHandle, GetConsoleMode and SetConsoleMode; `none` and `false` are errors.
pub record ConsoleApi : Type 0 where
  pub input_handle : Option ℕ
  pub mode_of : ℕ → Option ℕ
  pub can_set : ℕ → ℕ → Bool

abbrev pub is_processed : ℕ → Bool
is_processed mode = mode % 2 == 1

-- `mode | want`
abbrev pub with_want : ℕ → ℕ
with_want mode = mode / 8 * 8 + 7

-- The mode that the console is left in, where it is known, and the report.
unfoldable pub set_mode : ConsoleApi → ℕ → Option ℕ → Option ℕ × Bool
set_mode api h none = (none, false)
set_mode api h (some mode) =
    if is_processed mode
    then (some mode, true)
    else if api.can_set h (with_want mode)
    then (some (with_want mode), true)
    else (some mode, false)

unfoldable pub on_handle : ConsoleApi → Option ℕ → Option ℕ × Bool
on_handle api none = (none, false)
on_handle api (some h) = set_mode api h (api.mode_of h)

-- `ensureProcessedInput`
unfoldable pub ensure_processed_input : ConsoleApi → Option ℕ × Bool
ensure_processed_input api = on_handle api api.input_handle

abbrev ctrl_close : ℕ
ctrl_close = 2

abbrev ctrl_logoff : ℕ
ctrl_logoff = 5

abbrev ctrl_shutdown : ℕ
ctrl_shutdown = 6

-- The handler of `watchConsoleExit`: whether it cancels, and what it returns.
unfoldable pub on_control : ℕ → Bool × ℕ
on_control ctrl =
    if ctrl == ctrl_close || (ctrl == ctrl_logoff || ctrl == ctrl_shutdown)
    then (true, 1)
    else (false, 0)

set_mode-processed :
    (api : ConsoleApi) (h : ℕ) (mode : Option ℕ) (before after : ℕ)
    → mode ≡ some before
    → set_mode api h mode ≡ (some after, true)
    → (is_processed after ≡ true) × (after / 8 ≡ before / 8)
unfolding set_mode
set_mode-processed api h none before after m r = absurd cc
set_mode-processed api h (some mode) before after m r = ground arith

-- Where processed input is reported on, the console's mode has its bit, and of the bits above the
-- three that are set none has changed.
pub ensure_processed_input-processed :
    (api : ConsoleApi) (h before after : ℕ)
    → api.input_handle ≡ some h
    → api.mode_of h ≡ some before
    → ensure_processed_input api ≡ (some after, true)
    → (is_processed after ≡ true) × (after / 8 ≡ before / 8)
unfolding ensure_processed_input on_handle
ensure_processed_input-processed api h before after i m r =
    set_mode-processed api h (api.mode_of h) before after m (ground (arith, i, r))
