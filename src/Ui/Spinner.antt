-- ===== src/Ui/Spinner.antt =====
-- internal/ui/spinner.go. A spinner's methods run under its mutex, so that a run of it, whichever
-- goroutines call it, is a sequence of whole calls. What a call does to the terminal is listed latest
-- first; `on` is `Enabled()` at the time of the call.
pub mod Laws
use dockup.Base.{Bool, true, false, List, [], ◌∷◌, ◌++◌, Str, codes, if◌then◌else◌}
use dockup.Pstable.Ansi.{white, green, gray, paint}

-- A line of text; the animation begins, with its suffix; it ends, with its `FinalMSG`.
pub data Event : Type 0 where
  line : Str → Event
  animate : Str → Event
  settle : Str → Event

-- `has_lib` is `lib != nil`, `once` that the function of `sync.Once` has run.
pub record Spinner : Type 0 where
  pub text : Str
  pub has_lib : Bool
  pub once : Bool
  pub started : Bool
  pub finished : Bool
  pub out : List Event

-- `NewSpinner`
abbrev pub new_spinner : Str → Spinner
new_spinner text = record {
  text = text;
  has_lib = false;
  once = false;
  started = false;
  finished = false;
  out = [];
}

-- "✓" in UTF-8
abbrev check_mark : Str
check_mark = 0xe2 ∷ 0x9c ∷ 0x93 ∷ []

unfoldable pub done_line : Bool → Str → Str
done_line on text =
    paint on green check_mark
    ++ (codes " " ++ (paint on white text ++ (codes " " ++ paint on gray (codes "done!"))))

-- `Start`
unfoldable pub begin : Bool → Spinner → Spinner
begin on s =
    if s.once
    then s
    else if on
    then record s {
      once = true;
      started = true;
      has_lib = true;
      out = animate (codes " " ++ s.text) ∷ s.out;
    }
    else record s { once = true; started = true; out = line (paint on white s.text) ∷ s.out }

-- `Done`
unfoldable pub done : Bool → Spinner → Spinner
done on s =
    if s.finished
    then s
    else if s.has_lib
    then record s { finished = true; out = settle (done_line on s.text ++ codes "\n") ∷ s.out }
    else if s.started
    then record s { finished = true; out = line (done_line on s.text) ∷ s.out }
    else record s { finished = true }

-- `Stop`
unfoldable pub stop : Spinner → Spinner
stop s =
    if s.finished
    then s
    else if s.has_lib
    then record s { finished = true; out = settle [] ∷ s.out }
    else record s { finished = true }

-- A call of one of the methods.
pub data Op : Type 0 where
  starts dones : Bool → Op
  stops : Op

unfoldable pub apply : Op → Spinner → Spinner
apply (starts on) s = begin on s
apply (dones on) s = done on s
apply stops s = stop s

-- The calls in their order.
unfoldable pub run_ops : List Op → Spinner → Spinner
run_ops [] s = s
run_ops (op ∷ ops) s = run_ops ops (apply op s)
