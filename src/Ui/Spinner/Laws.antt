-- ===== src/Ui/Spinner/Laws.antt =====
-- What a spinner shows in any run of it.
use dockup.Base.{
  ◌≡◌, refl, Bool, true, false, Option, none, some, List, [], ◌∷◌, ◌++◌, Str, codes, arith,
}
use dockup.Pstable.Ansi.{white, paint}
use dockup.Ui.Spinner.{
  Event, line, animate, settle, Spinner, new_spinner, done_line, begin, done, stop, Op, starts,
  dones, stops, apply, run_ops,
}

-- The first call that ends the step.
unfoldable pub first_end : List Op → Option Op
first_end [] = none
first_end (starts on ∷ ops) = first_end ops
first_end (dones on ∷ ops) = some (dones on)
first_end (stops ∷ ops) = some stops

-- What the start of a step shows, and what its end does where it was animated or not.
unfoldable pub start_shown : Bool → Str → List Event
start_shown true text = animate (codes " " ++ text) ∷ []
start_shown false text = line (paint false white text) ∷ []

unfoldable pub end_shown : Bool → Str → Option Op → List Event
end_shown animated text none = []
end_shown true text (some (dones on)) = settle (done_line on text ++ codes "\n") ∷ []
end_shown false text (some (dones on)) = line (done_line on text) ∷ []
end_shown true text (some stops) = settle [] ∷ []
end_shown false text (some stops) = []
end_shown animated text (some (starts on)) = []

over-out :
    (ops : List Op) (s : Spinner) → s.once ≡ true → s.finished ≡ true → (run_ops ops s).out ≡ s.out
unfolding run_ops apply begin done stop
over-out [] s o f = refl
over-out (starts on ∷ ops) s o f = ground (arith, over-out ops s o f)
over-out (dones on ∷ ops) s o f = ground (arith, over-out ops s o f)
over-out (stops ∷ ops) s o f = ground (arith, over-out ops s o f)

-- A spinner that has begun, and has not been ended.
record Running (animated : Bool) (s : Spinner) : Type 0 where
  once : s.once ≡ true
  started : s.started ≡ true
  open_yet : s.finished ≡ false
  lib : s.has_lib ≡ animated

done-out :
    (ops : List Op) (on animated : Bool) (s : Spinner)
    → Running animated s
    → (run_ops ops (done on s)).out ≡ end_shown animated s.text (some (dones on)) ++ s.out
unfolding done end_shown
done-out ops on true s h = rw (h.open_yet, h.lib) (over-out ops _ h.once refl)
done-out ops on false s h = rw (h.open_yet, h.lib, h.started) (over-out ops _ h.once refl)

stop-out :
    (ops : List Op) (animated : Bool) (s : Spinner)
    → Running animated s
    → (run_ops ops (stop s)).out ≡ end_shown animated s.text (some stops) ++ s.out
unfolding stop end_shown
stop-out ops true s h = rw (h.open_yet, h.lib) (over-out ops _ h.once refl)
stop-out ops false s h = rw (h.open_yet, h.lib) (over-out ops _ h.once refl)

live-out :
    (ops : List Op) (animated : Bool) (s : Spinner)
    → Running animated s
    → (run_ops ops s).out ≡ end_shown animated s.text (first_end ops) ++ s.out
unfolding run_ops apply begin first_end end_shown
live-out [] animated s h = refl
live-out (starts on ∷ ops) animated s h = ground (arith, live-out ops animated s h)
live-out (dones on ∷ ops) animated s h = done-out ops on animated s h
live-out (stops ∷ ops) animated s h = stop-out ops animated s h

-- In every run that starts with `Start`, whichever goroutines call which methods after it and in
-- whatever order, the step is shown once, and its first end decides what is shown below it: the
-- completion line if that is `Done`, and no such line if it is `Stop`; nothing is shown after it.
pub run_ops-first_end :
    (on : Bool) (text : Str) (ops : List Op)
    → (run_ops (starts on ∷ ops) (new_spinner text)).out
      ≡ end_shown on text (first_end ops) ++ start_shown on text
unfolding run_ops apply begin start_shown
run_ops-first_end true text ops =
    live-out ops true _ (record { once = refl; started = refl; open_yet = refl; lib = refl })
run_ops-first_end false text ops =
    live-out ops false _ (record { once = refl; started = refl; open_yet = refl; lib = refl })
