-- ===== src/Io/Past.antt =====
-- Programs only add to the trace: what was past stays past.
use dockup.Base.{ℕ, ◌≤◌, Str, arith, length}
use dockup.Env.{Call, Env}
use dockup.Io.{
  World, ask, run, succeeds, attempt, read_path, write_path, remove_path, rename_path, is_file,
}
use dockup.Io.Keeps.{Keeps, Keeps-pure, Keeps-bind, Keeps-then, Keeps-if}

-- At least `n` calls have been made.
abbrev pub Past : ℕ → World → Type 0
Past n w = n ≤ length w.trace

module _ (n : ℕ) where
  pub ask-Past : (e : Env) (c : Call) → Keeps (Past n) (ask e c)
  unfolding ask
  ask-Past e c = record { at = λ w h. ground (arith, h) }

  pub run-Past : (e : Env) (c : Call) → Keeps (Past n) (run e c)
  unfolding run ask
  run-Past e c = record { at = λ w h. ground (arith, h) }

  pub succeeds-Past : (e : Env) (c : Call) → Keeps (Past n) (succeeds e c)
  unfolding succeeds ask
  succeeds-Past e c = record { at = λ w h. ground (arith, h) }

  pub attempt-Past : (e : Env) (c : Call) (message : Str) → Keeps (Past n) (attempt e c message)
  unfolding attempt ask
  attempt-Past e c message = record { at = λ w h. ground (arith, h) }

  pub read_path-Past : (e : Env) (p : Str) → Keeps (Past n) (read_path e p)
  unfolding read_path ask
  read_path-Past e p = record { at = λ w h. ground (arith, h) }

  pub write_path-Past : (e : Env) (p s : Str) → Keeps (Past n) (write_path e p s)
  unfolding write_path ask
  write_path-Past e p s = record { at = λ w h. ground (arith, h) }

  pub remove_path-Past : (e : Env) (p : Str) → Keeps (Past n) (remove_path e p)
  unfolding remove_path ask
  remove_path-Past e p = record { at = λ w h. ground (arith, h) }

  pub rename_path-Past : (e : Env) (p q : Str) → Keeps (Past n) (rename_path e p q)
  unfolding rename_path ask
  rename_path-Past e p q = record { at = λ w h. ground (arith, h) }

  pub is_file-Past : (e : Env) (p : Str) → Keeps (Past n) (is_file e p)
  unfolding is_file ask
  is_file-Past e p = record { at = λ w h. ground (arith, h) }

pub ruleset past_rules = (
  Keeps-pure, Keeps-bind, Keeps-then, Keeps-if, ask-Past, run-Past, succeeds-Past, attempt-Past,
  read_path-Past, write_path-Past, remove_path-Past, rename_path-Past, is_file-Past,
)
