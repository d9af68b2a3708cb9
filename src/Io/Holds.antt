-- ===== src/Io/Holds.antt =====
-- One file keeps its content.
use dockup.Base.{◌≡◌, refl, ap, ◌∙◌, false, Option, Str, arith, str_eq}
use dockup.Env.{Call, Env}
use dockup.Io.{
  World, M, ask, run, succeeds, attempt, write_path, remove_path, rename_path, remove_tree, under,
}
use dockup.Io.Keeps.{Keeps, Keeps-pure, Keeps-bind, Keeps-then, Keeps-if, SameFiles}

abbrev pub Holds : Str → Option Str → World → Type 0
Holds x v w = w.files x ≡ v

module _ (x : Str) (v : Option Str) where
  pub SameFiles-Holds :
      {A : Type 0} (m : M A)
      → ((fs : Str → Option Str) → Keeps (SameFiles fs) m)
      → Keeps (Holds x v) m
  SameFiles-Holds m same = record {
    at = λ w h. ap (λ (fs : Str → Option Str). fs x) ((same w.files).at w refl) ∙ h;
  }

  pub ask-Holds : (e : Env) (c : Call) → Keeps (Holds x v) (ask e c)
  unfolding ask
  ask-Holds e c = record { at = λ w h. h }

  pub run-Holds : (e : Env) (c : Call) → Keeps (Holds x v) (run e c)
  unfolding run
  run-Holds e c = record { at = λ w h. h }

  pub succeeds-Holds : (e : Env) (c : Call) → Keeps (Holds x v) (succeeds e c)
  unfolding succeeds
  succeeds-Holds e c = record { at = λ w h. h }

  pub attempt-Holds : (e : Env) (c : Call) (message : Str) → Keeps (Holds x v) (attempt e c message)
  unfolding attempt
  attempt-Holds e c message = record { at = λ w h. h }

  pub write_path-Holds :
      (e : Env) (p s : Str) → str_eq x p ≡ false → Keeps (Holds x v) (write_path e p s)
  unfolding write_path ask
  write_path-Holds e p s ne = record { at = λ w h. ground (arith, ne, h) }

  pub remove_path-Holds :
      (e : Env) (p : Str) → str_eq x p ≡ false → Keeps (Holds x v) (remove_path e p)
  unfolding remove_path ask
  remove_path-Holds e p ne = record { at = λ w h. ground (arith, ne, h) }

  pub rename_path-Holds :
      (e : Env) (p q : Str)
      → str_eq x p ≡ false
      → str_eq x q ≡ false
      → Keeps (Holds x v) (rename_path e p q)
  unfolding rename_path ask
  rename_path-Holds e p q ne ne' = record { at = λ w h. ground (arith, ne, ne', h) }

  pub remove_tree-Holds :
      (e : Env) (dir : Str) → under dir x ≡ false → Keeps (Holds x v) (remove_tree e dir)
  unfolding remove_tree ask
  remove_tree-Holds e dir out = record { at = λ w h. rw out h }

pub ruleset holds_rules = (
  Keeps-pure, Keeps-bind, Keeps-then, Keeps-if, ask-Holds, run-Holds, succeeds-Holds, attempt-Holds,
  write_path-Holds, remove_path-Holds, rename_path-Holds, remove_tree-Holds,
)
