-- ===== src/Io/Keeps.antt =====
-- What programs preserve: rules to go through a program piece by piece, for `search`.
use dockup.Base.{◌≡◌, Bool, true, false, Option, Str, All, if◌then◌else◌, arith}
use dockup.Env.{Call, Env, read_file, write_file, remove, rename, stat}
use dockup.Io.{
  World, M, pure, ◌>>=◌, ask, run, succeeds, attempt, read_path, write_path, remove_path,
  rename_path, is_file, Result, ok, err, ◌>>?◌, next_of,
}

pub record Keeps {A : Type 0} (P : World → Type 0) (m : M A) : Type 0 where
  pub at : (w : World) → P w → P (m w).1

module _ {P : World → Type 0} where
  pub Keeps-pure : {A : Type 0} (a : A) → Keeps P (pure a)
  unfolding pure
  Keeps-pure a = record { at = λ w h. h }

  pub Keeps-bind :
      {A B : Type 0} (m : M A) (f : A → M B)
      → Keeps P m
      → ((a : A) → Keeps P (f a))
      → Keeps P (m >>= f)
  unfolding ◌>>=◌
  Keeps-bind m f km kf = record { at = λ w h. (kf (m w).0).at (m w).1 (km.at w h) }

  Keeps-next :
      {A B : Type 0} (f : A → M (Result B)) (r : Result A)
      → ((a : A) → Keeps P (f a))
      → Keeps P (next_of f r)
  unfolding next_of
  Keeps-next f (ok a) h = h a
  Keeps-next f (err m) h = Keeps-pure (err m)

  pub Keeps-then :
      {A B : Type 0} (m : M (Result A)) (f : A → M (Result B))
      → Keeps P m
      → ((a : A) → Keeps P (f a))
      → Keeps P (m >>? f)
  unfolding ◌>>?◌
  Keeps-then m f hm hf = Keeps-bind m (next_of f) hm (λ r. Keeps-next f r hf)

  pub Keeps-if :
      {A : Type 0} (b : Bool) (m k : M A) → Keeps P m → Keeps P k → Keeps P (if b then m else k)
  Keeps-if true m k km kk = km
  Keeps-if false m k km kk = kk

-- Every call so far passes the test.
abbrev pub Only : (Call → Bool) → World → Type 0
Only allowed w = All (λ c. allowed c ≡ true) w.trace

module _ (allowed : Call → Bool) where
  pub ask-Only : (e : Env) (c : Call) → allowed c ≡ true → Keeps (Only allowed) (ask e c)
  unfolding ask
  ask-Only e c a = record { at = λ w h. (a, h) }

  pub run-Only : (e : Env) (c : Call) → allowed c ≡ true → Keeps (Only allowed) (run e c)
  unfolding run
  run-Only e c a = record { at = λ w h. (a, h) }

  pub succeeds-Only : (e : Env) (c : Call) → allowed c ≡ true → Keeps (Only allowed) (succeeds e c)
  unfolding succeeds
  succeeds-Only e c a = record { at = λ w h. (a, h) }

  pub attempt-Only :
      (e : Env) (c : Call) (message : Str)
      → allowed c ≡ true
      → Keeps (Only allowed) (attempt e c message)
  unfolding attempt
  attempt-Only e c message a = record { at = λ w h. (a, h) }

  pub read_path-Only :
      (e : Env) (p : Str) → allowed (read_file p) ≡ true → Keeps (Only allowed) (read_path e p)
  unfolding read_path
  read_path-Only e p a = record { at = λ w h. (a, h) }

  pub write_path-Only :
      (e : Env) (p s : Str)
      → allowed (write_file p) ≡ true
      → Keeps (Only allowed) (write_path e p s)
  unfolding write_path
  write_path-Only e p s a = record { at = λ w h. ground (arith, a, h) }

  pub remove_path-Only :
      (e : Env) (p : Str) → allowed (remove p) ≡ true → Keeps (Only allowed) (remove_path e p)
  unfolding remove_path
  remove_path-Only e p a = record { at = λ w h. ground (arith, a, h) }

  pub rename_path-Only :
      (e : Env) (p q : Str) → allowed (rename p q) ≡ true → Keeps (Only allowed) (rename_path e p q)
  unfolding rename_path
  rename_path-Only e p q a = record { at = λ w h. ground (arith, a, h) }

  pub is_file-Only :
      (e : Env) (p : Str) → allowed (stat p) ≡ true → Keeps (Only allowed) (is_file e p)
  unfolding is_file
  is_file-Only e p a = record { at = λ w h. (a, h) }

-- The files are those of `fs`.
abbrev pub SameFiles : (Str → Option Str) → World → Type 0
SameFiles fs w = w.files ≡ fs

module _ (fs : Str → Option Str) where
  pub ask-SameFiles : (e : Env) (c : Call) → Keeps (SameFiles fs) (ask e c)
  unfolding ask
  ask-SameFiles e c = record { at = λ w h. h }

  pub run-SameFiles : (e : Env) (c : Call) → Keeps (SameFiles fs) (run e c)
  unfolding run
  run-SameFiles e c = record { at = λ w h. h }

  pub succeeds-SameFiles : (e : Env) (c : Call) → Keeps (SameFiles fs) (succeeds e c)
  unfolding succeeds
  succeeds-SameFiles e c = record { at = λ w h. h }

  pub attempt-SameFiles :
      (e : Env) (c : Call) (message : Str) → Keeps (SameFiles fs) (attempt e c message)
  unfolding attempt
  attempt-SameFiles e c message = record { at = λ w h. h }

  pub read_path-SameFiles : (e : Env) (p : Str) → Keeps (SameFiles fs) (read_path e p)
  unfolding read_path
  read_path-SameFiles e p = record { at = λ w h. h }

  pub is_file-SameFiles : (e : Env) (p : Str) → Keeps (SameFiles fs) (is_file e p)
  unfolding is_file
  is_file-SameFiles e p = record { at = λ w h. h }

pub ruleset keeps_rules = (Keeps-pure, Keeps-bind, Keeps-if)

pub ruleset only_rules = (
  keeps_rules, ask-Only, run-Only, succeeds-Only, attempt-Only, read_path-Only, write_path-Only,
  remove_path-Only, rename_path-Only, is_file-Only,
)

pub ruleset same_files_rules = (
  keeps_rules, ask-SameFiles, run-SameFiles, succeeds-SameFiles, attempt-SameFiles,
  read_path-SameFiles, is_file-SameFiles,
)
