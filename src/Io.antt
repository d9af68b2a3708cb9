-- ===== src/Io.antt =====
-- Programs over the machine: a function of the world, which is the calls made so far, latest first,
-- and the files.
pub mod Keeps
pub mod Holds
pub mod Past
use dockup.Base.{
  ℕ, Bool, true, false, Option, none, some, List, [], ◌∷◌, Str, codes, str_eq, not, ◌&&◌,
  has_prefix, ◌++◌, ◌||◌, if◌then◌else◌,
}
use dockup.Env.{Call, Reply, Env, read_file, write_file, remove, rename, stat, append_file}

pub record World : Type 0 where
  pub trace : List Call
  pub files : Str → Option Str

abbrev pub M : Type 0 → Type 0
M A = World → A × World

unfoldable pub pure : {A : Type 0} → A → M A
pure a w = (a, w)

infixl 5 ◌>>=◌ ◌>>◌
unfoldable pub ◌>>=◌ : {A B : Type 0} → M A → (A → M B) → M B
unfolding pure
◌>>=◌ m f w = let (a, w') = m w in f a w'

abbrev pub ◌>>◌ : {A B : Type 0} → M A → M B → M B
m >> k = m >>= λ _. k

-- A value and an error, as Go returns them; the error is its message, without what `%v` adds.
pub data Result (A : Type 0) : Type 0 where
  ok : A → Result A
  err : Str → Result A

unfoldable pub next_of : {A B : Type 0} → (A → M (Result B)) → Result A → M (Result B)
next_of f (ok a) = f a
next_of f (err message) = pure (err message)

-- One step after another, as long as there is no error.
infixl 5 ◌>>?◌
unfoldable pub ◌>>?◌ : {A B : Type 0} → M (Result A) → (A → M (Result B)) → M (Result B)
unfolding next_of
m >>? f = m >>= next_of f

abbrev pub is_ok : {A : Type 0} → Result A → Bool
is_ok (ok a) = true
is_ok (err e) = false

abbrev pub Done : Type 0
Done = Result (Unit {0})

abbrev pub put_file : Str → Option Str → World → World
put_file p c w = record w { files = λ q. if str_eq q p then c else w.files q }

-- `os.ReadFile`, whose error tells a missing file apart.
pub data Read : Type 0 where
  content : Str → Read
  not_exist : Read
  read_error : Read

-- `os.Remove`, likewise.
pub data Removed : Type 0 where
  removed was_missing remove_error : Removed

abbrev pub read_of : Option Str → Read
read_of none = not_exist
read_of (some s) = content s

abbrev pub is_some : Option Str → Bool
is_some none = false
is_some (some s) = true

abbrev pub left_behind : Reply → Str → World → World
left_behind r p w = if r.flag then put_file p (some r.out) w else w

abbrev pub under : Str → Str → Bool
under dir q = str_eq q dir || has_prefix q (dir ++ codes "\\")

abbrev pub text_or_empty : Option Str → Str
text_or_empty none = []
text_or_empty (some text) = text

module _ (e : Env) where
  unfoldable pub ask : Call → M Reply
  ask c w = (e.reply w.trace c, record w { trace = c ∷ w.trace })

  -- A call whose outcome is not looked at.
  unfoldable pub run : Call → M Unit
  unfolding ask
  run c w = (tt, (ask c w).1)

  unfoldable pub succeeds : Call → M Bool
  unfolding ask
  succeeds c w = let (r, w') = ask c w in (r.ok, w')

  unfoldable pub attempt : Call → Str → M Done
  unfolding ask
  attempt c message w = let (r, w') = ask c w in (if r.ok then ok tt else err message, w')

  unfoldable pub read_path : Str → M Read
  unfolding ask
  read_path p w =
      let (r, w') = ask (read_file p) w in (if r.ok then read_of (w'.files p) else read_error, w')

  unfoldable pub write_path : Str → Str → M Done
  unfolding ask
  write_path p s w =
      let (r, w') = ask (write_file p) w in
      if r.ok then (ok tt, put_file p (some s) w') else (err (codes "write"), left_behind r p w')

  unfoldable pub remove_path : Str → M Removed
  unfolding ask
  remove_path p w =
      let (r, w') = ask (remove p) w in
      if not (is_some (w'.files p))
      then (was_missing, w')
      else if r.ok
      then (removed, put_file p none w')
      else (remove_error, w')

  unfoldable pub rename_path : Str → Str → M Done
  unfolding ask
  rename_path p q w =
      let (r, w') = ask (rename p q) w in
      if r.ok && is_some (w'.files p)
      then (ok tt, put_file p none (put_file q (w'.files p) w'))
      else (err (codes "rename"), w')

  -- `os.Stat` finds a regular file.
  unfoldable pub is_file : Str → M Bool
  unfolding ask
  is_file p w = let (r, w') = ask (stat p) w in (r.ok && is_some (w'.files p), w')

  -- `os.RemoveAll`. A removal that fails keeps one file, which the answer names.
  unfoldable pub remove_tree : Str → M Bool
  unfolding ask
  remove_tree dir w =
      let (r, w') = ask (remove dir) w in
      (
        r.ok,
        record w' {
          files = λ q. if under dir q && (r.ok || not (str_eq q r.out)) then none else w'.files q;
        },
      )

  -- `os.OpenFile` to append and one `WriteString`, which creates the file where it is missing.
  unfoldable pub append_path : Str → Str → M Unit
  unfolding ask
  append_path p s w =
      let (r, w') = ask (append_file p) w in
      (tt, if r.ok then put_file p (some (text_or_empty (w'.files p) ++ s)) w' else w')
