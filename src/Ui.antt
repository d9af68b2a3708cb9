-- ===== src/Ui.antt =====
-- `Confirm` of internal/ui/ui.go. A read error gives the bytes that were read before it. Its children
-- are about the palette, the spinner and the progress bar.
pub mod Palette
pub mod Spinner
pub mod Progress
use dockup.Base.{Bool, ◌||◌, Str, codes, str_eq, to_lower, trim_space}
use dockup.Env.{Env, read_line}
use dockup.Io.{M, pure, ◌>>=◌, ask}

abbrev pub answer_of : Str → Str
answer_of line = to_lower (trim_space line)

unfoldable pub is_yes : Str → Bool
is_yes line =
    let answer = answer_of line in str_eq answer (codes "y") || str_eq answer (codes "yes")

unfoldable pub confirm : Env → M Bool
confirm e = do r ← ask e read_line; pure (is_yes r.out)
