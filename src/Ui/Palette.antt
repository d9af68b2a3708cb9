-- ===== src/Ui/Palette.antt =====
-- When internal/ui/ui.go styles its output, and `Header`. `on` is its variable `enabled`; what it paints
-- is in Pstable/Ansi.
use dockup.Base.{Bool, false, not, ◌||◌, [], ◌++◌, Str, codes, str_eq, equal_fold, if◌then◌else◌}
use dockup.Env.{Env}
use dockup.Pstable.Ansi.{bold, light_blue, style_code, reset}

-- `autoEnabled`
unfoldable pub auto_enabled : Env → Bool
auto_enabled e =
    if not (str_eq (e.getenv (codes "NO_COLOR")) [])
    then false
    else if equal_fold (e.getenv (codes "TERM")) (codes "dumb")
    then false
    else not (
        not (str_eq (e.getenv (codes "CI")) [])
        || not (str_eq (e.getenv (codes "GITHUB_ACTIONS")) []))

-- `Header`
unfoldable pub header : Bool → Str → Str
header on s = if on then style_code bold ++ (style_code light_blue ++ (s ++ reset)) else s
