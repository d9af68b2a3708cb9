-- ===== src/Cli/Flags.antt =====
-- `hasHelpFlag` and `parseInstallFlags` of cmd/dockup/main.go.
use dockup.Base.{
  ◌≡◌, ◌∙◌, refl, ap, Bool, true, false, ◌||◌, Option, none, some, List, [], ◌∷◌, ◌++◌, Str, codes,
  All, arith, str_eq, has_prefix, trim_prefix, if◌then◌else◌,
}

unfoldable pub has_help_flag : List Str → Bool
has_help_flag [] = false
has_help_flag (a ∷ more) =
    (str_eq a (codes "-h") || str_eq a (codes "--help")) || has_help_flag more

pub record InstallFlags : Type 0 where
  pub amd : Bool
  pub arm : Bool
  pub path : Str

abbrev pub no_flags : InstallFlags
no_flags = record { amd = false; arm = false; path = [] }

-- What one argument does: the flags change, the next argument is awaited as the path, the argument
-- is left for the command, or it is an error.
pub data FlagStep : Type 0 where
  taken : InstallFlags → FlagStep
  awaits : FlagStep
  left_over : FlagStep
  refused : FlagStep

path_flag : InstallFlags → Str → FlagStep
path_flag f [] = refused
path_flag f (c ∷ s) = taken (record f { path = c ∷ s })

unfoldable pub flag_step : InstallFlags → Str → FlagStep
unfolding path_flag
flag_step f a =
    if str_eq a (codes "--amd")
    then taken (record f { amd = true })
    else if str_eq a (codes "--arm")
    then taken (record f { arm = true })
    else if str_eq a (codes "--path")
    then awaits
    else if has_prefix a (codes "--path=")
    then path_flag f (trim_prefix a (codes "--path="))
    else left_over

and_kept : Str → Option (InstallFlags × List Str) → Option (InstallFlags × List Str)
and_kept a none = none
and_kept a (some (f, rest)) = some (f, a ∷ rest)

-- The loop; `waiting` after a `--path`.
unfoldable pub flags_from : Bool → InstallFlags → List Str → Option (InstallFlags × List Str)
unfolding and_kept
flags_from true f [] = none
flags_from false f [] = some (f, [])
flags_from true f (a ∷ more) = flags_from false (record f { path = a }) more
flags_from false f (a ∷ more) = elim (flag_step f a) [
  | taken g ↦ flags_from false g more
  | awaits ↦ flags_from true f more
  | left_over ↦ and_kept a (flags_from false f more)
  | refused ↦ none
]

-- `parseInstallFlags`: `none` is its error.
unfoldable pub parse_install_flags : List Str → Option (InstallFlags × List Str)
parse_install_flags args = flags_from false no_flags args

-- The arguments that set the flags.
unfoldable pub shown_path : Str → List Str
shown_path [] = []
shown_path (c ∷ s) = (codes "--path=" ++ (c ∷ s)) ∷ []

unfoldable pub shown : InstallFlags → List Str
shown f =
    (if f.amd then codes "--amd" ∷ [] else [])
    ++ ((if f.arm then codes "--arm" ∷ [] else []) ++ shown_path f.path)

-- No argument of the install flags.
unfoldable pub IsOther : Str → Type 0
IsOther a =
    (str_eq a (codes "--amd") ≡ false)
    × (str_eq a (codes "--arm") ≡ false)
    × (str_eq a (codes "--path") ≡ false)
    × (has_prefix a (codes "--path=") ≡ false)

flags_from-others :
    (f : InstallFlags) (rest : List Str)
    → All IsOther rest
    → flags_from false f rest ≡ some (f, rest)
unfolding flags_from flag_step and_kept IsOther
flags_from-others f [] h = refl
flags_from-others f (a ∷ more) (ha, hs) = ground (arith, flags_from-others f more hs)

flags_from-path :
    (f : InstallFlags) (p : Str) (rest : List Str)
    → All IsOther rest
    → f.path ≡ []
    → flags_from false f (shown_path p ++ rest) ≡ some (record f { path = p }, rest)
unfolding shown_path
flags_from-path f [] rest h unset =
    flags_from-others f rest h ∙ ap (λ p. some (record f { path = p }, rest)) unset
flags_from-path f (c ∷ s) rest h unset =
    unfold flags_from flag_step path_flag str_eq has_prefix trim_prefix in
    flags_from-others (record f { path = c ∷ s }) rest h

shown_case :
    (amd arm : Bool) (p : Str) (rest : List Str)
    → All IsOther rest
    → flags_from false no_flags (shown (record { amd = amd; arm = arm; path = p }) ++ rest)
      ≡ some (record { amd = amd; arm = arm; path = p }, rest)
unfolding shown flags_from flag_step str_eq
shown_case true true p rest h =
    flags_from-path (record { amd = true; arm = true; path = [] }) p rest h refl
shown_case true false p rest h =
    flags_from-path (record { amd = true; arm = false; path = [] }) p rest h refl
shown_case false true p rest h =
    flags_from-path (record { amd = false; arm = true; path = [] }) p rest h refl
shown_case false false p rest h = flags_from-path no_flags p rest h refl

-- The arguments that show the flags are read back as them, and the arguments after them that are no
-- install flags are left for the command in their order.
pub parse_install_flags-shown :
    (f : InstallFlags) (rest : List Str)
    → All IsOther rest
    → parse_install_flags (shown f ++ rest) ≡ some (f, rest)
unfolding parse_install_flags
parse_install_flags-shown f rest h = shown_case f.amd f.arm f.path rest h
