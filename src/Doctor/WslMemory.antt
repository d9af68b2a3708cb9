-- ===== src/Doctor/WslMemory.antt =====
-- `ParseWslMemory` of internal/doctor/doctor.go.
pub mod Exact
use dockup.Base.{
  ℕ, ◌*◌, ◌/◌, ◌%◌, ◌^◌, ◌-◌, ◌≤◌, ◌≡◌, sym, ◌⊎◌, inl, inr, refl, Bool-cases, subst, Bool, true,
  false, not, ◌&&◌, ◌||◌, Option, none, some, List, [], ◌∷◌, Str, codes, arith, All, split,
  trim_space, has_prefix, has_suffix, equal_fold, cut, is_digit, parse_uint, max_uint64, to_lower,
  str_eq, ltb, length, drop, take, if◌then◌else◌,
}

-- `strings.Index(line, "#")` and the text before it
unfoldable pub before_comment : Str → Str
before_comment line = elim (cut b'#' line) [ none ↦ line | some (head, rest) ↦ trim_space head ]

abbrev pub is_header : Str → Bool
is_header line = has_prefix line (codes "[") && has_suffix line (codes "]")

-- `line[1:len(line)-1]`
unfoldable pub inner : Str → Str
inner line = take (length line - 2) (drop 1 line)

pub digits_head : Str → Str
digits_head [] = []
digits_head (c ∷ s) = if is_digit c then c ∷ digits_head s else []

pub digits_tail : Str → Str
digits_tail [] = []
digits_tail (c ∷ s) = if is_digit c then digits_tail s else c ∷ s

-- The unit's factor as a power of two.
pub unit : Str → Option ℕ
unit u =
    if str_eq u (codes "tb") || str_eq u (codes "t")
    then some 40
    else if str_eq u (codes "gb") || str_eq u (codes "g")
    then some 30
    else if str_eq u (codes "mb") || str_eq u (codes "m")
    then some 20
    else if str_eq u (codes "kb") || str_eq u (codes "k")
    then some 10
    else none

-- `num * mult` in uint64, behind the overflow test: `none` is a `continue`.
pub scaled : ℕ → ℕ → Option ℕ
scaled num k = if ltb (max_uint64 / 2 ^ k) num then none else some (num * 2 ^ k % 2 ^ 64)

pub size_of : Option ℕ → Option ℕ → Option ℕ
size_of none k = none
size_of (some num) none = none
size_of (some num) (some k) = scaled num k

-- A value behind `memory=`; `parse_uint` fails on no digits, as the test `j == 0` does.
pub value_of : Str → Option ℕ
unfolding size_of scaled
value_of val =
    size_of (parse_uint (digits_head val)) (unit (to_lower (trim_space (digits_tail val))))

-- A line of the section [wsl2].
pub setting : Option (Str × Str) → Option ℕ
setting none = none
setting (some (key, val)) =
    if not (equal_fold (trim_space key) (codes "memory")) then none else value_of (trim_space val)

-- The first setting that is accepted ends the loop.
pub first_some : Option ℕ → Option ℕ → Option ℕ
first_some none rest = rest
first_some (some n) rest = some n

pub memory_loop : Bool → List Str → Option ℕ
memory_loop in_wsl2 [] = none
memory_loop in_wsl2 (raw ∷ lines) =
    let line = before_comment (trim_space raw) in
    let header = memory_loop (equal_fold (trim_space (inner line)) (codes "wsl2")) lines in
    let rest = memory_loop in_wsl2 lines in
    if is_header line
    then header
    else if not in_wsl2
    then rest
    else first_some (setting (cut b'=' line)) rest

unfoldable pub parse_wsl_memory : Str → Option ℕ
unfolding memory_loop first_some before_comment inner setting value_of unit digits_head digits_tail
parse_wsl_memory input = memory_loop false (split b'\n' input)

-- No line is the header of a section [wsl2], as the loop reads headers.
unfoldable pub NoWsl2 : List Str → Type 0
unfolding before_comment inner
NoWsl2 = All (λ raw.
    (is_header (before_comment (trim_space raw))
      && equal_fold (trim_space (inner (before_comment (trim_space raw)))) (codes "wsl2"))
    ≡ false)

outside_ignored : (lines : List Str) → NoWsl2 lines → memory_loop false lines ≡ none
unfolding memory_loop NoWsl2
outside_ignored [] h = refl
outside_ignored (raw ∷ lines) (h, hs) = ground (arith, outside_ignored lines hs)

-- A file with no [wsl2] header sets no limit, whatever its other sections say.
pub parse_wsl_memory-outside :
    (text : Str) → NoWsl2 (split b'\n' text) → parse_wsl_memory text ≡ none
unfolding parse_wsl_memory
parse_wsl_memory-outside text h = outside_ignored (split b'\n' text) h

limits :
    (parse_wsl_memory (codes "[wsl2]\n  memory = 1536MB  # builds\n") ≡ some (1536 * 2 ^ 20))
    × (parse_wsl_memory (codes "[experimental]\nmemory=2GB\n") ≡ none)
    × (parse_wsl_memory (codes "[wsl2]\nmemory=99999999999999999999GB\n") ≡ none)
unfolding parse_wsl_memory split trim_space cut has_prefix has_suffix equal_fold parse_uint to_lower
    str_eq
limits = (refl, refl, refl)
