-- ===== src/Base/Text.antt =====
-- The functions of Go's `strings` and `strconv` packages that the code calls, over a text as the
-- list of its bytes. White space and letter case are those of ASCII.
use Prim.Native.Char.{code}
use Prim.Native.String.{String}
use Prim.Native.Nat.{ℕ, ◌+◌, ◌-◌, ◌*◌, ◌^◌, ◌≤◌}
use mathlib.Core.Path.{◌≡◌, refl}
use mathlib.Core.Logic.{◌↔◌}
use mathlib.Core.Bool.{Bool, true, false, ◌&&◌, ◌||◌}
use mathlib.Core.Option.{Option, none, some}
use mathlib.Core.List.{List, [], ◌∷◌, ◌++◌, reverse}
use native.Mathlib.Omega.{arith}
use dockup.Base.Tests.{ltb, leb, ◌==◌, if◌then◌else◌}

abbrev pub Str : Type 0
Str = List ℕ

-- The bytes of an ASCII literal.
abbrev pub codes : String → Str
codes String.[] = []
codes (String.◌∷◌ c s) = code c ∷ codes s

unfoldable pub str_eq : Str → Str → Bool
str_eq [] [] = true
str_eq [] (d ∷ t) = false
str_eq (c ∷ s) [] = false
str_eq (c ∷ s) (d ∷ t) = (c == d) && str_eq s t

pub str_eq_iff : (s t : Str) → (str_eq s t ≡ true) ↔ (s ≡ t)
unfolding str_eq
str_eq_iff [] [] = ground arith
str_eq_iff [] (d ∷ t) = ground arith
str_eq_iff (c ∷ s) [] = ground arith
str_eq_iff (c ∷ s) (d ∷ t) = ground (arith, str_eq_iff s t)

pub str_eq_refl : (s : Str) → str_eq s s ≡ true
str_eq_refl s = (str_eq_iff s s).1 refl

unfoldable pub mem_str : Str → List Str → Bool
mem_str a [] = false
mem_str a (x ∷ xs) = str_eq a x || mem_str a xs

-- `unicode.IsSpace`
unfoldable pub is_space : ℕ → Bool
is_space c = (c == 32) || (leb 9 c && leb c 13)

abbrev pub is_digit : ℕ → Bool
is_digit c = leb b'0' c && leb c b'9'

unfoldable pub lower : ℕ → ℕ
lower c = if leb b'A' c && leb c b'Z' then c + 32 else c

unfoldable pub to_lower : Str → Str
unfolding lower
to_lower [] = []
to_lower (c ∷ s) = lower c ∷ to_lower s

-- `strings.EqualFold`
unfoldable pub equal_fold : Str → Str → Bool
unfolding to_lower str_eq
equal_fold s t = str_eq (to_lower s) (to_lower t)

unfoldable pub drop_while : (ℕ → Bool) → Str → Str
drop_while p [] = []
drop_while p (c ∷ s) = if p c then drop_while p s else c ∷ s

-- `strings.TrimRight`
unfoldable pub trim_right : (ℕ → Bool) → Str → Str
unfolding drop_while
trim_right p s = reverse (drop_while p (reverse s))

-- `strings.Trim` with a cut set
unfoldable pub trim : (ℕ → Bool) → Str → Str
unfolding drop_while trim_right
trim p s = trim_right p (drop_while p s)

unfoldable pub trim_space : Str → Str
unfolding trim is_space
trim_space s = trim is_space s

unfoldable pub has_prefix : Str → Str → Bool
has_prefix s [] = true
has_prefix [] (d ∷ p) = false
has_prefix (c ∷ s) (d ∷ p) = (c == d) && has_prefix s p

strip : Str → Str → Str
strip s [] = s
strip [] (d ∷ p) = []
strip (c ∷ s) (d ∷ p) = strip s p

-- `strings.TrimPrefix`
unfoldable pub trim_prefix : Str → Str → Str
unfolding has_prefix strip
trim_prefix s p = if has_prefix s p then strip s p else s

unfoldable pub has_suffix : Str → Str → Bool
unfolding has_prefix
has_suffix s p = has_prefix (reverse s) (reverse p)

unfoldable pub contains : Str → Str → Bool
unfolding has_prefix
contains [] p = has_prefix [] p
contains (c ∷ s) p = has_prefix (c ∷ s) p || contains s p

-- `strings.Split` at one byte: there is always a part.
push : ℕ → List Str → List Str
push c [] = (c ∷ []) ∷ []
push c (p ∷ ps) = (c ∷ p) ∷ ps

unfoldable pub split : ℕ → Str → List Str
unfolding push
split sep [] = [] ∷ []
split sep (c ∷ s) = let rest = split sep s in if c == sep then [] ∷ rest else push c rest

-- `strings.Cut` at one byte
unfoldable pub cut : ℕ → Str → Option (Str × Str)
cut sep [] = none
cut sep (c ∷ s) =
    let rest = cut sep s in
    if c == sep
    then some ([], s)
    else elim rest [ none ↦ none | some (before, after) ↦ some (c ∷ before, after) ]

keep : Str → List Str → List Str
keep [] rest = rest
keep (c ∷ s) rest = (c ∷ s) ∷ rest

gather : Str → Str → List Str
unfolding keep is_space
gather [] cur = keep cur []
gather (c ∷ s) cur =
    let done = keep cur (gather s []) in
    let more = gather s (cur ++ c ∷ []) in if is_space c then done else more

-- `strings.Fields`
unfoldable pub fields : Str → List Str
unfolding gather
fields s = gather s []

-- `strings.Join`
unfoldable pub join_with : Str → List Str → Str
join_with sep [] = []
join_with sep (p ∷ []) = p
join_with sep (p ∷ q ∷ ps) = p ++ (sep ++ join_with sep (q ∷ ps))

abbrev pub max_uint64 : ℕ
max_uint64 = 2 ^ 64 - 1

scan_digits : ℕ → Str → Option ℕ
scan_digits n [] = some n
scan_digits n (c ∷ s) =
    let m = n * 10 + (c - b'0') in
    let rest = scan_digits m s in
    if is_digit c then (if ltb max_uint64 m then none else rest) else none

-- `strconv.ParseUint(s, 10, 64)`: `none` is its error, out of range included.
unfoldable pub parse_uint : Str → Option ℕ
unfolding scan_digits
parse_uint [] = none
parse_uint (c ∷ s) = scan_digits 0 (c ∷ s)

pub parse_uint-le-max : (s : Str) {n : ℕ} → parse_uint s ≡ some n → n ≤ max_uint64
unfolding parse_uint
parse_uint-le-max [] h = cc
parse_uint-le-max (c ∷ s) {n} h = scan_le (c ∷ s) 0 n (omega arith) h
  where
    scan_le : (s : Str) (m n : ℕ) → m ≤ max_uint64 → scan_digits m s ≡ some n → n ≤ max_uint64
    scan_le [] m n le h = ground arith
    scan_le (c ∷ s) m n le h = ground (arith, scan_le s (m * 10 + (c - b'0')) n)

pub str_eq-append_self : (s : Str) (c : ℕ) (t : Str) → str_eq (s ++ c ∷ t) s ≡ false
unfolding str_eq
str_eq-append_self [] c t = refl
str_eq-append_self (d ∷ s) c t = ground (arith, str_eq-append_self s c t)

pub str_eq_comm : (s t : Str) → str_eq s t ≡ str_eq t s
unfolding str_eq
str_eq_comm [] [] = refl
str_eq_comm [] (d ∷ t) = refl
str_eq_comm (c ∷ s) [] = refl
str_eq_comm (c ∷ s) (d ∷ t) = ground (arith, str_eq_comm s t)

pub str_eq-append : (s t u : Str) → str_eq (s ++ t) (s ++ u) ≡ str_eq t u
unfolding str_eq
str_eq-append [] t u = refl
str_eq-append (c ∷ s) t u = ground (arith, str_eq-append s t u)
