-- ===== src/Pstable/Ansi.antt =====
-- `ansi`, `visibleLen` and `pad` of internal/pstable/pstable.go, and `paint` of internal/ui/ui.go.
-- The regular expression \x1b\[[0-9;]*m is matched by hand: `skip` counts the bytes of a match that
-- are still to be dropped.
use Prim.Native.Nat.{max}
use dockup.Base.{
  ℕ, zero, suc, ◌+◌, ◌-◌, ◌≤◌, ◌≡◌, ◌≢◌, refl, Bool, true, false, ◌||◌, Option, none, some, [], ◌∷◌,
  ◌++◌, Str, codes, arith, is_digit, length, length-append, replicate, length-replicate,
  Option-cases, append-nil, inl, inr, ltb, ◌==◌, if◌then◌else◌,
}

abbrev pub escape_byte : ℕ
escape_byte = 0x1b

abbrev is_param : ℕ → Bool
is_param c = is_digit c || (c == b';')

-- The bytes of [0-9;]*m at the head of a text.
params_len : Str → Option ℕ
params_len [] = none
params_len (c ∷ s) =
    let rest = params_len s in
    if c == b'm'
    then some 1
    else if is_param c
    then elim rest [ none ↦ none | some n ↦ some (suc n) ]
    else none

-- The bytes of a match behind its escape byte.
code_len : Str → Option ℕ
code_len [] = none
code_len (c ∷ s) =
    if c == b'[' then elim (params_len s) [ none ↦ none | some n ↦ some (suc n) ] else none

-- The bytes of a match that begins with `c`, behind `c`.
match_len : ℕ → Str → Option ℕ
unfolding code_len
match_len c s = if c == escape_byte then code_len s else none

strip_from : ℕ → Str → Str
strip_from skip [] = []
strip_from (suc skip) (c ∷ s) = strip_from skip s
strip_from zero (c ∷ s) =
    let kept = c ∷ strip_from zero s in
    elim (match_len c s) [ none ↦ kept | some n ↦ strip_from n s ]

-- `ansi.ReplaceAllString(s, "")`
unfoldable pub strip_ansi : Str → Str
unfolding strip_from match_len params_len
strip_ansi s = strip_from 0 s

unfoldable pub visible_len : Str → ℕ
visible_len s = length (strip_ansi s)

unfoldable pub pad : Str → ℕ → Str
unfolding visible_len
pad s width = if ltb (visible_len s) width then s ++ replicate (width - visible_len s) b' ' else s

-- The palette of internal/ui/ui.go.
pub data Style : Type 0 where
  bold white blue light_blue gray yellow red green cyan : Style

abbrev sgr : Str → Str
sgr params = escape_byte ∷ b'[' ∷ params

unfoldable pub style_code : Style → Str
style_code bold = sgr (codes "1m")
style_code white = sgr (codes "37m")
style_code blue = sgr (codes "34m")
style_code light_blue = sgr (codes "94m")
style_code gray = sgr (codes "90m")
style_code yellow = sgr (codes "33m")
style_code red = sgr (codes "31m")
style_code green = sgr (codes "32m")
style_code cyan = sgr (codes "96m")

abbrev pub reset : Str
reset = sgr (codes "0m")

-- `paint`, with the package's `enabled` as an argument
unfoldable pub paint : Bool → Style → Str → Str
paint enabled style s = if enabled then style_code style ++ (s ++ reset) else s

-- A text that cannot continue a code that an earlier text has begun.
abbrev IsNeutral : Str → Type 0
IsNeutral [] = Unit
IsNeutral (d ∷ t) = (d ≢ b'm') × (d ≢ b'[') × (is_param d ≡ false)

params_len-neutral : (t : Str) → IsNeutral t → params_len t ≡ none
unfolding params_len
params_len-neutral [] h = refl
params_len-neutral (d ∷ t) h = ground arith

params_len-append : (s t : Str) → IsNeutral t → params_len (s ++ t) ≡ params_len s
unfolding params_len
params_len-append [] t h = params_len-neutral t h
params_len-append (c ∷ s) t h = ground (arith, params_len-append s t h)

params_len-le : (s : Str) {n : ℕ} → params_len s ≡ some n → n ≤ length s
unfolding params_len
params_len-le [] h = cc
params_len-le (c ∷ s) {n} h = ground (arith, params_len-le s {n = n - 1})

code_len-append : (s t : Str) → IsNeutral t → code_len (s ++ t) ≡ code_len s
unfolding code_len
code_len-append [] [] h = refl
code_len-append [] (d ∷ t) h = ground arith
code_len-append (c ∷ s) t h = ground (arith, params_len-append s t h)

code_len-le : (s : Str) {n : ℕ} → code_len s ≡ some n → n ≤ length s
unfolding code_len
code_len-le [] h = cc
code_len-le (c ∷ s) {n} h = ground (arith, params_len-le s {n = n - 1})

match_len-append : (c : ℕ) (s t : Str) → IsNeutral t → match_len c (s ++ t) ≡ match_len c s
unfolding match_len
match_len-append c s t h = ground (arith, code_len-append s t h)

match_len-le : (c : ℕ) (s : Str) {n : ℕ} → match_len c s ≡ some n → n ≤ length s
unfolding match_len
match_len-le c s {n} h = ground (arith, code_len-le s {n = n})

strip_from-append :
    (skip : ℕ) (s t : Str)
    → skip ≤ length s
    → IsNeutral t
    → strip_from skip (s ++ t) ≡ strip_from skip s ++ strip_from 0 t
unfolding strip_from
strip_from-append zero [] t h n = refl
strip_from-append (suc skip) [] t h n = absurd (omega arith)
strip_from-append (suc skip) (c ∷ s) t h n = strip_from-append skip s t (omega arith) n
strip_from-append zero (c ∷ s) t h n = elim (Option-cases (match_len c s)) [
  | inl e ↦ ground (arith, match_len-append c s t n, strip_from-append zero s t (omega arith) n)
  | inr (m, e) ↦
      ground (arith, match_len-append c s t n, strip_from-append m s t (match_len-le c s e) n)
]

strip_ansi-append : (s t : Str) → IsNeutral t → strip_ansi (s ++ t) ≡ strip_ansi s ++ strip_ansi t
unfolding strip_ansi
strip_ansi-append s t n = strip_from-append 0 s t (omega arith) n

strip-spaces : (n : ℕ) → strip_ansi (replicate n b' ') ≡ replicate n b' '
unfolding strip_ansi
strip-spaces zero = refl
strip-spaces (suc n) = ground (arith, strip-spaces n)

spaces-IsNeutral : (n : ℕ) → IsNeutral (replicate n b' ')
spaces-IsNeutral zero = tt
spaces-IsNeutral (suc n) = ground arith

pub visible_len-spaces : (s : Str) (n : ℕ) → visible_len (s ++ replicate n b' ') ≡ visible_len s + n
unfolding visible_len
visible_len-spaces s n =
    rw (strip_ansi-append s _ (spaces-IsNeutral n), strip-spaces, length-append, length-replicate)

length-strip_from : (skip : ℕ) (s : Str) → length (strip_from skip s) ≤ length s
unfolding strip_from
length-strip_from skip [] = omega arith
length-strip_from (suc skip) (c ∷ s) = omega (arith, length-strip_from skip s)
length-strip_from zero (c ∷ s) = elim (Option-cases (match_len c s)) [
  | inl e ↦ ground (arith, length-strip_from zero s)
  | inr (m, e) ↦ ground (arith, length-strip_from m s)
]

pub visible_len-le-length : (s : Str) → visible_len s ≤ length s
unfolding visible_len strip_ansi
visible_len-le-length s = length-strip_from 0 s

-- A padded value is as wide as the column, or as the value where that is wider; colour codes do not
-- count, whatever bytes the value holds.
pub visible_len-pad : (s : Str) (width : ℕ) → visible_len (pad s width) ≡ max (visible_len s) width
unfolding pad
visible_len-pad s width = ground (arith, visible_len-spaces s (width - visible_len s))

-- No code of the palette adds to the visible width.
strip-style : (style : Style) (s : Str) → strip_ansi (style_code style ++ s) ≡ strip_ansi s
unfolding strip_ansi style_code
strip-style bold s = refl
strip-style white s = refl
strip-style blue s = refl
strip-style light_blue s = refl
strip-style gray s = refl
strip-style yellow s = refl
strip-style red s = refl
strip-style green s = refl
strip-style cyan s = refl

strip-reset : strip_ansi reset ≡ []
unfolding strip_ansi
strip-reset = refl

-- Painting a text in any style of the palette leaves its visible width as it is, with colours on or
-- off, whatever bytes the text holds.
pub visible_len-paint :
    (enabled : Bool) (style : Style) (s : Str) → visible_len (paint enabled style s) ≡ visible_len s
unfolding paint visible_len
visible_len-paint false style s = refl
visible_len-paint true style s = rw (
  strip-style style (s ++ reset),
  strip_ansi-append s reset (ground arith),
  strip-reset,
  append-nil,
)
