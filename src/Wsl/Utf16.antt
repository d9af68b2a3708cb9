-- ===== src/Wsl/Utf16.antt =====
-- `DecodeWslOutput` of internal/wsl/wsl.go, with what it uses of unicode/utf16 and of the conversion to
-- a string. A text is the bytes of its UTF-8, as Go's strings are.
use dockup.Base.{
  ℕ, ◌+◌, ◌-◌, ◌*◌, ◌/◌, ◌%◌, ◌<◌, ◌≡◌, ◌∙◌, ap, refl, Bool, false, ◌&&◌, ◌||◌, List, [], ◌∷◌, ◌++◌,
  Str, arith, All, ltb, leb, length, drop, ◌==◌, if◌then◌else◌,
}

has_zero : Str → Bool
has_zero [] = false
has_zero (c ∷ s) = (c == 0) || has_zero s

-- Pairs of bytes, low byte first; an odd byte at the end is dropped.
units : Str → Str
units [] = []
units (lo ∷ []) = []
units (lo ∷ hi ∷ s) = (lo + 256 * hi) ∷ units s

has_mark : Str → Bool
has_mark (a ∷ b ∷ s) = (a == 0xff) && (b == 0xfe)
has_mark _ = false

-- A unit that stands alone: of half a pair U+FFFD is left.
alone : ℕ → ℕ
alone u = if leb 0xd800 u && ltb u 0xe000 then 0xfffd else u

is_pair : ℕ → ℕ → Bool
is_pair u v = (leb 0xd800 u && ltb u 0xdc00) && (leb 0xdc00 v && ltb v 0xe000)

-- `utf16.Decode`
code_points : List ℕ → List ℕ
code_points [] = []
code_points (u ∷ []) = alone u ∷ []
code_points (u ∷ v ∷ us) =
    let single = code_points (v ∷ us) in
    let after = code_points us in
    if is_pair u v
    then ((u - 0xd800) * 1024 + ((v - 0xdc00) + 0x10000)) ∷ after
    else alone u ∷ single

-- The bytes of a code point in UTF-8
utf8 : ℕ → Str
utf8 c =
    if ltb c 0x80
    then c ∷ []
    else if ltb c 0x800
    then (0xc0 + c / 64) ∷ (0x80 + c % 64) ∷ []
    else if ltb c 0x10000
    then (0xe0 + c / 4096) ∷ (0x80 + c / 64 % 64) ∷ (0x80 + c % 64) ∷ []
    else (0xf0 + c / 262144) ∷ (0x80 + c / 4096 % 64) ∷ (0x80 + c / 64 % 64) ∷ (0x80 + c % 64) ∷ []

-- `string` of code points
pub utf8_text : List ℕ → Str
utf8_text [] = []
utf8_text (c ∷ s) = utf8 c ++ utf8_text s

-- `DecodeWslOutput`
unfoldable pub decode_wsl_output : Str → Str
unfolding has_zero units has_mark code_points alone is_pair utf8 utf8_text
decode_wsl_output bytes =
    if leb 2 (length bytes) && (has_mark bytes || has_zero bytes)
    then utf8_text (code_points (units (if has_mark bytes then drop 2 bytes else bytes)))
    else bytes

-- The UTF-16LE bytes of characters below the surrogates.
pub encode_utf16 : List ℕ → Str
encode_utf16 [] = []
encode_utf16 (c ∷ s) = c % 256 ∷ c / 256 ∷ encode_utf16 s

units-encode : (s : List ℕ) → units (encode_utf16 s) ≡ s
unfolding units encode_utf16
units-encode [] = refl
units-encode (c ∷ s) = ground (arith, units-encode s)

-- No character is half a surrogate pair or needs one.
abbrev pub Single : List ℕ → Type 0
Single = All (λ c. c < 0xd800)

code_points-Single : (s : List ℕ) → Single s → code_points s ≡ s
unfolding code_points alone is_pair
code_points-Single [] h = refl
code_points-Single (c ∷ []) h = ground (arith, h.0)
code_points-Single (c ∷ d ∷ s) (hc, hs) = ground (arith, hc, code_points-Single (d ∷ s) hs)

-- Output that wsl.exe writes in UTF-16LE with a byte order mark is decoded to the UTF-8 of its text, if
-- the text holds no character from U+D800 on.
pub decode-marked_utf16 :
    (s : List ℕ) → Single s → decode_wsl_output (0xff ∷ 0xfe ∷ encode_utf16 s) ≡ utf8_text s
unfolding decode_wsl_output
decode-marked_utf16 s h = ground (arith, units-encode s, code_points-Single s h)

-- ASCII without a zero byte
abbrev pub Plain : Str → Type 0
Plain = All (λ c. ((c == 0) ≡ false) × (c < 0x80))

has_zero-Plain : (s : Str) → Plain s → has_zero s ≡ false
unfolding has_zero
has_zero-Plain [] h = refl
has_zero-Plain (c ∷ s) (hc, hs) = ground (arith, has_zero-Plain s hs)

Plain-Single : (s : Str) → Plain s → Single s
Plain-Single [] h = tt
Plain-Single (c ∷ s) (hc, hs) = (omega (arith, hc.1), Plain-Single s hs)

utf8_text-Plain : (s : Str) → Plain s → utf8_text s ≡ s
unfolding utf8_text utf8
utf8_text-Plain [] h = refl
utf8_text-Plain (c ∷ s) (hc, hs) = ground (arith, hc.1, utf8_text-Plain s hs)

decoded-Plain : (s : Str) → Plain s → utf8_text (code_points (units (encode_utf16 s))) ≡ s
decoded-Plain s h =
    ap utf8_text (ap code_points (units-encode s) ∙ code_points-Single s (Plain-Single s h))
    ∙ utf8_text-Plain s h

has_mark-Plain : (c : ℕ) (s : Str) → c < 0x80 → has_mark (c ∷ s) ≡ false
unfolding has_mark
has_mark-Plain c [] h = refl
has_mark-Plain c (d ∷ s) h = ground (arith, h)

unmarked :
    (c : ℕ) (s : Str)
    → Plain (c ∷ s)
    → decode_wsl_output (encode_utf16 (c ∷ s))
      ≡ utf8_text (code_points (units (encode_utf16 (c ∷ s))))
unfolding decode_wsl_output encode_utf16
unmarked c s (hc, hs) = ground (arith, hc.1)

-- ASCII output without a zero byte is decoded to itself: from UTF-16LE with a byte order mark or
-- without one, and from plain bytes.
pub decode-encode_utf16 :
    (s : Str)
    → Plain s
    → (decode_wsl_output (0xff ∷ 0xfe ∷ encode_utf16 s) ≡ s)
      × (decode_wsl_output (encode_utf16 s) ≡ s)
      × (decode_wsl_output s ≡ s)
unfolding decode_wsl_output encode_utf16
decode-encode_utf16 [] h = (refl, refl, refl)
decode-encode_utf16 (c ∷ s) (hc, hs) = (
  decode-marked_utf16 (c ∷ s) (Plain-Single (c ∷ s) (hc, hs)) ∙ utf8_text-Plain (c ∷ s) (hc, hs),
  unmarked c s (hc, hs) ∙ decoded-Plain (c ∷ s) (hc, hs),
  ground (arith, has_zero-Plain (c ∷ s) (hc, hs), has_mark-Plain c s hc.1),
)
