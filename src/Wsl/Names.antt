-- ===== src/Wsl/Names.antt =====
-- What `ParseListOutput` of internal/wsl/wsl.go reads of the lines that wsl.exe prints.
use dockup.Base.{
  ◌<◌, ◌≡◌, ◌∙◌, ap, refl, false, List, [], ◌∷◌, ◌++◌, Str, arith, All, split, is_space, trim,
  trim_space, str_eq, ◌==◌, All-append,
}
use dockup.Base.Trim.{Bare, NoSpace, trim-end, trim_space-bare}
use dockup.Wsl.Utf16.{encode_utf16, Plain, decode-encode_utf16}
use dockup.Wsl.Listing.{parse_list_output, is_end, names}

-- The name of a distro: ASCII characters, none of them white space or zero.
pub record IsName (name : Str) : Type 0 where
  pub some_text : str_eq name [] ≡ false
  pub plain : Plain name
  pub bare : NoSpace name

-- The lines as wsl.exe prints them
pub listing : List Str → Str
listing [] = []
listing (name ∷ more) = name ++ (b'\r' ∷ b'\n' ∷ listing more)

split-line :
    (name rest : Str)
    → NoSpace name
    → split b'\n' (name ++ (b'\r' ∷ b'\n' ∷ rest)) ≡ (name ++ b'\r' ∷ []) ∷ split b'\n' rest
unfolding split is_space
split-line [] rest h = refl
split-line (c ∷ name) rest (hc, hs) = ground (arith, hc, split-line name rest hs)

ends-Bare : (name : Str) → Plain name → NoSpace name → Bare is_end name
unfolding is_end is_space
ends-Bare [] p h = tt
ends-Bare (c ∷ name) (pc, ps) (hc, hs) = (ground (arith, pc.0, hc), ends-Bare name ps hs)

line-name : (name : Str) → IsName name → trim_space (trim is_end (name ++ b'\r' ∷ [])) ≡ name
unfolding is_end
line-name name h =
    ap trim_space (trim-end is_end name b'\r' refl (ends-Bare name h.plain h.bare))
    ∙ trim_space-bare name h.bare

names-listing : (ns : List Str) → All IsName ns → names (split b'\n' (listing ns)) ≡ ns
unfolding names listing split str_eq trim_space
names-listing [] h = refl
names-listing (name ∷ more) (h, hs) =
    rw (split-line name (listing more) h.bare)
      (rw (line-name name h) (rw h.some_text (ap (λ ns. name ∷ ns) (names-listing more hs))))

listing-Plain : (ns : List Str) → All IsName ns → Plain (listing ns)
unfolding listing
listing-Plain [] h = tt
listing-Plain (name ∷ more) (h, hs) =
    All-append (λ c. ((c == 0) ≡ false) × (c < 0x80)) name _ h.plain
      ((refl, omega arith), ((refl, omega arith), listing-Plain more hs))

-- ParseListOutput gives exactly the names of the distros that wsl.exe has printed, one to a line, in
-- their order: from UTF-16LE with a byte order mark or without one, and from plain bytes, if the
-- names are ASCII without white space and zero bytes.
pub parse_list_output-listing :
    (ns : List Str)
    → All IsName ns
    → (parse_list_output (0xff ∷ 0xfe ∷ encode_utf16 (listing ns)) ≡ ns)
      × (parse_list_output (encode_utf16 (listing ns)) ≡ ns)
      × (parse_list_output (listing ns) ≡ ns)
unfolding parse_list_output
parse_list_output-listing ns h =
    let (marked, unmarked, bytes) = decode-encode_utf16 (listing ns) (listing-Plain ns h) in
    let named = names-listing ns h in
    (
      ap (λ s. names (split b'\n' s)) marked ∙ named,
      ap (λ s. names (split b'\n' s)) unmarked ∙ named,
      ap (λ s. names (split b'\n' s)) bytes ∙ named,
    )
