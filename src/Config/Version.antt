-- ===== src/Config/Version.antt =====
-- internal/config/version.go. The two regular expressions are matched by hand: each repetition is
-- followed by a byte that it cannot take, so the longest run is the only choice.
use dockup.Base.{
  ℕ, zero, suc, ◌≡◌, refl, Bool, true, false, not, ◌&&◌, ◌||◌, Option, none, some, List, [], ◌∷◌,
  ◌++◌, Str, codes, is_digit, str_eq, trim_space, take, length, leb, ◌==◌, if◌then◌else◌,
}

abbrev is_hex : ℕ → Bool
is_hex c = is_digit c || (leb b'a' c && leb c b'f')

abbrev is_letter : ℕ → Bool
is_letter c = (leb b'A' c && leb c b'Z') || (leb b'a' c && leb c b'z')

span : (ℕ → Bool) → Str → Str
span p [] = []
span p (c ∷ s) = if p c then c ∷ span p s else []

after_span : (ℕ → Bool) → Str → Str
after_span p [] = []
after_span p (c ∷ s) = if p c then after_span p s else c ∷ s

-- \d+ or [0-9]+ at the head, and what follows
digits1 : Str → Option Str
unfolding span after_span
digits1 s = if str_eq (span is_digit s) [] then none else some (after_span is_digit s)

exactly : ℕ → Str → Option Str
exactly zero s = some s
exactly (suc n) [] = none
exactly (suc n) (c ∷ s) = let rest = exactly n s in if is_digit c then rest else none

byte : ℕ → Str → Option Str
byte b [] = none
byte b (c ∷ s) = if c == b then some s else none

infixl 5 ◌>>=◌
abbrev ◌>>=◌ : {A B : Type 0} → Option A → (A → Option B) → Option B
none >>= f = none
some a >>= f = f a

-- -\d+\.\d{14}-[0-9a-f]{7,} at the head
pseudo_at : Str → Bool
unfolding byte digits1 exactly span
pseudo_at s =
    let tail = (do
      a ← byte b'-' s
      b ← digits1 a
      c ← byte b'.' b
      d ← exactly 14 c
      byte b'-' d) in
    elim tail [ none ↦ false | some t ↦ leb 7 (length (span is_hex t)) ]

unfoldable pub is_pseudo_version : Str → Bool
unfolding pseudo_at
is_pseudo_version [] = pseudo_at []
is_pseudo_version (c ∷ s) = pseudo_at (c ∷ s) || is_pseudo_version s

every : (ℕ → Bool) → Str → Bool
every p [] = true
every p (c ∷ s) = p c && every p s

-- (?:-[A-Za-z][0-9A-Za-z.-]*)?$
suffix_ok : Str → Bool
unfolding every
suffix_ok [] = true
suffix_ok (d ∷ []) = false
suffix_ok (d ∷ c ∷ s) =
    (d == b'-')
    && (is_letter c && every (λ x. is_digit x || (is_letter x || ((x == b'.') || (x == b'-')))) s)

-- ^v[0-9]+\.[0-9]+\.[0-9]+(?:-[A-Za-z][0-9A-Za-z.-]*)?$
unfoldable pub is_release_tag : Str → Bool
unfolding byte digits1 suffix_ok span
is_release_tag s =
    let tail = (do
      a ← byte b'v' s
      b ← digits1 a
      c ← byte b'.' b
      d ← digits1 c
      f ← byte b'.' d
      digits1 f) in
    elim tail [ none ↦ false | some t ↦ suffix_ok t ]

pub record Setting : Type 0 where
  pub key : Str
  pub value : Str

-- runtime/debug.BuildInfo: the main module's version and the settings
pub record BuildInfo : Type 0 where
  pub main_version : Str
  pub settings : List Setting

pub record Vcs : Type 0 where
  pub rev : Str
  pub dirty : Bool

scan_settings : Vcs → List Setting → Vcs
scan_settings v [] = v
scan_settings v (s ∷ rest) =
    scan_settings
      (if str_eq s.key (codes "vcs.revision")
        then record v { rev = s.value }
        else if str_eq s.key (codes "vcs.modified")
        then record v { dirty = str_eq s.value (codes "true") }
        else v)
      rest

abbrev is_real : Str → Bool
is_real main = not (str_eq main []) && not (str_eq main (codes "(devel)"))

from_info : Str → Str → Vcs → Str
from_info stamped main v =
    if is_real main && not (is_pseudo_version main)
    then main
    else if leb 7 (length v.rev)
    then (if v.dirty then take 7 v.rev ++ codes "-dirty" else take 7 v.rev)
    else if is_real main
    then main
    else stamped

unfoldable pub resolve_version : Str → Option BuildInfo → Str
unfolding from_info scan_settings
resolve_version stamp info =
    let stamped = trim_space stamp in
    if not (str_eq stamped []) && not (str_eq stamped (codes "dev")) then stamped else elim info [
      | none ↦ stamped
      | some b ↦
          from_info stamped (trim_space b.main_version)
            (scan_settings (record { rev = []; dirty = false }) b.settings)
    ]

tags :
    (is_release_tag (codes "v1.2.3") ≡ true)
    × (is_release_tag (codes "v1.2.3-rc.1") ≡ true)
    × (is_release_tag (codes "v1.2") ≡ false)
    × (is_release_tag (codes "v1.2.2-0.20261020155638-f53f85ea879b") ≡ false)
    × (is_pseudo_version (codes "v1.2.2-0.20261020155638-f53f85ea879b+dirty") ≡ true)
unfolding is_release_tag is_pseudo_version str_eq
tags = (refl, refl, refl, refl, refl)
