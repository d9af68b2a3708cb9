-- ===== src/Image/Verify.antt =====
-- `VerifySignature`, `ParseChecksumFile` and `VerifyChecksumFile` of internal/image/image.go on the
-- contents of the files. SHA-256, base64 and Ed25519 are parameters.
use dockup.Base.{
  ℕ, ◌≡◌, Bool, true, false, not, ◌&&◌, ◌||◌, Option, none, some, List, [], ◌∷◌, Str, is_digit, leb,
  trim_space, fields, to_lower, equal_fold, length, ◌==◌, if◌then◌else◌,
}

pub record Crypto : Type 0 where
  pub base64 : Str → Option Str
  pub verify : Str → Str → Str → Bool
  pub sha256_hex : Str → Str

is_hex_digit : ℕ → Bool
is_hex_digit c = is_digit c || ((leb b'a' c && leb c b'f') || (leb b'A' c && leb c b'F'))

all_hex : Str → Bool
all_hex [] = true
all_hex (c ∷ s) = is_hex_digit c && all_hex s

-- `hex.DecodeString` of the first field, whose length is even here
checksum_field : List Str → Option Str
checksum_field [] = none
checksum_field (f ∷ fs) =
    if not (length f == 64) then none else if all_hex f then some (to_lower f) else none

-- `ParseChecksumFile`, of the file's content
unfoldable pub parse_checksum : Str → Option Str
unfolding checksum_field all_hex is_hex_digit
parse_checksum text = checksum_field (fields text)

module _ (c : Crypto) where
  -- `VerifySignature`: true for a nil error
  decoded : Str → ℕ → Option Str → Option Str
  decoded text size none = none
  decoded text size (some raw) = if length raw == size then some raw else none

  with_keys : Str → Option Str → Option Str → Bool
  with_keys msg none sig = false
  with_keys msg (some key) none = false
  with_keys msg (some key) (some sig) = c.verify key msg sig

  unfoldable pub verify_signature : Str → Str → Str → Bool
  unfolding with_keys decoded
  verify_signature msg sig_raw pub_key =
      with_keys msg (decoded pub_key 32 (c.base64 (trim_space pub_key)))
        (decoded sig_raw 64 (c.base64 (trim_space sig_raw)))

  -- `VerifyChecksumFile`, of the two files' contents
  unfoldable pub verify_checksum : Str → Str → Bool
  verify_checksum tar text = elim (parse_checksum text) [
    | none ↦ false
    | some want ↦ equal_fold (c.sha256_hex tar) want
  ]

  -- A tar, a checksum file and a signature that belong together under a key.
  pub record Trusted (key tar checksum signature : Str) : Type 0 where
    pub signed : verify_signature checksum signature key ≡ true
    pub hashed : verify_checksum tar checksum ≡ true
