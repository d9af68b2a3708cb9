-- ===== src/Examples/Tools.antt =====
-- The theorems on imgtool, the log files, the image cache and the shortcut script, on concrete inputs.
use dockup.Base.{
  ℕ, ◌+◌, ◌-◌, ◌≡◌, refl, ap, true, false, Option, none, some, List, [], ◌∷◌, ◌++◌, map, Str, codes,
  arith, str_eq, replicate, length, take, drop, ltb, trim_space, trim, trim_right, drop_while,
  is_space, if◌then◌else◌,
}
use dockup.Base.Trim.{NoSpace}
use dockup.Io.{World, is_ok, ok, ask, pure, read_path, write_path, ◌>>=◌, ◌>>?◌, next_of}
use dockup.Image.Verify.{Crypto, verify_signature}
use dockup.Imgtool.{Signer, SignerLaws, decode, public_key, read_named, sign_file}
use dockup.Imgtool.Signing.{sign_file-verify_signature}
use dockup.Imgtool.Main.{FlagParser, imgtool_main, imgtool_main-verify_signature}
use dockup.Cli.Log.{
  start_offset, shown, follow, concat, read_all, follow-rotated, follow-start_offset,
}
use dockup.Examples.Machine.{kind}

-- An encoding with no white space in place of base64, and a scheme that accepts one signature.
abbrev toy_crypto : Crypto
toy_crypto = record {
  base64 = λ s. some (map (λ c. c - 33) s);
  verify = λ key msg sig. str_eq key (take 32 sig);
  sha256_hex = λ tar. [];
}

abbrev toy_signer : Signer
toy_signer = record {
  encode = map (λ c. c + 33);
  public_of = λ seed. replicate 32 b'k';
  sign = λ seed msg. replicate 64 b'k';
  generate = some (replicate 32 b's');
}

shifted_back : (b : Str) → map (λ c. c - 33) (map (λ c. c + 33) b) ≡ b
shifted_back [] = refl
shifted_back (c ∷ b) = ground (arith, shifted_back b)

shifted-NoSpace : (b : Str) → NoSpace (map (λ c. c + 33) b)
unfolding is_space
shifted-NoSpace [] = tt
shifted-NoSpace (c ∷ b) = (above c, shifted-NoSpace b)
  where
    above : (c : ℕ) → is_space (c + 33) ≡ false
    above c = ground arith

toy_laws : SignerLaws toy_crypto toy_signer
unfolding str_eq
toy_laws = record {
  base64-encode = λ b. ap some (shifted_back b);
  encode-NoSpace = shifted-NoSpace;
  length-public_of = λ seed. refl;
  length-sign = λ seed msg. refl;
  length-generate = λ seed e. ground arith;
  verify-sign = λ seed msg. refl;
}

abbrev seed_text : Str
seed_text = toy_signer.encode (replicate 32 b's')

abbrev signed_text : Str
signed_text = toy_signer.encode (replicate 64 b'k') ++ (10 ∷ [])

-- The file to sign, and a signature of it.
abbrev desk_files : Str → Option Str
desk_files p =
    if str_eq p (codes "in")
    then some (codes "message")
    else if str_eq p (codes "sig")
    then some signed_text
    else none

abbrev desk : World
desk = record { trace = []; files = desk_files }

sign_file-verify_signature_example :
    (msg pub_key text : Str) × (desk.files (codes "in") ≡ some msg)
    × ((sign_file kind toy_crypto toy_signer seed_text (codes "in") (codes "out") desk).1.files
          (codes "out")
        ≡ some text)
    × (public_key toy_crypto toy_signer seed_text ≡ ok pub_key)
    × (verify_signature toy_crypto msg text pub_key ≡ true)
unfolding sign_file decode read_named read_path write_path ask pure ◌>>=◌ ◌>>?◌ next_of str_eq
    trim_space trim trim_right drop_while is_space
sign_file-verify_signature_example =
    sign_file-verify_signature kind toy_crypto toy_signer toy_laws seed_text (codes "in")
      (codes "out") desk refl

abbrev key_text : Str
key_text = toy_signer.encode (replicate 32 b'k')

-- A parser that takes the arguments of the three flags by their places.
abbrev placed_flags : FlagParser
placed_flags name names (_ ∷ key ∷ _ ∷ path ∷ _ ∷ sig ∷ []) = some (
  λ flag. if str_eq flag (codes "pub") then key else if str_eq flag (codes "in") then path else sig,
  [],
)
placed_flags name names _ = none

abbrev verify_args : List Str
verify_args = codes "-pub" ∷ key_text ∷ codes "-in" ∷ codes "in" ∷ codes "-sig" ∷ codes "sig" ∷ []

abbrev flag_value : Str → Str
flag_value flag =
    if str_eq flag (codes "pub")
    then key_text
    else if str_eq flag (codes "in")
    then codes "in"
    else codes "sig"

imgtool_main-verify_signature_example :
    (imgtool_main kind toy_crypto toy_signer placed_flags (codes "verify" ∷ verify_args) desk).0 ≡ (
      if verify_signature toy_crypto (codes "message") signed_text (flag_value (codes "pub"))
      then 0
      else 1)
unfolding str_eq
imgtool_main-verify_signature_example =
    imgtool_main-verify_signature kind toy_crypto toy_signer placed_flags verify_args flag_value
      (codes "message") signed_text desk refl refl refl refl refl refl

follow-rotated_example : follow 100 (read_all (codes "new" ∷ codes "newer" ∷ [])) ≡ []
follow-rotated_example =
    follow-rotated 100 (codes "new" ∷ codes "newer" ∷ []) (omega arith, (omega arith, tt))

follow-start_offset_example :
    concat (
      follow
        (start_offset (some (length (codes "short"))))
        (dockup.Io.content (codes "short") ∷ []))
    ≡ (if ltb 8000 (length (codes "short"))
        then shown (drop (length (codes "short") - 8000) (codes "short"))
        else [])
follow-start_offset_example = follow-start_offset (codes "short")
