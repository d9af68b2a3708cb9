-- ===== src/Imgtool.antt =====
-- scripts/image/imgtool/main.go, which signs the checksum files of the released images: its commands
-- behind the parsing of their flags, which is package flag's.
pub mod Main
pub mod Signing
use dockup.Base.{
  ℕ, ◌≡◌, refl, true, Bool-cases, inl, inr, false, not, ◌||◌, Option, none, some, [], ◌∷◌, ◌++◌,
  Str, codes, arith, trim_space, str_eq, length, ◌==◌, str_eq_refl, if◌then◌else◌,
}
use dockup.Base.Trim.{NoSpace, trim_space-bare, trim_space-line}
use dockup.Env.{Env, read_file}
use dockup.Io.{
  World, M, pure, ◌>>=◌, ◌>>?◌, next_of, Result, ok, err, is_ok, Done, Read, content, not_exist,
  read_error, ask, read_path, write_path,
}
use dockup.Image.Verify.{Crypto, verify_signature}

-- crypto/ed25519 and encoding/base64 on the side that signs. A private key is given by its seed.
pub record Signer : Type 0 where
  pub encode : Str → Str
  pub public_of : Str → Str
  pub sign : Str → Str → Str
  -- a new seed, or an error of the random source
  pub generate : Option Str

-- What their documentation promises: base64 is read back and holds no white space, keys and signatures
-- have their sizes, and a signature is accepted under the public key of its seed.
pub record SignerLaws (c : Crypto) (k : Signer) : Type 0 where
  pub base64-encode : (b : Str) → c.base64 (k.encode b) ≡ some b
  pub encode-NoSpace : (b : Str) → NoSpace (k.encode b)
  pub length-public_of : (seed : Str) → length (k.public_of seed) ≡ 32
  pub length-sign : (seed msg : Str) → length (k.sign seed msg) ≡ 64
  pub length-generate : (seed : Str) → k.generate ≡ some seed → length seed ≡ 32
  pub verify-sign : (seed msg : Str) → c.verify (k.public_of seed) msg (k.sign seed msg) ≡ true

sized : ℕ → Option Str → Result Str
sized size none = err (codes "is not base64")
sized size (some b) = if not (length b == size) then err (codes "size") else ok b

abbrev file_text : Read → Result Str
file_text (content text) = ok text
file_text not_exist = err (codes "open")
file_text read_error = err (codes "read")

module _ (c : Crypto) where
  -- `decode`
  unfoldable pub decode : Str → ℕ → Result Str
  unfolding sized
  decode s size = sized size (c.base64 (trim_space s))

  signature_matches : Str → Str → Result Str → Done
  signature_matches pub_key msg (err m) = err m
  signature_matches pub_key msg (ok sig) =
      if not (c.verify pub_key msg sig) then err (codes "signature does not match") else ok tt

module _ (c : Crypto) (k : Signer) where
  -- `keygen`: the seed and the public key that it prints
  abbrev keys_of : Option Str → Option (Str × Str)
  keys_of none = none
  keys_of (some seed) = some (k.encode seed, k.encode (k.public_of seed))

  unfoldable pub keygen : Option (Str × Str)
  keygen = keys_of k.generate

  public_of_raw : Result Str → Result Str
  public_of_raw (err m) = err m
  public_of_raw (ok raw) = ok (k.encode (k.public_of raw))

  -- `publicKey`
  unfoldable pub public_key : Str → Result Str
  unfolding public_of_raw
  public_key seed = public_of_raw (decode c seed 32)

module _ (e : Env) where
  unfoldable pub read_named : Str → M (Result Str)
  read_named p = do r ← read_path e p; pure (file_text r)

  module _ (c : Crypto) where
    -- `verify`
    unfoldable pub verify_file : Str → Str → Str → M Done
    unfolding signature_matches
    verify_file key path sig =
        if str_eq key [] || (str_eq path [] || str_eq sig [])
        then pure (err (codes "verify needs -pub, -in and -sig"))
        else (pure (decode c key 32) >>? λ pub_key. read_named path >>? λ msg.
            read_named sig >>? λ raw. pure (signature_matches c pub_key msg (decode c raw 64)))

  module _ (c : Crypto) (k : Signer) where
    -- `sign`
    unfoldable pub sign_file : Str → Str → Str → M Done
    sign_file key path out =
        if str_eq key [] || (str_eq path [] || str_eq out [])
        then pure (err (codes "sign needs -key, -in and -out"))
        else (pure (decode c key 32) >>? λ seed.
            read_named path >>? λ msg. write_path e out (k.encode (k.sign seed msg) ++ (10 ∷ [])))

module _ (c : Crypto) (k : Signer) (laws : SignerLaws c k) where
  public_key-encode :
      (seed : Str)
      → length seed ≡ 32
      → public_key c k (k.encode seed) ≡ ok (k.encode (k.public_of seed))
  unfolding public_key decode
  public_key-encode seed h =
      rw (trim_space-bare (k.encode seed) (laws.encode-NoSpace seed), laws.base64-encode seed, h)
        refl

  keys_of-public_key :
      (o : Option Str) (seed pub_key : Str)
      → k.generate ≡ o
      → keys_of c k o ≡ some (seed, pub_key)
      → public_key c k seed ≡ ok pub_key
  keys_of-public_key none seed pub_key g h = cc
  keys_of-public_key (some raw) seed pub_key g h =
      ground (arith, public_key-encode raw (laws.length-generate raw g))

  -- What keygen prints belongs together: pubkey turns the seed into the public key.
  pub keygen-public_key :
      (seed pub_key : Str) → keygen c k ≡ some (seed, pub_key) → public_key c k seed ≡ ok pub_key
  unfolding keygen
  keygen-public_key seed pub_key h = keys_of-public_key k.generate seed pub_key refl h

  pub sign-accepted :
      (seed msg : Str)
      → verify_signature c msg
          (k.encode (k.sign seed msg) ++ (10 ∷ []))
          (k.encode (k.public_of seed))
        ≡ true
  unfolding verify_signature
  sign-accepted seed msg =
      rw
        (
          trim_space-line (k.encode (k.sign seed msg)) (laws.encode-NoSpace _),
          trim_space-bare (k.encode (k.public_of seed)) (laws.encode-NoSpace _),
          laws.base64-encode (k.sign seed msg),
          laws.base64-encode (k.public_of seed),
          laws.length-sign seed msg,
          laws.length-public_of seed,
        )
        (laws.verify-sign seed msg)

module _ (e : Env) (c : Crypto) where
  -- Where the three flags are given and both files can be read, imgtool verify accepts exactly the
  -- signatures that the program itself accepts with VerifySignature before it imports an image.
  pub verify_file-verify_signature :
      (key path sig msg raw : Str) (w : World)
      → (str_eq key [] || (str_eq path [] || str_eq sig [])) ≡ false
      → w.files path ≡ some msg
      → w.files sig ≡ some raw
      → (e.reply w.trace (read_file path)).ok ≡ true
      → (e.reply (read_file path ∷ w.trace) (read_file sig)).ok ≡ true
      → is_ok (verify_file e c key path sig w).0 ≡ verify_signature c msg raw key
  unfolding verify_file verify_signature decode read_named read_path ask pure next_of ◌>>=◌ ◌>>?◌
  verify_file-verify_signature key path sig msg raw w given hm hr am ar = ground arith
