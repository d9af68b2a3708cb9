-- ===== src/Imgtool/Signing.antt =====
-- What `imgtool sign` leaves is accepted.
use dockup.Base.{
  ◌≡◌, refl, true, Bool-cases, inl, inr, ◌||◌, some, [], ◌∷◌, ◌++◌, Str, arith, str_eq, str_eq_refl,
}
use dockup.Env.{Env}
use dockup.Io.{
  World, pure, ◌>>=◌, ◌>>?◌, next_of, Result, ok, err, is_ok, ask, read_path, write_path,
}
use dockup.Image.Verify.{Crypto, verify_signature}
use dockup.Imgtool.{Signer, SignerLaws, decode, public_key, read_named, sign_file, sign-accepted}

module _ (e : Env) (c : Crypto) (k : Signer) (laws : SignerLaws c k) (key path out : Str) where
  -- A signature is left in `out`, of the text in `path`, that the public key of the seed accepts.
  Signs : World → World → Type 0
  Signs before after =
      (msg pub_key text : Str) × (before.files path ≡ some msg)
      × (after.files out ≡ some text)
      × (public_key c k key ≡ ok pub_key)
      × (verify_signature c msg text pub_key ≡ true)

  read_named-content :
      (w : World) (msg : Str) → (read_named e path w).0 ≡ ok msg → w.files path ≡ some msg
  unfolding read_named read_path ask pure ◌>>=◌
  read_named-content w msg h = ground arith

  written :
      (w : World) (text : Str)
      → is_ok (write_path e out text w).0 ≡ true
      → (write_path e out text w).1.files out ≡ some text
  unfolding write_path ask
  written w text h = ground (arith, str_eq_refl out)

  read-Signs :
      (w : World) (seed : Str) (r : Result Str) (w' : World)
      → decode c key 32 ≡ ok seed
      → (read_named e path w).0 ≡ r
      → is_ok (next_of (λ msg. write_path e out (k.encode (k.sign seed msg) ++ (10 ∷ []))) r w').0
        ≡ true
      → Signs w (next_of (λ msg. write_path e out (k.encode (k.sign seed msg) ++ (10 ∷ []))) r w').1
  unfolding next_of pure Signs public_key
  read-Signs w seed (err m) w' d r h = absurd cc
  read-Signs w seed (ok msg) w' d r h = (
    msg,
    k.encode (k.public_of seed),
    k.encode (k.sign seed msg) ++ (10 ∷ []),
    read_named-content w msg r,
    written w' (k.encode (k.sign seed msg) ++ (10 ∷ [])) h,
    rw d refl,
    sign-accepted c k laws seed msg,
  )

  seed-Signs :
      (r : Result Str) (w : World)
      → decode c key 32 ≡ r
      → is_ok
          (next_of
            (λ seed. read_named e path >>? λ msg.
              write_path e out (k.encode (k.sign seed msg) ++ (10 ∷ [])))
            r
            w).0
        ≡ true
      → Signs w
          (next_of
            (λ seed. read_named e path >>? λ msg.
              write_path e out (k.encode (k.sign seed msg) ++ (10 ∷ [])))
            r
            w).1
  unfolding next_of pure ◌>>?◌ ◌>>=◌
  seed-Signs (err m) w d h = absurd cc
  seed-Signs (ok seed) w d h =
      read-Signs w seed (read_named e path w).0 (read_named e path w).1 d refl h

  -- Where imgtool sign reports no error, the file that it has written holds a signature of the text
  -- that it has read, and the program's own VerifySignature accepts it under the public key that
  -- imgtool pubkey prints for the seed.
  pub sign_file-verify_signature :
      (w : World)
      → is_ok (sign_file e c k key path out w).0 ≡ true
      → (msg pub_key text : Str) × (w.files path ≡ some msg)
        × ((sign_file e c k key path out w).1.files out ≡ some text)
        × (public_key c k key ≡ ok pub_key)
        × (verify_signature c msg text pub_key ≡ true)
  unfolding sign_file Signs pure ◌>>?◌ ◌>>=◌
  sign_file-verify_signature w h =
      elim (Bool-cases (str_eq key [] || (str_eq path [] || str_eq out []))) [
        | inl missing ↦ absurd (ground (arith, missing))
        | inr given ↦ rw given (seed-Signs (decode c key 32) w refl (ground (arith, given)))
      ]
