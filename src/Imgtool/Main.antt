-- ===== src/Imgtool/Main.antt =====
-- `main` of scripts/image/imgtool/main.go and its commands with their flags. Package flag is the
-- parameter `FlagParser`: the name of a flag set, the flags that it declares, all of them texts with
-- the default "", and the arguments give the flags' values and the arguments that are left, or an
-- error.
use dockup.Base.{
  ℕ, ◌≡◌, refl, true, false, ◌||◌, Option, none, some, List, [], ◌∷◌, Str, codes, str_eq,
  if◌then◌else◌,
}
use dockup.Env.{Env, read_file}
use dockup.Io.{World, M, pure, ◌>>=◌, ◌>>?◌, next_of, Result, ok, err, is_ok, Done}
use dockup.Image.Verify.{Crypto, verify_signature}
use dockup.Imgtool.{
  Signer, keygen, public_key, sign_file, verify_file, verify_file-verify_signature,
}

abbrev pub FlagParser : Type 0
FlagParser = Str → List Str → List Str → Option ((Str → Str) × List Str)

-- `parse`
unfoldable pub parsed : Option ((Str → Str) × List Str) → Result (Str → Str)
parsed none = err (codes "flag")
parsed (some (value, [])) = ok value
parsed (some (value, arg ∷ more)) = err (codes "unexpected arguments")

unfoldable pub done_of : Option (Str × Str) → Done
done_of none = err (codes "rand")
done_of (some keys) = ok tt

unfoldable pub told_of : Result Str → Done
told_of (err m) = err m
told_of (ok text) = ok tt

unfoldable pub exit_of : Done → ℕ
exit_of d = if is_ok d then 0 else 1

module _ (e : Env) (c : Crypto) (k : Signer) (flags : FlagParser) where
  unfoldable pub pubkey_command : List Str → M Done
  pubkey_command args = pure (parsed (flags (codes "pubkey") (codes "key" ∷ []) args)) >>? λ value.
      pure (told_of (public_key c k (value (codes "key"))))

  unfoldable pub sign_command : List Str → M Done
  sign_command args =
      pure (parsed (flags (codes "sign") (codes "key" ∷ codes "in" ∷ codes "out" ∷ []) args))
      >>? λ value. sign_file e c k (value (codes "key")) (value (codes "in")) (value (codes "out"))

  unfoldable pub verify_command : List Str → M Done
  verify_command args =
      pure (parsed (flags (codes "verify") (codes "pub" ∷ codes "in" ∷ codes "sig" ∷ []) args))
      >>? λ value. verify_file e c (value (codes "pub")) (value (codes "in")) (value (codes "sig"))

  unfoldable pub exiting : M Done → M ℕ
  exiting m = do d ← m; pure (exit_of d)

  -- `main`, given the arguments after the program's name: the exit code
  unfoldable pub imgtool_main : List Str → M ℕ
  imgtool_main [] = pure 2
  imgtool_main (word ∷ args) =
      if str_eq word (codes "keygen")
      then pure (exit_of (done_of (keygen c k)))
      else if str_eq word (codes "pubkey")
      then exiting (pubkey_command args)
      else if str_eq word (codes "sign")
      then exiting (sign_command args)
      else if str_eq word (codes "verify")
      then exiting (verify_command args)
      else if str_eq word (codes "help")
          || (str_eq word (codes "-h") || str_eq word (codes "--help"))
      then pure 0
      else pure 2

  -- Where package flag reads the three flags of imgtool verify, all of them given, off its arguments
  -- with nothing left over, and both files can be read, imgtool exits with 0 for exactly the
  -- signatures that the program itself accepts with VerifySignature before it imports an image, and
  -- with 1 for all others.
  pub imgtool_main-verify_signature :
      (args : List Str) (value : Str → Str) (msg raw : Str) (w : World)
      → flags (codes "verify") (codes "pub" ∷ codes "in" ∷ codes "sig" ∷ []) args ≡ some (value, [])
      → (str_eq (value (codes "pub")) []
          || (str_eq (value (codes "in")) [] || str_eq (value (codes "sig")) []))
        ≡ false
      → w.files (value (codes "in")) ≡ some msg
      → w.files (value (codes "sig")) ≡ some raw
      → (e.reply w.trace (read_file (value (codes "in")))).ok ≡ true
      → (e.reply (read_file (value (codes "in")) ∷ w.trace) (read_file (value (codes "sig")))).ok
        ≡ true
      → (imgtool_main (codes "verify" ∷ args) w).0
        ≡ (if verify_signature c msg raw (value (codes "pub")) then 0 else 1)
  unfolding imgtool_main exiting verify_command parsed exit_of str_eq pure next_of ◌>>=◌ ◌>>?◌
  imgtool_main-verify_signature args value msg raw w p given hm hr am ar =
      rw
        (
          p,
          verify_file-verify_signature e c (value (codes "pub")) (value (codes "in"))
              (value (codes "sig")) msg raw w given hm hr am ar,
        )
        refl
