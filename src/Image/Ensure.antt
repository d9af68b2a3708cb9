-- ===== src/Image/Ensure.antt =====
-- `EnsureWithKey` leaves a verified image in place wherever it reports no error.
use dockup.Base.{
  ◌≡◌, ◌∙◌, refl, sym, ap, false, [], Str, codes, ◌++◌, arith, append_assoc, append-nil, str_eq,
  str_eq-append,
}
use dockup.Env.{Env, now}
use dockup.Records.{Meta}
use dockup.Io.{World, M, remove_path, read_path, pure, ◌>>=◌, ◌>>?◌, next_of, Result, ok, ask}
use dockup.Download.{fetch}
use dockup.Config.{image_url}
use dockup.Image.Verify.{Crypto}
use dockup.Image.Cache.{
  Paths, Chosen, part, text_of, read_text, install_file, write_meta, parse_checksum_file,
  verify_checksum_file, new_meta, store, download_image,
}
use dockup.Image.Triple.{
  Ensures, Ensures-then, Untouched, remove_path-Untouched, fetch-Untouched, write_meta-Untouched,
}
use dockup.Image.Trust.{
  On, Signed, InPlace, verify_checksum_file-Ensures, Signed-frame, InPlace-frame, move_tar,
  move_checksum, move_signature,
}

-- Two files whose names extend one name differently are two files.
pub suffixed : (t s u p q : Str) → p ≡ t ++ s → q ≡ t ++ u → str_eq s u ≡ false → str_eq p q ≡ false
suffixed t s u p q hp hq ne =
    ap (λ p. str_eq p q) hp ∙ ap (str_eq (t ++ s)) hq ∙ str_eq-append t s u ∙ ne

-- The metadata file and its temporary copy are none of the three files of the image.
pub record Apart (p : Paths) : Type 0 where
  pub tar : str_eq p.tar p.meta ≡ false
  pub checksum : str_eq p.checksum p.meta ≡ false
  pub signature : str_eq p.signature p.meta ≡ false
  pub tmp_tar : str_eq p.tar (p.meta ++ codes ".tmp") ≡ false
  pub tmp_checksum : str_eq p.checksum (p.meta ++ codes ".tmp") ≡ false
  pub tmp_signature : str_eq p.signature (p.meta ++ codes ".tmp") ≡ false

-- The three files of an image stand at one name and its extensions, away from the metadata.
pub record Laid (p : Paths) : Type 0 where
  pub checksum : p.checksum ≡ p.tar ++ codes ".sha256"
  pub signature : p.signature ≡ p.tar ++ codes ".sig"
  pub apart : Apart p

-- A program that only reports what an earlier one found keeps what it ensured.
pub finally-Ensures :
    {A B : Type 0} {P : World → Type 0} {Q : A → World → Type 0} (m : M (Result A)) (k : M B)
    → Ensures P m Q
    → ((a : A) (w : World) → Q a w → Q a (k w).1)
    → Ensures P (m >>= λ r. k >>= λ _. pure r) Q
unfolding ◌>>=◌ pure
finally-Ensures m k hm keep = record { at = λ w p a r. keep a (m w).1 (hm.at w p a r) }

pub weaken-Ensures :
    {A : Type 0} {P P' : World → Type 0} {Q : A → World → Type 0} {m : M (Result A)}
    → Ensures P m Q
    → ((w : World) → P' w → P w)
    → Ensures P' m Q
weaken-Ensures h f = record { at = λ w p a r. h.at w (f w p) a r }

pub nothing-Ensures :
    {A : Type 0} {P : World → Type 0} (m : M (Result A)) → Ensures P m (λ _ _. Unit)
nothing-Ensures m = record { at = λ w p a r. tt }

pub done-Ensures : {A : Type 0} {P : World → Type 0} (a : A) → Ensures P (pure (ok a)) (λ _. P)
unfolding pure
done-Ensures a = record { at = λ w p b r. p }

pub parse_checksum_file-Untouched :
    (e : Env) (c : Crypto) (key : Str) (x q : Str) → Untouched x (parse_checksum_file e c key q)
unfolding parse_checksum_file read_text read_path text_of next_of ◌>>?◌ ◌>>=◌ pure ask
parse_checksum_file-Untouched e c key x q = record { at = λ w. ground arith }

module _ (e : Env) (c : Crypto) (key : Str) (p : Paths) (laid : Laid p) where
  pub base_tar : p.tar ≡ p.tar ++ []
  base_tar = sym (append-nil p.tar)

  pub part_checksum : part p.checksum ≡ p.tar ++ codes ".sha256.part"
  part_checksum =
      ap (λ s. s ++ codes ".part") laid.checksum
      ∙ append_assoc p.tar (codes ".sha256") (codes ".part")

  pub part_signature : part p.signature ≡ p.tar ++ codes ".sig.part"
  part_signature =
      ap (λ s. s ++ codes ".part") laid.signature
      ∙ append_assoc p.tar (codes ".sig") (codes ".part")

  abbrev pub Verified : World → Type 0
  Verified = On (InPlace c key p.tar p.checksum p.signature)

  abbrev pub Fetched : World → Type 0
  Fetched = On (Signed c key (part p.checksum) (part p.signature))

  -- The removal of a temporary file leaves the three files in place.
  pub clean_checksum-Verified :
      (w : World) → Verified w → Verified (remove_path e (part p.checksum) w).1
  unfolding str_eq
  clean_checksum-Verified w =
      InPlace-frame c key e p.tar p.checksum p.signature (remove_path e (part p.checksum)) w
        (remove_path-Untouched p.tar e _
          (suffixed p.tar [] (codes ".sha256.part") _ _ base_tar part_checksum refl))
        (remove_path-Untouched p.checksum e _ (
          suffixed p.tar (codes ".sha256") (codes ".sha256.part") _ _ laid.checksum part_checksum
            refl))
        (remove_path-Untouched p.signature e _ (
          suffixed p.tar (codes ".sig") (codes ".sha256.part") _ _ laid.signature part_checksum
            refl))

  pub clean_signature-Verified :
      (w : World) → Verified w → Verified (remove_path e (part p.signature) w).1
  unfolding str_eq
  clean_signature-Verified w =
      InPlace-frame c key e p.tar p.checksum p.signature (remove_path e (part p.signature)) w
        (remove_path-Untouched p.tar e _
          (suffixed p.tar [] (codes ".sig.part") _ _ base_tar part_signature refl))
        (remove_path-Untouched p.checksum e _ (
          suffixed p.tar (codes ".sha256") (codes ".sig.part") _ _ laid.checksum part_signature
            refl))
        (remove_path-Untouched p.signature e _ (
          suffixed p.tar (codes ".sig") (codes ".sig.part") _ _ laid.signature part_signature refl))

  clean_tar-Verified : (w : World) → Verified w → Verified (remove_path e (part p.tar) w).1
  unfolding str_eq
  clean_tar-Verified w =
      InPlace-frame c key e p.tar p.checksum p.signature (remove_path e (part p.tar)) w
        (remove_path-Untouched p.tar e _ (suffixed p.tar [] (codes ".part") _ _ base_tar refl refl))
        (remove_path-Untouched p.checksum e _
          (suffixed p.tar (codes ".sha256") (codes ".part") _ _ laid.checksum refl refl))
        (remove_path-Untouched p.signature e _
          (suffixed p.tar (codes ".sig") (codes ".part") _ _ laid.signature refl refl))

  -- The metadata is written beside the three files.
  write_meta-Verified : (m : Meta) → Ensures Verified (write_meta e p.meta m) (λ _. Verified)
  write_meta-Verified m = record {
    at = λ w h u r.
        InPlace-frame c key e p.tar p.checksum p.signature (write_meta e p.meta m) w
          (write_meta-Untouched p.tar e p.meta m laid.apart.tar laid.apart.tmp_tar)
          (write_meta-Untouched p.checksum e p.meta m laid.apart.checksum laid.apart.tmp_checksum)
          (write_meta-Untouched p.signature e p.meta m laid.apart.signature
            laid.apart.tmp_signature)
          h;
  }

  abbrev fresh : Str → Chosen
  fresh sum = record { tar = p.tar; cached = false; sha256 = sum }

  stamp-Ensures :
      (arch sum : Str)
      → Ensures Verified
          (ask e now >>= λ at.
            write_meta e p.meta (new_meta e c key arch sum at.out) >>? λ _. pure (ok (fresh sum)))
          (λ _. Verified)
  unfolding ◌>>=◌ ask
  stamp-Ensures arch sum = record {
    at = λ w h a r.
        (Ensures-then (write_meta e p.meta (new_meta e c key arch sum (e.reply w.trace now).out)) _
            (write_meta-Verified _) (λ _. done-Ensures _)).at
          (ask e now w).1 h a r;
  }

  -- Where a download is stored without an error, the verified files are in place.
  store-Ensures : (arch sum : Str) → Ensures Fetched (store e c key p arch sum) (λ _. Verified)
  unfolding store str_eq
  store-Ensures arch sum =
      Ensures-then (fetch e (image_url e arch) (part p.tar)) _
        (Signed-frame c key e (part p.checksum) (part p.signature) _
          (fetch-Untouched (part p.checksum) e _ _
            (suffixed p.tar (codes ".sha256.part") (codes ".part") _ _ part_checksum refl refl))
          (fetch-Untouched (part p.signature) e _ _
            (suffixed p.tar (codes ".sig.part") (codes ".part") _ _ part_signature refl refl)))
        λ _.
          Ensures-then (verify_checksum_file e c key (part p.tar) (part p.checksum)) _
            (verify_checksum_file-Ensures c key e (part p.tar) (part p.checksum) (part p.signature))
            λ _.
              Ensures-then (install_file e (part p.tar) p.tar) _
                (move_tar c key e (part p.tar) p.tar (part p.checksum) (part p.signature)
                  (suffixed p.tar (codes ".part") [] _ _ refl base_tar refl)
                  (suffixed p.tar (codes ".sha256.part") (codes ".part") _ _ part_checksum refl
                    refl)
                  (suffixed p.tar (codes ".sha256.part") [] _ _ part_checksum base_tar refl)
                  (suffixed p.tar (codes ".sig.part") (codes ".part") _ _ part_signature refl refl)
                  (suffixed p.tar (codes ".sig.part") [] _ _ part_signature base_tar refl))
                λ _.
                  Ensures-then (install_file e (part p.checksum) p.checksum) _
                    (move_checksum c key e p.tar (part p.checksum) p.checksum (part p.signature)
                      (suffixed p.tar (codes ".sha256.part") (codes ".sha256") _ _ part_checksum
                        laid.checksum refl)
                      (suffixed p.tar [] (codes ".sha256.part") _ _ base_tar part_checksum refl)
                      (suffixed p.tar [] (codes ".sha256") _ _ base_tar laid.checksum refl)
                      (suffixed p.tar (codes ".sig.part") (codes ".sha256.part") _ _ part_signature
                        part_checksum refl)
                      (suffixed p.tar (codes ".sig.part") (codes ".sha256") _ _ part_signature
                        laid.checksum refl))
                    λ _.
                      Ensures-then (install_file e (part p.signature) p.signature) _
                        (move_signature c key e p.tar p.checksum (part p.signature) p.signature
                          (suffixed p.tar (codes ".sig.part") (codes ".sig") _ _ part_signature
                            laid.signature refl)
                          (suffixed p.tar [] (codes ".sig.part") _ _ base_tar part_signature refl)
                          (suffixed p.tar [] (codes ".sig") _ _ base_tar laid.signature refl)
                          (suffixed p.tar (codes ".sha256") (codes ".sig.part") _ _ laid.checksum
                            part_signature refl)
                          (suffixed p.tar (codes ".sha256") (codes ".sig") _ _ laid.checksum
                            laid.signature refl))
                        λ _. stamp-Ensures arch sum

  pub download_image-Ensures :
      (arch sum : Str) → Ensures Fetched (download_image e c key p arch sum) (λ _. Verified)
  unfolding download_image
  download_image-Ensures arch sum =
      finally-Ensures (store e c key p arch sum) (remove_path e (part p.tar))
        (store-Ensures arch sum) (λ a. clean_tar-Verified)
