-- ===== src/Image/FetchLaws.antt =====
-- The checksum and signature that `fetchVerifiedChecksum` leaves beside each other are signed.
use dockup.Base.{◌≡◌, refl, Str}
use dockup.Env.{Env}
use dockup.Io.{World, M, pure, ◌>>=◌, Result, ok, err}
use dockup.Download.{fetch}
use dockup.Config.{image_checksum_url, image_signature_url}
use dockup.Image.Verify.{Crypto}
use dockup.Image.Cache.{
  Paths, part, verify_signature_file, parse_checksum_file, or_clean, fetch_verified_checksum,
}
use dockup.Image.Triple.{Ensures, Ensures-then}
use dockup.Image.Trust.{On, Signed, verify_signature_file-Ensures, Signed-frame}
use dockup.Image.Ensure.{Laid, Fetched, nothing-Ensures, parse_checksum_file-Untouched}

module _ (e : Env) (c : Crypto) (key : Str) (p : Paths) (laid : Laid p) where
  pub parse_checksum_file-Ensures :
      (b d q : Str)
      → Ensures (On (Signed c key b d)) (parse_checksum_file e c key q) (λ _. On (Signed c key b d))
  parse_checksum_file-Ensures b d q =
      Signed-frame c key e b d _ (parse_checksum_file-Untouched e c key b q)
        (parse_checksum_file-Untouched e c key d q)

  or_clean-at :
      (r : Result Str) (w : World)
      → ((a : Str) → r ≡ ok a → Fetched e c key p laid w)
      → (a : Str) → (or_clean e c key p r w).0 ≡ ok a
      → Fetched e c key p laid (or_clean e c key p r w).1
  unfolding or_clean pure ◌>>=◌
  or_clean-at (ok b) w h a r = h b refl
  or_clean-at (err m) w h a r = cc

  -- Where the checksum was fetched without an error, the two files beside it are signed.
  or_clean-Ensures :
      (m : M (Result Str))
      → Ensures (λ _. Unit) m (λ _. Fetched e c key p laid)
      → Ensures (λ _. Unit) (m >>= or_clean e c key p) (λ _. Fetched e c key p laid)
  unfolding ◌>>=◌ or_clean pure
  or_clean-Ensures m h = record {
    at = λ w u a r. or_clean-at (m w).0 (m w).1 (λ b q. h.at w tt b q) a r;
  }

  pub fetch_verified_checksum-Ensures :
      (arch : Str)
      → Ensures (λ _. Unit) (fetch_verified_checksum e c key p arch) (λ _. Fetched e c key p laid)
  unfolding fetch_verified_checksum
  fetch_verified_checksum-Ensures arch = or_clean-Ensures _ (
      Ensures-then (fetch e (image_checksum_url e arch) (part p.checksum)) _ (nothing-Ensures _)
        λ _.
          Ensures-then (fetch e (image_signature_url e arch) (part p.signature)) _
            (nothing-Ensures _)
            λ _.
              Ensures-then (verify_signature_file e c key (part p.checksum) (part p.signature)) _
                (verify_signature_file-Ensures c key e (part p.checksum) (part p.signature))
                λ _.
                  parse_checksum_file-Ensures (part p.checksum) (part p.signature)
                    (part p.checksum))
