-- ===== src/Image/Outcome.antt =====
-- `EnsureWithKey` of internal/image/image.go from its first call to its result.
use dockup.Base.{◌≡◌, refl, Bool, not, Str, codes}
use dockup.Env.{Env, mkdir}
use dockup.Records.{Meta}
use dockup.Io.{World, M, pure, ◌>>=◌, Result, ok, err, is_ok, attempt}
use dockup.Image.Verify.{Crypto}
use dockup.Image.Cache.{Paths, Chosen, is_arch, paths_for, verify_cache, choose, ensure_with_key}
use dockup.Image.Triple.{Ensures}
use dockup.Image.Trust.{InPlace}
use dockup.Image.Ensure.{Laid, Apart, Verified}
use dockup.Image.Ensured.{Kept, if-Ensures, verify_cache-Ensures, choose-Ensures}

failure-Ensures :
    {A : Type 0} {P : World → Type 0} {Q : A → World → Type 0} (message : Str)
    → Ensures P (pure (err message)) Q
unfolding pure
failure-Ensures message = record { at = λ w p a h. cc }

after-Ensures :
    {A B : Type 0} {Q : B → World → Type 0} (m : M A) (f : A → M (Result B))
    → ((a : A) → Ensures (λ _. Unit) (f a) Q)
    → Ensures (λ _. Unit) (m >>= f) Q
unfolding ◌>>=◌
after-Ensures m f hf = record { at = λ w u. (hf (m w).0).at (m w).1 tt }

module _ (e : Env) (c : Crypto) (key : Str) where
  paths_for-Laid : (root arch : Str) → Apart (paths_for e root arch) → Laid (paths_for e root arch)
  unfolding paths_for
  paths_for-Laid root arch h = record { checksum = refl; signature = refl; apart = h }

  module _ (p : Paths) (laid : Laid p) (arch : Str) (refresh : Bool) where
    -- The cache's verdict is what the choice may keep.
    cached-Kept :
        (r : Result Meta) (w : World)
        → ((m : Meta) → r ≡ ok m → Verified e c key p laid w)
        → Kept e c key p laid r w
    cached-Kept (ok m) w h = h m refl
    cached-Kept (err why) w h = tt

    chosen-Ensures :
        Ensures
          (λ _. Unit)
          (verify_cache e c key p arch >>= λ cached. choose e c key p arch refresh cached)
          (λ _. Verified e c key p laid)
    unfolding ◌>>=◌
    chosen-Ensures = record {
      at = λ w u r h.
          let seen = verify_cache e c key p arch w in
          (choose-Ensures e c key p laid arch refresh seen.0).at seen.1
            (cached-Kept seen.0 seen.1 ((verify_cache-Ensures e c key p laid arch).at w tt)) r h;
    }

  whole-Ensures :
      (root arch : Str) (refresh : Bool) (laid : Laid (paths_for e root arch))
      → Ensures
          (λ _. Unit)
          (ensure_with_key e c key root arch refresh)
          (λ _. Verified e c key (paths_for e root arch) laid)
  unfolding ensure_with_key
  whole-Ensures root arch refresh laid =
      let p = paths_for e root arch in
      if-Ensures e c key p laid (not (is_arch arch)) _ _ (failure-Ensures _) (
        after-Ensures (attempt e (mkdir p.dir) (codes "create image cache")) _ λ made.
          if-Ensures e c key p laid (not (is_ok made)) _ _ (failure-Ensures _)
            (chosen-Ensures p laid arch refresh))

  -- Where EnsureWithKey reports no error for any architecture, cached or refreshed, the tar, the
  -- checksum file and the signature at its paths are there, the signature is one of the checksum
  -- file under the release key, and the tar has the SHA-256 that the checksum file names. The
  -- metadata file and its temporary copy are no one of the three.
  pub ensure_with_key-verified :
      (root arch : Str) (refresh : Bool) (w : World) (r : Chosen)
      → Apart (paths_for e root arch)
      → (ensure_with_key e c key root arch refresh w).0 ≡ ok r
      → InPlace c key
          (paths_for e root arch).tar
          (paths_for e root arch).checksum
          (paths_for e root arch).signature
          (ensure_with_key e c key root arch refresh w).1.files
  ensure_with_key-verified root arch refresh w r apart =
      (whole-Ensures root arch refresh (paths_for-Laid root arch apart)).at w tt r
