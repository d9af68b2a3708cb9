-- ===== src/Setup/Trusted.antt =====
-- What `RunEx` of internal/setup/setup.go imports where it uses the prebuilt image.
use dockup.Base.{◌≡◌, ◌∙◌, refl, sym, subst, ap, true, false, Option, List, [], ◌∷◌, Str, arith}
use dockup.Env.{Call, Env, wsl_import, mkdir, stat}
use dockup.Io.{World, pure, ◌>>=◌, ◌>>?◌, next_of, Result, ok, err, Done, ask, attempt}
use dockup.Io.Keeps.{Keeps, Keeps-then, SameFiles, same_files_rules}
use dockup.Config.{distro_subdir}
use dockup.Wsl.Retry.{import_distro}
use dockup.Image.Verify.{Crypto}
use dockup.Image.Cache.{Chosen, paths_for, ensure_with_key}
use dockup.Image.Triple.{Ensures, Ensures-then}
use dockup.Image.Trust.{InPlace}
use dockup.Image.Ensure.{Apart}
use dockup.Image.Outcome.{ensure_with_key-verified}
use dockup.Image.Location.{ensure_with_key-AtTar}
use dockup.Setup.Install.{
  Source, second_source, from_image, import_rootfs, find_rootfs, place_rootfs,
}

module _ (e : Env) (c : Crypto) (key dir arch : Str) where
  -- A source that counts as the image is the tar of the cache, with the release's checksum and
  -- signature.
  pub Trusts : Source → (Str → Option Str) → Type 0
  Trusts src fs =
      src.image_used ≡ true
      → (src.tar ≡ (paths_for e dir arch).tar)
        × InPlace c key (paths_for e dir arch).tar (paths_for e dir arch).checksum
            (paths_for e dir arch).signature fs

  -- Without an image the source is none.
  second_source-plain :
      (d : Done) (w : World) (src : Source)
      → (second_source e arch d w).0 ≡ ok src
      → src.image_used ≡ false
  unfolding second_source ◌>>?◌ ◌>>=◌ next_of pure
  second_source-plain (ok u) w src h = cc
  second_source-plain (err m) w src h = ground arith

  from_image-Trusts :
      (img : Result Chosen) (w : World) (src : Source)
      → ((r : Chosen)
          → img ≡ ok r
          → (r.tar ≡ (paths_for e dir arch).tar)
            × InPlace c key
                (paths_for e dir arch).tar
                (paths_for e dir arch).checksum
                (paths_for e dir arch).signature
                w.files)
      → (from_image e arch img w).0 ≡ ok src
      → Trusts src (from_image e arch img w).1.files
  unfolding from_image pure ◌>>=◌ Trusts
  from_image-Trusts (ok r) w src place h used =
      let same : src.tar ≡ r.tar = ground (arith, h) in (same ∙ (place r refl).0, (place r refl).1)
  from_image-Trusts (err m) w src place h used = absurd (ground (arith, used, h, fetched_plain))
    where
      fetched_plain : src.image_used ≡ false
      fetched_plain = second_source-plain _ _ src h

  find_rootfs-Trusts :
      Apart (paths_for e dir arch)
      → Ensures (λ _. Unit) (find_rootfs e c key arch dir) (λ src w. Trusts src w.files)
  unfolding find_rootfs ◌>>=◌
  find_rootfs-Trusts apart = record {
    at = λ w u src h.
        let found = ensure_with_key e c key dir arch false w in
        from_image-Trusts found.0 found.1 src
          (λ r good. (
            ensure_with_key-AtTar e c key dir arch false w r good,
            ensure_with_key-verified e c key dir arch false w r apart good,
          ))
          h;
  }

  import-SameFiles :
      (src : Source) (fs : Str → Option Str) → Keeps (SameFiles fs) (import_rootfs e dir src)
  unfolding import_rootfs import_distro
  import-SameFiles src fs = search (same_files_rules, Keeps-then) depth 14

  -- The last call of an import that succeeds.
  Imported : Source → World → Type 0
  Imported src w =
      (t : List Call) × (w.trace ≡ wsl_import (e.join (dir ∷ distro_subdir ∷ [])) src.tar ∷ t)

  import-last :
      (src : Source) (w : World) (d : Unit)
      → (import_rootfs e dir src w).0 ≡ ok d
      → Imported src (import_rootfs e dir src w).1
  unfolding Imported import_rootfs import_distro attempt ask pure ◌>>?◌ ◌>>=◌ next_of
  import-last src w d h = (
    stat src.tar ∷ stat src.tar ∷ mkdir (e.join (dir ∷ distro_subdir ∷ [])) ∷ w.trace,
    ground (arith, h),
  )

  import-Imported :
      (src : Source)
      → Ensures
          (λ w. Trusts src w.files)
          (import_rootfs e dir src)
          (λ d w. Trusts src w.files × Imported src w)
  unfolding Imported
  import-Imported src = record {
    at = λ w trusts d h. (
      subst (Trusts src) (sym ((import-SameFiles src w.files).at w refl)) trusts,
      import-last src w d h,
    );
  }

  ok_inj : (a b : Source) → ◌≡◌ {A = Result Source} (ok a) (ok b) → a ≡ b
  ok_inj a b h = cc

  kept-Ensures :
      (src : Source)
      → Ensures
          (λ w. Trusts src w.files × Imported src w)
          (pure (ok src))
          (λ s w. Trusts s w.files × Imported s w)
  unfolding pure
  kept-Ensures src = record {
    at = λ w p s h. subst (λ s. Trusts s w.files × Imported s w) (ok_inj src s h) p;
  }

  placed-Ensures :
      Apart (paths_for e dir arch)
      → Ensures
          (λ _. Unit)
          (place_rootfs e c key arch dir)
          (λ src w. Trusts src w.files × Imported src w)
  unfolding place_rootfs
  placed-Ensures apart =
      Ensures-then _ _ (find_rootfs-Trusts apart)
        λ src. Ensures-then _ _ (import-Imported src) λ u. kept-Ensures src

  -- Where the download and the import report no error and the image was used, the last call has
  -- imported the tar at the cache's path, and the files there are the image, its checksum file and a
  -- signature of that under the release key, as they were at the import. The metadata file and its
  -- temporary copy are none of the three.
  pub place_rootfs-trusted :
      (w : World) (src : Source)
      → Apart (paths_for e dir arch)
      → (place_rootfs e c key arch dir w).0 ≡ ok src
      → src.image_used ≡ true
      → ((t : List Call) × ((place_rootfs e c key arch dir w).1.trace
            ≡ wsl_import (e.join (dir ∷ distro_subdir ∷ [])) (paths_for e dir arch).tar ∷ t))
        × InPlace c key
            (paths_for e dir arch).tar
            (paths_for e dir arch).checksum
            (paths_for e dir arch).signature
            (place_rootfs e c key arch dir w).1.files
  unfolding Trusts Imported
  place_rootfs-trusted w src apart h used =
      let (trusts, (t, last)) = (placed-Ensures apart).at w tt src h in
      let (at, in_place) = trusts used in
      ((t, last ∙ ap (λ tar. wsl_import (e.join (dir ∷ distro_subdir ∷ [])) tar ∷ t) at), in_place)
