-- ===== src/Image/Location.antt =====
-- Where the image that `EnsureWithKey` of internal/image/image.go chooses stands: always at its path.
use dockup.Base.{◌≡◌, Bool, true, false, Str, if◌then◌else◌}
use dockup.Env.{Env}
use dockup.Records.{Meta}
use dockup.Io.{World, M, pure, ◌>>=◌, ◌>>?◌, Result, ok, err}
use dockup.Image.Verify.{Crypto}
use dockup.Image.Cache.{
  Paths, Chosen, paths_for, store, download_image, use_cached, refreshed, then_clean,
  fetch_and_choose, choose, ensure_with_key,
}
use dockup.Image.Triple.{Ensures, Ensures-then}
use dockup.Image.Ensure.{nothing-Ensures}

-- The chosen tar is that of the paths.
abbrev pub AtTar : Paths → Chosen → World → Type 0
AtTar p img w = img.tar ≡ p.tar

Located : Paths → M (Result Chosen) → Type 0
Located p m = Ensures (λ _. Unit) m (AtTar p)

Located-if :
    (p : Paths) (b : Bool) (m k : M (Result Chosen))
    → Located p m
    → Located p k
    → Located p (if b then m else k)
Located-if p true m k hm hk = hm
Located-if p false m k hm hk = hk

Located-err : (p : Paths) (message : Str) → Located p (pure (err message))
unfolding Located pure
Located-err p message = record { at = λ w u r h. cc }

-- What comes before the choice, and what is done after it, does not matter.
Located-bind :
    {A : Type 0} (p : Paths) (m : M A) (f : A → M (Result Chosen))
    → ((a : A) → Located p (f a))
    → Located p (m >>= f)
unfolding Located ◌>>=◌
Located-bind p m f hf = record { at = λ w u. (hf (m w).0).at (m w).1 tt }

Located-then :
    {A : Type 0} (p : Paths) (m : M (Result A)) (f : A → M (Result Chosen))
    → ((a : A) → Located p (f a))
    → Located p (m >>? f)
unfolding Located
Located-then p m f hf = Ensures-then m f (nothing-Ensures m) hf

Located-ok : (p : Paths) (r : Chosen) → r.tar ≡ p.tar → Located p (pure (ok r))
unfolding Located pure
Located-ok p r at = record { at = λ w u r' h. cc }

ruleset located_rules = (Located-if, Located-err, Located-ok, Located-bind, Located-then)

module _ (e : Env) (c : Crypto) (key : Str) (p : Paths) where
  use_cached-Located : (m : Meta) → Located p (use_cached e c key p m)
  unfolding use_cached
  use_cached-Located m = search located_rules

  store-Located : (arch sum : Str) → Located p (store e c key p arch sum)
  unfolding store
  store-Located arch sum = search located_rules depth 12

  -- What is done after a choice does not change it.
  download_image-Located : (arch sum : Str) → Located p (download_image e c key p arch sum)
  unfolding download_image Located ◌>>=◌ pure
  download_image-Located arch sum = record { at = λ w u r h. (store-Located arch sum).at w tt r h }

  then_clean-Located : (m : M (Result Chosen)) → Located p m → Located p (then_clean e c key p m)
  unfolding then_clean Located ◌>>=◌ pure
  then_clean-Located m hm = record { at = λ w u r h. hm.at w tt r h }

  refreshed-Located :
      (arch : Str) (cached : Result Meta) (sum : Str)
      → Located p (refreshed e c key p arch cached sum)
  unfolding refreshed
  refreshed-Located arch (err why) sum = download_image-Located arch sum
  refreshed-Located arch (ok m) sum =
      search (located_rules, use_cached-Located, download_image-Located)

  fetch_and_choose-Located :
      (arch : Str) (cached : Result Meta) → Located p (fetch_and_choose e c key p arch cached)
  unfolding fetch_and_choose
  fetch_and_choose-Located arch cached =
      Located-then p _ _ λ sum. then_clean-Located _ (refreshed-Located arch cached sum)

  choose-Located :
      (arch : Str) (refresh : Bool) (cached : Result Meta)
      → Located p (choose e c key p arch refresh cached)
  unfolding choose
  choose-Located arch refresh (err why) = fetch_and_choose-Located arch (err why)
  choose-Located arch refresh (ok m) =
      search (located_rules, use_cached-Located, fetch_and_choose-Located)

-- The tar that is chosen is the one at the paths of the root and the architecture.
pub ensure_with_key-AtTar :
    (e : Env) (c : Crypto) (key root arch : Str) (refresh : Bool) (w : World) (img : Chosen)
    → (ensure_with_key e c key root arch refresh w).0 ≡ ok img
    → img.tar ≡ (paths_for e root arch).tar
unfolding ensure_with_key Located
ensure_with_key-AtTar e c key root arch refresh w img h = located.at w tt img h
  where
    located : Located (paths_for e root arch) (ensure_with_key e c key root arch refresh)
    located = search (located_rules, choose-Located) depth 10
