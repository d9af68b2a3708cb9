-- ===== src/Image/Ensured.antt =====
-- `verifyCache` and `EnsureWithKey`: what holds of the files where they report no error.
use dockup.Base.{◌≡◌, refl, Bool, true, false, [], Str, codes, str_eq, equal_fold, if◌then◌else◌}
use dockup.Env.{Env}
use dockup.Records.{Meta}
use dockup.Io.{World, M, pure, ◌>>=◌, ◌>>?◌, next_of, Result, ok, err}
use dockup.Image.Verify.{Crypto}
use dockup.Image.Cache.{
  Paths, Chosen, part, read_text, verify_signature_file, verify_cache, or_clean, remove_parts,
  fetch_verified_checksum, use_cached, refreshed, then_clean, fetch_and_choose, choose,
}
use dockup.Image.Triple.{
  Ensures, Ensures-then, Untouched, Untouched-bind, Untouched-pure, fetch-Untouched,
  remove_path-Untouched, read_path-Untouched,
}
use dockup.Image.Trust.{InPlace-frame, verify_signature_file-Ensures, verify_checksum_file-Ensures}
use dockup.Image.FetchLaws.{parse_checksum_file-Ensures, fetch_verified_checksum-Ensures}
use dockup.Image.Ensure.{
  Laid, suffixed, base_tar, part_checksum, part_signature, parse_checksum_file-Untouched,
  weaken-Ensures, nothing-Ensures, done-Ensures, download_image-Ensures, clean_checksum-Verified,
  clean_signature-Verified, Verified, Fetched,
}

pure-Ensures : {A : Type 0} {P : World → Type 0} (r : Result A) → Ensures P (pure r) (λ _. P)
unfolding pure
pure-Ensures r = record { at = λ w p a h. p }

next_of-Untouched :
    {A B : Type 0} (x : Str) (f : A → M (Result B))
    → ((a : A) → Untouched x (f a))
    → (r : Result A) → Untouched x (next_of f r)
unfolding next_of
next_of-Untouched x f hf (ok a) = hf a
next_of-Untouched x f hf (err m) = Untouched-pure x (err m)

read_text-Untouched : (e : Env) (x q : Str) → Untouched x (read_text e q)
unfolding read_text
read_text-Untouched e x q =
    Untouched-bind x _ _ (read_path-Untouched x e q) (λ r. Untouched-pure x _)

Untouched-next :
    {A B : Type 0} (x : Str) (m : M (Result A)) (f : A → M (Result B))
    → Untouched x m
    → ((a : A) → Untouched x (f a))
    → Untouched x (m >>? f)
unfolding ◌>>?◌
Untouched-next x m f hm hf = Untouched-bind x m (next_of f) hm (next_of-Untouched x f hf)

verify_signature_file-Untouched :
    (e : Env) (c : Crypto) (key x b d : Str) → Untouched x (verify_signature_file e c key b d)
unfolding verify_signature_file
verify_signature_file-Untouched e c key x b d =
    Untouched-next x _ _ (read_text-Untouched e x b)
      λ m. Untouched-next x _ _ (read_text-Untouched e x d) λ s. Untouched-pure x _

module _ (e : Env) (c : Crypto) (key : Str) (p : Paths) (laid : Laid p) where
  pub verify_cache-Ensures :
      (arch : Str)
      → Ensures (λ _. Unit) (verify_cache e c key p arch) (λ _. Verified e c key p laid)
  unfolding verify_cache
  verify_cache-Ensures arch = Ensures-then _ _ (nothing-Ensures _) λ _.
      Ensures-then _ _ (nothing-Ensures _) λ _. Ensures-then _ _ (nothing-Ensures _) λ m.
        Ensures-then _ _ (nothing-Ensures _) λ _.
          Ensures-then _ _ (verify_signature_file-Ensures c key e p.checksum p.signature) λ _.
            Ensures-then _ _
              (parse_checksum_file-Ensures e c key p laid p.checksum p.signature p.checksum)
              λ sum. Ensures-then _ _ (pure-Ensures _) λ _.
                Ensures-then _ _ (verify_checksum_file-Ensures c key e p.tar p.checksum p.signature)
                  λ _. done-Ensures m

  or_clean-Untouched :
      (x : Str)
      → str_eq x (part p.checksum) ≡ false
      → str_eq x (part p.signature) ≡ false
      → (r : Result Str) → Untouched x (or_clean e c key p r)
  unfolding or_clean remove_parts
  or_clean-Untouched x nc ns (ok a) = Untouched-pure x (ok a)
  or_clean-Untouched x nc ns (err m) =
      Untouched-bind x _ _
        (Untouched-bind x _ _ (remove_path-Untouched x e (part p.checksum) nc) λ _.
          Untouched-bind x _ _ (remove_path-Untouched x e (part p.signature) ns)
            λ _. Untouched-pure x tt)
        (λ _. Untouched-pure x (err m))

  fetch_verified_checksum-Untouched :
      (arch x : Str)
      → str_eq x (part p.checksum) ≡ false
      → str_eq x (part p.signature) ≡ false
      → Untouched x (fetch_verified_checksum e c key p arch)
  unfolding fetch_verified_checksum
  fetch_verified_checksum-Untouched arch x nc ns =
      Untouched-bind x _ _
        (Untouched-next x _ _ (fetch-Untouched x e _ _ nc) λ _.
          Untouched-next x _ _ (fetch-Untouched x e _ _ ns) λ _.
            Untouched-next x _ _ (verify_signature_file-Untouched e c key x _ _)
              λ _. parse_checksum_file-Untouched e c key x (part p.checksum))
        (or_clean-Untouched x nc ns)

  -- Fetching a checksum leaves a verified image in place.
  fetch_verified_checksum-Verified :
      (arch : Str) (w : World)
      → Verified e c key p laid w
      → Verified e c key p laid (fetch_verified_checksum e c key p arch w).1
  unfolding str_eq
  fetch_verified_checksum-Verified arch w =
      InPlace-frame c key e p.tar p.checksum p.signature (fetch_verified_checksum e c key p arch) w
        (fetch_verified_checksum-Untouched arch p.tar
          (suffixed p.tar [] (codes ".sha256.part") _ _ (base_tar e c key p laid)
            (part_checksum e c key p laid) refl)
          (suffixed p.tar [] (codes ".sig.part") _ _ (base_tar e c key p laid)
            (part_signature e c key p laid) refl))
        (fetch_verified_checksum-Untouched arch p.checksum
          (suffixed p.tar (codes ".sha256") (codes ".sha256.part") _ _ laid.checksum
            (part_checksum e c key p laid) refl)
          (suffixed p.tar (codes ".sha256") (codes ".sig.part") _ _ laid.checksum
            (part_signature e c key p laid) refl))
        (fetch_verified_checksum-Untouched arch p.signature
          (suffixed p.tar (codes ".sig") (codes ".sha256.part") _ _ laid.signature
            (part_checksum e c key p laid) refl)
          (suffixed p.tar (codes ".sig") (codes ".sig.part") _ _ laid.signature
            (part_signature e c key p laid) refl))

  -- What is kept on the way to a choice: the fetched pair, and the cached image where there is one.
  abbrev pub Kept : Result Meta → World → Type 0
  Kept (ok m) = Verified e c key p laid
  Kept (err why) = λ _. Unit

  fetch_verified_checksum-Kept :
      (arch : Str) (cached : Result Meta)
      → Ensures
          (Kept cached)
          (fetch_verified_checksum e c key p arch)
          (λ _ w. Kept cached w × Fetched e c key p laid w)
  fetch_verified_checksum-Kept arch (ok m) = record {
    at = λ w k a r. (
      fetch_verified_checksum-Verified arch w k,
      (fetch_verified_checksum-Ensures e c key p laid arch).at w tt a r,
    );
  }
  fetch_verified_checksum-Kept arch (err why) = record {
    at = λ w k a r. (tt, (fetch_verified_checksum-Ensures e c key p laid arch).at w tt a r);
  }

  pub if-Ensures :
      {A : Type 0} {P : World → Type 0} {Q : A → World → Type 0} (b : Bool) (m k : M (Result A))
      → Ensures P m Q
      → Ensures P k Q
      → Ensures P (if b then m else k) Q
  if-Ensures true m k hm hk = hm
  if-Ensures false m k hm hk = hk

  refreshed-Ensures :
      (arch : Str) (cached : Result Meta) (sum : Str)
      → Ensures
          (λ w. Kept cached w × Fetched e c key p laid w)
          (refreshed e c key p arch cached sum)
          (λ _. Verified e c key p laid)
  unfolding refreshed use_cached
  refreshed-Ensures arch (err why) sum =
      weaken-Ensures (download_image-Ensures e c key p laid arch sum) (λ w h. h.1)
  refreshed-Ensures arch (ok m) sum =
      if-Ensures (equal_fold sum m.sha256) _ _ (weaken-Ensures (done-Ensures _) (λ w h. h.0))
        (weaken-Ensures (download_image-Ensures e c key p laid arch sum) (λ w h. h.1))

  then_clean-Ensures :
      {P : World → Type 0} (m : M (Result Chosen))
      → Ensures P m (λ _. Verified e c key p laid)
      → Ensures P (then_clean e c key p m) (λ _. Verified e c key p laid)
  unfolding then_clean ◌>>=◌ pure
  then_clean-Ensures m hm = record {
    at = λ w h a r.
        clean_checksum-Verified e c key p laid _
          (clean_signature-Verified e c key p laid _ (hm.at w h a r));
  }

  fetch_and_choose-Ensures :
      (arch : Str) (cached : Result Meta)
      → Ensures
          (Kept cached)
          (fetch_and_choose e c key p arch cached)
          (λ _. Verified e c key p laid)
  unfolding fetch_and_choose
  fetch_and_choose-Ensures arch cached =
      Ensures-then _ _ (fetch_verified_checksum-Kept arch cached)
        λ sum. then_clean-Ensures _ (refreshed-Ensures arch cached sum)

  pub choose-Ensures :
      (arch : Str) (refresh : Bool) (cached : Result Meta)
      → Ensures (Kept cached) (choose e c key p arch refresh cached) (λ _. Verified e c key p laid)
  unfolding choose use_cached
  choose-Ensures arch refresh (err why) = fetch_and_choose-Ensures arch (err why)
  choose-Ensures arch refresh (ok m) =
      if-Ensures refresh _ _ (fetch_and_choose-Ensures arch (ok m)) (done-Ensures _)
