-- ===== src/Setup/ImagePast.antt =====
-- The calls that `EnsureWithKey` makes come on top of those before it.
use dockup.Base.{ℕ, Bool, List, [], ◌∷◌, ◌++◌, not, codes, Str}
use dockup.Env.{Env}
use dockup.Records.{Meta}
use dockup.Io.{
  M, Result, ok, err, Removed, removed, was_missing, remove_error, is_ok, pure, ◌>>=◌, remove_path,
  rename_path, is_file,
}
use dockup.Io.Keeps.{Keeps, Keeps-bind, Keeps-if}
use dockup.Io.Past.{Past, past_rules}
use dockup.Download.{fetch}
use dockup.Image.Verify.{Crypto}
use dockup.Image.Cache.{
  Paths, Chosen, read_text, install_file, write_meta, decode_meta, verify_signature_file,
  parse_checksum_file, verify_checksum_file, all_files, verify_cache, remove_parts, or_clean,
  fetch_verified_checksum, store, download_image, use_cached, refreshed, then_clean,
  fetch_and_choose, choose, ensure_with_key,
}

module _ (n : ℕ) (e : Env) where
  removed-Past :
      {A : Type 0} (r : Removed) (m k : M A)
      → Keeps (Past n) m
      → Keeps (Past n) k
      → Keeps (Past n) (elim r [ remove_error ↦ k | _ ↦ m ])
  removed-Past removed m k hm hk = hm
  removed-Past was_missing m k hm hk = hm
  removed-Past remove_error m k hm hk = hk

  pub fetch-Past : (url dest : Str) → Keeps (Past n) (fetch e url dest)
  unfolding fetch
  fetch-Past url dest = search past_rules depth 12

  text-Past : (p : Str) → Keeps (Past n) (read_text e p)
  unfolding read_text
  text-Past p = search past_rules

  file-Past : (src dst : Str) → Keeps (Past n) (install_file e src dst)
  unfolding install_file
  file-Past src dst =
      Keeps-bind _ _ (search past_rules)
        λ gone. removed-Past gone _ _ (search past_rules) (search past_rules)

  meta-Past : (p : Str) (m : Meta) → Keeps (Past n) (write_meta e p m)
  unfolding write_meta
  meta-Past p m = Keeps-bind _ _ (search past_rules) λ wrote.
      Keeps-if (not (is_ok wrote)) (pure wrote) _ (search past_rules) (
        Keeps-bind (remove_path e p) _ (search past_rules) λ gone.
          removed-Past gone (rename_path e (p ++ codes ".tmp") p)
            (remove_path e (p ++ codes ".tmp") >>= λ b. pure (err (codes "remove")))
            (search past_rules) (search past_rules))

  decode-Past : (text : Str) → Keeps (Past n) (decode_meta e text)
  unfolding decode_meta
  decode-Past text = search past_rules

  module _ (c : Crypto) (key : Str) where
    files-Past : (ps : List Str) → Keeps (Past n) (all_files e c key ps)
    unfolding all_files
    files-Past [] = search past_rules
    files-Past (p ∷ ps) = Keeps-bind (is_file e p) _ (search past_rules) λ there.
        Keeps-if there (all_files e c key ps) (pure (err (codes "missing cache file")))
          (files-Past ps) (search past_rules)

    signature-Past : (a b : Str) → Keeps (Past n) (verify_signature_file e c key a b)
    unfolding verify_signature_file
    signature-Past a b = search (past_rules, text-Past)

    parse-Past : (a : Str) → Keeps (Past n) (parse_checksum_file e c key a)
    unfolding parse_checksum_file
    parse-Past a = search (past_rules, text-Past)

    checksum-Past : (a b : Str) → Keeps (Past n) (verify_checksum_file e c key a b)
    unfolding verify_checksum_file
    checksum-Past a b = search (past_rules, text-Past)

    cache-Past : (p : Paths) (arch : Str) → Keeps (Past n) (verify_cache e c key p arch)
    unfolding verify_cache
    cache-Past p arch =
        search
          (
            past_rules, files-Past, text-Past, decode-Past, signature-Past, parse-Past,
            checksum-Past,
          )
          depth 30

    parts-Past : (p : Paths) → Keeps (Past n) (remove_parts e c key p)
    unfolding remove_parts
    parts-Past p = search past_rules

    clean-Past : (p : Paths) (r : Result Str) → Keeps (Past n) (or_clean e c key p r)
    unfolding or_clean
    clean-Past p (ok sum) = search past_rules
    clean-Past p (err m) = search (past_rules, parts-Past)

    fetched-Past :
        (p : Paths) (arch : Str) → Keeps (Past n) (fetch_verified_checksum e c key p arch)
    unfolding fetch_verified_checksum
    fetched-Past p arch =
        search (past_rules, fetch-Past, signature-Past, parse-Past, clean-Past) depth 16

    store-Past : (p : Paths) (arch sum : Str) → Keeps (Past n) (store e c key p arch sum)
    unfolding store
    store-Past p arch sum =
        search (past_rules, fetch-Past, checksum-Past, file-Past, meta-Past) depth 24

    image-Past : (p : Paths) (arch sum : Str) → Keeps (Past n) (download_image e c key p arch sum)
    unfolding download_image
    image-Past p arch sum = search (past_rules, store-Past)

    refreshed-Past :
        (p : Paths) (arch : Str) (cached : Result Meta) (sum : Str)
        → Keeps (Past n) (refreshed e c key p arch cached sum)
    unfolding refreshed use_cached
    refreshed-Past p arch (err why) sum = image-Past p arch sum
    refreshed-Past p arch (ok m) sum = search (past_rules, image-Past)

    then_clean-Past :
        (p : Paths) (m : M (Result Chosen))
        → Keeps (Past n) m
        → Keeps (Past n) (then_clean e c key p m)
    unfolding then_clean
    then_clean-Past p m h = search past_rules

    fresh-Past :
        (p : Paths) (arch : Str) (cached : Result Meta)
        → Keeps (Past n) (fetch_and_choose e c key p arch cached)
    unfolding fetch_and_choose
    fresh-Past p arch cached = search (past_rules, fetched-Past, then_clean-Past, refreshed-Past)

    choose-Past :
        (p : Paths) (arch : Str) (refresh : Bool) (cached : Result Meta)
        → Keeps (Past n) (choose e c key p arch refresh cached)
    unfolding choose use_cached
    choose-Past p arch refresh (err why) = fresh-Past p arch (err why)
    choose-Past p arch refresh (ok m) = search (past_rules, fresh-Past)

    pub ensure_with_key-Past :
        (root arch : Str) (refresh : Bool)
        → Keeps (Past n) (ensure_with_key e c key root arch refresh)
    unfolding ensure_with_key
    ensure_with_key-Past root arch refresh = search (past_rules, cache-Past, choose-Past) depth 12
