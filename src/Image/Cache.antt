-- ===== src/Image/Cache.antt =====
-- `PathsFor`, `verifyCache`, `fetchVerifiedChecksum`, `EnsureWithKey`, `installFile` and `writeMeta`
-- of internal/image/image.go. Deferred removals come last, in the reverse order.
use dockup.Base.{
  Bool, true, false, not, ◌||◌, none, some, List, [], ◌∷◌, ◌++◌, Str, codes, str_eq, equal_fold,
  if◌then◌else◌,
}
use dockup.Records.{Meta}
use dockup.Env.{Env, mkdir, now}
use dockup.Io.{
  M, pure, ◌>>=◌, ◌>>◌, ◌>>?◌, Result, ok, err, is_ok, Done, Read, content, not_exist, read_error,
  remove_error, ask, attempt, read_path, write_path, remove_path, rename_path, is_file,
}
use dockup.Config.{image_asset, image_tag, image_url, image_checksum_url, image_signature_url}
use dockup.Download.{fetch}
use dockup.Image.Verify.{Crypto, parse_checksum, verify_signature, verify_checksum}

pub record Paths : Type 0 where
  pub dir : Str
  pub tar : Str
  pub checksum : Str
  pub signature : Str
  pub meta : Str

-- The image that was chosen, without its size.
pub record Chosen : Type 0 where
  pub tar : Str
  pub cached : Bool
  pub sha256 : Str

abbrev pub part : Str → Str
part path = path ++ codes ".part"

abbrev pub is_arch : Str → Bool
is_arch arch = str_eq arch (codes "amd64") || str_eq arch (codes "arm64")

unfoldable pub text_of : Read → Result Str
text_of (content s) = ok s
text_of not_exist = err (codes "read")
text_of read_error = err (codes "read")

module _ (e : Env) where
  -- `CacheDir`
  unfoldable pub cache_dir : Str → Str
  cache_dir root = e.join (root ∷ codes "cache" ∷ codes "images" ∷ [])

  unfoldable pub paths_for : Str → Str → Paths
  unfolding cache_dir
  paths_for root arch =
      let dir = cache_dir root in
      let tar = e.join (dir ∷ image_asset arch ∷ []) in
      record {
        dir = dir;
        tar = tar;
        checksum = tar ++ codes ".sha256";
        signature = tar ++ codes ".sig";
        meta = e.join (dir ∷ (codes "image-" ++ (arch ++ codes ".json")) ∷ []);
      }

  -- `os.ReadFile` with any error
  unfoldable pub read_text : Str → M (Result Str)
  read_text path = do r ← read_path e path; pure (text_of r)

  -- `installFile`
  unfoldable pub install_file : Str → Str → M Done
  install_file src dst = do
    gone ← remove_path e dst
    elim gone [ remove_error ↦ pure (err (codes "remove")) | _ ↦ rename_path e src dst ]

  -- `writeMeta`
  unfoldable pub write_meta : Str → Meta → M Done
  write_meta path meta = do
    let tmp = path ++ codes ".tmp"
    wrote ← write_path e tmp (e.meta_json.encode meta ++ codes "\n")
    if not (is_ok wrote) then pure wrote else do
      gone ← remove_path e path
      elim gone [
        | remove_error ↦ do b ← remove_path e tmp; pure (err (codes "remove"))
        | _ ↦ rename_path e tmp path
      ]

  unfoldable pub decode_meta : Str → M (Result Meta)
  decode_meta text =
      pure (elim (e.meta_json.decode text) [ none ↦ err (codes "parse metadata") | some m ↦ ok m ])

module _ (e : Env) (c : Crypto) (key : Str) where
  -- `VerifySignatureFile`
  unfoldable pub verify_signature_file : Str → Str → M Done
  verify_signature_file checksum signature = read_text e checksum >>? λ msg.
      read_text e signature >>? λ sig.
      pure (if verify_signature c msg sig key then ok tt else err (codes "signature"))

  -- `ParseChecksumFile`
  unfoldable pub parse_checksum_file : Str → M (Result Str)
  parse_checksum_file path = read_text e path >>? λ text.
      pure (elim (parse_checksum text) [ none ↦ err (codes "no valid sha256") | some s ↦ ok s ])

  -- `VerifyChecksumFile`
  unfoldable pub verify_checksum_file : Str → Str → M Done
  verify_checksum_file tar checksum = read_text e checksum >>? λ text. read_text e tar >>? λ bytes.
      pure (if verify_checksum c bytes text then ok tt else err (codes "checksum mismatch"))

  unfoldable pub all_files : List Str → M Done
  all_files [] = pure (ok tt)
  all_files (p ∷ ps) = do
    there ← is_file e p
    if there then all_files ps else pure (err (codes "missing cache file"))

  unfoldable pub meta_fits : Str → Meta → Done
  meta_fits arch m =
      if not (str_eq m.tag (image_tag e))
      then err (codes "cache tag")
      else if not (str_eq m.arch arch) || str_eq m.sha256 []
      then err (codes "cache metadata")
      else ok tt

  -- `verifyCache`
  unfoldable pub verify_cache : Paths → Str → M (Result Meta)
  verify_cache p arch = all_files (p.tar ∷ p.checksum ∷ p.signature ∷ p.meta ∷ []) >>? λ _.
      read_text e p.meta >>? λ text. decode_meta e text >>? λ m. pure (meta_fits arch m) >>? λ _.
      verify_signature_file p.checksum p.signature >>? λ _.
      parse_checksum_file p.checksum >>? λ sum.
      pure (if equal_fold sum m.sha256 then ok tt else err (codes "changed")) >>? λ _.
      verify_checksum_file p.tar p.checksum >>? λ _. pure (ok m)

  unfoldable pub remove_parts : Paths → M Unit
  remove_parts p = do
    a ← remove_path e (part p.checksum)
    b ← remove_path e (part p.signature)
    pure tt

  unfoldable pub or_clean : Paths → Result Str → M (Result Str)
  or_clean p (ok sum) = pure (ok sum)
  or_clean p (err m) = do remove_parts p; pure (err m)

  -- `fetchVerifiedChecksum`: on an error both temporary files are removed.
  unfoldable pub fetch_verified_checksum : Paths → Str → M (Result Str)
  fetch_verified_checksum p arch = do
    r ←
        (fetch e (image_checksum_url e arch) (part p.checksum) >>? λ _.
        fetch e (image_signature_url e arch) (part p.signature) >>? λ _.
        verify_signature_file (part p.checksum) (part p.signature) >>? λ _.
        parse_checksum_file (part p.checksum))
    or_clean p r

  unfoldable pub new_meta : Str → Str → Str → Meta
  new_meta arch sum at = record {
    tag = image_tag e;
    arch = arch;
    sha256 = sum;
    source = image_url e arch;
    downloaded_at = at;
  }

  -- The download of the tar, and the three files put in place before the metadata.
  unfoldable pub store : Paths → Str → Str → M (Result Chosen)
  store p arch sum = fetch e (image_url e arch) (part p.tar) >>? λ _.
      verify_checksum_file (part p.tar) (part p.checksum) >>? λ _.
      install_file e (part p.tar) p.tar >>? λ _.
      install_file e (part p.checksum) p.checksum >>? λ _.
      install_file e (part p.signature) p.signature >>? λ _. do
        at ← ask e now
        write_meta e p.meta (new_meta arch sum at.out) >>? λ _.
            pure (ok (record { tar = p.tar; cached = false; sha256 = sum }))

  unfoldable pub download_image : Paths → Str → Str → M (Result Chosen)
  download_image p arch sum = do r ← store p arch sum; a ← remove_path e (part p.tar); pure r

  unfoldable pub use_cached : Paths → Meta → M (Result Chosen)
  use_cached p m = pure (ok (record { tar = p.tar; cached = true; sha256 = m.sha256 }))

  unfoldable pub refreshed : Paths → Str → Result Meta → Str → M (Result Chosen)
  refreshed p arch (err why) sum = download_image p arch sum
  refreshed p arch (ok m) sum =
      if equal_fold sum m.sha256 then use_cached p m else download_image p arch sum

  unfoldable pub then_clean : Paths → M (Result Chosen) → M (Result Chosen)
  then_clean p m = do
    r ← m
    a ← remove_path e (part p.signature)
    b ← remove_path e (part p.checksum)
    pure r

  unfoldable pub fetch_and_choose : Paths → Str → Result Meta → M (Result Chosen)
  fetch_and_choose p arch cached =
      fetch_verified_checksum p arch >>? λ sum. then_clean p (refreshed p arch cached sum)

  unfoldable pub choose : Paths → Str → Bool → Result Meta → M (Result Chosen)
  choose p arch refresh (err why) = fetch_and_choose p arch (err why)
  choose p arch refresh (ok m) = if refresh then fetch_and_choose p arch (ok m) else use_cached p m

  -- `EnsureWithKey`
  unfoldable pub ensure_with_key : Str → Str → Bool → M (Result Chosen)
  ensure_with_key root arch refresh =
      if not (is_arch arch) then pure (err (codes "unknown image architecture")) else do
        let p = paths_for e root arch
        made ← attempt e (mkdir p.dir) (codes "create image cache")
        if not (is_ok made)
            then pure (err (codes "create image cache"))
            else do cached ← verify_cache p arch; choose p arch refresh cached
