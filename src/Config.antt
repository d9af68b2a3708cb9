-- ===== src/Config.antt =====
-- internal/config/config.go: names, addresses and paths. The text that `Version` holds after `init`
-- is `e.version`; `resolveVersion` itself is in Version.
pub mod Version
use dockup.Base.{
  ℕ, ◌≡◌, Bool, true, false, ◌&&◌, Option, none, some, List, [], ◌∷◌, ◌++◌, Str, codes, str_eq,
  trim_space, trim_right, ◌==◌, if◌then◌else◌,
}
use dockup.Env.{Env}
use dockup.Config.Version.{is_release_tag}

abbrev pub distro_name : Str
distro_name = codes "dockup"

abbrev pub distro_subdir : Str
distro_subdir = codes "distro"

abbrev pub release_base : Str
release_base = codes "https://github.com/CHE3MZ/dockup/releases"

abbrev pub image_latest_tag : Str
image_latest_tag = codes "image-latest"

abbrev pub default_pipe : Str
default_pipe = codes "\\\\.\\pipe\\dockup_engine"

abbrev rootfs_base : Str
rootfs_base = codes "https://raw.githubusercontent.com/debuerreotype/docker-debian-artifacts"

abbrev pub max_log_bytes : ℕ
max_log_bytes = 5242880

dist_branch : Str → Str
dist_branch arch = if str_eq arch (codes "arm64") then codes "dist-arm64v8" else codes "dist-amd64"

pub rootfs_url : Str → Str
unfolding dist_branch
rootfs_url arch =
    rootfs_base ++ (codes "/" ++ (dist_branch arch ++ codes "/bookworm/oci/blobs/rootfs.tar.gz"))

pub rootfs_fallback_url : Str → Str
unfolding dist_branch
rootfs_fallback_url arch =
    rootfs_base ++ (codes "/" ++ (dist_branch arch ++ codes "/bookworm/rootfs.tar.xz"))

-- `none` is the error that both flags are given.
unfoldable pub normalize_arch : Bool → Bool → Option Str
normalize_arch amdf armf =
    if amdf && armf then none else if armf then some (codes "arm64") else some (codes "amd64")

unfoldable pub image_asset : Str → Str
image_asset arch = codes "dockup-" ++ (arch ++ codes ".tar.gz")

module _ (e : Env) where
  -- `home, _ := os.UserHomeDir()`
  unfoldable pub home : Str
  home = elim e.user_home [ none ↦ [] | some h ↦ h ]

  unfoldable pub app_data_dir : Str
  unfolding home
  app_data_dir =
      let v = e.getenv (codes "APPDATA") in
      if str_eq v []
      then e.join (home ∷ codes "AppData" ∷ codes "Roaming" ∷ codes "dockup" ∷ [])
      else e.join (v ∷ codes "dockup" ∷ [])

  unfoldable pub state_file : Str
  unfolding app_data_dir
  state_file = e.join (app_data_dir ∷ codes "state.json" ∷ [])

  unfoldable pub lock_file : Str
  unfolding app_data_dir
  lock_file = e.join (app_data_dir ∷ codes "dockup.lock" ∷ [])

  log_dir : Str
  unfolding app_data_dir
  log_dir = e.join (app_data_dir ∷ codes "logs" ∷ [])

  pub log_file : Str
  unfolding log_dir
  log_file = e.join (log_dir ∷ codes "dockup.log" ∷ [])

  unfoldable pub image_tag : Str
  image_tag =
      let pinned = trim_space (e.getenv (codes "DOCKUP_IMAGE_TAG")) in
      let v = trim_space e.version in
      if str_eq pinned [] then (if is_release_tag v then v else image_latest_tag) else pinned

  pub image_base_url : Str
  image_base_url =
      let v = trim_space (e.getenv (codes "DOCKUP_IMAGE_BASE_URL")) in
      if str_eq v []
      then release_base ++ (codes "/download/" ++ image_tag)
      else trim_right (λ c. c == b'/') v

  unfoldable pub image_url : Str → Str
  image_url arch = image_base_url ++ (codes "/" ++ image_asset arch)

  unfoldable pub image_checksum_url : Str → Str
  image_checksum_url arch = image_url arch ++ codes ".sha256"

  unfoldable pub image_signature_url : Str → Str
  image_signature_url arch = image_url arch ++ codes ".sig"

  pub default_install_root : Str
  unfolding home
  default_install_root =
      let v = e.getenv (codes "LOCALAPPDATA") in
      if str_eq v []
      then e.join (home ∷ codes "AppData" ∷ codes "Local" ∷ codes "dockup" ∷ [])
      else e.join (v ∷ codes "dockup" ∷ [])

  pub wsl_install_dir : Str
  wsl_install_dir = e.join (default_install_root ∷ codes "wsl" ∷ [])

  pub temp_tar : Str → Str
  temp_tar arch = e.join (e.temp_dir ∷ (codes "dockup-rootfs-" ++ (arch ++ codes ".tar.gz")) ∷ [])

  pub temp_tar_fallback : Str → Str
  temp_tar_fallback arch =
      e.join (e.temp_dir ∷ (codes "dockup-rootfs-" ++ (arch ++ codes ".tar.xz")) ∷ [])
