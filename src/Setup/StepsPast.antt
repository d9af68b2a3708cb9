-- ===== src/Setup/StepsPast.antt =====
-- The calls of the steps of a setup come on top of those before them.
use dockup.Base.{ℕ, Bool, true, false, Option, Str}
use dockup.Env.{Env}
use dockup.Records.{Config}
use dockup.Io.{M, Result, ok, err, Done}
use dockup.Io.Keeps.{Keeps}
use dockup.Io.Past.{Past, past_rules}
use dockup.Image.Verify.{Crypto}
use dockup.Image.Cache.{Chosen}
use dockup.Setup.Install.{
  Source, ask_install_path, second_source, from_image, find_rootfs, import_rootfs, place_rootfs,
  install_engine, or_install, start_engine, check_distro, drop_old,
}
use dockup.Setup.ImagePast.{fetch-Past, ensure_with_key-Past}
use dockup.Setup.EnginePast.{
  with_lock-Past, exec-Past, import_distro-Past, install-Past, configure-Past, wait_daemon-Past,
}

module _ (n : ℕ) (e : Env) where
  pub path-Past : (cfg : Config) (flag : Str) → Keeps (Past n) (ask_install_path e cfg flag)
  unfolding ask_install_path
  path-Past cfg flag = search past_rules

  second-Past : (arch : Str) (r : Done) → Keeps (Past n) (second_source e arch r)
  unfolding second_source
  second-Past arch (ok u) = search past_rules
  second-Past arch (err m) = search (past_rules, fetch-Past)

  image-Past : (arch : Str) (r : Result Chosen) → Keeps (Past n) (from_image e arch r)
  unfolding from_image
  image-Past arch (ok img) = search past_rules
  image-Past arch (err m) = search (past_rules, fetch-Past, second-Past) depth 10

  import-Past : (dir : Str) (src : Source) → Keeps (Past n) (import_rootfs e dir src)
  unfolding import_rootfs
  import-Past dir src = search (past_rules, import_distro-Past)

  engine-Past : Keeps (Past n) (install_engine e)
  unfolding install_engine
  engine-Past = search (past_rules, install-Past, configure-Past, wait_daemon-Past)

  or-Past : (d : Done) → Keeps (Past n) (or_install e d)
  unfolding or_install
  or-Past (ok u) = search past_rules
  or-Past (err m) = engine-Past

  start-Past : (image_used : Bool) → Keeps (Past n) (start_engine e image_used)
  unfolding start_engine
  start-Past false = engine-Past
  start-Past true = search (past_rules, configure-Past, wait_daemon-Past, or-Past)

  pub check_distro-Past : (src : Source) → Keeps (Past n) (check_distro e src)
  unfolding check_distro
  check_distro-Past src = search (past_rules, exec-Past, start-Past)

  module _ (c : Crypto) (key : Str) where
    find-Past : (arch dir : Str) → Keeps (Past n) (find_rootfs e c key arch dir)
    unfolding find_rootfs
    find-Past arch dir = search (past_rules, ensure_with_key-Past, image-Past)

    pub place_rootfs-Past : (arch dir : Str) → Keeps (Past n) (place_rootfs e c key arch dir)
    unfolding place_rootfs
    place_rootfs-Past arch dir = search (past_rules, find-Past, import-Past)

    pub drop_old-Past :
        (again : M (Option ℕ)) (arch : Str) (cfg : Config)
        → Keeps (Past n) (drop_old e c key again arch cfg)
    unfolding drop_old
    drop_old-Past again arch cfg = search (past_rules, with_lock-Past)
