-- ===== src/Examples/Hosts.antt =====
-- The theorem on what an uninstall spares, on a concrete machine.
use dockup.Base.{◌≡◌, refl, true, List, [], ◌∷◌, ◌++◌, Str, has_prefix, str_eq, codes, some}
use dockup.Io.{World}
use dockup.Env.{Env}
use dockup.Userconfig.File.{current_root, config_file}
use dockup.Config.{lock_file, state_file}
use dockup.Autostart.{shortcut_path}
use dockup.Setup.Uninstall.{uninstall, agreed}
use dockup.Setup.Uninstall.Spared.{IsApart, uninstall-spared}
use dockup.Examples.Machine.{kind}

-- A machine whose own files all lie in one directory, and an image in the cache below it.
abbrev last_part : List Str → Str
last_part [] = []
last_part (p ∷ []) = p
last_part (p ∷ q ∷ ps) = last_part (q ∷ ps)

abbrev tidy : Env
tidy = record kind { join = λ ps. codes "D:\\dockup\\" ++ last_part ps }

-- Every file is there.
abbrev stored_world : World
stored_world = record { trace = []; files = λ p. some (codes "text") }

abbrev cached_tar : Str
cached_tar = codes "D:\\dockup\\cache\\images\\dockup-amd64.tar.gz"

cached_tar-IsApart : (root : Str) → IsApart tidy root cached_tar
unfolding state_file lock_file config_file shortcut_path str_eq has_prefix
cached_tar-IsApart root = record {
  no_state = refl;
  no_new_state = refl;
  no_config = refl;
  no_link = refl;
  no_lock = refl;
  no_distro = refl;
  no_disk = refl;
  no_rootfs = refl;
}

uninstall-spared_example :
    (uninstall tidy true stored_world).1.files cached_tar ≡ stored_world.files cached_tar
uninstall-spared_example =
    uninstall-spared tidy cached_tar true stored_world
      (cached_tar-IsApart (current_root tidy (agreed tidy true stored_world).1).0)
