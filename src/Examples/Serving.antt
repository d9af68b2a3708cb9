-- ===== src/Examples/Serving.antt =====
-- The theorems on the relay, the doctor, setup and the commands that serve or examine, on concrete
-- machines.
use dockup.Base.{
  ◌≡◌, ◌≢◌, refl, true, false, none, List, [], ◌∷◌, codes, str_eq, contains, has_prefix, has_suffix,
  equal_fold, to_lower, trim_space, fields, if◌then◌else◌, ltb, length, arith, ◌+◌, ◌≤◌, ◌⊎◌,
}
use dockup.Records.{State, zero_config}
use dockup.Env.{Call, Env, wsl_import}
use dockup.Config.{distro_subdir, temp_tar, image_tag, image_asset}
use dockup.Config.Version.{is_release_tag}
use dockup.Wsl.Retry.{exec, exec_script, import_distro}
use dockup.Image.Verify.{verify_signature, verify_checksum, parse_checksum}
use dockup.Image.Cache.{
  paths_for, ensure_with_key, choose, use_cached, verify_cache, all_files, meta_fits, decode_meta,
  verify_signature_file, parse_checksum_file, verify_checksum_file, read_text, text_of,
}
use dockup.Image.Trust.{InPlace}
use dockup.Setup.Trusted.{place_rootfs-trusted}
use dockup.Setup.Engine.{StartsInTime, check_distro-Answered}
use dockup.Setup.Returns.{GivesUp, LockEnds, setup-returns}
use dockup.Io.{is_ok, attempt, is_file, read_path, ask, pure, ◌>>=◌, ◌>>?◌, next_of, run, succeeds}
use dockup.Io.Keeps.{Keeps, Only}
use dockup.State.{with_lock, updates, lock_rounds, acquire, acquire_round}
use dockup.State.Update.{stored}
use dockup.State.Register.{updated, with_lock-atomic}
use dockup.Userconfig.Paths.{effective_pipe, effective_port}
use dockup.Relay.Bridge.{
  stdout_ended, reaping, over, Bridge, opening, note, decided, received, end_stdout, first, reap,
  decide, Run, here, next,
}
use dockup.Relay.BridgeLaws.{opening-Unmixed}
use dockup.Relay.BridgeEnds.{own_steps, left_at, CanGoOn, Run-ends}
use dockup.Relay.Serve.{serves_locally}
use dockup.Doctor.Run.{run_doctor, fix_distro, reinstall}
use dockup.Doctor.Repairs.{InTime, fix_distro-Answered}
use dockup.Docker.{
  configure, after_reboot, not_systemd, test_daemon, wait_daemon, daemon_loop, daemon_round,
  wait_test,
}
use dockup.Docker.Answers.{Answered}
use dockup.Doctor.Examines.{examines, run_doctor-Examines}
use dockup.Setup.Install.{
  Options, Source, setup, is_retry, place_rootfs, find_rootfs, from_image, import_rootfs,
  check_distro, start_engine, or_install,
}
use dockup.Setup.DryRun.{Looking, setup_dry}
use dockup.Cli.Serving.{serve_forever, serve_forever-Locally}
use dockup.Examples.Machine.{machine, answer, kind, no_files}
use dockup.Examples.Machines.{crypto, image_key, cached_world, cached_choice}

-- A backend that ends before it has said anything.
abbrev silent : Bridge
silent = record (opening true true true) { stdout_open = false; done = stdout_ended 0 ∷ [] }

abbrev reaped : Bridge
reaped = record (received reaping (stdout_ended 0) [] silent) {
  wait_failed = true;
  stage = dockup.Relay.Bridge.deciding;
}

opening-Unmixed_example :
    ((decided reaped).copied ≡ 0)
    × ((decided reaped).stdout_open ≡ false)
    × ((decided reaped).stage ≡ over)
unfolding opening note decided
opening-Unmixed_example =
    opening-Unmixed true true true (decided reaped)
      (next
        (next
          (next (next here (end_stdout (opening true true true) refl))
            (first silent (stdout_ended 0) [] refl refl))
          (reap (received reaping (stdout_ended 0) [] silent) true refl))
        (decide reaped refl))
      refl

received_end : Run silent (received reaping (stdout_ended 0) [] silent)
unfolding opening
received_end = next here (first silent (stdout_ended 0) [] refl refl)

Run-ends_example :
    (own_steps received_end + left_at reaping ≤ left_at dockup.Relay.Bridge.serving)
    × ((reaping ≡ over) ⊎ CanGoOn (received reaping (stdout_ended 0) [] silent))
unfolding opening
Run-ends_example = Run-ends received_end (λ at h. cc)

serve_forever-Locally_example :
    Keeps
      (Only (
        serves_locally
          (effective_pipe zero_config)
          zero_config.use_tcp
          (effective_port zero_config)))
      (serve_forever kind zero_config)
serve_forever-Locally_example = serve_forever-Locally kind zero_config

abbrev dry_options : Options
dry_options = record { arch = codes "arm64"; path = []; dry_run = true; cfg = zero_config }

setup_dry_example : Keeps (Looking no_files.files) (setup kind crypto image_key 1 dry_options)
setup_dry_example = setup_dry kind no_files.files crypto image_key 1 dry_options refl

run_doctor-Examines_example : Keeps (Only (examines kind)) (run_doctor kind false)
run_doctor-Examines_example = run_doctor-Examines kind

-- A machine on which every call works, a tar has 20 MB, and the image is in the cache.
abbrev stocked : Env
stocked = machine (λ t c. answer true true 20971520)

abbrev from_cache : Source
from_cache = record {
  tar = cached_choice.tar;
  image_used = true;
  dest = temp_tar stocked (codes "amd64");
}

-- A distro with systemd and an engine that answers at once.
abbrev lively : Env
lively = machine (λ t c. record { ok = true; flag = true; num = 0; out = codes "systemd 27.0" })

fix_distro-Answered_example : Answered lively (fix_distro lively no_files).1
unfolding InTime fix_distro reinstall test_daemon wait_daemon daemon_loop daemon_round wait_test
    exec_script attempt run ask succeeds pure ◌>>=◌ ◌>>?◌ next_of str_eq trim_space
fix_distro-Answered_example = fix_distro-Answered lively no_files (λ t. refl) refl

check_distro-Answered_example : Answered lively (check_distro lively from_cache no_files).1
unfolding StartsInTime check_distro start_engine or_install configure after_reboot not_systemd
    test_daemon wait_daemon daemon_loop daemon_round wait_test exec exec_script attempt run ask
    succeeds pure ◌>>=◌ ◌>>?◌ next_of str_eq trim_space contains has_prefix
check_distro-Answered_example = check_distro-Answered lively (λ t. refl) from_cache no_files refl

abbrev marked : State → State
marked s = record s { installed = true }

with_lock-atomic_example : stored kind (with_lock kind (updates marked) no_files).1.files ≡ (
    if is_ok (with_lock kind (updates marked) no_files).0
    then updated marked (stored kind no_files.files)
    else stored kind no_files.files)
with_lock-atomic_example = with_lock-atomic kind marked no_files

place_rootfs-trusted_example :
    ((t : List Call) × ((place_rootfs stocked crypto image_key
          (codes "amd64")
          (codes "root")
          cached_world).1.trace
        ≡ wsl_import
            (stocked.join (codes "root" ∷ distro_subdir ∷ []))
            (paths_for stocked (codes "root") (codes "amd64")).tar
          ∷ t))
    × InPlace crypto image_key
        (paths_for stocked (codes "root") (codes "amd64")).tar
        (paths_for stocked (codes "root") (codes "amd64")).checksum
        (paths_for stocked (codes "root") (codes "amd64")).signature
        (place_rootfs stocked crypto image_key (codes "amd64") (codes "root") cached_world).1.files
unfolding place_rootfs find_rootfs from_image import_rootfs import_distro ensure_with_key choose
    use_cached verify_cache all_files meta_fits decode_meta verify_signature_file
    parse_checksum_file verify_checksum_file read_text text_of verify_signature verify_checksum
    parse_checksum paths_for image_tag image_asset attempt is_file read_path ask pure ◌>>=◌ ◌>>?◌
    next_of str_eq has_suffix equal_fold to_lower trim_space fields is_release_tag
place_rootfs-trusted_example =
    place_rootfs-trusted stocked crypto image_key (codes "root") (codes "amd64") cached_world
      from_cache
      (record {
        tar = refl;
        checksum = refl;
        signature = refl;
        tmp_tar = refl;
        tmp_checksum = refl;
        tmp_signature = refl;
      })
      refl refl

-- The first 40 questions are answered with yes.
abbrev hesitant : Env
hesitant =
    machine
      (λ t c. record (answer true false 0) { out = if ltb (length t) 40 then codes "yes" else [] })

hesitant-GivesUp : GivesUp hesitant 40
unfolding GivesUp is_retry str_eq trim_space to_lower
hesitant-GivesUp t h = ground arith

hesitant-LockEnds : LockEnds hesitant
unfolding LockEnds lock_rounds acquire acquire_round succeeds ask pure ◌>>=◌
hesitant-LockEnds w h = cc

setup-returns_example :
    (setup hesitant crypto image_key 50 (record dry_options { dry_run = false }) no_files).0 ≢ none
setup-returns_example =
    setup-returns hesitant crypto image_key (record dry_options { dry_run = false }) no_files 40 50
      hesitant-LockEnds hesitant-GivesUp (omega arith)
