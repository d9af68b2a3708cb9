-- ===== src/Examples/Machines.antt =====
-- The theorems on programs on concrete machines.
use dockup.Base.{
  ℕ, ◌≡◌, ◌≢◌, ◌⊎◌, refl, Bool, true, false, not, Option, none, some, [], ◌++◌, Str, codes, arith,
  replicate, take, has_suffix, equal_fold, to_lower, fields, str_eq, trim_space, if◌then◌else◌,
}
use dockup.Base.Int.{pos}
use dockup.Records.{State, zero_state, zero_daemon, Meta}
use dockup.Env.{Call, Env, lock_create, dial, lock_stale}
use dockup.Io.{World, run, attempt, succeeds, ask, read_path, is_file, ◌>>=◌, ◌>>?◌, next_of, pure}
use dockup.Io.Keeps.{Keeps, SameFiles}
use dockup.Config.Version.{is_release_tag}
use dockup.Config.{image_tag, image_asset}
use dockup.State.{acquire}
use dockup.State.Acquire.{Patient, Stuck, acquire-ends, acquire-spins}
use dockup.State.Exclusion.{
  Processes, waiting, inside, moved, create, Reach, here, next, unlocked, exclusive, takeover,
}
use dockup.Doctor.Reconcile.{reconcile_distro, counts_absent, reconcile_distro-counts_absent}
use dockup.Daemon.{stop, start_locked, spawn, pid_is_zero}
use dockup.Daemon.Process.{process_alive}
use dockup.Relay.Poll.{alive_on}
use dockup.Daemon.StopLaws.{NoneAlive, stop-stale}
use dockup.Daemon.StartLaws.{start_locked-ok}
use dockup.Image.Verify.{Crypto, verify_signature, verify_checksum, parse_checksum}
use dockup.Image.Cache.{
  paths_for, ensure_with_key, Chosen, choose, use_cached, verify_cache, all_files, meta_fits,
  decode_meta, verify_signature_file, parse_checksum_file, verify_checksum_file, read_text, text_of,
}
use dockup.Image.Trust.{InPlace}
use dockup.Image.Outcome.{ensure_with_key-verified}
use dockup.Examples.Machine.{machine, answer, kind, no_files}

-- The lock is free at once, and `setup` marks the install.
abbrev mark : State → State
mark s = record s { installed = true }

reconcile_distro-counts_absent_example :
    ((reconcile_distro kind no_files).0.present ≡ not (counts_absent kind no_files))
    × ((counts_absent kind no_files ≡ true)
        ⊎ ((reconcile_distro kind no_files).1.files ≡ no_files.files))
reconcile_distro-counts_absent_example = reconcile_distro-counts_absent kind no_files

abbrev set_up : State
set_up = mark zero_state

-- Nothing answers on the pipe, all else works.
abbrev quiet_reply : Call → Bool
quiet_reply (dial pipe) = false
quiet_reply _ = true

abbrev quiet : Env
quiet = machine (λ t c. answer (quiet_reply c) true 7)

start_locked-ok_example :
    (set_up.installed ≡ true)
    × ((pid_is_zero set_up ≡ false) ⊎ ((alive_on quiet (codes "pipe") no_files).0 ≡ false))
    × ((pid_is_zero set_up ≡ true)
        ⊎ ((process_alive quiet set_up.daemon.pid (alive_on quiet (codes "pipe") no_files).1).0
            ≡ false))
    × ((start_locked quiet (codes "pipe") set_up no_files).0.1
        ≡ record set_up { daemon = (start_locked quiet (codes "pipe") set_up no_files).0.1.daemon })
    × ((start_locked quiet (codes "pipe") set_up no_files).0.1.daemon.mirror ≡ false)
unfolding start_locked spawn alive_on attempt succeeds run ask pure ◌>>=◌
start_locked-ok_example = start_locked-ok quiet (codes "pipe") set_up no_files refl

-- A daemon is recorded, and no process has its pid.
abbrev stale_world : World
stale_world = record {
  trace = [];
  files = λ p.
      some (kind.state_json.encode (record set_up { daemon = record zero_daemon { pid = pos 7 } }));
}

stop-stale_example : Keeps (SameFiles stale_world.files) (stop kind)
unfolding NoneAlive
stop-stale_example = stop-stale kind (λ t pid. refl) stale_world.files

-- Another process holds a lock that is not stale; the deadline has passed.
abbrev held_reply : Call → Bool
held_reply lock_create = false
held_reply lock_stale = false
held_reply _ = true

abbrev held : Env
held = machine (λ t c. answer (held_reply c) false 0)

acquire-ends_example : (acquire held 1 no_files).0 ≢ none
unfolding Patient
acquire-ends_example = acquire-ends held 0 0 no_files (λ t h. (refl, refl)) (omega arith)

-- A stale lock that cannot be removed.
abbrev stuck_reply : Call → Bool
stuck_reply lock_create = false
stuck_reply _ = true

abbrev stuck : Env
stuck = machine (λ t c. answer (stuck_reply c) false 0)

acquire-spins_example : (acquire stuck 1000 no_files).0 ≡ none
unfolding Stuck
acquire-spins_example = acquire-spins stuck 0 1000 no_files (λ t. (refl, refl))

-- An image in the cache: every file is there, signed by the key.
abbrev pub zeros : Str
zeros = replicate 64 b'0'

abbrev pub crypto : Crypto
crypto = record {
  base64 = λ s. some s;
  verify = λ key msg sig. str_eq key (take 32 sig);
  sha256_hex = λ tar. zeros;
}

abbrev pub image_key : Str
image_key = replicate 32 b'k'

abbrev image_meta : Meta
image_meta = record {
  tag = image_tag kind;
  arch = codes "amd64";
  sha256 = zeros;
  source = codes "url";
  downloaded_at = codes "now";
}

abbrev pub cached_files : Str → Option Str
cached_files p =
    if has_suffix p (codes ".sha256")
    then some (zeros ++ codes "  dockup-amd64.tar.gz")
    else if has_suffix p (codes ".sig")
    then some (replicate 64 b'k')
    else if has_suffix p (codes ".json")
    then some (kind.meta_json.encode image_meta)
    else some (codes "tar")

abbrev pub cached_world : World
cached_world = record { trace = []; files = cached_files }

abbrev pub cached_choice : Chosen
cached_choice = record {
  tar = (paths_for kind (codes "root") (codes "amd64")).tar;
  cached = true;
  sha256 = zeros;
}

ensure_with_key-verified_example :
    InPlace crypto image_key
      (paths_for kind (codes "root") (codes "amd64")).tar
      (paths_for kind (codes "root") (codes "amd64")).checksum
      (paths_for kind (codes "root") (codes "amd64")).signature
      (ensure_with_key kind crypto image_key
        (codes "root")
        (codes "amd64")
        false
        cached_world).1.files
unfolding ensure_with_key choose use_cached verify_cache all_files meta_fits decode_meta
    verify_signature_file parse_checksum_file verify_checksum_file read_text text_of
    verify_signature verify_checksum parse_checksum paths_for image_tag image_asset attempt is_file
    read_path ask pure ◌>>=◌ ◌>>?◌ next_of str_eq has_suffix equal_fold to_lower trim_space fields
    is_release_tag
ensure_with_key-verified_example =
    ensure_with_key-verified kind crypto image_key (codes "root") (codes "amd64") false cached_world
      cached_choice
      (record {
        tar = refl;
        checksum = refl;
        signature = refl;
        tmp_tar = refl;
        tmp_checksum = refl;
        tmp_signature = refl;
      })
      refl

abbrev locked_by_three : Processes
locked_by_three = record { file = true; old = false; phase = moved 3 inside unlocked.phase }

locked_by_three-Reach : Reach false unlocked locked_by_three
locked_by_three-Reach = next here (create unlocked 3 refl refl)

exclusive_example : ◌≡◌ {A = ℕ} 3 3
exclusive_example = exclusive locked_by_three 3 3 locked_by_three-Reach refl refl

-- The lock of a crashed process.
abbrev left_lock : Processes
left_lock = record { file = true; old = true; phase = λ p. waiting }

takeover_example :
    (t : Processes) × Reach false left_lock t × (t.phase 1 ≡ inside) × (t.phase 2 ≡ inside)
takeover_example = takeover left_lock 1 2 refl refl refl refl refl
