-- ===== src/Docker.antt =====
-- internal/docker/docker.go: the engine inside the distro.
pub mod Prune
pub mod Spares
pub mod Answers
use dockup.Base.{
  ◌/◌, ◌+◌, ℕ, zero, suc, Bool, true, false, not, ◌&&◌, Option, none, some, List, [], ◌∷◌, ◌++◌,
  Str, codes, str_eq, contains, split, trim_space, if◌then◌else◌,
}
use dockup.Env.{Call, Env, wsl_exec, wsl_script, terminate, sleep, before}
use dockup.Io.{M, pure, ◌>>=◌, ◌>>◌, ◌>>?◌, Result, ok, err, is_ok, Done, ask, run, succeeds}
use dockup.Wsl.Retry.{exec_script, exec, run_retry}
use dockup.Restore.Removal.{sort_strings}

-- `InstallScript`
abbrev pub install_script : Str
install_script =
    codes
      "set -eu\nexport DEBIAN_FRONTEND=noninteractive\napt-get update\napt-get install -y ca-certificates curl gnupg\ninstall -m 0755 -d /etc/apt/keyrings\ncurl -fsSL https://download.docker.com/linux/debian/gpg -o /etc/apt/keyrings/docker.asc\nchmod a+r /etc/apt/keyrings/docker.asc\nCODENAME=\"$(. /etc/os-release && echo \"$VERSION_CODENAME\")\"\necho \"deb [arch=$(dpkg --print-architecture) signed-by=/etc/apt/keyrings/docker.asc] https://download.docker.com/linux/debian $CODENAME stable\" > /etc/apt/sources.list.d/docker.list\napt-get update\napt-get install -y docker-ce docker-ce-cli containerd.io docker-buildx-plugin docker-compose-plugin socat\n# Keep the image lean: drop downloaded .debs (a dynamic VHDX only grows).\napt-get clean\n"

-- `ConfigureScript`
abbrev pub configure_script : Str
configure_script =
    codes
      "set -eu\nprintf '[boot]\\nsystemd=true\\n' > /etc/wsl.conf\nsystemctl reset-failed containerd.service docker.service docker.socket || true\nsystemctl enable containerd.service\nsystemctl enable docker.service\nsystemctl start containerd.service || true\nsystemctl start docker.service || true\n"

-- `UpgradeScript`
abbrev pub upgrade_script : Str
upgrade_script =
    codes
      "set -eu\nexport DEBIAN_FRONTEND=noninteractive\napt-get update\napt-get install -y docker-ce docker-ce-cli containerd.io docker-buildx-plugin docker-compose-plugin socat\n# Keep the image lean: drop downloaded .debs (a dynamic VHDX only grows).\napt-get clean\nsystemctl restart containerd.service\nsystemctl restart docker.service\n"

-- `PreflightScript`
abbrev pub preflight_script : Str
preflight_script =
    codes
      "set -eu\ngrep -q overlay /proc/filesystems || { echo \"missing overlayfs\"; exit 1; }\necho ok\n"

-- `RepairScript`
abbrev pub repair_script : Str
repair_script =
    codes
      "set -eu\nprintf '[boot]\\nsystemd=true\\n' > /etc/wsl.conf\nsystemctl reset-failed containerd.service docker.service docker.socket || true\nsystemctl enable containerd.service\nsystemctl enable docker.service\nsystemctl restart containerd.service || true\nsystemctl restart docker.service || true\n"

abbrev pub rescue_script : Str
rescue_script =
    codes
      "set -eu\ncp /etc/docker/daemon.json /etc/docker/daemon.json.bak\nrm /etc/docker/daemon.json\nsystemctl reset-failed docker.service docker.socket || true\nsystemctl restart docker.service || true"

abbrev pub rescue_note : Str
rescue_note = codes "reset /etc/docker/daemon.json (yours is kept at daemon.json.bak)"

-- The lines of `apt-mark showmanual` that are not blank, trimmed.
unfoldable pub package_names : List Str → List Str
package_names [] = []
package_names (line ∷ lines) =
    let rest = package_names lines in
    if str_eq (trim_space line) [] then rest else trim_space line ∷ rest

module _ (e : Env) where
  -- `Install`
  unfoldable pub install : M Done
  install = exec_script e preflight_script >>? λ _. run_retry e 3 install_script

  -- PID 1 is asked for and is not systemd.
  unfoldable pub not_systemd : M Bool
  not_systemd = do
    r ← ask e (wsl_exec (codes "sh -c ps -p 1 -o comm="))
    pure (r.ok && not (contains r.out (codes "systemd")))

  unfoldable pub after_reboot : Bool → M Done
  after_reboot true = pure (err (codes "systemd did not become PID 1"))
  after_reboot false = do
    d ← exec_script e (codes "systemctl start containerd.service docker.service || true")
    pure (ok tt)

  -- `Configure`
  unfoldable pub configure : M Done
  configure = exec_script e configure_script >>? λ _. do
    run e terminate
    run e (sleep 3000)
    bad ← not_systemd
    after_reboot bad

  -- `TestDaemon`
  unfoldable pub test_daemon : M Done
  test_daemon = do
    r ← ask e (wsl_script (codes "docker version --format '{{.Server.Version}}'"))
    if not r.ok
        then pure (err (codes "docker not answering"))
        else if str_eq (trim_space r.out) []
        then pure (err (codes "docker server version empty"))
        else pure (ok tt)

  -- One round of the loop of `WaitDaemon`, with the rounds after it; `last` is `err`.
  unfoldable pub wait_test : (Done → M Done) → Done → M Done
  wait_test again (ok u) = pure (ok tt)
  wait_test again (err m) = run e (sleep 3000) >> again (err m)

  unfoldable pub daemon_round : ℕ → (Done → M Done) → Done → M Done
  daemon_round ms again last = do
    early ← succeeds e (before ms)
    if early then (do r ← test_daemon; wait_test again r) else pure last

  unfoldable pub daemon_loop : ℕ → ℕ → Done → M Done
  daemon_loop ms zero last = pure last
  daemon_loop ms (suc rounds) last = daemon_round ms (daemon_loop ms rounds) last

  -- `WaitDaemon`: each round sleeps 3 s, so that ms / 3000 + 1 rounds reach the deadline. With no
  -- round the error is nil.
  unfoldable pub wait_daemon : ℕ → M Done
  wait_daemon ms = daemon_loop ms (ms / 3000 + 1) (ok tt)

  -- `Upgrade`
  pub upgrade : M Done
  upgrade = run_retry e 2 upgrade_script >>? λ _. wait_daemon 90000

  list_packages : Bool → Str → Result (List Str)
  list_packages false out = err (codes "apt-mark showmanual")
  list_packages true out = ok (sort_strings (package_names (split b'\n' out)))

  -- `ManualPackages`
  pub manual_packages : M (Result (List Str))
  unfolding list_packages
  manual_packages = do
    r ← ask e (wsl_exec (codes "apt-mark showmanual"))
    pure (list_packages r.ok r.out)

  after_wait : Done → M (Result Str)
  after_wait (ok u) = pure (ok [])
  after_wait (err m) = pure (err (codes "engine still unhealthy after repair"))

  wait_again : M (Result Str)
  wait_again = do r ← wait_daemon 90000; after_wait r

  after_rescue : Done → M (Result Str)
  after_rescue (ok u) = pure (ok rescue_note)
  after_rescue (err m) = wait_again

  rescue : Done → M (Result Str)
  rescue (err m) = wait_again
  rescue (ok u) = do d ← exec_script e rescue_script; r ← wait_daemon 90000; after_rescue r

  after_test : Done → M (Result Str)
  after_test (ok u) = pure (ok [])
  after_test (err m) = do
    there ← exec e (codes "sh -c test -f /etc/docker/daemon.json")
    rescue there

  reboot : Bool → M Unit
  reboot true = run e terminate >> run e (sleep 3000)
  reboot false = pure tt

  -- `Repair`
  pub repair : M (Result Str)
  repair = exec_script e repair_script >>? λ _. do
    bad ← not_systemd
    reboot bad
    r ← test_daemon
    after_test r
