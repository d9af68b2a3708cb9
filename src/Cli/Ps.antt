-- ===== src/Cli/Ps.antt =====
-- `cmdPs` and `dockupDistroRSS` of cmd/dockup/main.go with the memory of internal/sysinfo/sysinfo.go:
-- the row, and what is printed of it; the hints below the table are left out.
use dockup.Base.{
  ℕ, ◌+◌, ◌%◌, ◌^◌, ◌≡◌, Bool, false, not, Option, Str, codes, arith, ltb, if◌then◌else◌,
}
use dockup.Records.{Config, State}
use dockup.Env.{Env, tasklist, wsl_exec}
use dockup.Io.{World, M, pure, ◌>>=◌, ◌>>◌, Result, ok, err, is_ok, ask}
use dockup.Io.Keeps.{Keeps, SameFiles, same_files_rules}
use dockup.State.{current_state}
use dockup.State.Laws.{current_state-SameFiles}
use dockup.Userconfig.Paths.{effective_pipe, tcp_addr}
use dockup.Userconfig.File.{current_root, distro_dir, current_root-SameFiles, distro_dir-SameFiles}
use dockup.Relay.Poll.{alive_on, tcp_alive, alive_on-SameFiles, tcp_alive-SameFiles}
use dockup.Relay.Ping.{engine_ready}
use dockup.Sysinfo.Tasklist.{parse_tasklist, dockup_windows_rss}
use dockup.Sysinfo.Rss.{distro_rss}
use dockup.Sysinfo.Size.{format_size}
use dockup.Sysinfo.Dir.{distro_size, distro_size-SameFiles}
use dockup.Pstable.Row.{
  Row, classify, autostart_text, installed_text, status_stopped, render_row, render_json,
}

abbrev no_value : Str
no_value = codes "-"

unfoldable pub shown_size : Result ℕ → Str
shown_size (ok n) = format_size n
shown_size (err m) = no_value

unfoldable pub shown_memory : ℕ → Str
shown_memory total = if ltb 0 total then format_size total else no_value

module _ (e : Env) where
  -- `DockupWindowsRSS`: no rows where tasklist fails
  unfoldable pub windows_rss : M ℕ
  windows_rss = do
    r ← ask e tasklist
    pure (if r.ok then dockup_windows_rss (parse_tasklist r.out e.own_pid e.own_name) else 0)

  -- `dockupDistroRSS`
  unfoldable pub dockup_distro_rss : M ℕ
  dockup_distro_rss = do
    r ← ask e (wsl_exec (codes "ps -eo rss=,comm="))
    pure (if r.ok then distro_rss r.out else 0)

  unfoldable pub memory_of : Bool → M Str
  memory_of alive =
      if not alive
      then pure no_value
      else do a ← windows_rss; b ← dockup_distro_rss; pure (shown_memory ((a + b) % 2 ^ 64))

  -- The size and the memory of an install
  unfoldable pub usage : Bool → Bool → M (Str × Str)
  usage installed alive = if not installed then pure (no_value, no_value) else do
    root ← current_root e
    dir ← distro_dir e root
    n ← distro_size e dir
    memory ← memory_of alive
    pure (shown_size n, memory)

  unfoldable pub ready_if : Bool → Str → M Bool
  ready_if alive pipe = if alive then engine_ready e pipe else pure false

  unfoldable pub row_of : Config → State → Bool → Bool → Str × Str → Row
  row_of cfg s alive ready (size, memory) = record {
    status = classify alive s.installed ready;
    autostart = autostart_text cfg.autostart;
    installed = installed_text s.installed;
    size = size;
    memory = memory;
  }

  unfoldable pub probe_tcp : Config → M Unit
  probe_tcp cfg = if cfg.use_tcp then (do up ← tcp_alive e (tcp_addr cfg); pure tt) else pure tt

  -- `cmdPs`: the row is printed as a table or as JSON, and only the table is followed by the TCP probe.
  unfoldable pub ps_row : Config → Bool → M Row
  ps_row cfg json = do
    s ← current_state e
    alive ← alive_on e (effective_pipe cfg)
    ready ← ready_if alive (effective_pipe cfg)
    used ← usage s.installed alive
    (if json then pure tt else probe_tcp cfg)
    pure (row_of cfg s alive ready used)

  -- What is printed of the row, as JSON or as a table.
  unfoldable pub print_row : (Row → Option Str) → Bool → Bool → Row → Result Str
  print_row marshal on json row = if json then render_json marshal row else ok (render_row on row)

  -- `cmdPs` with the row that it prints and its exit code
  unfoldable pub cmd_ps : (Row → Option Str) → Bool → Config → Bool → M (Result Str × ℕ)
  cmd_ps marshal on cfg json = do
    row ← ps_row cfg json
    let text = print_row marshal on json row
    pure (text, if is_ok text then 0 else 1)

  -- Where dockup is not installed, its row is one of a stopped program with no size and no memory,
  -- whatever holds the pipe and whatever else the machine answers.
  pub ps_row-uninstalled :
      (cfg : Config) (json : Bool) (w : World)
      → (current_state e w).0.installed ≡ false
      → (ps_row cfg json w).0 ≡ record {
        status = status_stopped;
        autostart = autostart_text cfg.autostart;
        installed = codes "no";
        size = codes "-";
        memory = codes "-";
      }
  unfolding ps_row usage row_of classify installed_text pure ◌>>=◌
  ps_row-uninstalled cfg json w none_installed = rw none_installed (ground arith)

module _ (e : Env) (fs : Str → Option Str) where
  usage-SameFiles : (installed alive : Bool) → Keeps (SameFiles fs) (usage e installed alive)
  unfolding usage memory_of windows_rss dockup_distro_rss
  usage-SameFiles installed alive =
      search (same_files_rules, current_root-SameFiles, distro_dir-SameFiles, distro_size-SameFiles)
        depth 14

  ready-SameFiles : (alive : Bool) (pipe : Str) → Keeps (SameFiles fs) (ready_if e alive pipe)
  unfolding ready_if engine_ready
  ready-SameFiles alive pipe = search same_files_rules

  probe-SameFiles : (cfg : Config) → Keeps (SameFiles fs) (probe_tcp e cfg)
  unfolding probe_tcp
  probe-SameFiles cfg = search (same_files_rules, tcp_alive-SameFiles)

  -- Looking at the status changes no file.
  pub ps_row-SameFiles : (cfg : Config) (json : Bool) → Keeps (SameFiles fs) (ps_row e cfg json)
  unfolding ps_row
  ps_row-SameFiles cfg json =
      search
        (
          same_files_rules, current_state-SameFiles, alive_on-SameFiles, ready-SameFiles,
          usage-SameFiles, probe-SameFiles,
        )
        depth 16
