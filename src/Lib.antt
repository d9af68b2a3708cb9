-- ===== src/Lib.antt =====
-- Verification library of dockup, the program that runs a Docker engine in a WSL distro.
--
-- Base holds what the modules share: texts as lists of bytes, the operations of Go's strings and
-- strconv packages on them as on ASCII, and lists measured by native numbers. Records holds what is kept on disk.
-- Env is the machine under the program: every call that leaves the repository's code (wsl.exe,
-- processes, the network, the clock, the files' success) is a Call, and an Env answers it from the
-- calls made before. Io is the programs over it: functions of a World, which holds the trace of calls
-- and the files. What is proved holds for every Env, so for every failure of a call at any point.
-- The codecs of Env state that what encoding/json writes is read back; SHA-256, base64 and Ed25519 are
-- the parameters Crypto and, where imgtool signs, Signer.
--
-- The parts, and the code that each one is about:
--   Config        internal/config/config.go, internal/config/version.go
--   State         internal/state/state.go: Load, Save and WithLock; in State/Exclusion its lock
--                 file as a step relation of several processes
--   Userconfig    internal/userconfig/userconfig.go
--   Wsl           internal/wsl/wsl.go: UTF-16, the lists, retries, import and the command lines of wsl.exe
--   Relay         internal/relay/relay.go: the liveness checks, the waits, the ping and ServeEx; in
--                 Relay/Bridge a bridged connection as a step relation
--   Daemon        internal/daemon/daemon.go: Start, Stop and Status
--   Download      internal/download/download.go
--   Image         internal/image/image.go: the signed image and its cache
--   Imgtool       scripts/image/imgtool/main.go: the tool that signs the checksum files
--   Doctor        internal/doctor/doctor.go: .wslconfig, the reconciliation with WSL, the checks
--                 and the repair
--   Docker        internal/docker/docker.go: the engine inside the distro
--   Dockctx       internal/dockctx/dockctx.go: the docker context
--   Ui            internal/ui: the confirmation, the spinner, the progress bar, and when output is styled
--   Setup         internal/setup/setup.go: the install and the uninstall, an interrupt at the first prompt,
--                 and the prompts on a piped standard input
--   Autostart     internal/autostart/autostart.go: the Startup shortcut and its script
--   Cli           cmd/dockup/main.go: the flags, every command and their dispatch; in Cli/Interrupt the
--                 interrupter beside a foreground as a step relation
--   Restore       internal/restore/restore.go: the light and the full restore
--   Logx          internal/logx/logx.go: the log file and its rotation
--   Sysinfo       internal/sysinfo/sysinfo.go
--   Pstable       internal/pstable/pstable.go
--   Examples      concrete machines and inputs on which the theorems apply
-- Daemon uses State, Userconfig, Relay and Doctor; Image uses Download and Config; Doctor uses State,
-- Userconfig, Wsl, Relay and Docker; Setup uses Image, Docker, Userconfig, State, Wsl and Dockctx;
-- Restore uses Docker, State and Setup; Cli uses them all, as the packages import one another.
--
-- Bounds. The loop of WithLock is given 1000 rounds, more than the 150 pauses of 100 ms that reach its
-- 15 s deadline. A wait of ms milliseconds is given ms / 200 + 1 rounds, each of which sleeps 200 ms,
-- and the wait for the engine ms / 3000 + 1 rounds of 3 s. A decimal number is printed with at most 20
-- digits, enough for uint64. FormatSize is the exact rounding that float64 gives below 2^53 bytes. A retry in
-- setup starts a new round, of which a number is given: none is the result where they are used up, and
-- as many rounds are enough as calls are made before the user asks for no further retry. The rounds of
-- the log's loop are the texts that they read.
--
-- Not modelled: what the help texts, Printf, Hint and Warn print; the interrupt handlers at other points
-- of a run than those of Cli/Interrupt and Setup/Interrupt (whether one has run is a question to the
-- environment); the stand-ins for other systems, whose functions are constants; the calls of Windows
-- behind internal/wsl; the loop of serveListener that accepts; what wsl.exe and the docker CLI do to files
-- of their own. The lock file is no file of the World: the answers to its calls stand for it and for the
-- other processes. WithLock's error after its last round stands for a loop that goes on.
pub mod Autostart
pub mod Base
pub mod Cli
pub mod Config
pub mod Daemon
pub mod Dockctx
pub mod Docker
pub mod Doctor
pub mod Download
pub mod Env
pub mod Examples
pub mod Image
pub mod Imgtool
pub mod Io
pub mod Logx
pub mod Pstable
pub mod Records
pub mod Relay
pub mod Restore
pub mod Setup
pub mod State
pub mod Sysinfo
pub mod Ui
pub mod Userconfig
pub mod Wsl
