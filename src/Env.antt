-- ===== src/Env.antt =====
-- The machine under the program. Every call that leaves the repository's code is a `Call`, and the
-- environment answers it from the calls made before: an environment is any such function, so that
-- what holds for all of them holds whatever WSL, the network, the clock and the user do. A failed
-- write or download may leave any content behind.
use dockup.Base.{ℕ, ◌≡◌, Bool, List, Option, some, Str}
use dockup.Base.Int.{ℤ}
use dockup.Records.{State, Config, Meta}

pub data Call : Type 0 where
  -- internal/wsl: the API, wsl.exe and its scripts
  api_registered list_distros list_running : Call
  wsl_exec wsl_script : Str → Call
  wsl_import : Str → Str → Call
  unregister terminate : Call
  wsl_shell : List Str → Call
  -- pipes, sockets and processes
  dial : Str → Call
  dial_tcp : Str → Call
  ping : Str → Call
  -- a server socket of a pipe or of TCP, its end, and the wait for the end of the context
  listen listen_tcp close_listener : Str → Call
  cancelled : Call
  query_process kill : ℤ → Call
  spawn_serve executable open_log tasklist : Call
  -- the clock: `before n` asks whether n ms have not passed since the loop began
  before : ℕ → Call
  sleep : ℕ → Call
  now : Call
  -- the user
  read_line : Call
  interrupted : Call
  -- files
  read_file write_file append_file remove mkdir stat : Str → Call
  rename : Str → Str → Call
  lock_create lock_stale lock_remove lock_expired : Call
  -- the network, the docker CLI, the Startup folder
  http_get : Str → Call
  size_head : Str → Call
  docker_cli : List Str → Call
  look_path : Str → Call
  powershell : Str → Call
  -- filepath.Walk over a directory
  walk : Str → Call
  -- `relay.ServeEx` in a goroutine of a serving command: its start, what it tells of the mirror within
  -- 5 s, an error that it has reported, and its end
  serve mirror_told serve_failed serve_ended : Call

-- `ok` is a nil error; the other fields are what the call returns besides.
pub record Reply : Type 0 where
  pub ok : Bool
  pub flag : Bool
  pub num : ℕ
  pub out : Str

-- encoding/json on one of the records: what is marshalled is read back as it was.
pub record Codec (A : Type 0) : Type 0 where
  pub encode : A → Str
  pub decode : Str → Option A
  pub decode-encode : (a : A) → decode (encode a) ≡ some a

-- What `filepath.Walk` hands over for a name: its error, or a file or directory with its size.
pub record Entry : Type 0 where
  pub failed : Bool
  pub is_dir : Bool
  pub size : ℕ

pub record Env : Type 0 where
  pub reply : List Call → Call → Reply
  -- os and path/filepath on Windows
  pub join : List Str → Str
  pub dir : Str → Str
  pub clean : Str → Str
  pub is_abs : Str → Bool
  pub getenv : Str → Str
  pub user_home : Option Str
  pub temp_dir : Str
  pub own_pid : ℤ
  -- the base name of our own executable
  pub own_name : Str
  -- internal/config: `Version`, as `resolveVersion` left it at start-up
  pub version : Str
  -- the names that a walk with this answer meets, in its order
  pub listing : Str → List Entry
  pub state_json : Codec State
  pub config_json : Codec Config
  pub meta_json : Codec Meta
