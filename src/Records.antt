-- ===== src/Records.antt =====
-- What dockup keeps on disk: state.json (internal/state/state.go), config.json
-- (internal/userconfig/userconfig.go) and the image metadata (internal/image/image.go).
use dockup.Base.{Bool, false, List, [], Str}
use dockup.Base.Int.{ℤ, pos}

pub record Daemon : Type 0 where
  pub pid : ℤ
  pub started_at : Str
  pub mirror : Bool

pub record Snapshot : Type 0 where
  pub at : Str
  pub manual : List Str

pub record State : Type 0 where
  pub installed : Bool
  pub arch : Str
  pub setup_at : Str
  pub daemon : Daemon
  pub snapshot : Snapshot

abbrev pub zero_daemon : Daemon
zero_daemon = record { pid = pos 0; started_at = []; mirror = false }

abbrev pub zero_state : State
zero_state = record {
  installed = false;
  arch = [];
  setup_at = [];
  daemon = zero_daemon;
  snapshot = record { at = []; manual = [] };
}

pub record Config : Type 0 where
  pub default_path : Str
  pub current_path : Str
  pub port : ℤ
  pub use_tcp : Bool
  pub pipe_name : Str
  pub color : Bool
  pub autostart : Bool
  pub docker_context_prev : Str

abbrev pub zero_config : Config
zero_config = record {
  default_path = [];
  current_path = [];
  port = pos 0;
  use_tcp = false;
  pipe_name = [];
  color = false;
  autostart = false;
  docker_context_prev = [];
}

pub record Meta : Type 0 where
  pub tag : Str
  pub arch : Str
  pub sha256 : Str
  pub source : Str
  pub downloaded_at : Str
