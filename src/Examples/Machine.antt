-- ===== src/Examples/Machine.antt =====
-- Machines for the examples: how they answer a call is given, the rest is fixed.
use dockup.Base.{ℕ, Bool, true, false, none, some, List, [], ◌∷◌, ◌++◌, Str, codes}
use dockup.Base.Int.{pos}
use dockup.Env.{Call, Reply, Env}
use dockup.Io.{World}
use dockup.Examples.Wire.{state_codec, config_codec, meta_codec}

abbrev join_parts : List Str → Str
join_parts [] = []
join_parts (p ∷ []) = p
join_parts (p ∷ q ∷ ps) = p ++ b'\\' ∷ join_parts (q ∷ ps)

abbrev pub machine : (List Call → Call → Reply) → Env
machine reply = record {
  reply = reply;
  join = join_parts;
  dir = λ p. codes "dir";
  clean = λ p. p;
  is_abs = λ p. true;
  getenv = λ name. [];
  user_home = some (codes "home");
  temp_dir = codes "temp";
  own_pid = pos 42;
  own_name = codes "dockup.exe";
  version = codes "dev";
  listing = λ out. [];
  state_json = state_codec;
  config_json = config_codec;
  meta_json = meta_codec;
}

abbrev pub answer : Bool → Bool → ℕ → Reply
answer ok flag num = record { ok = ok; flag = flag; num = num; out = [] }

-- Every call works.
abbrev pub kind : Env
kind = machine (λ t c. answer true true 0)

-- Every call fails.
abbrev pub broken : Env
broken = machine (λ t c. answer false false 0)

abbrev pub no_files : World
no_files = record { trace = []; files = λ p. none }
