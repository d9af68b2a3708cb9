-- ===== src/Examples/Terminal.antt =====
-- The theorems on the terminal, its interrupts and `dockup ssh`, on concrete inputs.
use dockup.Base.{
  ◌≡◌, ◌≢◌, ◌≤◌, refl, true, false, List, [], ◌∷◌, ◌++◌, Str, codes, some, arith, length,
}
use dockup.Base.Int.{pos}
use dockup.Records.{Config, zero_config}
use dockup.Io.{World, attempt, write_path, ask, ◌>>=◌}
use dockup.Io.Keeps.{Keeps, Only}
use dockup.Env.{Env, read_line}
use dockup.Userconfig.Paths.{with_defaults, resolve_install_dir}
use dockup.Userconfig.File.{config_file, save_config}
use dockup.Ui.Spinner.{starts, dones, stops, new_spinner, run_ops}
use dockup.Ui.Spinner.Laws.{end_shown, start_shown, first_end, run_ops-first_end}
use dockup.Ui.Progress.{
  Body, more, eof, stream, bytes_of, on_reports, new_progress, stream-position, unwritten,
}
use dockup.Cli.Interrupt.{
  Session, new_session, Reach, here, next, signal, catch, take_spinner, announce_bare, cancel,
  force, say_down, holding, tripped_now, announced, cancelled, forced_shown,
}
use dockup.Cli.Interrupt.Laws.{downs, calm, missed, Reach-announced}
use dockup.Cli.Daemons.{cmd_ssh}
use dockup.Cli.Remote.{remote, cmd_ssh-Remotely}
use dockup.Setup.Install.{Options, ask_install_path, or_default_path}
use dockup.Setup.Interrupt.{interrupted_prompt, cleared, interrupted_prompt-clears}
use dockup.Setup.Piped.{prompt_line, behind, answered, FromPipe, no_newline, ask_install_path-piped}
use dockup.Examples.Machine.{kind, machine, no_files, answer}

-- The watcher stops the spinner before the command is done with it.
run_ops-first_end_example :
    (run_ops (starts true ∷ stops ∷ dones true ∷ []) (new_spinner (codes "step"))).out
    ≡ end_shown true (codes "step") (first_end (stops ∷ dones true ∷ []))
      ++ start_shown true (codes "step")
run_ops-first_end_example = run_ops-first_end true (codes "step") (stops ∷ dones true ∷ [])

abbrev two_passes : Body
two_passes =
    more (record { bytes = codes "abc"; wrote = true; partial = []; due = true })
      (eof (record { bytes = codes "de"; wrote = true; partial = []; due = false }))

stream-position_example :
    ((stream two_passes []).file ≡ bytes_of two_passes)
    × ((on_reports (stream two_passes []).reports (0, new_progress true)).1.given
        ≡ pos (length (bytes_of two_passes)))
unfolding stream unwritten
stream-position_example = stream-position two_passes refl

cmd_ssh-Remotely_example : Keeps (Only remote) (cmd_ssh kind (codes "--unregister" ∷ []))
cmd_ssh-Remotely_example = cmd_ssh-Remotely kind (codes "--unregister" ∷ [])

abbrev placed : Config
placed = record zero_config { current_path = codes "D:/WSL" }

abbrev placed_world : World
placed_world = record {
  trace = [];
  files = λ p. some (kind.config_json.encode placed ++ codes "\n");
}

abbrev dry : Options
dry = record { arch = codes "amd64"; path = []; dry_run = true; cfg = placed }

interrupted_prompt-clears_example :
    ((interrupted_prompt kind dry placed_world).0 ≡ 130)
    × ((interrupted_prompt kind dry placed_world).1.files (config_file kind)
        ≡ some (kind.config_json.encode (cleared kind (with_defaults kind placed)) ++ codes "\n"))
    × ((cleared kind (with_defaults kind placed)).current_path ≡ [])
    × ((interrupted_prompt kind dry placed_world).1.files (config_file kind)
        ≢ placed_world.files (config_file kind))
unfolding save_config attempt write_path ask ◌>>=◌
interrupted_prompt-clears_example =
    interrupted_prompt-clears kind dry placed placed_world refl (λ h. cc) refl

-- A session that is interrupted twice before the spinner has begun.
abbrev fresh : Session
fresh = new_session (codes "step")

abbrev signalled : Session
signalled = record fresh { signals = 1 }

abbrev caught : Session
caught = record signalled { signals = 0; tripped = true; watch = tripped_now }

abbrev looked : Session
looked = record caught { watch = holding false }

abbrev told : Session
told = record (say_down looked) { watch = announced false }

abbrev again : Session
again = record told { signals = 1 }

abbrev teardown : Session
teardown = record again { watch = cancelled false }

abbrev forced : Session
forced = record teardown { signals = 0; over = true; screen = forced_shown ∷ teardown.screen }

twice : Reach true fresh forced
unfolding say_down
twice =
    next
      (next
        (next
          (next
            (next
              (next (next here (signal fresh refl (omega arith)))
                (catch signalled 0 refl refl refl))
              (take_spinner caught refl refl))
            (announce_bare looked refl refl))
          (signal told refl (omega arith)))
        (cancel again false refl refl))
      (force teardown 0 false refl refl refl)

Reach-announced_example :
    (downs forced.screen ≤ 1)
    × (forced.over ≡ true → downs forced.screen ≡ 1)
    × (missed forced.watch ≡ false → calm forced.screen ≡ true)
Reach-announced_example = Reach-announced (codes "step") twice

-- "y" and a path in one read of a pipe.
abbrev piped_input : List Str
piped_input = (codes "y" ++ (10 ∷ codes "D:/WSL\n")) ∷ []

abbrev piped : Env
piped =
    machine (λ t c. record (answer true true 0) {
      out = (prompt_line (behind (answered t) piped_input)).0;
    })

abbrev confirmed_once : World
confirmed_once = record no_files { trace = read_line ∷ [] }

ask_install_path-piped_example :
    (ask_install_path piped zero_config [] confirmed_once).0
    ≡ some (or_default_path piped zero_config (resolve_install_dir piped [] zero_config))
unfolding no_newline answered FromPipe
ask_install_path-piped_example =
    ask_install_path-piped piped (codes "y") (codes "D:/WSL\n") zero_config confirmed_once 0 refl
      (λ t. refl) refl
