-- ===== src/Deploy/Runner.antt =====
-- `run_capture` of pibot/connection/runner.py. What a command answers depends on it and on the
-- commands before it; it comes from outside. It answers or raises: a command that never ends, which
-- nothing here cuts off since no timeout is given, is not modelled. A result's stderr and duration,
-- which only the log shows, are left out.
use pibot.Prelude.{List, [], ◌∷◌, ◌++◌, none, Option}
use pibot.Prelude.Int.{ℤ}
use pibot.Python.Text.{Text}
use pibot.Python.Result.{Result}
use pibot.Python.Action.{Action}
use pibot.Connection.Ssh.{run_command, line, default_timeout}

pub record RunResult : Type 0 where
  pub exit_code : ℤ
  pub stdout : Text

-- The commands run so far, the last one at the end.
abbrev pub History : Type 0
History = List (List Text)

abbrev pub Host : Type 0
Host = History → List Text → Result RunResult

-- What runs commands.
abbrev pub Session : Type 0 → Type 0
Session A = Action History A

abbrev pub run_capture : Host → List Text → Session RunResult
run_capture host argv h = (host h argv, h ++ argv ∷ [])

-- `_run`: the line runs on the host over ssh
unfoldable pub ssh_argv : Text → Text → Option Text → List Text
unfolding run_command
ssh_argv dest command identity = run_command dest (line command) none identity default_timeout
