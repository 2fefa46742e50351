-- ===== src/Connection/Ssh/Remote.antt =====
-- What the remote host runs.
use pibot.Prelude.{◌≡◌, refl, Option, some, List, [], ◌∷◌, ◌++◌, true}
use pibot.Prelude.Int.{ℤ}
use pibot.Python.Text.{Text, codes}
use pibot.Python.Shell.{shell_join, shell_words}
use pibot.Python.Shell.Words.{shell_words-shell_join}
use pibot.Connection.Ssh.{ssh_options, destination, words, remote_command, run_command}

-- A command of words goes to ssh as one argument, the last, behind the options and the
-- destination, and the shell of the remote host takes it apart into the same words.
pub run_command_words :
    (host : Text) (argv : List Text) (user identity : Option Text) (connect_timeout : ℤ)
    → (remote : Text) × (run_command host (words argv) user identity connect_timeout
        ≡ codes "ssh"
          ∷ (ssh_options true connect_timeout identity ++ (destination host user ∷ remote ∷ [])))
      × (shell_words remote ≡ some argv)
unfolding run_command remote_command
run_command_words host argv user identity connect_timeout =
    (shell_join argv, refl, shell_words-shell_join argv)
