-- ===== src/Connection/Ssh.antt =====
-- pibot/connection/sshcmd.py: the argument vectors of ssh, scp and rsync.
pub mod Remote
use pibot.Prelude.{Bool, true, false, Option, none, some, List, [], ◌∷◌, ◌++◌, if◌then◌else◌, not}
use pibot.Prelude.Int.{ℤ, pos, eqb_ℤ}
use pibot.Python.Text.{Text, codes, concat, join, given, is_empty}
use pibot.Python.Number.{text_of_int}
use pibot.Python.Shell.{shell_join}

-- A text that is there only if it is given.
unfoldable pub identity_options : Option Text → List Text
identity_options none = []
identity_options (some identity) = if is_empty identity then [] else codes "-i" ∷ identity ∷ []

unfoldable pub ssh_options : Bool → ℤ → Option Text → List Text
unfolding concat text_of_int identity_options
ssh_options batch connect_timeout identity =
    (if batch then codes "-o" ∷ codes "BatchMode=yes" ∷ [] else [])
    ++ (codes "-o"
        ∷ codes "StrictHostKeyChecking=accept-new"
        ∷ ((if eqb_ℤ connect_timeout (pos 0)
              then []
              else codes "-o"
                ∷ concat (codes "ConnectTimeout=" ∷ text_of_int connect_timeout ∷ [])
                ∷ [])
            ++ identity_options identity))

unfoldable pub destination : Text → Option Text → Text
destination host none = host
destination host (some user) = if is_empty user then host else user ++ b'@' ∷ host

unfoldable pub remote_destination : Text → Option Text → Text → Text
unfolding destination
remote_destination host user path = destination host user ++ b':' ∷ path

-- A command is a line for the shell, or the words of one.
pub data Command : Type 0 where
  line : Text → Command
  words : List Text → Command

-- `_remote_command`
unfoldable pub remote_command : Command → Text
unfolding shell_join
remote_command (line s) = s
remote_command (words argv) = shell_join argv

unfoldable pub run_command : Text → Command → Option Text → Option Text → ℤ → List Text
unfolding ssh_options destination remote_command
run_command host command user identity connect_timeout =
    codes "ssh"
    ∷ (ssh_options true connect_timeout identity
        ++ (destination host user ∷ remote_command command ∷ []))

unfoldable pub interactive_command : Text → Option Text → Option Text → ℤ → List Text
unfolding ssh_options destination
interactive_command host user identity connect_timeout =
    codes "ssh"
    ∷ codes "-t"
    ∷ (ssh_options false connect_timeout identity ++ (destination host user ∷ []))

unfoldable pub scp_command : Text → Text → Bool → Option Text → ℤ → List Text
unfolding ssh_options
scp_command src dst recursive identity connect_timeout =
    codes "scp"
    ∷ (ssh_options true connect_timeout identity
        ++ ((if recursive then codes "-r" ∷ [] else []) ++ (src ∷ dst ∷ [])))

-- "ssh " + " ".join(options)
unfoldable pub ssh_transport : Option Text → ℤ → Text
unfolding ssh_options join
ssh_transport identity connect_timeout =
    codes "ssh " ++ join b' ' (ssh_options true connect_timeout identity)

unfoldable pub rsync_command : Text → Text → Option Text → Bool → ℤ → List Text
unfolding ssh_transport
rsync_command src dst identity delete connect_timeout =
    codes "rsync"
    ∷ codes "-az"
    ∷ codes "--info=progress2"
    ∷ ((if delete then codes "--delete" ∷ [] else [])
        ++ (codes "-e" ∷ ssh_transport identity connect_timeout ∷ src ∷ dst ∷ []))

unfoldable pub tunnel_command : Text → Text → Option Text → Option Text → ℤ → List Text
unfolding ssh_options destination
tunnel_command host spec user identity connect_timeout =
    codes "ssh"
    ∷ codes "-N"
    ∷ codes "-L"
    ∷ spec
    ∷ (ssh_options true connect_timeout identity ++ (destination host user ∷ []))

-- The default of `connect_timeout`.
abbrev pub default_timeout : ℤ
default_timeout = pos 10
