-- ===== src/Examples/Fleet.antt =====
-- Deploys, links, sessions and disks: the theorems at concrete inputs.
use pibot.Prelude.{
  ◌≡◌, refl, ℕ, suc, ◌≤◌, ◌+◌, Bool, true, false, none, some, List, [], ◌∷◌, ◌++◌, length, All,
}
use pibot.Prelude.Int.{ℤ, pos}
use pibot.Python.Text.{Text, codes}
use pibot.Python.Result.{ok, os_error}
use pibot.Python.Value.{int}
use pibot.Python.Value.Sample.{Float, finite, sample}
use pibot.Python.Shell.{shell_words}
use pibot.Python.Tree.{
  Tree, leaf, list, dict, no_items, item, Fields, no_fields, field, text_leaf, field_at, truth_of,
}
use pibot.Connection.Ssh.{ssh_options, destination, words, run_command}
use pibot.Connection.Ssh.Remote.{run_command_words}
use pibot.Deploy.Runner.{Host, History}
use pibot.Deploy.Service.{
  Target, install, run_steps, run_on, restart_and_verify, poll_health, venv_commands,
}
use pibot.Deploy.Service.Health.{Healthy, install-Healthy}
use pibot.Deploy.Service.Attempts.{install_ends}
use pibot.Deploy.Sync.{deploy, DeployResult, remote_release_dir}
use pibot.Transport.FrameBuffer.Chunks.{joined}
use pibot.Transport.I2c.{Bus, I2cTransport, send_i2c}
use pibot.Transport.I2c.Blocks.{logged, written, send_i2c_blocks}
use pibot.Provision.Devices.{BlockDevice, device_of, assert_safe_target}
use pibot.Provision.Devices.Below.{NodeOf, itself, in_child, first}
use pibot.Provision.Devices.Guard.{IsHarmless, safe_target_unmounted}
use pibot.Python.Action.{Action}
use pibot.Control.Client.{AgentClient, Web, estop, new_client, open_client}
use pibot.Control.Sequence.{Step, play}
use pibot.Control.Sequence.Abort.{EndsAborted, play-EndsAborted}
use pibot.Mc.RobotLink.{Outside, RobotLink, new_link, connect, delegate}
use pibot.Mc.RobotLink.Connected.{
  Reached, made, connected, delegated, IsCoherent, Reached-IsCoherent,
}
use pibot.Mc.Sessions.{SessionRow, SessionRecorder, saved, write_raised, open_recorder, start, stop}
use pibot.Mc.Sessions.Open.{
  IsSound, Recorded, opened, started_one, stopped_one, open_ids, Recorded-IsSound,
}

run_command_words_example :
    (remote : Text) × (run_command
        (codes "pi.local")
        (words (codes "echo" ∷ codes "it's" ∷ []))
        none
        none
        (pos 10)
      ≡ codes "ssh"
        ∷ (ssh_options true (pos 10) none ++ (destination (codes "pi.local") none ∷ remote ∷ [])))
    × (shell_words remote ≡ some (codes "echo" ∷ codes "it's" ∷ []))
run_command_words_example =
    run_command_words (codes "pi.local") (codes "echo" ∷ codes "it's" ∷ []) none none (pos 10)

-- A host on which every command succeeds.
abbrev willing : Host
willing h argv = ok (record { exit_code = pos 0; stdout = [] })

abbrev target : Target
target = record { dest = codes "pi@pi"; port = pos 8787; identity = none }

abbrev base : Text
base = codes "/opt/pibot"

unfoldable after_install : History
unfolding install
after_install = (install willing target base none (codes "pi") 2 []).1

install_returned : install willing target base none (codes "pi") 2 [] ≡ (ok (pos 0), after_install)
unfolding install run_steps run_on restart_and_verify poll_health venv_commands after_install
install_returned = refl

install-Healthy_example : Healthy willing target after_install
install-Healthy_example =
    install-Healthy willing target base none (codes "pi") 2 [] after_install install_returned

install_ends_example : length (install willing target base none (codes "pi") 2 []).1 ≤ 0 + (7 + 2)
install_ends_example = install_ends willing target base none (codes "pi") 2 []

no_space : ℕ → Bool
no_space c = false

-- A host on which every command fails.
abbrev failing : Host
failing h argv = ok (record { exit_code = pos 23; stdout = [] })

abbrev release : DeployResult
release = record { release = codes "/opt/pibot/releases/r1"; changed = []; activated = true }

-- The release is activated all the same.
deploy_unchecked :
    (deploy failing no_space []
      (codes "pi@pi")
      (codes "src/")
      base
      none
      false
      (some (codes "r1"))
      []
      []).0
    ≡ ok release
unfolding deploy remote_release_dir no_space
deploy_unchecked = refl

-- A disk with one partition, mounted at /media.
abbrev example_partition : Fields Float Unit
example_partition =
    field (codes "name") (text_leaf (codes "sda1"))
      (field (codes "mountpoint") (text_leaf (codes "/media")) no_fields)

abbrev example_disk : Fields Float Unit
example_disk = field (codes "name") (text_leaf (codes "sda")) (
    field (codes "size") (leaf (int (pos 32)))
      (field (codes "children") (list (item (dict example_partition) no_items)) no_fields))

abbrev show_nothing : Tree Float Unit → Text
show_nothing t = []

abbrev as_is : Text → Text
as_is s = s

abbrev no_ratio : ℤ → ℤ → Float
no_ratio a b = finite a

abbrev example_device : BlockDevice Float Unit
example_device = record {
  node = codes "/dev/sda";
  size_bytes = pos 32;
  model = [];
  removable = false;
  internal = false;
  mountpoints = text_leaf (codes "/media") ∷ [];
  is_system = false;
}

disk_read : device_of sample show_nothing example_disk ≡ ok example_device
unfolding device_of
disk_read = refl

disk_safe : assert_safe_target sample as_is no_ratio example_device none none ≡ ok tt
unfolding assert_safe_target
disk_safe = refl

partition_below : NodeOf example_disk example_partition
unfolding field_at
partition_below =
    in_child example_disk example_partition example_partition
      (item (dict example_partition) no_items) refl (first no_items) (itself example_partition)

partition_mounted :
    field_at (codes "mountpoint") example_partition ≡ some (text_leaf (codes "/media"))
unfolding field_at
partition_mounted = refl

media_named : truth_of sample (text_leaf {F = Float} {O = Unit} (codes "/media")) ≡ true
unfolding truth_of
media_named = refl

safe_target_unmounted_example : IsHarmless (text_leaf {F = Float} {O = Unit} (codes "/media"))
safe_target_unmounted_example =
    safe_target_unmounted sample show_nothing as_is no_ratio example_disk example_device none none
      example_partition (text_leaf (codes "/media")) disk_read disk_safe partition_below
      partition_mounted media_named

-- The database holds a session that was never ended, and ending the next one fails.
abbrev old_session : SessionRow Float
old_session = record { id = codes "old"; robot = none; started = finite (pos 0); ended = none }

unfoldable example_recorder : SessionRecorder Float
unfolding start stop
example_recorder =
    (stop (finite (pos 5)) saved
      (start (codes "b") none (finite (pos 2)) saved (finite (pos 3)) saved
        (stop (finite (pos 2)) (write_raised os_error)
          (start (codes "a") (some (codes "pi")) (finite (pos 0)) saved (finite (pos 1)) saved
            (open_recorder (old_session ∷ []) [])).1).1).1).1

example-Recorded : Recorded (codes "a" ∷ codes "old" ∷ []) example_recorder
unfolding example_recorder open_ids start stop
example-Recorded = stopped_one (finite (pos 5)) saved (
    started_one (codes "b") none (finite (pos 2)) (finite (pos 3)) saved saved (
      stopped_one (finite (pos 2)) (write_raised os_error) (
        started_one (codes "a") (some (codes "pi")) (finite (pos 0)) (finite (pos 1)) saved saved
          (opened (old_session ∷ []) []))))

Recorded-IsSound_example : IsSound (codes "a" ∷ codes "old" ∷ []) example_recorder
Recorded-IsSound_example =
    Recorded-IsSound (codes "a" ∷ codes "old" ∷ []) example_recorder example-Recorded

-- A network on which every call answers.
abbrev still_web : Web Float Unit ℕ
still_web = record {
  open_session = λ headers w. (ok w, suc w);
  close_session = λ n w. (ok tt, w);
  request =
      λ n method url body w. (ok (record { status = pos 200; json = ok (dict no_fields) }), w);
  ws_connect = λ n url w. (ok w, suc w);
  is_closed = λ n w. false;
  send_json = λ n t w. (ok tt, w);
  receive_json = λ n w. (ok (dict no_fields), w);
  close_ws = λ n w. (ok tt, w);
}

abbrev still_outside : Outside ℕ
still_outside = record {
  resolver = λ name w. (ok (codes "http://pi:8787", some (codes "token")), w);
  on_connect = none;
  video_session = λ headers w. (ok w, suc w);
  new_relay = λ n url w. (ok w, suc w);
  start_relay = λ n w. (ok tt, w);
  stop_relay = λ n w. (ok tt, w);
  close_video_session = λ n w. (ok tt, w);
}

unfoldable example_link : RobotLink ℕ
unfolding new_link connect delegate estop
example_link =
    (delegate sample still_web still_outside (estop still_web)
      (connect sample still_web still_outside (codes "pi") (new_link 0)).1).1

example-Reached : Reached sample still_web still_outside example_link
unfolding example_link
example-Reached = delegated (estop still_web) (connected (codes "pi") (made 0))

Reached-IsCoherent_example : IsCoherent example_link
Reached-IsCoherent_example =
    Reached-IsCoherent sample still_web still_outside example_link example-Reached

-- A bus that takes every block.
abbrev still_bus : Bus Unit
still_bus = record {
  open_bus = λ w. (ok 1, w);
  close_bus = λ n w. (ok tt, w);
  write_block = λ n b w. (ok tt, w);
  read_block = λ n w. (ok [], w);
  is_late = λ w. true;
}

abbrev long_frame : List ℕ
long_frame = codes ">1,jmove,0,45.0,10.0,and a tail behind it*00"

abbrev bus_idle : I2cTransport (Unit × List (List ℕ))
bus_idle = record { bus = some 1; buf = []; world = (tt, []) }

unfoldable after_send : I2cTransport (Unit × List (List ℕ))
unfolding send_i2c
after_send = (send_i2c (logged still_bus) long_frame bus_idle).1

frame_sent : send_i2c (logged still_bus) long_frame bus_idle ≡ (ok tt, after_send)
unfolding send_i2c after_send logged
frame_sent = refl

send_i2c_blocks_example :
    (bs : List (List ℕ)) × (written after_send ≡ written bus_idle ++ bs)
    × All (λ b. length b ≤ 32) bs
    × (joined bs ≡ long_frame)
send_i2c_blocks_example = send_i2c_blocks still_bus long_frame bus_idle after_send frame_sent

-- The time is what the network has counted.
abbrev read_clock : ℕ → Float
read_clock w = finite (pos w)

abbrev sleep : Action ℕ (Unit {0})
sleep w = (ok tt, suc w)

abbrev latch_step : Step Float Unit
latch_step = record { at = finite (pos 0); cmd = codes "estop"; args = no_fields }

unfoldable opened_client : AgentClient × ℕ
unfolding open_client new_client
opened_client = (open_client still_web (new_client (codes "http://pi:8787/") none, 0)).1

unfoldable after_play : AgentClient × ℕ
unfolding play
after_play = (play sample still_web read_clock sleep 3 true (latch_step ∷ []) opened_client).1

play_aborted :
    play sample still_web read_clock sleep 3 true (latch_step ∷ []) opened_client
    ≡ (ok (pos 1), after_play)
unfolding play opened_client after_play
play_aborted = refl

play-EndsAborted_example : EndsAborted sample still_web read_clock sleep after_play
play-EndsAborted_example =
    play-EndsAborted sample still_web read_clock sleep 3 true (latch_step ∷ []) opened_client
      after_play play_aborted
