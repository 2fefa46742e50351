-- ===== src/Examples/Agents.antt =====
-- The agent on the robot: its arm control, its controller and its authentication, at concrete inputs.
use pibot.Prelude.{
  ◌≡◌, refl, ◌↔◌, Bool, true, false, none, some, List, [], ◌∷◌, ◌++◌, All, arith, ℕ, ◌≤◌, ◌==◌,
  if◌then◌else◌,
}
use pibot.Prelude.Int.{pos}
use pibot.Python.Text.{Text, codes, strip_prefix, ascii_space}
use pibot.Python.Result.{Result, ok, each}
use pibot.Python.Utf8.{encode_utf8, decode_utf8}
use pibot.Python.Number.{text_of_int, int_of_ascii, hex2}
use pibot.Protocol.Crc.{crc8}
use pibot.Python.Value.{int}
use pibot.Python.Value.Sample.{Float, finite, sample, show}
use pibot.Python.Tree.{leaf, Fields, no_fields, field, text_leaf, field_at}
use pibot.Protocol.Sequence.{fresh}
use pibot.Protocol.Codec.{ascii, encode, decode}
use pibot.Arm.Boards.{Boards, Event, recorded}
use pibot.Arm.Gate
use pibot.Arm.Manager
use pibot.Arm.Manager.{Setup, linear_joint_map}
use pibot.Arm.Manager.Routing.{events}
use pibot.Agent.ArmControl.{ArmState, ack, command_in, jmove, estop, clear_estop}
use pibot.Agent.ArmControl.Handler.{
  joint_of, arg_of, jmove_plan, gated, arg, Plan, begin, carry_out, arm_command, serve,
}
use pibot.Agent.ArmControl.Latched.{NoClear, latched_session}
use pibot.Agent.ArmControl.Harmless.{Halting}
use pibot.Agent.ArmControl.Acked.{Acked, jmove-Acked}
use pibot.Arm.Programs.{grip_step, tool_step}
use pibot.Agent.ArmControl.Programs.{Beside, Player, returned, is_aborted, run_wait_step}
use pibot.Agent.ArmControl.Programs.Runner.{run_step, run_program}
use pibot.Agent.ArmControl.Programs.Waits.{others_after, abort_ends_wait}
use pibot.Agent.Auth.{Request, authorize}
use pibot.Agent.Auth.Admitted.{MayPass, authorize_exact}
use pibot.Agent.Control.{new_controller, begun, received, ended, ticked, replied, outgoing}
use pibot.Agent.Safety.{Config, Reason, submit}
use pibot.Control.Safety.{clamp_command}
use pibot.Protocol.Message.{ack_of}
use pibot.Agent.Control
use pibot.Agent.Control.Replies.{IsSound, run-IsSound}
use pibot.Agent.Control.Delivery
use pibot.Examples.{example_joints, example_joints-IsSane, example_config, drive_message}
use pibot.Examples.Arms.{boards_but}

-- One board with two joints.
abbrev one_board : Setup
one_board = record {
  count = 1;
  joints = linear_joint_map (2 ∷ []);
  encoding = ascii;
  gripper_board = pos 0;
}

abbrev boards : Boards Float (Unit × List Event)
boards = recorded (boards_but 9)

abbrev homed_arm : Bool → ArmState Float (Unit × List Event)
homed_arm estopped = record {
  manager = record { seqs = fresh ∷ []; gripper_state = none; world = (tt, []) };
  estopped = estopped;
  aborted = false;
  homed = pos 1 ∷ [];
  positions = [];
}

abbrev frame_for : Text → Fields Float Unit → Fields Float Unit
frame_for cmd rest = field (codes "cmd") (text_leaf cmd) rest

abbrev jmove_frame : Fields Float Unit
jmove_frame = frame_for (codes "jmove") (
    field (codes "joint") (leaf (int (pos 1))) (
      field (codes "deg") (leaf (int (pos 200)))
        (field (codes "dps") (leaf (int (pos 20))) no_fields)))

abbrev enable_frame : Fields Float Unit
enable_frame = frame_for (codes "enable") no_fields

abbrev client_frames : List (Fields Float Unit)
client_frames = enable_frame ∷ jmove_frame ∷ []

client_frames-NoClear : NoClear sample (boards_but 9) one_board example_joints none client_frames
unfolding command_in field_at
client_frames-NoClear = ((λ h. cc), ((λ h. cc), tt))

latched_session_example :
    let s' = serve sample boards one_board example_joints none client_frames (homed_arm true) in
    (s'.estopped ≡ true)
    × (s'.homed ≡ pos 1 ∷ [])
    × ((es : List Event) × (events s'.manager ≡ [] ++ es)
        × All (Halting sample (boards_but 9) one_board example_joints none) es)
latched_session_example =
    latched_session sample (boards_but 9) one_board example_joints none client_frames
      (homed_arm true) refl client_frames-NoClear

unfoldable moved_arm : ArmState Float (Unit × List Event)
unfolding arm_command
moved_arm =
    (arm_command sample boards one_board example_joints none jmove_frame (homed_arm false)).1

moved :
    arm_command sample boards one_board example_joints none jmove_frame (homed_arm false)
    ≡ (ok ack, moved_arm)
unfolding arm_command moved_arm joint_of arg_of jmove_plan Gate.jmove gated arg Manager.jmove
    linear_joint_map each encode_utf8 text_of_int fresh show hex2 crc8 recorded
moved = refl

jmove_frame-jmove : command_in (field_at (codes "cmd") jmove_frame) ≡ jmove
unfolding command_in field_at
jmove_frame-jmove = refl

jmove-Acked_example :
    Acked sample
      (boards_but 9)
      one_board
      example_joints
      none
      example_joints-IsSane
      jmove_frame
      (homed_arm false)
      moved_arm
jmove-Acked_example =
    jmove-Acked sample (boards_but 9) one_board example_joints none example_joints-IsSane
      jmove_frame (homed_arm false) moved_arm jmove_frame-jmove moved

abbrev link_config : Config Float
link_config = record example_config { up = λ n. true }

-- A command, its ack, and the end of its wait.
abbrev answered_call : List (Control.Event Float Unit)
answered_call = begun drive_message ∷ received (codes "ACK 0\n") ∷ ended 0 ∷ ticked ∷ []

run-IsSound_example :
    IsSound (Control.run sample link_config answered_call (new_controller sample link_config))
run-IsSound_example = run-IsSound sample link_config answered_call

-- That call returns the ack.
call_replied :
    ((Control.run sample link_config answered_call (new_controller sample link_config)).calls
      0).outcome
    ≡ replied (ack_of (pos 0))
unfolding Control.run new_controller decode decode_utf8 strip_prefix int_of_ascii ascii_space submit
    clamp_command encode each encode_utf8 text_of_int show hex2 crc8
call_replied = refl

ack_frame_read : decode sample (codes "ACK 0\n") ascii ≡ ok (ack_of (pos 0))
unfolding decode decode_utf8 strip_prefix int_of_ascii ascii_space
ack_frame_read = refl

abbrev fresh_controller : Control.Controller Float Unit
fresh_controller = Delivery.after sample link_config []

drive_goes :
    (submit sample link_config
      (outgoing fresh_controller.tracker.next_seq drive_message)
      fresh_controller.safety).0
    ≡ ok Reason.sent
unfolding Control.run new_controller submit clamp_command encode each encode_utf8 text_of_int show
    hex2 crc8
drive_goes = refl

still_reading :
    (Control.run sample link_config (begun drive_message ∷ ticked ∷ []) fresh_controller).reading
    ≡ true
unfolding Control.run new_controller
still_reading = refl

reply_returned_example :
    ((Control.run sample link_config
        (received (codes "ACK 0\n") ∷ ended 0 ∷ [])
        (Control.run sample link_config (begun drive_message ∷ ticked ∷ []) fresh_controller)).calls
      0).outcome
    ≡ replied (ack_of (pos 0))
unfolding Control.run new_controller
reply_returned_example =
    Delivery.reply_returned sample link_config [] drive_message (ticked ∷ []) (codes "ACK 0\n")
      (ack_of (pos 0)) drive_goes (λ j p. cc) (omega arith) (tt, tt) ack_frame_read refl refl
      still_reading

abbrev remote_request : Request
remote_request = record {
  path = codes "/estop";
  remote = some (codes "10.0.0.7");
  authorization = some (codes "Bearer s3cret");
}

authorize_exact_example :
    (authorize (λ a. some false) true (some (codes "s3cret")) remote_request ≡ ok true)
    ↔ MayPass (λ a. some false) true (some (codes "s3cret")) remote_request
authorize_exact_example =
    authorize_exact (λ a. some false) true (some (codes "s3cret")) remote_request

-- Two clients: one clears the stop, and before the boards have been told, the other trips it. The
-- boards are told of the stop, then of the clearing, and the latch is down in the end.
abbrev clearing : Result (Plan Float Unit (Unit × List Event))
clearing =
    (begin sample boards one_board example_joints none clear_estop no_fields (homed_arm true)).0

abbrev tripping : Result (Plan Float Unit (Unit × List Event)) × ArmState Float (Unit × List Event)
tripping = begin sample boards one_board example_joints none estop no_fields (homed_arm true)

stop_overtaken :
    (carry_out sample boards one_board example_joints none clearing
      (carry_out sample boards one_board example_joints none tripping.0 tripping.1).1).1.estopped
    ≡ false
unfolding begin carry_out Manager.clear_estop Manager.estop each encode_utf8 text_of_int fresh hex2
    crc8 recorded
stop_overtaken = refl

-- Beside the runner, a client trips the e-stop at the second wait. No path is Cartesian.
abbrev interrupted : Beside Float Unit (Unit × List Event)
interrupted = record {
  others = λ n s. if n == 0 then s else record s { estopped = true };
  sees_abort = λ n m. false;
  clock = λ n. finite (pos n);
  rounds = 10;
  cartesian_frames = λ before current cartesian seconds. ok ([], []);
}

abbrev idle_player : Player Float (Unit × List Event)
idle_player = record {
  arm = homed_arm false;
  positions_ts = finite (pos 0);
  program_name = some (codes "pinch");
  task = true;
  status = none;
  waits = 0;
}

stop_seen :
    is_aborted sample boards one_board example_joints interrupted
      (others_after sample boards one_board example_joints interrupted 2 idle_player)
    ≡ true
unfolding is_aborted others_after
stop_seen = refl

abort_ends_wait_example :
    (j : ℕ) × (j ≤ 2)
    × (run_wait_step sample boards one_board example_joints interrupted 10
          (finite (pos 100000))
          idle_player
        ≡ (
          ok returned,
          others_after sample boards one_board example_joints interrupted j idle_player,
        ))
abort_ends_wait_example =
    abort_ends_wait sample boards one_board example_joints interrupted 2 10 (finite (pos 100000))
      idle_player (omega arith) stop_seen

-- A program that closes the gripper and sets the tool runs to its end.
program_done :
    (run_program sample boards one_board example_joints interrupted
      (codes "pinch")
      (grip_step (finite (pos 30)) ∷ tool_step true ∷ [])
      (ok [])
      idle_player).0
    ≡ ok returned
unfolding run_program run_step Gate.grip Manager.grip each encode_utf8 text_of_int fresh show hex2
    crc8 recorded
program_done = refl
