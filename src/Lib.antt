-- ===== src/Lib.antt =====
-- PiBot: the wire protocol, the agent and its safety, the gate, the boards and the programs of the
-- arm, the buffer that frames are cut from, the peer that answers them, the client and the link of
-- mission control, the deploys over ssh, and the guards of the jobs and of the disks they write.
--
-- A host sends commands to a robot's microcontroller as framed lines. pibot/protocol/codec.py
-- encodes and decodes the frames; agent/safety.py is the one place that every command passes
-- before the transport, with the primitives of pibot/control/safety.py; pibot/arm/safety.py
-- checks and clamps the frames that move the arm. They interact by calls alone: the agent calls
-- the clamp, the latch, the deadman timer and the encoder. The arm's gate has a copy of `_bound`,
-- the same line for line, and is modelled with the one of Control/Safety. A transport cuts the
-- byte stream into frames with the buffer of pibot/transport/base.py; the peer of
-- pibot/control/echo.py decodes each and answers it.
--
-- agent/app.py serves clients: its arm control asks the gate about each frame and has the manager of
-- the boards send what passes, and agent/control.py gives the replies of the robot back to the calls
-- that wait for them. Both are cut where they wait for others: a handler of the arm control into its
-- part before the boards are told and the rest, the controller into the steps of its calls, its
-- reader and its ticker. agent/auth.py decides who is served.
--
-- pibot/arm/manager.py encodes the joints' commands with the codec and sends each to the transport
-- of the board that has the joint; pibot/arm/programs.py checks and expands what the arm is to
-- play. pibot/control/client.py calls the agent over HTTP and sockets, and pibot/mc/robot_link.py
-- owns the one client of mission control. pibot/deploy runs command lines that
-- pibot/connection/sshcmd.py builds. The jobs of pibot/mc/ops.py, the recorder of
-- pibot/mc/sessions.py and the disks of pibot/provision/devices.py stand by themselves.
--
--   Protocol/Crc        crc8
--   Protocol/Sequence   SeqTracker: next and observe
--   Protocol/Message    MessageType, Message, COMMAND_ARGS, TELEMETRY_FIELDS and _schema_for
--   Protocol/Ascii      _fmt, _encode_ascii (Encode); _parse_token, _parse_seq and
--                       _decode_ascii (Decode)
--   Protocol/Json       _encode_json and _decode_json
--   Protocol/Codec      encode and decode
--   Control/Safety      Limits, _bound, clamp_command, EStop, Watchdog of pibot/control/safety.py
--   Agent/Safety        AgentSafety of agent/safety.py, method by method
--   Agent/ArmControl    _arm_command of agent/app.py: the state and the frames; Handler. Programs
--                       has the runner of arm programs
--   Agent/Control       TransportController of agent/control.py
--   Agent/Auth          agent/auth.py, and auth_middleware of agent/app.py
--   Arm/Gate            ArmGate of pibot/arm/safety.py, method by method
--   Transport           FrameBuffer (pibot/transport/base.py), pibot/transport/loopback.py, i2c.py
--                       and responder.py
--   Control/Echo        EchoResponder of pibot/control/echo.py
--   Arm/Boards          the transports of the arm's boards, and a record of what they were asked
--   Arm/Manager         ArmManager of pibot/arm/manager.py; Moves and Telemetry
--   Arm/Programs        ProgramStep and Program of pibot/arm/programs.py; Expand and Show
--   Arm/Trajectory      joint_trajectory of pibot/arm/trajectory.py
--   Arm/Poses           Pose and record_pose of pibot/arm/programs.py
--   Control/Client      AgentClient of pibot/control/client.py; ArmMotion
--   Control/Sequence    play of pibot/control/sequence.py
--   Control/Teleop      pibot/control/teleop.py
--   Connection/Ssh      pibot/connection/sshcmd.py
--   Deploy              run_capture (Runner), pibot/deploy/sync.py (Sync) and service.py (Service)
--   Mc/RobotLink        RobotLink of pibot/mc/robot_link.py; Arm
--   Mc/Sessions         SessionRecorder of pibot/mc/sessions.py
--   Provision/Devices   pibot/provision/devices.py, for Linux
--   Ops                 OpsRunner of pibot/mc/ops.py, each method cut at its awaits
--   Python              what the program uses of Python: text, integers and their digits, UTF-8,
--                       dicts, indices, exceptions, calls with a state (Action), values that hold
--                       one another (Tree), and the shell's quotes (Shell)
--   Prelude             names of the libraries, lists and integers over the native numbers
--   Examples            the theorems at concrete inputs
--
-- A text is its code points and a frame its bytes. A call that may raise returns a Result. A
-- method of AgentSafety is a function from the state to the new state and a Result, so that what
-- changed before an exception stays changed. The clock and the link are functions of how often
-- they were called. A set of joints is its membership test, a dict the list of its items.
--
-- The interpreter's floats, the float and Unicode conversions and the json module are fields of
-- Python.Value.Runtime, a parameter of all that uses them. Python/Value/Laws states what the
-- theorems rely on: repr prints ASCII without a comma that float() reads back and int() refuses
-- (IsTextual), and int() of a float between two integers is between them (IsTruncating).
-- Python/Value/Sample meets both with floats that are whole numbers or NaN.
--
-- Loops are recursion on the list or the number of rounds. Printing a number n takes n + 1 steps
-- at most, which is the fuel, and n is at least as large as its number of digits. The loop that
-- drains a buffer has one round more than the buffer has bytes, and each takes out a byte at least.
--
-- The loop that splits a text into lines has one round more than the text has characters, and each
-- takes one. The health checks of a deploy are as many as the attempts. The loop that drains a
-- board of the arm is followed for a given number of frames, since a board may send without end;
-- so are the loops of recv over i2c, of a sequence and of teleop, for a given number of rounds.
--
-- The boards of the arm, the host that runs commands, aiohttp, the resolver and the video relay of
-- the link are records of actions, parameters of what uses them. The two tables of the recorder are
-- the lists of their rows, and whether sqlite raises at a statement or its commit is an argument. A
-- command that never ends is not among the answers of the host.
--
-- The executor of the ops jobs and what it yields come from outside, and its lines and the calls of
-- all methods are events in any order.
--
-- What other tasks do to the arm while a program waits is any function of its state. The loops of a
-- wait and of the times of a trajectory are followed for a given number of rounds; a wait that goes
-- on after them is told from one that has returned. The
-- kinematics of a Cartesian move, the fresh token of the agent, the umask and the test of the
-- ipaddress module are functions, parameters of what uses them.
--
-- Not modelled: the refusal of integers of more than 4300 digits by int() and str(), the time
-- that a call takes, floats that are subclasses of float, the JSON text itself, dicts
-- with keys that are not text in poses and programs, the pauses between attempts and frames, the
-- routes of the agent for telemetry, video, poses, programs and autonomy, and all that opens
-- sockets, ports, processes and files.
pub mod Prelude
pub mod Python
pub mod Protocol
pub mod Control
pub mod Agent
pub mod Arm
pub mod Transport
pub mod Connection
pub mod Deploy
pub mod Provision
pub mod Mc
pub mod Ops
pub mod Examples
