-- ===== src/Agent/ArmControl/Handler.antt =====
-- `_arm_command` of agent/app.py itself. A handler waits for the boards: `begin` is its part before
-- that and `carry_out` the rest. A Cartesian move waits for the solver before it reads the state:
-- `ask_solver` is its part before that answer, which reads no state, so that `begin` of such a frame
-- stands at the answer: it reads the latch, the homed joints and the angles of that time. What the
-- interpreter does at a wait is left to `arm_command`, which goes on at once, and to the tests, which
-- let another client's frame come in between.
-- `ik` is the solver for Cartesian moves, if it could be loaded; it comes with an optional package.
use pibot.Prelude.{Bool, true, false, Option, none, some, List, [], ◌∷◌, if◌then◌else◌}
use pibot.Prelude.Int.{ℤ}
use pibot.Python.Text.{Text, codes}
use pibot.Python.Result.{
  Result, ok, err, Error, key_error, value_error, type_error, json_error, transport_error, os_error,
  permission_error, or_raise, ◌>>=◌,
}
use pibot.Python.Action.{Action}
use pibot.Python.Dict.{get}
use pibot.Python.Value.{Value, float, Runtime, of_num}
use pibot.Python.Tree.{Fields, field_at}
use pibot.Arm.Boards.{Boards}
use pibot.Arm.Gate
use pibot.Arm.Gate.{JointLimit, GateResult}
use pibot.Arm.Manager
use pibot.Arm.Manager.{ArmManager, Setup}
use pibot.Arm.Manager.Moves.{move_synchronized}
use pibot.Agent.ArmControl.{
  ArmState, Reply, ack, nak, bad_frame, send_failed, unreachable, unknown_command, Command, estop,
  clear_estop, enable, grip, tool, jvel, jstop, jpos, jmove, home, move, move_cartesian, other,
  CartesianPose, command_in, is_member, has_key, with_values, as_int, as_float, as_targets, at,
  on_of, pose_of,
}

-- What is done to the state once the boards have been told.
pub data After : Type 0 where
  keep : After
  unlatch : After
  mark_homed : ℤ → After

-- What a Cartesian move has after the wait for the solver: its answer and the time of the move.
pub data Asked (F : Type 0) : Type 0 where
  no_solver : Asked F
  asked : Result (List (ℤ × F)) → F → Asked F

-- A handler at its wait: it has its answer, or the boards are to be told.
pub data Plan (F O W : Type 0) : Type 0 where
  answer : Reply F O → Plan F O W
  call : Action (ArmManager F W) (Unit {0}) → After → Plan F O W

pub data ErrorClass : Type 0 where
  frame_fault link_fault uncaught : ErrorClass

-- except (KeyError, ValueError, TypeError), and except (OSError, TransportError)
unfoldable pub class_of : Error → ErrorClass
class_of key_error = frame_fault
class_of value_error = frame_fault
class_of json_error = frame_fault
class_of type_error = frame_fault
class_of os_error = link_fault
class_of permission_error = link_fault
class_of transport_error = link_fault
class_of _ = uncaught

module _ {F O W : Type 0} (py : Runtime F O) (boards : Boards F W) (setup : Setup)
    (limits : List (JointLimit F)) (ik : Option (CartesianPose F → Result (List (ℤ × F)))) where
  -- if not res.ok: return _arm_nak(res.reason)
  unfoldable pub gated : GateResult F → Result (Plan F O W) → Result (Plan F O W)
  gated res next = if res.accepted then next else ok (answer (nak res.reason))

  -- res.args[key]
  unfoldable pub arg : Text → GateResult F → Result (Value F O)
  unfolding get of_num
  arg key res = or_raise (get key res.args) key_error >>= λ x. ok (of_num x)

  unfoldable pub arg_of : Text → Fields F O → Result F
  unfolding at as_float
  arg_of key frame = at py key frame >>= as_float py

  unfoldable pub joint_of : Fields F O → Result ℤ
  unfolding at as_int
  joint_of frame = at py (codes "joint") frame >>= as_int py

  -- What both kinds of a synchronized move end with.
  unfoldable pub move_to : Bool → (ℤ → Bool) → List (ℤ × F) → List (ℤ × F) → F → Result (Plan F O W)
  move_to estopped homed positions targets seconds = do
    res ← Gate.move py limits (with_values float targets) (has_key positions) seconds estopped homed
    gated res (
        ok (
          call
            (move_synchronized py boards setup (with_values of_num res.targets)
              (with_values float positions) seconds)
            keep))

  -- solver.solve(pose), and what follows it
  unfoldable pub solved :
      Result (List (ℤ × F)) → (List (ℤ × F) → Result (Plan F O W)) → Result (Plan F O W)
  solved (ok targets) next = next targets
  solved (err value_error) next = ok (answer (unreachable value_error))
  solved (err json_error) next = ok (answer (unreachable json_error))
  solved (err why) next = err why

  -- A Cartesian move up to the answer of the solver.
  unfoldable pub ask_solver :
      Option (CartesianPose F → Result (List (ℤ × F))) → Fields F O → Result (Asked F)
  ask_solver none frame = ok no_solver
  ask_solver (some solve) frame = do
    pose ← pose_of py frame
    seconds ← arg_of (codes "seconds") frame
    ok (asked (solve pose) seconds)

  -- And from there to the wait for the boards.
  unfoldable pub after_solver :
      (List (ℤ × F) → F → Result (Plan F O W)) → Asked F → Result (Plan F O W)
  unfolding solved
  after_solver next no_solver =
      ok (answer (nak (codes "IK unavailable: install the [arm-ik] extra / configure a model")))
  after_solver next (asked targets seconds) = solved targets (λ found. next found seconds)

  -- The branch of jmove, for the values of its frame.
  unfoldable pub jmove_plan : Bool → (ℤ → Bool) → ℤ → F → F → Result (Plan F O W)
  jmove_plan estopped homed joint deg dps = do
    res ← Gate.jmove py limits joint (float deg) (float dps) estopped homed
    gated res (do
      d ← arg (codes "deg") res
      v ← arg (codes "dps") res
      ok (call (Manager.jmove py boards setup joint d v) keep))

  -- The branches of the handler up to the wait, for the latch, the homed joints and the angles that
  -- it finds.
  unfoldable pub plan_of :
      Bool → (ℤ → Bool) → List (ℤ × F) → Command → Fields F O → Result (Plan F O W)
  plan_of estopped homed positions estop frame = ok (call (Manager.estop py boards setup) keep)
  plan_of estopped homed positions clear_estop frame =
      ok (call (Manager.clear_estop py boards setup) unlatch)
  plan_of estopped homed positions enable frame =
      ok (call (Manager.enable py boards setup (on_of py (field_at (codes "on") frame))) keep)
  plan_of estopped homed positions grip frame = do
    deg ← arg_of (codes "deg") frame
    res ← Gate.grip py limits (float deg) estopped
    gated res (arg (codes "deg") res >>= λ d. ok (call (Manager.grip py boards setup d) keep))
  plan_of estopped homed positions tool frame =
      gated (Gate.tool py limits estopped)
        (ok (call (Manager.tool py boards setup (on_of py (field_at (codes "on") frame))) keep))
  plan_of estopped homed positions jvel frame = do
    joint ← joint_of frame
    dps ← arg_of (codes "dps") frame
    res ← Gate.jvel py limits joint (float dps) estopped
    gated res (arg (codes "dps") res >>= λ v. ok (call (Manager.jvel py boards setup joint v) keep))
  plan_of estopped homed positions jstop frame = do
    joint ← joint_of frame
    gated (Gate.jstop py limits joint) (ok (call (Manager.jstop py boards setup joint) keep))
  plan_of estopped homed positions jpos frame = do
    joint ← joint_of frame
    deg ← arg_of (codes "deg") frame
    res ← Gate.jpos py limits joint (float deg) estopped homed
    gated res (arg (codes "deg") res >>= λ d. ok (call (Manager.jpos py boards setup joint d) keep))
  plan_of estopped homed positions jmove frame = do
    joint ← joint_of frame
    deg ← arg_of (codes "deg") frame
    dps ← arg_of (codes "dps") frame
    jmove_plan estopped homed joint deg dps
  plan_of estopped homed positions home frame = do
    joint ← joint_of frame
    gated (Gate.home py limits joint estopped)
        (ok (call (Manager.home py boards setup joint) (mark_homed joint)))
  plan_of estopped homed positions move frame = do
    targets ← at py (codes "targets") frame >>= as_targets py
    seconds ← arg_of (codes "seconds") frame
    move_to estopped homed positions targets seconds
  plan_of estopped homed positions move_cartesian frame =
      ask_solver ik frame >>= after_solver (move_to estopped homed positions)
  plan_of estopped homed positions other frame = ok (answer unknown_command)

  -- The e-stop is latched before its frames are sent.
  unfoldable pub latch : Command → ArmState F W → ArmState F W
  latch estop s = record s { estopped = true; aborted = true }
  latch _ s = s

  unfoldable pub begin : Command → Fields F O → Action (ArmState F W) (Plan F O W)
  unfolding latch plan_of is_member
  begin c frame s =
      let s' = latch c s in (plan_of s'.estopped (is_member s'.homed) s'.positions c frame, s')

  unfoldable pub settle : After → ArmState F W → ArmState F W
  settle keep s = s
  settle unlatch s = record s { estopped = false }
  settle (mark_homed joint) s = record s { homed = joint ∷ s.homed }

  -- await asyncio.to_thread(…), and what is behind it
  unfoldable pub told :
      After → Result (Unit {0}) × ArmManager F W → ArmState F W → Result (Reply F O) × ArmState F W
  unfolding settle
  told after (ok u, m) s = (ok ack, settle after (record s { manager = m }))
  told after (err why, m) s = (err why, record s { manager = m })

  unfoldable pub carry_out : Result (Plan F O W) → Action (ArmState F W) (Reply F O)
  unfolding told
  carry_out (err why) s = (err why, s)
  carry_out (ok (answer reply)) s = (ok reply, s)
  carry_out (ok (call act after)) s = told after (act s.manager) s

  -- The handlers of the exceptions.
  unfoldable pub classed : ErrorClass → Error → Result (Reply F O)
  classed frame_fault why = ok (bad_frame why)
  classed link_fault why = ok (send_failed why)
  classed uncaught why = err why

  unfoldable pub caught : Result (Reply F O) → Result (Reply F O)
  unfolding classed class_of
  caught (ok reply) = ok reply
  caught (err why) = classed (class_of why) why

  unfoldable pub arm_command : Fields F O → Action (ArmState F W) (Reply F O)
  unfolding begin carry_out caught command_in field_at
  arm_command frame s =
      let (plan, s1) = begin (command_in (field_at (codes "cmd") frame)) frame s in
      let (reply, s2) = carry_out plan s1 in (caught reply, s2)

  -- The loop of `handle_arm_control` over the frames of its clients, one handler behind the other.
  unfoldable pub serve : List (Fields F O) → ArmState F W → ArmState F W
  unfolding arm_command
  serve [] s = s
  serve (frame ∷ frames) s = serve frames (arm_command frame s).1

-- `_arm_command`, of an agent with an arm and its gate or without them.
unfoldable pub control_frame :
    {F O W : Type 0}
    → Runtime F O
    → Boards F W
    → Option (Setup × List (JointLimit F))
    → Option (CartesianPose F → Result (List (ℤ × F)))
    → Fields F O
    → Action (ArmState F W) (Reply F O)
unfolding arm_command
control_frame py boards none ik frame s = (ok (nak (codes "no arm configured")), s)
control_frame py boards (some (setup, limits)) ik frame s =
    arm_command py boards setup limits ik frame s
