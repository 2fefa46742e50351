-- ===== src/Agent/ArmControl/Programs.antt =====
-- The runner of arm programs in agent/app.py. What other tasks do to the arm's state while it waits
-- is a function of how often it has waited; so are the times that it reads, and whether a playback
-- sees an abort. The frames of a Cartesian path and the current pose come from the kinematics, which
-- are parameters. A wait is followed for a given number of rounds; where it goes on after them, the
-- result says so, and nothing behind it is run.
pub mod Runner
pub mod Waits
use pibot.Prelude.{
  ℕ, zero, suc, ◌+◌, ◌-◌, Bool, true, false, ◌||◌, ◌&&◌, not, Option, none, some, List, [], ◌∷◌,
  length, leb, if◌then◌else◌,
}
use pibot.Prelude.Int.{ℤ}
use pibot.Python.Text.{Text, codes, text_eq}
use pibot.Python.Result.{
  Result, ok, err, Error, runtime_error, assertion_error, index_error, or_raise, each,
}
use pibot.Python.Action.{Action, ◌>>=◌, ◌>>◌, pure, raise, lift, read, write}
use pibot.Python.Dict.{Dict, get, put}
use pibot.Python.Value.{Value, float, Num, Runtime, of_num, to_float}
use pibot.Arm.Boards.{Boards}
use pibot.Arm.Gate
use pibot.Arm.Gate.{JointLimit, GateResult}
use pibot.Arm.Manager
use pibot.Arm.Manager.{ArmManager, Setup}
use pibot.Arm.Manager.Moves.{TrajectoryFrame, run_trajectory}
use pibot.Arm.Poses.{Pose, put_joint}
use pibot.Arm.Programs.{ProgramStep, step, Program, kind_of}
use pibot.Arm.Trajectory.{joint_trajectory}
use pibot.Agent.ArmControl.{ArmState, is_member, has_key, with_values}
use pibot.Agent.ArmControl.Handler.{arg}

pub data Phase : Type 0 where
  running stopped completed failed : Phase

-- Whether what was called has returned, or is still in a wait after the rounds for which it was
-- followed.
pub data Progress : Type 0 where
  returned waiting : Progress

-- The message of a status.
pub data Note : Type 0 where
  no_note estop_latched was_stopped : Note
  failure : Error → Note

-- The dict that `_set_arm_program_status` makes.
pub record ProgramStatus : Type 0 where
  pub name : Text
  pub phase : Phase
  pub current_step : Option ℕ
  pub total_steps : ℕ
  pub current_kind : Option Text
  pub message : Note

pub record Player (F W : Type 0) : Type 0 where
  pub arm : ArmState F W
  pub positions_ts : F
  pub program_name : Option Text
  pub task : Bool
  pub status : Option ProgramStatus
  pub waits : ℕ

-- What goes on beside the runner, and the kinematics.
pub record Beside (F O W : Type 0) : Type 0 where
  pub others : ℕ → ArmState F W → ArmState F W
  pub sees_abort : ℕ → ArmManager F W → Bool
  pub clock : ℕ → F
  pub rounds : ℕ
  pub cartesian_frames :
      List (ℤ × F) → List (ℤ × F) → Dict F → F → Result (List (TrajectoryFrame F O) × List (ℤ × F))

-- min(a, b)
pub min_of : {F O : Type 0} → Runtime F O → F → F → F
min_of py a b = if py.lt b a then b else a

-- {int(joint): float(deg)}
floats_of : {F O : Type 0} → Runtime F O → ℤ × Num F → Result (ℤ × F)
unfolding of_num to_float
floats_of {O} py (joint, x) = elim (to_float py (of_num {O = O} x)) [
  | ok d ↦ ok (joint, d)
  | err why ↦ err why
]

-- positions.update(targets)
update_all : {F : Type 0} → List (ℤ × F) → List (ℤ × F) → List (ℤ × F)
unfolding put_joint
update_all positions [] = positions
update_all positions ((joint, x) ∷ d) = update_all (put_joint joint x positions) d

-- poses[pose.name] = pose, for each of them
unfoldable pub poses_by_name : {F : Type 0} → Dict (Pose F) → List (Pose F) → Dict (Pose F)
unfolding put
poses_by_name d [] = d
poses_by_name d (p ∷ ps) = poses_by_name (put p.name p d) ps

module _ {F O W : Type 0} (py : Runtime F O) (boards : Boards F W) (setup : Setup)
    (limits : List (JointLimit F)) (b : Beside F O W) where
  -- `_arm_program_aborted`
  unfoldable pub is_aborted : Player F W → Bool
  is_aborted p = p.arm.aborted || p.arm.estopped

  -- Where the runner waits, the others go on.
  unfoldable pub wait_once : Action (Player F W) (Unit {0})
  wait_once p = (ok tt, record p { arm = b.others p.waits p.arm; waits = p.waits + 1 })

  -- await asyncio.to_thread(…)
  unfoldable pub in_thread : Action (ArmManager F W) (Unit {0}) → Action (Player F W) (Unit {0})
  unfolding wait_once
  in_thread act p =
      let (r, m) = act p.arm.manager in
      (r, (wait_once (record p { arm = record p.arm { manager = m } })).1)

  -- The step goes on, unless the program has been aborted.
  unfoldable pub unless_aborted : Action (Player F W) (Unit {0}) → Action (Player F W) (Unit {0})
  unfolding is_aborted
  unless_aborted act p = if is_aborted p then (ok tt, p) else act p

  -- `_run_wait_step`
  unfoldable pub run_wait_step : ℕ → F → Action (Player F W) Progress
  unfolding is_aborted wait_once min_of
  run_wait_step zero remaining p =
      (ok (if py.lt (py.literal 0 1) remaining && not (is_aborted p) then waiting else returned), p)
  run_wait_step (suc n) remaining p =
      let tick = min_of py (py.literal 5 2) remaining in
      let rest = run_wait_step n (py.minus remaining tick) in
      if py.lt (py.literal 0 1) remaining && not (is_aborted p)
      then rest (wait_once p).1
      else (ok returned, p)

  keep_positions : List (ℤ × F) → Action (Player F W) (Unit {0})
  unfolding update_all
  keep_positions targets p = (
    ok tt,
    record p {
      arm = record p.arm { positions = update_all p.arm.positions targets };
      positions_ts = b.clock p.waits;
    },
  )

  -- if not res.ok: raise RuntimeError(res.reason)
  unfoldable pub passed : GateResult F → Action (Player F W) (Unit {0})
  passed res = if res.accepted then pure tt else raise runtime_error

  -- What a joint move and a Cartesian one end with.
  play : List (TrajectoryFrame F O) → List (ℤ × F) → Action (Player F W) (Unit {0})
  unfolding in_thread run_trajectory unless_aborted keep_positions
  play frames targets = do
    p ← read
    in_thread (run_trajectory py boards setup frames (b.sees_abort p.waits))
    unless_aborted (keep_positions targets)

  -- `_run_movej_step`; 20.0 and 0.25 are the defaults of `joint_trajectory`
  unfoldable pub run_movej_step : Pose F → F → Action (Player F W) (Unit {0})
  unfolding passed unless_aborted play floats_of
  run_movej_step pose seconds = do
    p ← read
    let current = p.arm.positions
    res ← lift (
        Gate.move py limits (with_values float pose.joints) (has_key current) seconds p.arm.estopped
          (is_member p.arm.homed))
    passed res
    unless_aborted (do
      targets ← lift (each (floats_of py) res.targets)
      frames ← lift (
          joint_trajectory py b.rounds current targets seconds (py.literal 200 1) (py.literal 25 2))
      play frames targets)

  -- `_run_movel_step`, with the targets of the last frame beside the frames. The current pose is
  -- that of the angles before the wait.
  unfoldable pub run_movel_step : Pose F → F → Action (Player F W) (Unit {0})
  unfolding passed unless_aborted play wait_once
  run_movel_step pose seconds = do
    cartesian ← lift (or_raise pose.cartesian runtime_error)
    before ← read
    wait_once
    p ← read
    let current = p.arm.positions
    (frames, targets) ← lift (b.cartesian_frames before.arm.positions current cartesian seconds)
    res ← lift (
        Gate.move py limits (with_values float targets) (has_key current) seconds p.arm.estopped
          (is_member p.arm.homed))
    passed res
    unless_aborted (play frames targets)
