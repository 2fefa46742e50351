-- ===== src/Mc/RobotLink/Arm.antt =====
-- The calls of `RobotLink` for the arm, pibot/mc/robot_link.py, each with the client's own.
use pibot.Prelude.{Bool, Option}
use pibot.Prelude.Int.{ℤ}
use pibot.Python.Text.{Text}
use pibot.Python.Action.{Action}
use pibot.Python.Value.{Runtime}
use pibot.Python.Tree.{Tree, Fields}
use pibot.Control.Client
use pibot.Control.Client.ArmMotion
use pibot.Control.Client.{Web}
use pibot.Mc.RobotLink.{Outside, RobotLink, delegate}

module _ {F O W : Type 0} (py : Runtime F O) (web : Web F O W) (out : Outside W) where
  unfoldable pub arm_telemetry : Action (RobotLink W) (Tree F O)
  unfolding delegate Client.arm_telemetry
  arm_telemetry = delegate py web out (Client.arm_telemetry web)

  unfoldable pub arm_pose_list : Action (RobotLink W) (Tree F O)
  unfolding delegate Client.arm_pose_list
  arm_pose_list = delegate py web out (Client.arm_pose_list web)

  unfoldable pub arm_pose_save : Text → Option (Tree F O) → Action (RobotLink W) (Tree F O)
  unfolding delegate Client.arm_pose_save
  arm_pose_save name pose = delegate py web out (Client.arm_pose_save web name pose)

  unfoldable pub arm_pose_get : Text → Action (RobotLink W) (Tree F O)
  unfolding delegate Client.arm_pose_get
  arm_pose_get name = delegate py web out (Client.arm_pose_get web name)

  unfoldable pub arm_pose_delete : Text → Action (RobotLink W) (Tree F O)
  unfolding delegate Client.arm_pose_delete
  arm_pose_delete name = delegate py web out (Client.arm_pose_delete web name)

  unfoldable pub arm_program_list : Action (RobotLink W) (Tree F O)
  unfolding delegate Client.arm_program_list
  arm_program_list = delegate py web out (Client.arm_program_list web)

  unfoldable pub arm_program_save : Tree F O → Action (RobotLink W) (Tree F O)
  unfolding delegate Client.arm_program_save
  arm_program_save program = delegate py web out (Client.arm_program_save web program)

  unfoldable pub arm_program_get : Text → Action (RobotLink W) (Tree F O)
  unfolding delegate Client.arm_program_get
  arm_program_get name = delegate py web out (Client.arm_program_get web name)

  unfoldable pub arm_program_delete : Text → Action (RobotLink W) (Tree F O)
  unfolding delegate Client.arm_program_delete
  arm_program_delete name = delegate py web out (Client.arm_program_delete web name)

  unfoldable pub arm_program_run : Text → Action (RobotLink W) (Tree F O)
  unfolding delegate Client.arm_program_run
  arm_program_run name = delegate py web out (Client.arm_program_run web name)

  unfoldable pub arm_program_stop : Action (RobotLink W) (Tree F O)
  unfolding delegate Client.arm_program_stop
  arm_program_stop = delegate py web out (Client.arm_program_stop web)

  unfoldable pub arm_jog : ℤ → F → Action (RobotLink W) (Tree F O)
  unfolding delegate ArmMotion.arm_jog
  arm_jog joint dps = delegate py web out (ArmMotion.arm_jog web joint dps)

  unfoldable pub arm_move_joint : ℤ → F → Option F → Action (RobotLink W) (Tree F O)
  unfolding delegate ArmMotion.arm_move_joint
  arm_move_joint joint deg speed =
      delegate py web out (ArmMotion.arm_move_joint web joint deg speed)

  unfoldable pub arm_move_joints : Fields F O → F → Action (RobotLink W) (Tree F O)
  unfolding delegate ArmMotion.arm_move_joints
  arm_move_joints targets seconds =
      delegate py web out (ArmMotion.arm_move_joints web targets seconds)

  unfoldable pub arm_home : ℤ → Action (RobotLink W) (Tree F O)
  unfolding delegate ArmMotion.arm_home
  arm_home joint = delegate py web out (ArmMotion.arm_home web joint)

  unfoldable pub arm_estop : Action (RobotLink W) (Tree F O)
  unfolding delegate ArmMotion.arm_estop
  arm_estop = delegate py web out (ArmMotion.arm_estop web)

  unfoldable pub arm_clear_estop : Action (RobotLink W) (Tree F O)
  unfolding delegate ArmMotion.arm_clear_estop
  arm_clear_estop = delegate py web out (ArmMotion.arm_clear_estop web)

  unfoldable pub arm_enable : Bool → Action (RobotLink W) (Tree F O)
  unfolding delegate ArmMotion.arm_enable
  arm_enable on = delegate py web out (ArmMotion.arm_enable web on)

  unfoldable pub arm_grip : F → Action (RobotLink W) (Tree F O)
  unfolding delegate ArmMotion.arm_grip
  arm_grip deg = delegate py web out (ArmMotion.arm_grip web deg)

  unfoldable pub arm_tool : Bool → Action (RobotLink W) (Tree F O)
  unfolding delegate ArmMotion.arm_tool
  arm_tool on = delegate py web out (ArmMotion.arm_tool web on)

  unfoldable pub arm_move_cartesian : F → F → F → F → F → F → F → Action (RobotLink W) (Tree F O)
  unfolding delegate ArmMotion.arm_move_cartesian
  arm_move_cartesian x y z seconds rx ry rz =
      delegate py web out (ArmMotion.arm_move_cartesian web x y z seconds rx ry rz)
