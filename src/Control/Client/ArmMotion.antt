-- ===== src/Control/Client/ArmMotion.antt =====
-- The arm's motion frames of `AgentClient`, pibot/control/client.py: they go over a socket of their
-- own, opened with the first one.
use pibot.Prelude.{ℕ, Bool, Option, none, some, ◌++◌, if◌then◌else◌}
use pibot.Prelude.Int.{ℤ}
use pibot.Python.Text.{Text, codes}
use pibot.Python.Result.{ok, runtime_error, or_raise}
use pibot.Python.Action.{◌>>=◌, ◌>>◌, pure, lift, read}
use pibot.Python.Value.{int, bool}
use pibot.Python.Tree.{Tree, leaf, dict, Fields, no_fields, field, text_leaf, float_leaf}
use pibot.Control.Client.{AgentClient, Web, Call, on_web}

module _ {F O W : Type 0} (web : Web F O W) where
  -- The socket that is open, if there is one.
  open_socket : AgentClient × W → Option ℕ
  open_socket s = elim s.0.arm_ws [
    | none ↦ none
    | some n ↦ if web.is_closed n s.1 then none else some n
  ]

  -- The socket for the arm, opened if there is none.
  unfoldable pub arm_socket : ℕ → Call web ℕ
  unfolding open_socket
  arm_socket session = do
    s ← read
    elim (open_socket s) [
      | some n ↦ pure n
      | none ↦ on_web web (web.ws_connect session (s.0.base ++ codes "/arm/control")) >>= λ n s'.
          (ok n, (record s'.0 { arm_ws = some n }, s'.1))
    ]

  -- `_arm_send`
  unfoldable pub arm_send : Fields F O → Call web (Tree F O)
  unfolding arm_socket
  arm_send frame = do
    s ← read
    session ← lift (or_raise s.0.session runtime_error)
    n ← arm_socket session
    on_web web (web.send_json n (dict frame))
    on_web web (web.receive_json n)

  -- A frame of a command.
  abbrev pub frame_of : Text → Fields F O → Fields F O
  frame_of cmd rest = field (codes "cmd") (text_leaf cmd) rest

  abbrev pub joint_frame : Text → ℤ → Fields F O → Fields F O
  joint_frame cmd joint rest = frame_of cmd (field (codes "joint") (leaf (int joint)) rest)

  unfoldable pub arm_jog : ℤ → F → Call web (Tree F O)
  unfolding arm_send
  arm_jog joint dps =
      arm_send (joint_frame (codes "jvel") joint (field (codes "dps") (float_leaf dps) no_fields))

  unfoldable pub arm_move_joint : ℤ → F → Option F → Call web (Tree F O)
  unfolding arm_send
  arm_move_joint joint deg none =
      arm_send (joint_frame (codes "jpos") joint (field (codes "deg") (float_leaf deg) no_fields))
  arm_move_joint joint deg (some speed) = arm_send (
      joint_frame (codes "jmove") joint
        (field (codes "deg") (float_leaf deg) (field (codes "dps") (float_leaf speed) no_fields)))

  -- `targets` is the dict as it is sent.
  unfoldable pub arm_move_joints : Fields F O → F → Call web (Tree F O)
  unfolding arm_send
  arm_move_joints targets seconds = arm_send (
      frame_of (codes "move") (
        field (codes "targets") (dict targets)
          (field (codes "seconds") (float_leaf seconds) no_fields)))

  unfoldable pub arm_home : ℤ → Call web (Tree F O)
  unfolding arm_send
  arm_home joint = arm_send (joint_frame (codes "home") joint no_fields)

  unfoldable pub arm_estop : Call web (Tree F O)
  unfolding arm_send
  arm_estop = arm_send (frame_of (codes "estop") no_fields)

  unfoldable pub arm_clear_estop : Call web (Tree F O)
  unfolding arm_send
  arm_clear_estop = arm_send (frame_of (codes "clear_estop") no_fields)

  unfoldable pub arm_enable : Bool → Call web (Tree F O)
  unfolding arm_send
  arm_enable on =
      arm_send (frame_of (codes "enable") (field (codes "on") (leaf (bool on)) no_fields))

  unfoldable pub arm_grip : F → Call web (Tree F O)
  unfolding arm_send
  arm_grip deg = arm_send (frame_of (codes "grip") (field (codes "deg") (float_leaf deg) no_fields))

  unfoldable pub arm_tool : Bool → Call web (Tree F O)
  unfolding arm_send
  arm_tool on = arm_send (frame_of (codes "tool") (field (codes "on") (leaf (bool on)) no_fields))

  unfoldable pub arm_move_cartesian : F → F → F → F → F → F → F → Call web (Tree F O)
  unfolding arm_send
  arm_move_cartesian x y z seconds rx ry rz = arm_send (
      frame_of (codes "move_cartesian") (
        field (codes "x") (float_leaf x) (
          field (codes "y") (float_leaf y) (
            field (codes "z") (float_leaf z) (
              field (codes "rx") (float_leaf rx) (
                field (codes "ry") (float_leaf ry) (
                  field (codes "rz") (float_leaf rz)
                    (field (codes "seconds") (float_leaf seconds) no_fields))))))))
