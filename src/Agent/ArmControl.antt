-- ===== src/Agent/ArmControl.antt =====
-- `_arm_command` of agent/app.py, behind the WebSocket /arm/control: what one frame does to the
-- agent's arm state and to the boards. Here are the state, the commands and the values of a frame.
pub mod Handler
pub mod Gated
pub mod Harmless
pub mod Latched
pub mod Acked
pub mod Programs
use pibot.Prelude.{Bool, true, false, ◌||◌, Option, none, some, List, [], ◌∷◌, if◌then◌else◌}
use pibot.Prelude.Int.{ℤ, eqb_ℤ}
use pibot.Python.Text.{Text, codes, text_eq}
use pibot.Python.Result.{Result, ok, err, Error, key_error, value_error, or_raise, ◌>>=◌}
use pibot.Python.Value.{int, float, str, Runtime, int_of_text}
use pibot.Python.Tree.{Tree, leaf, dict, Fields, no_fields, field, field_at, truth_of}
use pibot.Arm.Manager.{ArmManager}
use pibot.Arm.Poses.{put_joint}

-- The fields of `AgentState` that the handler reads and writes.
pub record ArmState (F W : Type 0) : Type 0 where
  pub manager : ArmManager F W
  pub estopped : Bool
  pub aborted : Bool
  pub homed : List ℤ
  pub positions : List (ℤ × F)

pub data Reply (F O : Type 0) : Type 0 where
  ack : Reply F O
  nak : Text → Reply F O
  bad_frame : Error → Reply F O
  send_failed : Error → Reply F O
  unreachable : Error → Reply F O
  unknown_command : Reply F O

-- What `cmd` is compared with.
pub data Command : Type 0 where
  estop clear_estop enable grip tool jvel jstop jpos jmove home move move_cartesian other : Command

-- x, y, z, rx, ry and rz
pub record CartesianPose (F : Type 0) : Type 0 where
  pub x : F
  pub y : F
  pub z : F
  pub rx : F
  pub ry : F
  pub rz : F

unfoldable pub command_named : Text → Command
unfolding text_eq
command_named s =
    if text_eq s (codes "estop")
    then estop
    else if text_eq s (codes "clear_estop")
    then clear_estop
    else if text_eq s (codes "enable")
    then enable
    else if text_eq s (codes "grip")
    then grip
    else if text_eq s (codes "tool")
    then tool
    else if text_eq s (codes "jvel")
    then jvel
    else if text_eq s (codes "jstop")
    then jstop
    else if text_eq s (codes "jpos")
    then jpos
    else if text_eq s (codes "jmove")
    then jmove
    else if text_eq s (codes "home")
    then home
    else if text_eq s (codes "move")
    then move
    else if text_eq s (codes "move_cartesian")
    then move_cartesian
    else other

unfoldable pub command_in : {F O : Type 0} → Option (Tree F O) → Command
unfolding command_named
command_in (some (leaf (str s))) = command_named s
command_in _ = other

-- joint in homed
unfoldable pub is_member : List ℤ → ℤ → Bool
is_member [] joint = false
is_member (k ∷ ks) joint = eqb_ℤ k joint || is_member ks joint

-- joint in positions
unfoldable pub has_key : {F : Type 0} → List (ℤ × F) → ℤ → Bool
has_key [] joint = false
has_key ((k, v) ∷ d) joint = eqb_ℤ k joint || has_key d joint

-- {joint: convert(v)}
unfoldable pub with_values : {V V' : Type 0} → (V → V') → List (ℤ × V) → List (ℤ × V')
with_values f [] = []
with_values f ((k, v) ∷ d) = (k, f v) ∷ with_values f d

module _ {F O : Type 0} (py : Runtime F O) where
  unfoldable pub as_int : Tree F O → Result ℤ
  as_int (leaf (int n)) = ok n
  as_int (leaf (float x)) = py.int_of_float x
  as_int _ = err value_error

  unfoldable pub as_float : Tree F O → Result F
  as_float (leaf (int n)) = py.float_of_int n
  as_float (leaf (float x)) = ok x
  as_float _ = err value_error

  -- The loop over the items, with the dict so far.
  targets_from : List (ℤ × F) → Fields F O → Result (List (ℤ × F))
  unfolding as_float put_joint int_of_text
  targets_from d no_fields = ok d
  targets_from d (field k v rest) = elim (int_of_text py 10 k) [
    | none ↦ err value_error
    | some joint ↦ elim (as_float v) [
      | err why ↦ err why
      | ok x ↦ targets_from (put_joint joint x d) rest
    ]
  ]

  unfoldable pub as_targets : Tree F O → Result (List (ℤ × F))
  unfolding targets_from
  as_targets (dict d) = targets_from [] d
  as_targets _ = err value_error

  -- frame[key]
  unfoldable pub at : Text → Fields F O → Result (Tree F O)
  at key frame = or_raise (field_at key frame) key_error

  -- _as_float(frame.get(key, 0.0))
  float_or_zero : Option (Tree F O) → Result F
  unfolding as_float
  float_or_zero none = ok (py.literal 0 1)
  float_or_zero (some v) = as_float v

  -- bool(frame.get("on", True))
  unfoldable pub on_of : Option (Tree F O) → Bool
  unfolding truth_of
  on_of none = true
  on_of (some v) = truth_of py v

  unfoldable pub pose_of : Fields F O → Result (CartesianPose F)
  unfolding float_or_zero
  pose_of frame = do
    x ← at (codes "x") frame >>= as_float
    y ← at (codes "y") frame >>= as_float
    z ← at (codes "z") frame >>= as_float
    rx ← float_or_zero (field_at (codes "rx") frame)
    ry ← float_or_zero (field_at (codes "ry") frame)
    rz ← float_or_zero (field_at (codes "rz") frame)
    ok (record { x = x; y = y; z = z; rx = rx; ry = ry; rz = rz })
