-- ===== src/Arm/Poses.antt =====
-- `Pose`, `_coerce_joints` and `record_pose` of pibot/arm/programs.py. `show` is str() of a list or
-- a dict, and `now` the time at which a pose is made.
use pibot.Prelude.{Bool, false, Option, none, some, List, [], ◌∷◌, if◌then◌else◌}
use pibot.Prelude.Int.{ℤ, ltb_ℤ, eqb_ℤ}
use pibot.Python.Text.{Text, codes, strip, is_empty}
use pibot.Python.Number.{text_of_int}
use pibot.Python.Result.{Result, ok, err, key_error, value_error, attribute_error, ◌>>=◌, or_raise}
use pibot.Python.Dict.{Dict, put}
use pibot.Python.Value.{null, bool, Runtime, is_space, int_of_text}
use pibot.Python.Tree.{
  Tree, leaf, dict, Fields, no_fields, field, field_at, float_of, truth_of, float_leaf, text_leaf,
}
use pibot.Arm.Programs.{show_of}
use pibot.Arm.Programs.Show.{with_field}

pub record Pose (F : Type 0) : Type 0 where
  pub name : Text
  pub joints : List (ℤ × F)
  pub gripper : Option F
  pub tool_on : Option Bool
  pub cartesian : Option (Dict F)
  pub created : F

module _ {F : Type 0} where
  -- joints[joint] = deg
  unfoldable pub put_joint : ℤ → F → List (ℤ × F) → List (ℤ × F)
  put_joint joint deg [] = (joint, deg) ∷ []
  put_joint joint deg ((j, x) ∷ d) =
      if eqb_ℤ j joint then (j, deg) ∷ d else (j, x) ∷ put_joint joint deg d

  insert_joint : ℤ × F → List (ℤ × F) → List (ℤ × F)
  insert_joint e [] = e ∷ []
  insert_joint e (f ∷ d) = if ltb_ℤ f.0 e.0 then f ∷ insert_joint e d else e ∷ f ∷ d

  -- sorted(joints.items()); no joint stands there twice
  unfoldable pub sorted_joints : List (ℤ × F) → List (ℤ × F)
  unfolding insert_joint
  sorted_joints [] = []
  sorted_joints (e ∷ d) = insert_joint e (sorted_joints d)

module _ {F O : Type 0} (py : Runtime F O) (show : Tree F O → Text) (now : F) where
  -- The items from left to right, put behind those that are there.
  coerce_onto : List (ℤ × F) → Fields F O → Result (List (ℤ × F))
  unfolding int_of_text float_of put_joint
  coerce_onto joints no_fields = ok joints
  coerce_onto joints (field k t d) = or_raise (int_of_text py 10 k) value_error >>= λ joint.
      float_of py t >>= λ deg. coerce_onto (put_joint joint deg joints) d

  -- `_coerce_joints`
  unfoldable pub coerce_joints : Tree F O → Result (List (ℤ × F))
  unfolding coerce_onto
  coerce_joints (dict d) = coerce_onto [] d
  coerce_joints _ = err attribute_error

  -- {str(k): float(v) for k, v in …}
  floats_onto : Dict F → Fields F O → Result (Dict F)
  unfolding float_of put
  floats_onto out no_fields = ok out
  floats_onto out (field k t d) = float_of py t >>= λ x. floats_onto (put k x out) d

  cartesian_of : Option (Tree F O) → Result (Option (Dict F))
  unfolding floats_onto
  cartesian_of none = ok none
  cartesian_of (some (leaf null)) = ok none
  cartesian_of (some (dict d)) = floats_onto [] d >>= λ out. ok (some out)
  cartesian_of _ = err attribute_error

  -- None, or the float of what is there
  optional_float : Option (Tree F O) → Result (Option F)
  unfolding float_of
  optional_float none = ok none
  optional_float (some (leaf null)) = ok none
  optional_float (some t) = float_of py t >>= λ x. ok (some x)

  optional_bool : Option (Tree F O) → Option Bool
  unfolding truth_of
  optional_bool none = none
  optional_bool (some (leaf null)) = none
  optional_bool (some t) = some (truth_of py t)

  -- float(data.get(key, default))
  float_or : F → Option (Tree F O) → Result F
  unfolding float_of
  float_or x none = ok x
  float_or x (some t) = float_of py t

  -- `Pose.from_dict`
  unfoldable pub pose_from : Fields F O → Result (Pose F)
  unfolding field_at show_of strip is_space coerce_joints cartesian_of optional_float optional_bool
      float_or
  pose_from d = do
    raw ← or_raise (field_at (codes "name") d) key_error
    let name = strip (is_space py) (show_of py show raw)
    (if is_empty name then err value_error else (do
      raw_joints ← or_raise (field_at (codes "joints") d) key_error
      joints ← coerce_joints raw_joints
      gripper ← optional_float (field_at (codes "gripper") d)
      cartesian ← cartesian_of (field_at (codes "cartesian") d)
      created ← float_or now (field_at (codes "created") d)
      ok (record {
        name = name;
        joints = joints;
        gripper = gripper;
        tool_on = optional_bool (field_at (codes "tool") d);
        cartesian = cartesian;
        created = created;
      })))

  -- The gripper's angle and the tool, when the snapshot has a dict for them.
  snapshot_gripper : Option (Tree F O) → Result (Option F × Option Bool)
  unfolding field_at float_or truth_of
  snapshot_gripper (some (dict d)) = float_or (py.literal 0 0) (field_at (codes "deg") d) >>= λ deg.
      ok (
        some deg,
        (elim (field_at (codes "tool") d) [ none ↦ some false | some t ↦ some (truth_of py t) ]),
      )
  snapshot_gripper _ = ok (none, none)

  snapshot_cartesian : Option (Tree F O) → Result (Option (Dict F))
  unfolding floats_onto
  snapshot_cartesian (some (dict d)) = floats_onto [] d >>= λ out. ok (some out)
  snapshot_cartesian _ = ok none

  -- The positions of a snapshot, if they are a dict that is not empty.
  positions_in : Option (Tree F O) → Option (Fields F O)
  positions_in (some (dict (field k t d))) = some (field k t d)
  positions_in _ = none

  unfoldable pub record_pose : Text → Fields F O → Option F → Result (Pose F)
  unfolding field_at positions_in coerce_onto snapshot_gripper snapshot_cartesian
  record_pose name snapshot created = do
    positions ← or_raise (positions_in (field_at (codes "positions") snapshot)) value_error
    joints ← coerce_onto [] positions
    tools ← snapshot_gripper (field_at (codes "gripper") snapshot)
    cartesian ← snapshot_cartesian (field_at (codes "pose") snapshot)
    ok (record {
      name = name;
      joints = joints;
      gripper = tools.0;
      tool_on = tools.1;
      cartesian = cartesian;
      created = elim created [ none ↦ now | some t ↦ t ];
    })

module _ {F O : Type 0} where
  joint_fields : List (ℤ × F) → Fields F O
  unfolding text_of_int
  joint_fields [] = no_fields
  joint_fields ((joint, deg) ∷ d) = field (text_of_int joint) (float_leaf deg) (joint_fields d)

  cartesian_fields : Dict F → Fields F O
  cartesian_fields [] = no_fields
  cartesian_fields ((k, x) ∷ d) = field k (float_leaf x) (cartesian_fields d)

  -- `Pose.as_dict`
  unfoldable pub pose_dict : Pose F → Fields F O
  unfolding sorted_joints joint_fields cartesian_fields
  pose_dict p = field (codes "name") (text_leaf p.name) (
      field (codes "joints") (dict (joint_fields (sorted_joints p.joints))) (
        field (codes "created") (float_leaf p.created) (
          with_field (codes "gripper") float_leaf p.gripper (
            with_field (codes "tool") (λ b. leaf (bool b)) p.tool_on
              (with_field (codes "cartesian") (λ c. dict (cartesian_fields c)) p.cartesian
                no_fields)))))
