-- ===== src/Arm/Programs.antt =====
-- `ProgramStep`, `Program` and `_expand_step` of pibot/arm/programs.py. `show` is str() of a list or
-- a dict, and `now` the time at which a program is made.
pub mod Expand
pub mod Show
pub mod Playable
use pibot.Prelude.{
  ℕ, zero, suc, Bool, true, false, ◌&&◌, ◌||◌, not, Option, none, some, List, [], ◌∷◌, ◌++◌,
  if◌then◌else◌,
}
use pibot.Prelude.Int.{ℤ, pos, negsuc, ltb_ℤ}
use pibot.Python.Text.{Text, codes, text_eq, one_of, strip, is_empty}
use pibot.Python.Result.{
  Result, ok, err, value_error, attribute_error, assertion_error, ◌>>=◌, or_raise,
}
use pibot.Python.Value.{Value, null, int, str, bool, float, Runtime, text_of, is_space}
use pibot.Python.Tree.{
  Tree, leaf, list, dict, Items, no_items, item, Fields, no_fields, field, field_at, fields_of_list,
  float_of, truth_of, int_of, text_leaf, float_leaf,
}

mutual
  -- The kind, the pose, the seconds, deg, on, the count and the nested steps.
  pub data ProgramStep (F : Type 0) : Type 0 where
    step :
        Text → Option Text → Option F → Option F → Option Bool → Option ℤ → Steps F → ProgramStep F

  pub data Steps (F : Type 0) : Type 0 where
    no_steps : Steps F
    then_step : ProgramStep F → Steps F → Steps F

module _ {F : Type 0} where
  abbrev pub move_step : Text → Text → F → ProgramStep F
  move_step kind pose seconds = step kind (some pose) (some seconds) none none none no_steps

  abbrev pub grip_step : F → ProgramStep F
  grip_step deg = step (codes "grip") none none (some deg) none none no_steps

  abbrev pub tool_step : Bool → ProgramStep F
  tool_step on = step (codes "tool") none none none (some on) none no_steps

  abbrev pub wait_step : F → ProgramStep F
  wait_step seconds = step (codes "wait") none (some seconds) none none none no_steps

  abbrev pub loop_step : ℤ → Steps F → ProgramStep F
  loop_step count steps = step (codes "loop") none none none none (some count) steps

  abbrev pub kind_of : ProgramStep F → Text
  kind_of (step kind pose seconds deg on count steps) = kind

-- What stands under the key "steps": something else than a list that is not empty, or the steps
-- that its elements make.
pub data Nested (F : Type 0) : Type 0 where
  unusable : Nested F
  usable : Result (Steps F) → Nested F

module _ {F O : Type 0} (py : Runtime F O) (show : Tree F O → Text) where
  -- str(v)
  unfoldable pub show_of : Tree F O → Text
  unfolding text_of
  show_of (leaf v) = text_of py v
  show_of t = show t

  -- str(data.get(key, "")).strip()
  unfoldable pub stripped : Text → Fields F O → Text
  unfolding field_at show_of strip is_space
  stripped key d = elim (field_at key d) [ none ↦ [] | some t ↦ strip (is_space py) (show_of t) ]

  -- float(data.get(key, default))
  unfoldable pub float_at : Text → F → Fields F O → Result F
  unfolding field_at float_of
  float_at key default d = elim (field_at key d) [ none ↦ ok default | some t ↦ float_of py t ]

  unfoldable pub positive : F → Bool
  positive x = not (py.le x (py.literal 0 0))

  -- The name of a pose, if it is a text that is not blank.
  unfoldable pub pose_of : Option (Tree F O) → Option Text
  unfolding strip is_space
  pose_of (some (leaf (str pose))) = if is_empty (strip (is_space py) pose) then none else some pose
  pose_of _ = none

  unfoldable pub move_of : Text → Fields F O → Result (ProgramStep F)
  unfolding field_at pose_of float_at positive
  move_of kind d = or_raise (pose_of (field_at (codes "pose") d)) value_error >>= λ pose.
      float_at (codes "seconds") (py.literal 20 1) d >>= λ seconds.
      if positive seconds then ok (move_step kind pose seconds) else err value_error

  unfoldable pub grip_of : Fields F O → Result (ProgramStep F)
  unfolding field_at float_of
  grip_of d = elim (field_at (codes "deg") d) [
    | none ↦ err value_error
    | some t ↦ float_of py t >>= λ deg. ok (grip_step deg)
  ]

  unfoldable pub tool_of : Fields F O → Result (ProgramStep F)
  unfolding field_at truth_of
  tool_of d = elim (field_at (codes "on") d) [
    | none ↦ err value_error
    | some t ↦ ok (tool_step (truth_of py t))
  ]

  unfoldable pub wait_of : Fields F O → Result (ProgramStep F)
  unfolding float_at positive
  wait_of d = float_at (codes "seconds") (py.literal 0 0) d >>= λ seconds.
      if positive seconds then ok (wait_step seconds) else err value_error

  abbrev pub nested_loop : ℤ → Nested F → Result (ProgramStep F)
  nested_loop count unusable = err value_error
  nested_loop count (usable made) = made >>= λ steps. ok (loop_step count steps)

  -- int(data.get("count", 0))
  unfoldable pub count_of : Option (Tree F O) → Result ℤ
  unfolding int_of
  count_of none = ok (pos 0)
  count_of (some t) = int_of py t

  unfoldable pub loop_of : Fields F O → Nested F → Result (ProgramStep F)
  unfolding field_at count_of
  loop_of d nested = count_of (field_at (codes "count") d) >>= λ count.
      if not (ltb_ℤ (pos 0) count) then err value_error else nested_loop count nested

  -- `ProgramStep.from_dict`, of the items and what stands under "steps"
  unfoldable pub step_of : Fields F O → Nested F → Result (ProgramStep F)
  unfolding stripped one_of text_eq move_of grip_of tool_of wait_of loop_of
  step_of d nested =
      let kind = stripped (codes "kind") d in
      if text_eq kind (codes "moveJ") || text_eq kind (codes "moveL")
      then move_of kind d
      else if text_eq kind (codes "grip")
      then grip_of d
      else if text_eq kind (codes "tool")
      then tool_of d
      else if text_eq kind (codes "wait")
      then wait_of d
      else if text_eq kind (codes "loop")
      then loop_of d nested
      else err value_error

  unfoldable mutual
    unfolding text_eq step_of

    pub step_from : Tree F O → Result (ProgramStep F)
    step_from (dict d) = step_of d (nested_in d)
    step_from (list ts) = err attribute_error
    step_from (leaf v) = err attribute_error

    pub nested_in : Fields F O → Nested F
    nested_in no_fields = unusable
    nested_in (field k t d) = if text_eq k (codes "steps") then nested_from t else nested_in d

    pub nested_from : Tree F O → Nested F
    nested_from (list (item t ts)) = usable (steps_from (item t ts))
    nested_from (list no_items) = unusable
    nested_from (leaf v) = unusable
    nested_from (dict d) = unusable

    pub steps_from : Items F O → Result (Steps F)
    steps_from no_items = ok no_steps
    steps_from (item t ts) = step_from t >>= λ s. steps_from ts >>= λ ss. ok (then_step s ss)

pub record Program (F : Type 0) : Type 0 where
  pub name : Text
  pub steps : Steps F
  pub created : F

module _ {F O : Type 0} (py : Runtime F O) (show : Tree F O → Text) (now : F) where
  unfoldable pub program_named : Text → Nested F → Fields F O → Result (Program F)
  unfolding float_at
  program_named name unusable d = err value_error
  program_named name (usable made) d = made >>= λ steps.
      float_at py show (codes "created") now d >>= λ created.
      ok (record { name = name; steps = steps; created = created })

  -- `Program.from_dict`
  unfoldable pub program_from : Fields F O → Result (Program F)
  unfolding stripped program_named step_from
  program_from d =
      let name = stripped py show (codes "name") d in
      if is_empty name then err value_error else program_named name (nested_in py show d) d
