-- ===== src/Arm/Programs/Show.antt =====
-- `ProgramStep.as_dict` and `Program.as_dict` of pibot/arm/programs.py.
use pibot.Prelude.{Option, none, some}
use pibot.Python.Text.{Text, codes}
use pibot.Python.Value.{int, bool}
use pibot.Python.Tree.{
  Tree, leaf, list, dict, Items, no_items, item, Fields, no_fields, field, text_leaf, float_leaf,
}
use pibot.Arm.Programs.{ProgramStep, step, Steps, no_steps, then_step, Program}

-- A key that stands in a dict when there is a value for it.
abbrev pub with_field :
    {F O A : Type 0} → Text → (A → Tree F O) → Option A → Fields F O → Fields F O
with_field key show none d = d
with_field key show (some a) d = field key (show a) d

module _ {F O : Type 0} where
  unfoldable mutual
    -- `ProgramStep.as_dict`
    pub step_dict : ProgramStep F → Fields F O
    step_dict (step kind pose seconds deg on count steps) = field (codes "kind") (text_leaf kind) (
        with_field (codes "pose") text_leaf pose (
          with_field (codes "seconds") float_leaf seconds (
            with_field (codes "deg") float_leaf deg (
              with_field (codes "on") (λ b. leaf (bool b)) on
                (with_field (codes "count") (λ n. leaf (int n)) count (nested_field steps))))))

    -- The key "steps", if there are any.
    pub nested_field : Steps F → Fields F O
    nested_field no_steps = no_fields
    nested_field (then_step s ss) =
        field (codes "steps") (list (item (dict (step_dict s)) (steps_items ss))) no_fields

    pub steps_items : Steps F → Items F O
    steps_items no_steps = no_items
    steps_items (then_step s ss) = item (dict (step_dict s)) (steps_items ss)

  -- `Program.as_dict`
  unfoldable pub program_dict : Program F → Fields F O
  unfolding step_dict
  program_dict p = field (codes "name") (text_leaf p.name) (
      field (codes "steps") (list (steps_items p.steps))
        (field (codes "created") (float_leaf p.created) no_fields))
