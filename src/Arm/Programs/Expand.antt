-- ===== src/Arm/Programs/Expand.antt =====
-- `_expand_step` and `Program.expanded_steps` of pibot/arm/programs.py, run to their ends.
use pibot.Prelude.{ℕ, zero, suc, not, Option, none, some, List, [], ◌∷◌, ◌++◌, if◌then◌else◌}
use pibot.Prelude.Int.{ℤ, pos, negsuc}
use pibot.Python.Text.{codes, text_eq}
use pibot.Python.Result.{Result, ok, err, assertion_error, ◌>>=◌}
use pibot.Arm.Programs.{ProgramStep, step, Steps, no_steps, then_step, Program}

-- The same steps, n times over.
unfoldable pub repeated : {A : Type 0} → ℕ → List A → List A
repeated zero xs = []
repeated (suc n) xs = xs ++ repeated n xs

-- range(count)
abbrev pub rounds : ℤ → ℕ
rounds (pos n) = n
rounds (negsuc n) = 0

module _ {F : Type 0} where
  unfoldable pub loop_steps :
      Option ℤ → Result (List (ProgramStep F)) → Result (List (ProgramStep F))
  unfolding repeated
  loop_steps none inner = err assertion_error
  loop_steps (some count) inner = inner >>= λ steps. ok (repeated (rounds count) steps)

  unfoldable mutual
    unfolding text_eq loop_steps

    -- `_expand_step`, run to its end
    pub expand_step : ProgramStep F → Result (List (ProgramStep F))
    expand_step (step kind pose seconds deg on count steps) =
        let inner = expand_steps steps in
        if not (text_eq kind (codes "loop"))
        then ok (step kind pose seconds deg on count steps ∷ [])
        else loop_steps count inner

    pub expand_steps : Steps F → Result (List (ProgramStep F))
    expand_steps no_steps = ok []
    expand_steps (then_step s ss) =
        expand_step s >>= λ first. expand_steps ss >>= λ rest. ok (first ++ rest)

-- `Program.expanded_steps`, run to its end
unfoldable pub expanded_steps : {F : Type 0} → Program F → Result (List (ProgramStep F))
unfolding expand_step
expanded_steps p = expand_steps p.steps
