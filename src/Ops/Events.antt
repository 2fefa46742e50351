-- ===== src/Ops/Events.antt =====
-- The calls that may come to the runner, in any order, and what they lead to.
use pibot.Prelude.{ℕ, suc, Bool, ◌&&◌, not, List, [], ◌∷◌, if◌then◌else◌}
use pibot.Python.Text.{Text, text_eq}
use pibot.Python.Result.{Result, ok, err}
use pibot.Ops.{
  OpsRunner, create_job, start_preview, preview_line, end_preview, confirm, set_guard, start_run,
  run_line, end_run, fail_run, cancel,
}

-- How often the executor was called for a job and not for a dry run.
unfoldable pub executions : Text → List (Text × Bool) → ℕ
executions id [] = 0
executions id ((k, dry_run) ∷ calls) =
    let rest = executions id calls in if text_eq k id && not dry_run then suc rest else rest

-- A call of a method, or a step of a run: the steps of all runs in any order.
pub data Event (A : Type 0) : Type 0 where
  created : Text → Text → A → Bool → Event A
  preview_started preview_ended run_started run_ended cancelled : Text → Event A
  preview_logged run_logged run_failed : Text → Text → Event A
  confirmed guard_set : Text → Bool → Event A

module _ {A : Type 0} where
  unfoldable pub call : Event A → OpsRunner A → Result (OpsRunner A)
  call (created id kind args dry_run) = create_job id kind args dry_run
  call (preview_started id) = start_preview id
  call (preview_logged id line) = preview_line id line
  call (preview_ended id) = end_preview id
  call (confirmed id guard) = confirm id guard
  call (guard_set id passed) = set_guard id passed
  call (run_started id) = start_run id
  call (run_logged id line) = run_line id line
  call (run_ended id) = end_run id
  call (run_failed id why) = fail_run id why
  call (cancelled id) = cancel id

  -- A method that raises changes nothing.
  abbrev pub settle : OpsRunner A → Result (OpsRunner A) → OpsRunner A
  settle r (ok r') = r'
  settle r (err e) = r

  unfoldable pub run_all : List (Event A) → OpsRunner A → OpsRunner A
  unfolding call
  run_all [] r = r
  run_all (e ∷ es) r = run_all es (settle r (call e r))
