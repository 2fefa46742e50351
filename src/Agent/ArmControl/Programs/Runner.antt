-- ===== src/Agent/ArmControl/Programs/Runner.antt =====
-- `_run_arm_program_step` and `_run_arm_program` of agent/app.py, over the moves of the parent.
use pibot.Prelude.{
  ℕ, suc, ◌-◌, Bool, true, false, Option, none, some, List, [], ◌∷◌, length, leb, if◌then◌else◌,
}
use pibot.Python.Text.{Text, codes, text_eq}
use pibot.Python.Result.{Result, ok, err, runtime_error, assertion_error, or_raise}
use pibot.Python.Action.{Action, ◌>>=◌, ◌>>◌, raise, lift, read, pure}
use pibot.Python.Dict.{Dict, get}
use pibot.Python.Value.{float, Runtime}
use pibot.Arm.Boards.{Boards}
use pibot.Arm.Gate
use pibot.Arm.Gate.{JointLimit, GateResult}
use pibot.Arm.Manager
use pibot.Arm.Manager.{ArmManager, Setup}
use pibot.Arm.Poses.{Pose}
use pibot.Arm.Programs.{ProgramStep, step, kind_of}
use pibot.Agent.ArmControl.Handler.{arg}
use pibot.Agent.ArmControl.Programs.{
  Progress, returned, waiting, Phase, running, stopped, completed, failed, Note, no_note,
  estop_latched, was_stopped, failure, ProgramStatus, Player, Beside, poses_by_name, is_aborted,
  wait_once, in_thread, unless_aborted, passed, run_wait_step, run_movej_step, run_movel_step,
}

module _ {F O W : Type 0} (py : Runtime F O) (boards : Boards F W) (setup : Setup)
    (limits : List (JointLimit F)) (b : Beside F O W) where
  -- The branches of `_run_arm_program_step`, by the kind of the step.
  pose_step :
      Dict (Pose F)
      → Option Text
      → Option F
      → (Pose F → F → Action (Player F W) (Unit {0}))
      → Action (Player F W) (Unit {0})
  unfolding get
  pose_step poses (some name) (some seconds) run =
      lift (or_raise (get name poses) runtime_error) >>= λ pose. run pose seconds
  pose_step poses _ _ run = raise assertion_error

  grip_action : Option F → Action (Player F W) (Unit {0})
  unfolding passed unless_aborted in_thread arg
  grip_action none = raise assertion_error
  grip_action (some deg) = do
    p ← read
    res ← lift (Gate.grip py limits (float deg) p.arm.estopped)
    passed py boards setup limits b res
    unless_aborted py boards setup limits b (do
      d ← lift (arg py boards setup limits none (codes "deg") res)
      in_thread py boards setup limits b (Manager.grip py boards setup d))

  tool_action : Option Bool → Action (Player F W) (Unit {0})
  unfolding passed unless_aborted in_thread
  tool_action on = do
    p ← read
    passed py boards setup limits b (Gate.tool py limits p.arm.estopped)
    unless_aborted py boards setup limits b (
        in_thread py boards setup limits b
          (Manager.tool py boards setup (elim on [ some true ↦ true | _ ↦ false ])))

  wait_action : Option F → Action (Player F W) Progress
  wait_action none = raise assertion_error
  wait_action (some seconds) = run_wait_step py boards setup limits b b.rounds seconds

  -- `_run_arm_program_step`
  unfoldable pub run_step : Dict (Pose F) → ProgramStep F → Action (Player F W) Progress
  unfolding pose_step grip_action tool_action wait_action text_eq
  run_step poses (step kind pose seconds deg on count steps) =
      if text_eq kind (codes "moveJ")
      then (pose_step poses pose seconds (run_movej_step py boards setup limits b) >> pure returned)
      else if text_eq kind (codes "moveL")
      then (pose_step poses pose seconds (run_movel_step py boards setup limits b) >> pure returned)
      else if text_eq kind (codes "wait")
      then wait_action seconds
      else if text_eq kind (codes "grip")
      then (grip_action deg >> pure returned)
      else if text_eq kind (codes "tool")
      then (tool_action on >> pure returned)
      else raise runtime_error

  -- `_set_arm_program_status`
  unfoldable pub set_status :
      Text → Phase → Option ℕ → ℕ → Option Text → Note → Action (Player F W) (Unit {0})
  set_status name phase current total kind message p = (
    ok tt,
    record p {
      status = some (record {
        name = name;
        phase = phase;
        current_step = current;
        total_steps = total;
        current_kind = kind;
        message = message;
      });
    },
  )

  -- max(1, idx - 1)
  step_before : ℕ → ℕ
  step_before idx = if leb 2 idx then idx - 1 else 1

  -- What is behind a step, once that has returned.
  unfoldable pub after : Progress → Action (Player F W) Progress → Action (Player F W) Progress
  after returned rest = rest
  after waiting rest = pure waiting

  -- The loop over the steps, from number idx on, up to the status "completed".
  unfoldable pub run_steps :
      Text → Dict (Pose F) → ℕ → ℕ → List (ProgramStep F) → Action (Player F W) Progress
  unfolding set_status is_aborted step_before after
  run_steps name poses total idx [] =
      set_status name completed (some total) total none no_note >> pure returned
  run_steps name poses total idx (s ∷ ss) =
      let rest = run_steps name poses total (suc idx) ss in
      read >>= λ p.
      if is_aborted py boards setup limits b p
      then (set_status name stopped (some (step_before idx)) total none
            (if p.arm.estopped then estop_latched else was_stopped)
          >> pure returned)
      else (do
        set_status name running (some idx) total (some (kind_of s)) no_note
        progress ← run_step poses s
        after progress rest)

  step_of_status : Option ProgramStatus → Option ℕ
  step_of_status none = none
  step_of_status (some st) = st.current_step

  kind_of_status : Option ProgramStatus → Option Text
  kind_of_status none = none
  kind_of_status (some st) = st.current_kind

  -- except Exception as exc: …
  unfoldable pub excepted : Text → ℕ → Result Progress × Player F W → Progress × Player F W
  unfolding set_status step_of_status kind_of_status
  excepted name total (ok progress, p) = (progress, p)
  excepted name total (err why, p) = (
    returned,
    (set_status name failed (step_of_status p.status) total (kind_of_status p.status) (failure why)
        p).1,
  )

  -- finally: …
  unfoldable pub finished : Player F W → Player F W
  finished p = record p {
    arm = record p.arm { aborted = false };
    program_name = none;
    task = false;
  }

  -- The end of the try statement, unless a wait still goes on.
  unfoldable pub ended : Progress × Player F W → Result Progress × Player F W
  unfolding finished
  ended (returned, p) = (ok returned, finished p)
  ended (waiting, p) = (ok waiting, p)

  -- `_run_arm_program`, of a program's name and steps, with what `_list_poses` comes to. An exception
  -- of that goes to the task, past the handlers.
  unfoldable pub run_program :
      Text → List (ProgramStep F) → Result (List (Pose F)) → Action (Player F W) Progress
  unfolding set_status run_steps excepted ended poses_by_name wait_once
  run_program name steps (err why) p = (err why, p)
  run_program name steps (ok poses) p =
      let total = length steps in
      let p0 = ((wait_once py boards setup limits b) p).1 in
      let p1 = (set_status name running (some 0) total none no_note p0).1 in
      let done = run_steps name (poses_by_name [] poses) total 1 steps p1 in
      ended (excepted name total done)
