-- ===== src/Arm/Manager/Moves.antt =====
-- `move_synchronized` and `run_trajectory` of pibot/arm/manager.py. The pauses between the frames
-- are left out; whether playback is aborted depends on what has happened so far.
use pibot.Prelude.{Bool, Option, none, some, List, [], ◌∷◌, if◌then◌else◌}
use pibot.Prelude.Int.{ℤ, eqb_ℤ}
use pibot.Python.Result.{Result, ok, err, value_error, key_error, or_raise}
use pibot.Python.Action.{Action, ◌>>=◌, ◌>>◌, pure, lift, for_each}
use pibot.Python.Value.{Value, float, Runtime, to_float}
use pibot.Arm.Boards.{Boards}
use pibot.Arm.Manager.{ArmManager, Setup, jmove}

-- d.get(joint), of a dict from joints as its items in order
unfoldable pub joint_in {ℓ} : {V : Type ℓ} → ℤ → List (ℤ × V) → Option V
joint_in joint [] = none
joint_in joint ((j, v) ∷ d) = if eqb_ℤ j joint then some v else joint_in joint d

pub record TrajectoryFrame (F O : Type 0) : Type 0 where
  pub targets : List (ℤ × Value F O)
  pub dt : F

module _ {F O W : Type 0} (py : Runtime F O) (boards : Boards F W) (s : Setup) where
  -- abs(float(to) - float(from)) / seconds
  speed : Value F O → Value F O → F → Result F
  unfolding to_float
  speed to from seconds = elim (to_float py to) [
    | err why ↦ err why
    | ok a ↦ elim (to_float py from) [
      | err why ↦ err why
      | ok b ↦ ok (py.divide (py.magnitude (py.minus a b)) seconds)
    ]
  ]

  -- One joint of a move, from where `from` has it.
  move_joint : List (ℤ × Value F O) → F → ℤ × Value F O → Action (ArmManager F W) (Unit {0})
  unfolding joint_in speed jmove
  move_joint from seconds (joint, target) = do
    at ← lift (or_raise (joint_in joint from) key_error)
    dps ← lift (speed target at seconds)
    jmove py boards s joint target (float dps)

  unfoldable pub move_synchronized :
      List (ℤ × Value F O) → List (ℤ × Value F O) → F → Action (ArmManager F W) (Unit {0})
  unfolding for_each move_joint
  move_synchronized targets current seconds =
      if py.le seconds (py.literal 0 0)
      then lift (err value_error)
      else for_each (move_joint current seconds) targets

  -- The loop over `frames[1:]`.
  unfoldable pub play_frames :
      (ArmManager F W → Bool)
      → List (ℤ × Value F O)
      → List (TrajectoryFrame F O)
      → Action (ArmManager F W) (Unit {0})
  unfolding for_each move_joint
  play_frames abort_check last [] m = (ok tt, m)
  play_frames abort_check last (frame ∷ frames) m =
      let rest = play_frames abort_check frame.targets frames in
      if abort_check m
      then (ok tt, m)
      else if py.le frame.dt (py.literal 0 0)
      then (err value_error, m)
      else (for_each (move_joint last frame.dt) frame.targets >> rest) m

  unfoldable pub run_trajectory :
      List (TrajectoryFrame F O) → (ArmManager F W → Bool) → Action (ArmManager F W) (Unit {0})
  unfolding play_frames
  run_trajectory [] abort_check = pure tt
  run_trajectory (first ∷ frames) abort_check = play_frames abort_check first.targets frames
