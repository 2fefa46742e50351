-- ===== src/Arm/Trajectory.antt =====
-- `joint_trajectory` of pibot/arm/trajectory.py. The loop of `_sample_times` adds a step until it is
-- near the end, which floats need not reach, and is followed for a given number of rounds.
use pibot.Prelude.{
  ℕ, zero, suc, Bool, true, false, ◌&&◌, ◌||◌, not, List, [], ◌∷◌, ◌++◌, if◌then◌else◌,
}
use pibot.Prelude.Int.{ℤ, eqb_ℤ}
use pibot.Python.Result.{Result, ok, err, value_error, key_error, or_raise, each, ◌>>=◌}
use pibot.Python.Value.{Value, float, Runtime}
use pibot.Arm.Manager.Moves.{TrajectoryFrame, joint_in}
use pibot.Arm.Poses.{sorted_joints}

-- {joint: float}
abbrev Targets : Type 0 → Type 0
Targets F = List (ℤ × F)

has_joint : {F : Type 0} → Targets F → ℤ → Bool
has_joint [] joint = false
has_joint ((j, x) ∷ d) joint = eqb_ℤ j joint || has_joint d joint

covers : {F : Type 0} → Targets F → Targets F → Bool
unfolding has_joint
covers a [] = true
covers a ((j, x) ∷ d) = has_joint a j && covers a d

to_values : {F O : Type 0} → Targets F → List (ℤ × Value F O)
to_values [] = []
to_values ((j, x) ∷ d) = (j, float x) ∷ to_values d

module _ {F O : Type 0} (py : Runtime F O) where
  open py use {lt, le, plus, minus, times, divide, literal}

  -- The loop, behind the times so far.
  times_from : ℕ → F → F → F → List F
  times_from zero dt elapsed seconds = []
  times_from (suc n) dt elapsed seconds =
      let rest = times_from n dt (plus elapsed dt) seconds in
      if lt (plus elapsed dt) (minus seconds (literal 1 9)) then plus elapsed dt ∷ rest else []

  -- `_sample_times`, without the first, which is 0.0
  sample_times : ℕ → F → F → Result (List F)
  unfolding times_from
  sample_times rounds seconds rate_hz =
      if le seconds (literal 0 0)
      then err value_error
      else if le rate_hz (literal 0 0)
      then err value_error
      else ok
          (times_from rounds (divide (literal 10 1) rate_hz) (literal 0 1) seconds ++ seconds ∷ [])

  -- `_trapezoid_progress`
  trapezoid_progress : F → F → F → Result F
  trapezoid_progress t seconds accel_fraction =
      let ta = times seconds accel_fraction in
      let tc = minus seconds (times (literal 20 1) ta) in
      let accel = divide (literal 10 1) (times ta (minus seconds ta)) in
      let left = minus seconds t in
      if not (lt (literal 0 1) accel_fraction && lt accel_fraction (literal 5 1))
      then err value_error
      else if le t (literal 0 1)
      then ok (literal 0 1)
      else if le seconds t
      then ok (literal 10 1)
      else if le t ta
      then ok (times (times (times (literal 5 1) accel) t) t)
      else if lt t (plus ta tc)
      then ok (
          plus (times (times (times (literal 5 1) accel) ta) ta)
            (times (times accel ta) (minus t ta)))
      else ok (minus (literal 10 1) (times (times (times (literal 5 1) accel) left) left))

  -- start[joint] + (goal[joint] - start[joint]) * progress, for each joint of the goal
  between : Targets F → F → ℤ × F → Result (ℤ × F)
  unfolding joint_in
  between start progress (joint, to) = or_raise (joint_in joint start) key_error >>= λ from.
      ok (joint, plus from (times (minus to from) progress))

  frames_from : Targets F → Targets F → F → F → F → List F → Result (List (TrajectoryFrame F O))
  unfolding trapezoid_progress between to_values
  frames_from start goal seconds accel_fraction prev_t [] = ok []
  frames_from start goal seconds accel_fraction prev_t (t ∷ ts) = do
    progress ← trapezoid_progress t seconds accel_fraction
    targets ← each (between start progress) (sorted_joints goal)
    rest ← frames_from start goal seconds accel_fraction t ts
    ok (record { targets = to_values targets; dt = minus t prev_t } ∷ rest)

  unfoldable pub joint_trajectory :
      ℕ → Targets F → Targets F → F → F → F → Result (List (TrajectoryFrame F O))
  unfolding covers sample_times frames_from to_values
  joint_trajectory rounds start goal seconds rate_hz accel_fraction =
      if not (covers start goal && covers goal start) then err value_error else do
        ts ← sample_times rounds seconds rate_hz
        rest ← frames_from start goal seconds accel_fraction (literal 0 1) ts
        ok (record { targets = to_values start; dt = literal 0 1 } ∷ rest)
