-- ===== src/Arm/Gate.antt =====
-- pibot/arm/safety.py: the host's gate for arm-motion frames. Joints are numbered by Python ints;
-- a set of joints is its membership test, and a dict from joints its items in order.
pub mod Exact
pub mod Move
use pibot.Prelude.{
  ℕ, zero, suc, Bool, true, false, ◌&&◌, not, Option, none, some, List, [], ◌∷◌, ◌++◌, length, ltb,
  if◌then◌else◌,
}
use pibot.Prelude.Int.{ℤ, pos, negsuc}
use pibot.Python.Text.{Text, codes}
use pibot.Python.Number.{text_of_int}
use pibot.Python.Result.{Result, ok, err, index_error, ◌>>=◌, or_raise}
use pibot.Python.Dict.{Dict}
use pibot.Python.Value.{Value, Num, whole, real, Runtime, to_float, num_neg}
use pibot.Control.Safety.{bound}

pub record JointLimit (F : Type 0) : Type 0 where
  pub min_deg : Num F
  pub max_deg : Num F
  pub max_dps : Num F

pub record GateResult (F : Type 0) : Type 0 where
  pub accepted : Bool
  pub reason : Text
  pub args : Dict (Num F)
  pub targets : List (ℤ × Num F)

module _ {F : Type 0} where
  abbrev pub refuse : Text → GateResult F
  refuse why = record { accepted = false; reason = why; args = []; targets = [] }

  abbrev pub accept : Dict (Num F) → GateResult F
  accept args = record { accepted = true; reason = []; args = args; targets = [] }

  -- The limit of a joint: self._limits[joint], for a joint in range.
  unfoldable pub limit : List (JointLimit F) → ℤ → Option (JointLimit F)
  limit [] joint = none
  limit (l ∷ ls) (pos zero) = some l
  limit (l ∷ ls) (pos (suc n)) = limit ls (pos n)
  limit (l ∷ ls) (negsuc n) = none

  -- 0 <= joint < len(self._limits)
  unfoldable pub in_range : List (JointLimit F) → ℤ → Bool
  in_range ls (pos n) = ltb n (length ls)
  in_range ls (negsuc n) = false

  -- `_check_joint`: the reason, if the joint is out of range
  unfoldable pub check_joint : List (JointLimit F) → ℤ → Option Text
  unfolding in_range
  check_joint ls joint =
      if in_range ls joint
      then none
      else some (
          codes "joint "
          ++ (text_of_int joint
              ++ (codes " out of range [0," ++ (text_of_int (pos (length ls)) ++ codes ")"))))

abbrev pub not_homed : ℤ → Text
not_homed joint = codes "joint " ++ (text_of_int joint ++ codes " not homed")

abbrev pub estop_latched : Text
estop_latched = codes "estop latched"

module _ {F O : Type 0} (py : Runtime F O) (limits : List (JointLimit F)) where
  -- `_guard_motion`: what refuses the motion, if anything does
  unfoldable pub guard_motion : ℤ → Bool → Option Text
  unfolding check_joint
  guard_motion joint estopped = elim (check_joint limits joint) [
    | some bad ↦ some bad
    | none ↦ if estopped then some estop_latched else none
  ]

  -- The rest of a method, behind its guard and with the joint's limit.
  unfoldable pub guarded :
      Option Text → ℤ → (JointLimit F → Result (GateResult F)) → Result (GateResult F)
  unfolding limit
  guarded (some why) joint rest = ok (refuse why)
  guarded none joint rest = or_raise (limit limits joint) index_error >>= rest

  -- The guard of an absolute move: the joint must have been homed too.
  unfoldable pub guard_homed : ℤ → Bool → (ℤ → Bool) → Option Text
  unfolding guard_motion
  guard_homed joint estopped homed = elim (guard_motion joint estopped) [
    | some why ↦ some why
    | none ↦ if homed joint then none else some (not_homed joint)
  ]

  unfoldable pub jpos : ℤ → Value F O → Bool → (ℤ → Bool) → Result (GateResult F)
  unfolding guard_homed guarded to_float bound
  jpos joint deg estopped homed = guarded (guard_homed joint estopped homed) joint λ lim. do
    d ← to_float py deg
    ok (accept ((codes "deg", bound py (real d) lim.min_deg lim.max_deg) ∷ []))

  unfoldable pub jmove : ℤ → Value F O → Value F O → Bool → (ℤ → Bool) → Result (GateResult F)
  unfolding guard_homed guarded to_float bound
  jmove joint deg dps estopped homed = guarded (guard_homed joint estopped homed) joint λ lim. do
    d ← to_float py deg
    v ← to_float py dps
    ok (
        accept (
          (codes "deg", bound py (real d) lim.min_deg lim.max_deg)
          ∷ (codes "dps", bound py (real v) (real (py.literal 0 0)) lim.max_dps)
          ∷ []))

  unfoldable pub jvel : ℤ → Value F O → Bool → Result (GateResult F)
  unfolding guard_motion guarded to_float bound num_neg
  jvel joint dps estopped = guarded (guard_motion joint estopped) joint λ lim. do
    v ← to_float py dps
    ok (accept ((codes "dps", bound py (real v) (num_neg py lim.max_dps) lim.max_dps) ∷ []))

  unfoldable pub jstop : ℤ → GateResult F
  unfolding check_joint
  jstop joint = elim (check_joint limits joint) [ some bad ↦ refuse bad | none ↦ accept [] ]

  unfoldable pub grip : Value F O → Bool → Result (GateResult F)
  unfolding to_float bound
  grip deg estopped =
      if estopped
      then ok (refuse estop_latched)
      else to_float py deg >>= λ d. ok (
          accept (
            (codes "deg", bound py (real d) (real (py.literal 0 0)) (real (py.literal 180 0)))
            ∷ []))

  unfoldable pub tool : Bool → GateResult F
  tool estopped = if estopped then refuse estop_latched else accept []

  unfoldable pub home : ℤ → Bool → GateResult F
  unfolding guard_motion
  home joint estopped = elim (guard_motion joint estopped) [
    | some why ↦ refuse why
    | none ↦ accept []
  ]

  -- What refuses one target of `move`.
  unfoldable pub guard_target : ℤ → (ℤ → Bool) → (ℤ → Bool) → Option Text
  unfolding check_joint
  guard_target joint homed current = elim (check_joint limits joint) [
    | some bad ↦ some bad
    | none ↦
        if not (homed joint)
        then some (not_homed joint)
        else if not (current joint)
        then some (codes "no telemetry for joint " ++ text_of_int joint)
        else none
  ]

  -- The loop of `move`, with the angles clamped so far.
  unfoldable pub clamp_targets :
      (ℤ → Bool) → (ℤ → Bool) → List (ℤ × Num F) → List (ℤ × Value F O) → Result (GateResult F)
  unfolding guard_target limit to_float bound
  clamp_targets homed current clamped [] =
      ok (record { accepted = true; reason = []; args = []; targets = clamped })
  clamp_targets homed current clamped ((joint, deg) ∷ rest) =
      elim (guard_target joint homed current) [
        | some why ↦ ok (refuse why)
        | none ↦ do
          lim ← or_raise (limit limits joint) index_error
          d ← to_float py deg
          clamp_targets homed current
              (clamped ++ (joint, bound py (real d) lim.min_deg lim.max_deg) ∷ []) rest
      ]

  unfoldable pub move :
      List (ℤ × Value F O) → (ℤ → Bool) → F → Bool → (ℤ → Bool) → Result (GateResult F)
  unfolding clamp_targets
  move targets current seconds estopped homed =
      if estopped
      then ok (refuse estop_latched)
      else if py.le seconds (py.literal 0 0)
      then ok (refuse (codes "seconds must be positive"))
      else clamp_targets homed current [] targets
