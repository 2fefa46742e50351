-- ===== src/Agent/ArmControl/Harmless.antt =====
-- agent/app.py: what a handler can have in mind at its wait while the e-stop is latched.
use mathlib.Core.Logic.{◌≢◌}
use pibot.Prelude.{◌≡◌, refl, Bool, true, false, Option, List, [], ◌⊎◌, inl, inr, Bool-cases}
use pibot.Prelude.Int.{ℤ, pos}
use pibot.Python.Text.{codes}
use pibot.Python.Result.{Result, ok, err, value_error, json_error, ◌>>=◌}
use pibot.Python.Value.{null, float, Runtime}
use pibot.Python.Tree.{Fields}
use pibot.Arm.Boards.{Boards, Event, recorded}
use pibot.Arm.Gate
use pibot.Arm.Gate.{JointLimit, GateResult}
use pibot.Arm.Gate.Exact.{Refuses, latched-Refuses}
use pibot.Arm.Manager
use pibot.Arm.Manager.{Setup}
use pibot.Arm.Manager.Written.{Adds, Adds-imp, SentNamed, estop-Adds, enable-Adds, jstop-Adds}
use pibot.Agent.ArmControl.{
  Command, estop, clear_estop, enable, grip, tool, jvel, jstop, jpos, jmove, home, move,
  move_cartesian, other, CartesianPose, has_key, as_targets, at, with_values,
}
use pibot.Agent.ArmControl.Handler.{
  keep, Plan, answer, call, gated, arg_of, joint_of, move_to, solved, ask_solver, after_solver,
  Asked, no_solver, asked, jmove_plan, plan_of,
}

module _ {F O W : Type 0} (py : Runtime F O) (b : Boards F W) (setup : Setup)
    (limits : List (JointLimit F)) (ik : Option (CartesianPose F → Result (List (ℤ × F)))) where
  -- A frame of a command by which no joint starts to move.
  abbrev pub Halting : Event → Type 0
  Halting e =
      SentNamed py b setup (codes "estop") e
      ⊎ SentNamed py b setup (codes "enable") e
      ⊎ SentNamed py b setup (codes "jstop") e

  -- What a handler may have in mind at its wait: no call of the boards, or one that adds such frames
  -- and after which the state is left alone.
  abbrev pub Harmless : Result (Plan F O (W × List Event)) → Type 0
  Harmless (err why) = Unit
  Harmless (ok (answer reply)) = Unit
  Harmless (ok (call act after)) =
      (after ≡ keep) × ((m : Manager.ArmManager F (W × List Event)) → Adds Halting m (act m).1)

  pub record IsHarmless (r : Result (Plan F O (W × List Event))) : Type 0 where
    pub harmless : Harmless r

  >>=-Harmless :
      {A : Type 0} (first : Result A) (rest : A → Result (Plan F O (W × List Event)))
      → ((a : A) → IsHarmless (rest a))
      → IsHarmless (first >>= rest)
  >>=-Harmless (ok a) rest h = h a
  >>=-Harmless (err why) rest h = record { harmless = tt }

  -- What stands behind a gate that refuses is not reached.
  refused-Harmless :
      (res : GateResult F) (rest : Result (Plan F O (W × List Event)))
      → res.accepted ≡ false
      → IsHarmless (gated py (recorded b) setup limits ik res rest)
  unfolding gated
  refused-Harmless res rest e = rw e (record { harmless = tt })

  Refuses-Harmless :
      (first : Result (GateResult F)) (rest : GateResult F → Result (Plan F O (W × List Event)))
      → Refuses first
      → IsHarmless (first >>= λ res. gated py (recorded b) setup limits ik res (rest res))
  Refuses-Harmless first rest (res, e, no_entry) = rw e (refused-Harmless res (rest res) no_entry)

  gated-Harmless :
      (res : GateResult F) (rest : Result (Plan F O (W × List Event)))
      → IsHarmless rest
      → IsHarmless (gated py (recorded b) setup limits ik res rest)
  unfolding gated
  gated-Harmless res rest h = elim (Bool-cases res.accepted) [
    | inl e ↦ rw e (h)
    | inr e ↦ rw e (record { harmless = tt })
  ]

  move_to-Harmless :
      (homed : ℤ → Bool) (positions targets : List (ℤ × F)) (seconds : F)
      → IsHarmless (move_to py (recorded b) setup limits ik true homed positions targets seconds)
  unfolding move_to
  move_to-Harmless homed positions targets seconds =
      Refuses-Harmless _ _
        (latched-Refuses py limits (pos 0) null null homed (has_key positions)
          (with_values float targets) seconds).6

  jmove-Harmless :
      (homed : ℤ → Bool) (joint : ℤ) (deg dps : F)
      → IsHarmless (jmove_plan py (recorded b) setup limits ik true homed joint deg dps)
  unfolding jmove_plan
  jmove-Harmless homed joint deg dps =
      Refuses-Harmless _ _
        (latched-Refuses py limits joint (float deg) (float dps) homed homed [] deg).1

  solved-Harmless :
      (r : Result (List (ℤ × F))) (next : List (ℤ × F) → Result (Plan F O (W × List Event)))
      → ((targets : List (ℤ × F)) → IsHarmless (next targets))
      → IsHarmless (solved py (recorded b) setup limits ik r next)
  unfolding solved
  solved-Harmless (ok targets) next h = h targets
  solved-Harmless (err value_error) next h = record { harmless = tt }
  solved-Harmless (err json_error) next h = record { harmless = tt }
  solved-Harmless (err why) next h = record { harmless = tt }

  after_solver-Harmless :
      (next : List (ℤ × F) → F → Result (Plan F O (W × List Event))) (a : Asked F)
      → ((targets : List (ℤ × F)) (seconds : F) → IsHarmless (next targets seconds))
      → IsHarmless (after_solver py (recorded b) setup limits ik next a)
  unfolding after_solver
  after_solver-Harmless next no_solver h = record { harmless = tt }
  after_solver-Harmless next (asked targets seconds) h =
      solved-Harmless targets (λ found. next found seconds) (λ found. h found seconds)

  -- With the latch set, no branch but clear_estop can have more in mind.
  pub plan_of-Harmless :
      (homed : ℤ → Bool) (positions : List (ℤ × F)) (c : Command) (frame : Fields F O)
      → c ≢ clear_estop
      → IsHarmless (plan_of py (recorded b) setup limits ik true homed positions c frame)
  unfolding plan_of
  plan_of-Harmless homed positions estop frame h = record {
    harmless = (refl, λ m. Adds-imp _ Halting (λ e p. inl p) (estop-Adds py b setup m));
  }
  plan_of-Harmless homed positions clear_estop frame h = absurd (h refl)
  plan_of-Harmless homed positions enable frame h = record {
    harmless = (refl, λ m. Adds-imp _ Halting (λ e p. inr (inl p)) (enable-Adds py b setup _ m));
  }
  plan_of-Harmless homed positions grip frame h =
      >>=-Harmless (arg_of py (recorded b) setup limits ik (codes "deg") frame) _ λ deg.
        Refuses-Harmless _ _
          (latched-Refuses py limits (pos 0) (float deg) null homed homed [] deg).3
  plan_of-Harmless homed positions tool frame h =
      refused-Harmless (Gate.tool py limits true) _
        (latched-Refuses py limits (pos 0) null null homed homed [] (py.literal 0 0)).4
  plan_of-Harmless homed positions jvel frame h =
      >>=-Harmless (joint_of py (recorded b) setup limits ik frame) _ λ joint.
        >>=-Harmless (arg_of py (recorded b) setup limits ik (codes "dps") frame) _ λ dps.
          Refuses-Harmless _ _
            (latched-Refuses py limits joint null (float dps) homed homed [] dps).2
  plan_of-Harmless homed positions jstop frame h =
      >>=-Harmless (joint_of py (recorded b) setup limits ik frame) _ λ joint.
        gated-Harmless (Gate.jstop py limits joint) _ (record {
          harmless =
              (refl, λ m. Adds-imp _ Halting (λ e p. inr (inr p)) (jstop-Adds py b setup joint m));
        })
  plan_of-Harmless homed positions jpos frame h =
      >>=-Harmless (joint_of py (recorded b) setup limits ik frame) _ λ joint.
        >>=-Harmless (arg_of py (recorded b) setup limits ik (codes "deg") frame) _ λ deg.
          Refuses-Harmless _ _
            (latched-Refuses py limits joint (float deg) null homed homed [] deg).0
  plan_of-Harmless homed positions jmove frame h =
      >>=-Harmless (joint_of py (recorded b) setup limits ik frame) _ λ joint.
        >>=-Harmless (arg_of py (recorded b) setup limits ik (codes "deg") frame) _ λ deg.
          >>=-Harmless (arg_of py (recorded b) setup limits ik (codes "dps") frame) _
            λ dps. jmove-Harmless homed joint deg dps
  plan_of-Harmless homed positions home frame h =
      >>=-Harmless (joint_of py (recorded b) setup limits ik frame) _ λ joint.
        refused-Harmless (Gate.home py limits joint true) _
          (latched-Refuses py limits joint null null homed homed [] (py.literal 0 0)).5
  plan_of-Harmless homed positions move frame h =
      >>=-Harmless (at py (codes "targets") frame >>= as_targets py) _ λ targets.
        >>=-Harmless (arg_of py (recorded b) setup limits ik (codes "seconds") frame) _
          λ seconds. move_to-Harmless homed positions targets seconds
  plan_of-Harmless homed positions move_cartesian frame h =
      >>=-Harmless (ask_solver py (recorded b) setup limits ik ik frame) _
        λ a. after_solver-Harmless _ a (move_to-Harmless homed positions)
  plan_of-Harmless homed positions other frame h = record { harmless = tt }
