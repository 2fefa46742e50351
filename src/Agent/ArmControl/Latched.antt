-- ===== src/Agent/ArmControl/Latched.antt =====
-- agent/app.py: what the boards can be sent while the e-stop is latched, whatever clients send.
use mathlib.Core.Logic.{◌≢◌}
use pibot.Prelude.{◌≡◌, refl, ◌∙◌, Bool, true, Option, List, [], ◌∷◌, ◌++◌, All}
use pibot.Prelude.Int.{ℤ}
use pibot.Python.Text.{codes}
use pibot.Python.Result.{Result, ok, err}
use pibot.Python.Value.{Runtime}
use pibot.Python.Tree.{Fields, field_at}
use pibot.Arm.Boards.{Boards, Event, recorded}
use pibot.Arm.Gate.{JointLimit}
use pibot.Arm.Manager
use pibot.Arm.Manager.{Setup}
use pibot.Arm.Manager.Routing.{events}
use pibot.Arm.Manager.Written.{Adds, Adds-refl, Adds-trans}
use pibot.Agent.ArmControl.{
  ArmState, Command, estop, clear_estop, CartesianPose, command_in, is_member,
}
use pibot.Agent.ArmControl.Handler.{
  keep, Plan, answer, call, plan_of, latch, told, settle, begin, carry_out, arm_command, serve,
}
use pibot.Agent.ArmControl.Harmless.{Halting, Harmless, plan_of-Harmless}

module _ {F O W : Type 0} (py : Runtime F O) (b : Boards F W) (setup : Setup)
    (limits : List (JointLimit F)) (ik : Option (CartesianPose F → Result (List (ℤ × F)))) where
  -- Between two states: the latch stays, no joint becomes homed, and the boards get such frames only.
  record StaysHalted (s s' : ArmState F (W × List Event)) : Type 0 where
    latched : s'.estopped ≡ true
    same_homed : s'.homed ≡ s.homed
    sent_on : Adds (Halting py b setup limits ik) s.manager s'.manager

  told-StaysHalted :
      (r : Result (Unit {0}) × Manager.ArmManager F (W × List Event))
      (s s' : ArmState F (W × List Event))
      → Adds (Halting py b setup limits ik) s'.manager r.1
      → StaysHalted s s'
      → StaysHalted s (told py (recorded b) setup limits ik keep r s').1
  unfolding told settle
  told-StaysHalted (ok u, m) s s' adds k = record {
    latched = k.latched;
    same_homed = k.same_homed;
    sent_on = Adds-trans (Halting py b setup limits ik) k.sent_on adds;
  }
  told-StaysHalted (err why, m) s s' adds k = record {
    latched = k.latched;
    same_homed = k.same_homed;
    sent_on = Adds-trans (Halting py b setup limits ik) k.sent_on adds;
  }

  carry_out-StaysHalted :
      (r : Result (Plan F O (W × List Event))) (s s' : ArmState F (W × List Event))
      → Harmless py b setup limits ik r
      → StaysHalted s s'
      → StaysHalted s (carry_out py (recorded b) setup limits ik r s').1
  unfolding carry_out
  carry_out-StaysHalted (err why) s s' h k = k
  carry_out-StaysHalted (ok (answer reply)) s s' h k = k
  carry_out-StaysHalted (ok (call act after)) s s' (same, adds) k =
      rw same (told-StaysHalted (act s'.manager) s s' (adds s'.manager) k)

  latch-StaysHalted :
      (c : Command) (s : ArmState F (W × List Event))
      → s.estopped ≡ true
      → StaysHalted s (latch py (recorded b) setup limits ik c s)
  unfolding latch
  latch-StaysHalted estop s h = record {
    latched = refl;
    same_homed = refl;
    sent_on = Adds-refl (Halting py b setup limits ik) _ _ refl;
  }
  latch-StaysHalted _ s h = record {
    latched = h;
    same_homed = refl;
    sent_on = Adds-refl (Halting py b setup limits ik) _ _ refl;
  }

  latched_plan :
      (estopped : Bool) (homed : ℤ → Bool) (positions : List (ℤ × F)) (c : Command)
      (frame : Fields F O)
      → estopped ≡ true
      → c ≢ clear_estop
      → Harmless py b setup limits ik
          (plan_of py (recorded b) setup limits ik estopped homed positions c frame)
  latched_plan estopped homed positions c frame e h =
      rw e ((plan_of-Harmless py b setup limits ik homed positions c frame h).harmless)

  arm_command-StaysHalted :
      (frame : Fields F O) (s : ArmState F (W × List Event))
      → s.estopped ≡ true
      → command_in (field_at (codes "cmd") frame) ≢ clear_estop
      → StaysHalted s (arm_command py (recorded b) setup limits ik frame s).1
  unfolding arm_command begin
  arm_command-StaysHalted frame s e h =
      let c = command_in (field_at (codes "cmd") frame) in
      let k = latch-StaysHalted c s e in
      let s' = latch py (recorded b) setup limits ik c s in
      carry_out-StaysHalted _ s s'
        (latched_plan s'.estopped (is_member s'.homed) s'.positions c frame k.latched h) k

  -- No frame among them clears the stop.
  abbrev pub NoClear : List (Fields F O) → Type 0
  NoClear = All (λ frame. command_in (field_at (codes "cmd") frame) ≢ clear_estop)

  serve-StaysHalted :
      (frames : List (Fields F O)) (s : ArmState F (W × List Event))
      → s.estopped ≡ true
      → NoClear frames
      → StaysHalted s (serve py (recorded b) setup limits ik frames s)
  unfolding serve
  serve-StaysHalted [] s e h = record {
    latched = e;
    same_homed = refl;
    sent_on = Adds-refl (Halting py b setup limits ik) _ _ refl;
  }
  serve-StaysHalted (frame ∷ frames) s e (h, hs) =
      let k = arm_command-StaysHalted frame s e h in
      let ks =
        serve-StaysHalted frames (arm_command py (recorded b) setup limits ik frame s).1 k.latched
          hs in
      record {
        latched = ks.latched;
        same_homed = ks.same_homed ∙ k.same_homed;
        sent_on = Adds-trans (Halting py b setup limits ik) k.sent_on ks.sent_on;
      }

  -- While the e-stop is latched, any frames that clients send, as long as none of them is
  -- clear_estop, are handled so: the latch stays, no joint becomes homed, and each frame that the
  -- boards have taken is one of estop, enable or jstop, also where sending failed midway. Neither
  -- absolute moves nor jogs, the gripper, the tool, homing, or Cartesian moves get through.
  pub latched_session :
      (frames : List (Fields F O)) (s : ArmState F (W × List Event))
      → s.estopped ≡ true
      → NoClear frames
      → let s' = serve py (recorded b) setup limits ik frames s in
        (s'.estopped ≡ true)
        × (s'.homed ≡ s.homed)
        × ((es : List Event) × (events s'.manager ≡ events s.manager ++ es)
            × All (Halting py b setup limits ik) es)
  latched_session frames s e h =
      let k = serve-StaysHalted frames s e h in
      (k.latched, k.same_homed, (k.sent_on.added, k.sent_on.written, k.sent_on.kind))
