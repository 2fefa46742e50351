-- ===== src/Agent/ArmControl/Acked.antt =====
-- agent/app.py: what has happened when a client reads that its absolute move was acknowledged.
use pibot.Prelude.{
  ◌≡◌, ◌≢◌, refl, sym, ◌∙◌, ap, ℕ, true, some, Option, List, [], ◌∷◌, ◌++◌, ◌⊎◌, inl, inr, All,
  ◌&&◌, not,
}
use pibot.Prelude.Int.{ℤ}
use pibot.Python.Text.{Text, codes}
use mathlib.Core.Path.{subst}
use pibot.Python.Result.{Result, ok, err, Error}
use pibot.Python.Action.{continue-ok, ◌>>=◌, lift}
use pibot.Python.Dict.{merge}
use pibot.Python.Sequence.{index, get_at}
use pibot.Python.Value.{int, float, Num, real, Runtime, to_float, of_num}
use pibot.Python.Tree.{Fields, field_at}
use pibot.Control.Safety.Bounds.{Within}
use pibot.Arm.Boards.{Boards, Event, recorded}
use pibot.Arm.Gate.{JointLimit, limit, in_range}
use pibot.Arm.Gate.Exact.{IsSaneJoint}
use pibot.Arm.Manager
use pibot.Arm.Manager.{ArmManager, Setup, JointRef, joint_send}
use pibot.Arm.Manager.Routing.{events, Sent, joint_send-routes}
use pibot.Agent.ArmControl.{
  ArmState, Reply, ack, nak, Command, jmove, CartesianPose, command_in, is_member,
}
use pibot.Agent.ArmControl.Handler.{
  ErrorClass, frame_fault, link_fault, uncaught, class_of, keep, Plan, answer, joint_of, plan_of,
  latch, settle, told, begin, carry_out, classed, caught, arm_command,
}
use pibot.Agent.ArmControl.Gated.{Moved, planned_move}

module _ {F O W : Type 0} (py : Runtime F O) (b : Boards F W) (setup : Setup)
    (limits : List (JointLimit F)) where
  -- One frame went to the board of the joint: an absolute move of the joint's channel to an angle
  -- and at a speed that are within the limits of the joint.
  abbrev pub MovedWithin : ℤ → ArmState F (W × List Event) → ArmState F (W × List Event) → Type 0
  MovedWithin joint s s' =
      (lim : JointLimit F) × (limit limits joint ≡ some lim)
      × (x : Num F) × (y : Num F) × (d : F) × (v : F) × Within py lim.min_deg lim.max_deg x
      × Within py (real (py.literal 0 0)) lim.max_dps y
      × (to_float py (of_num {O = O} x) ≡ ok d)
      × (to_float py (of_num {O = O} y) ≡ ok v)
      × (ref : JointRef) × (get_at setup.joints joint ≡ ok ref)
      × (k : ℕ) × (index setup.count ref.board ≡ some k)
      × (e : Event) × (events s'.manager ≡ events s.manager ++ e ∷ [])
      × Sent py b setup (codes "jmove")
          (merge ((codes "id", int ref.channel) ∷ [])
            ((codes "deg", float d) ∷ (codes "dps", float v) ∷ []))
          k e

module _ {F O W : Type 0} (py : Runtime F O) (b : Boards F W) (setup : Setup)
    (limits : List (JointLimit F)) (ik : Option (CartesianPose F → Result (List (ℤ × F)))) where
  classed-ne-ack :
      (k : ErrorClass) (why : Error) → classed py (recorded b) setup limits ik k why ≢ ok ack
  unfolding classed
  classed-ne-ack frame_fault why h = cc
  classed-ne-ack link_fault why h = cc
  classed-ne-ack uncaught why h = cc

  caught-ack :
      (r : Result (Reply F O)) → caught py (recorded b) setup limits ik r ≡ ok ack → r ≡ ok ack
  unfolding caught
  caught-ack (ok reply) h = h
  caught-ack (err why) h = absurd (classed-ne-ack (class_of why) why h)

  told-ack :
      (r : Result (Unit {0}) × ArmManager F (W × List Event)) (s s' : ArmState F (W × List Event))
      → told py (recorded b) setup limits ik keep r s ≡ (ok ack, s')
      → (r ≡ (ok tt, s'.manager)) × (s' ≡ record s { manager = s'.manager })
  unfolding told settle
  told-ack (ok u, m) s s' h =
      let e : record s { manager = m } ≡ s' = ap (λ q. q.1) h in
      (ap (λ q. (ok tt, q.manager)) e, sym e ∙ ap (λ q. record s { manager = q.manager }) e)
  told-ack (err why, m) s s' h = cc

  manager_moved :
      (joint : ℤ) (lim : JointLimit F) (x y : Num F) (s s' : ArmState F (W × List Event))
      → limit limits joint ≡ some lim
      → Within py lim.min_deg lim.max_deg x
      → Within py (real (py.literal 0 0)) lim.max_dps y
      → Manager.jmove py (recorded b) setup joint (of_num x) (of_num y) s.manager
        ≡ (ok tt, s'.manager)
      → MovedWithin py b setup limits joint s s'
  unfolding Manager.jmove
  manager_moved joint lim x y s s' at in_deg in_dps h =
      let sending = λ (d v : F).
        joint_send py (recorded b) setup joint (codes "jmove")
          ((codes "deg", float d) ∷ (codes "dps", float v) ∷ []) in
      let (d, p, h1) =
        continue-ok (λ d. lift (to_float py (of_num y)) >>= λ v. sending d v)
          (to_float py (of_num x)) s.manager h in
      let (v, q, h2) = continue-ok (sending d) (to_float py (of_num y)) s.manager h1 in
      let (ref, found, k, on, e, written, is_sent) =
        joint_send-routes py b setup joint (codes "jmove")
          ((codes "deg", float d) ∷ (codes "dps", float v) ∷ []) s.manager s'.manager h2 in
      (lim, at, x, y, d, v, in_deg, in_dps, p, q, ref, found, k, on, e, written, is_sent)

module _ {F O W : Type 0} (py : Runtime F O) (b : Boards F W) (setup : Setup)
    (limits : List (JointLimit F)) (ik : Option (CartesianPose F → Result (List (ℤ × F))))
    (sane : All (IsSaneJoint py) limits) where
  planned :
      (r : Result (Plan F O (W × List Event))) (s s' : ArmState F (W × List Event))
      → carry_out py (recorded b) setup limits ik r s ≡ (ok ack, s')
      → (p : Plan F O (W × List Event)) × (r ≡ ok p)
        × (carry_out py (recorded b) setup limits ik (ok p) s ≡ (ok ack, s'))
  unfolding carry_out
  planned (ok p) s s' h = (p, refl, h)
  planned (err why) s s' h = cc

  -- The handler of a command, from its beginning to its acknowledgement.
  abbrev Answered :
      Command → Fields F O → ArmState F (W × List Event) → ArmState F (W × List Event) → Type 0
  Answered c frame s s' =
      let (plan, s1) = begin py (recorded b) setup limits ik c frame s in
      let (reply, s2) = carry_out py (recorded b) setup limits ik plan s1 in
      ◌≡◌ {A = Result (Reply F O) × ArmState F (W × List Event)}
        (caught py (recorded b) setup limits ik reply, s2) (ok ack, s')

  -- What an absolute move that was acknowledged has done.
  abbrev pub Acked : Fields F O → ArmState F (W × List Event) → ArmState F (W × List Event) → Type 0
  Acked frame s s' =
      (joint : ℤ) × (joint_of py (recorded b) setup limits ik frame ≡ ok joint)
      × ((in_range limits joint && (not s.estopped && is_member s.homed joint)) ≡ true)
      × MovedWithin py b setup limits joint s s'
      × (s' ≡ record s { manager = s'.manager })

  Moved-Acked :
      (frame : Fields F O) (s s' : ArmState F (W × List Event)) (p : Plan F O (W × List Event))
      → ((why : Text) × (p ≡ answer (nak why)))
        ⊎ ((joint : ℤ) × (joint_of py (recorded b) setup limits ik frame ≡ ok joint)
            × Moved py b setup limits ik s.estopped (is_member s.homed) joint p)
      → carry_out py (recorded b) setup limits ik (ok p) s ≡ (ok ack, s')
      → Acked frame s s'
  unfolding carry_out
  Moved-Acked frame s s' p (inl (why, e)) h = let k = rw e at h in cc
  Moved-Acked frame s s' p (inr (joint, e, (lim, x, y, good, at, in_deg, in_dps, is_call))) h =
      let k = rw is_call at h in
      let (goes, same) =
        told-ack py b setup limits ik
          (Manager.jmove py (recorded b) setup joint (of_num x) (of_num y) s.manager) s s' k in
      (
        joint,
        e,
        good,
        manager_moved py b setup limits ik joint lim x y s s' at in_deg in_dps goes,
        same,
      )

  acked :
      (frame : Fields F O) (s s' : ArmState F (W × List Event))
      → Answered jmove frame s s'
      → Acked frame s s'
  unfolding begin latch
  acked frame s s' h =
      let r =
        plan_of py (recorded b) setup limits ik s.estopped (is_member s.homed) s.positions jmove
          frame in
      let reply = caught-ack py b setup limits ik _ (ap (λ q. q.0) h) in
      let end = ap (λ q. q.1) h in
      let (p, e, k) = planned r s s' (λ i. (reply i, end i)) in
      Moved-Acked frame s s' p
        (planned_move py b setup limits ik sane s.estopped (is_member s.homed) s.positions frame p
          e)
        k

  -- Whoever reads that an absolute move was acknowledged knows that its joint is one of the arm's,
  -- that the e-stop was not latched and that the joint had been homed; that exactly one frame was
  -- sent, to the board and the channel of that joint, with an angle and a speed within the joint's
  -- limits; and that nothing else in the agent's state has changed.
  pub jmove-Acked :
      (frame : Fields F O) (s s' : ArmState F (W × List Event))
      → command_in (field_at (codes "cmd") frame) ≡ jmove
      → arm_command py (recorded b) setup limits ik frame s ≡ (ok ack, s')
      → Acked frame s s'
  unfolding arm_command
  jmove-Acked frame s s' is_move h = acked frame s s' (subst (λ c. Answered c frame s s') is_move h)
