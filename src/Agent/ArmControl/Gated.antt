-- ===== src/Agent/ArmControl/Gated.antt =====
-- agent/app.py: what an absolute move becomes, once the gate has checked it.
use pibot.Prelude.{
  ◌≡◌, refl, sym, Bool, true, false, some, Option, List, [], ◌∷◌, ◌⊎◌, inl, inr, All, ◌&&◌, not,
}
use pibot.Prelude.Int.{ℤ}
use pibot.Python.Text.{Text, codes, text_eq}
use pibot.Python.Result.{Result, ok, >>=-ok, ok-injective}
use pibot.Python.Dict.{Dict, get}
use pibot.Python.Value.{float, Num, real, Runtime, to_float, of_num}
use pibot.Python.Tree.{Fields}
use pibot.Control.Safety.Bounds.{Within}
use pibot.Arm.Boards.{Boards, Event, recorded}
use pibot.Arm.Gate.{JointLimit, GateResult, limit, in_range}
use pibot.Arm.Gate.Exact.{IsSaneJoint, jmove_exact}
use pibot.Arm.Manager
use pibot.Arm.Manager.{ArmManager, Setup, JointRef, joint_send}
use pibot.Agent.ArmControl.{nak, jmove, CartesianPose}
use pibot.Agent.ArmControl.Handler.{
  keep, Plan, answer, call, gated, arg, arg_of, joint_of, jmove_plan, plan_of,
}

module _ {F O W : Type 0} (py : Runtime F O) (b : Boards F W) (setup : Setup)
    (limits : List (JointLimit F)) (ik : Option (CartesianPose F → Result (List (ℤ × F)))) where
  -- What an absolute move is answered with, or turned into.
  abbrev pub Moved : Bool → (ℤ → Bool) → ℤ → Plan F O (W × List Event) → Type 0
  Moved estopped homed joint p =
      (lim : JointLimit F) × (x : Num F) × (y : Num F) × ((in_range limits joint
          && (not estopped && homed joint))
        ≡ true)
      × (limit limits joint ≡ some lim)
      × Within py lim.min_deg lim.max_deg x
      × Within py (real (py.literal 0 0)) lim.max_dps y
      × (p ≡ call (Manager.jmove py (recorded b) setup joint (of_num x) (of_num y)) keep)

module _ {F O W : Type 0} (py : Runtime F O) (b : Boards F W) (setup : Setup)
    (limits : List (JointLimit F)) (ik : Option (CartesianPose F → Result (List (ℤ × F))))
    (sane : All (IsSaneJoint py) limits) where
  gate_passed :
      (res : GateResult F) (rest : Result (Plan F O (W × List Event)))
      {p : Plan F O (W × List Event)}
      → res.accepted ≡ true
      → gated py (recorded b) setup limits ik res rest ≡ ok p
      → rest ≡ ok p
  unfolding gated
  gate_passed res rest e h = rw e at h

  gate_shut :
      (res : GateResult F) (rest : Result (Plan F O (W × List Event)))
      {p : Plan F O (W × List Event)}
      → res.accepted ≡ false
      → gated py (recorded b) setup limits ik res rest ≡ ok p
      → p ≡ answer (nak res.reason)
  unfolding gated
  gate_shut res rest e h = let k = rw e at h in sym (ok-injective k)

  arg_lem :
      (key : Text) (res : GateResult F) (args : Dict (Num F)) (x : Num F)
      → res.args ≡ args
      → get key args ≡ some x
      → arg py (recorded b) setup limits ik key res ≡ ok (of_num x)
  unfolding arg
  arg_lem key res args x e f = rw (e, f)

  the_args : Num F → Num F → Dict (Num F)
  the_args x y = (codes "deg", x) ∷ (codes "dps", y) ∷ []

  deg_arg :
      (res : GateResult F) (x y : Num F)
      → res.args ≡ the_args x y
      → arg py (recorded b) setup limits ik (codes "deg") res ≡ ok (of_num x)
  unfolding the_args get text_eq
  deg_arg res x y e = arg_lem (codes "deg") res (the_args x y) x e refl

  dps_arg :
      (res : GateResult F) (x y : Num F)
      → res.args ≡ the_args x y
      → arg py (recorded b) setup limits ik (codes "dps") res ≡ ok (of_num y)
  unfolding the_args get text_eq
  dps_arg res x y e = arg_lem (codes "dps") res (the_args x y) y e refl

  jmove-Moved :
      (estopped : Bool) (homed : ℤ → Bool) (joint : ℤ) (deg dps : F) (p : Plan F O (W × List Event))
      → jmove_plan py (recorded b) setup limits ik estopped homed joint deg dps ≡ ok p
      → ((why : Text) × (p ≡ answer (nak why))) ⊎ Moved py b setup limits ik estopped homed joint p
  unfolding jmove_plan to_float the_args
  jmove-Moved estopped homed joint deg dps p h =
      let (res, same, decided) =
        jmove_exact py limits sane joint (float deg) (float dps) estopped homed deg dps refl refl in
      let h' = rw same at h in
      elim decided [
        | inr (bad, no_entry) ↦ inl (res.reason, gate_shut res _ no_entry h')
        | inl (good, entry, (lim, at, (x, y, args, in_deg, in_dps))) ↦
            let k =
              rw (deg_arg res x y args, dps_arg res x y args) at (gate_passed res _ entry h') in
            inr (lim, x, y, good, at, in_deg, in_dps, sym (ok-injective k))
      ]

  pub planned_move :
      (estopped : Bool) (homed : ℤ → Bool) (positions : List (ℤ × F)) (frame : Fields F O)
      (p : Plan F O (W × List Event))
      → plan_of py (recorded b) setup limits ik estopped homed positions jmove frame ≡ ok p
      → ((why : Text) × (p ≡ answer (nak why)))
        ⊎ ((joint : ℤ) × (joint_of py (recorded b) setup limits ik frame ≡ ok joint)
            × Moved py b setup limits ik estopped homed joint p)
  unfolding plan_of
  planned_move estopped homed positions frame p h =
      let (joint, e, h1) = >>=-ok (joint_of py (recorded b) setup limits ik frame) h in
      let (d, e1, h2) = >>=-ok (arg_of py (recorded b) setup limits ik (codes "deg") frame) h1 in
      let (v, e2, h3) = >>=-ok (arg_of py (recorded b) setup limits ik (codes "dps") frame) h2 in
      elim (jmove-Moved estopped homed joint d v p h3) [
        | inl refused ↦ inl refused
        | inr moved ↦ inr (joint, e, moved)
      ]
