-- ===== src/Arm/Gate/Exact.antt =====
-- When the gate accepts a frame for one joint, and what it lets through.
use pibot.Prelude.{
  zero, suc, ◌≡◌, refl, Bool, true, false, ◌&&◌, not, Option, none, some, List, [], ◌∷◌, arith, All,
  Option-cases, Bool-cases, ◌⊎◌, inl, inr,
}
use mathlib.Core.Path.{subst}
use pibot.Prelude.Int.{ℤ, pos, negsuc}
use pibot.Python.Text.{Text, codes}
use pibot.Python.Result.{Result, ok}
use pibot.Python.Dict.{Dict}
use pibot.Python.Value.{Value, Num, real, Runtime, to_float, num_neg}
use pibot.Control.Safety.{bound}
use pibot.Control.Safety.Bounds.{AtMost, Within, bound-Within}
use pibot.Arm.Gate.{
  JointLimit, GateResult, refuse, accept, limit, in_range, check_joint, guard_motion, guard_homed,
  guarded, jpos, jmove, jvel, grip, tool, home, move, estop_latched, not_homed,
}

-- A joint in range has a limit.
pub limit-in_range :
    {F : Type 0} (ls : List (JointLimit F)) (joint : ℤ)
    → in_range ls joint ≡ true
    → (lim : JointLimit F) × (limit ls joint ≡ some lim)
unfolding in_range limit
limit-in_range [] (pos n) h = absurd (ground arith)
limit-in_range (l ∷ ls) (pos zero) h = (l, refl)
limit-in_range (l ∷ ls) (pos (suc n)) h = limit-in_range ls (pos n) (ground arith)
limit-in_range ls (negsuc n) h = cc

-- The ranges of a joint are no empty ones.
pub record IsSaneJoint {F O : Type 0} (py : Runtime F O) (lim : JointLimit F) : Type 0 where
  pub sane_deg : AtMost py lim.min_deg lim.max_deg
  pub sane_speed : AtMost py (real (py.literal 0 0)) lim.max_dps
  pub sane_jog : AtMost py (num_neg py lim.max_dps) lim.max_dps

pub limit-IsSaneJoint :
    {F O : Type 0} (py : Runtime F O) (ls : List (JointLimit F)) (joint : ℤ) {lim : JointLimit F}
    → All (IsSaneJoint py) ls
    → limit ls joint ≡ some lim
    → IsSaneJoint py lim
unfolding limit
limit-IsSaneJoint py [] joint s e = cc
limit-IsSaneJoint py (l ∷ ls) (pos zero) {lim} (s, ss) e =
    let same : l ≡ lim = cc in subst (IsSaneJoint py) same s
limit-IsSaneJoint py (l ∷ ls) (pos (suc n)) (s, ss) e = limit-IsSaneJoint py ls (pos n) ss e
limit-IsSaneJoint py (l ∷ ls) (negsuc n) s e = cc

-- What the gate accepts exactly if a test holds, and what its answer is then.
abbrev pub Decided : {F : Type 0} → Bool → GateResult F → Type 0 → Type 0
Decided good r P = (good ≡ true) × (r.accepted ≡ true) × P ⊎ (good ≡ false) × (r.accepted ≡ false)

pub decided :
    {F P : Type 0} (good : Bool) (r : GateResult F)
    → r.accepted ≡ good
    → (r.accepted ≡ true → P)
    → Decided good r P
decided true r e f = inl (refl, e, f e)
decided false r e f = inr (refl, e)

-- The call returns a refusal.
abbrev pub Refuses : {F : Type 0} → Result (GateResult F) → Type 0
Refuses {F} m = (r : GateResult F) × (m ≡ ok r) × (r.accepted ≡ false)

module _ {F O : Type 0} (py : Runtime F O) (limits : List (JointLimit F)) where
  guard_latched : (joint : ℤ) → (why : Text) × (guard_motion py limits joint true ≡ some why)
  unfolding guard_motion
  guard_latched joint = elim (Option-cases (check_joint limits joint)) [
    | inl e ↦ (estop_latched, ground (arith, e))
    | inr (why, e) ↦ (why, ground (arith, e))
  ]

  guard_homed_latched :
      (joint : ℤ) (homed : ℤ → Bool)
      → (why : Text) × (guard_homed py limits joint true homed ≡ some why)
  unfolding guard_homed
  guard_homed_latched joint homed = let (why, e) = guard_latched joint in (why, ground (arith, e))

  guarded-Refuses :
      (o : Option Text) (joint : ℤ) (rest : JointLimit F → Result (GateResult F)) {why : Text}
      → o ≡ some why
      → Refuses (guarded py limits o joint rest)
  unfolding guarded
  guarded-Refuses none joint rest e = cc
  guarded-Refuses (some why) joint rest e = (refuse why, refl, refl)

  -- While the stop is latched, each motion frame is refused, whatever its joint and its values:
  -- absolute moves, jogs, the gripper, the tool, homing and synchronized moves.
  pub latched-Refuses :
      (joint : ℤ) (deg dps : Value F O) (homed current : ℤ → Bool) (targets : List (ℤ × Value F O))
      (seconds : F)
      → Refuses (jpos py limits joint deg true homed)
        × Refuses (jmove py limits joint deg dps true homed)
        × Refuses (jvel py limits joint dps true)
        × Refuses (grip py limits deg true)
        × ((tool py limits true).accepted ≡ false)
        × ((home py limits joint true).accepted ≡ false)
        × Refuses (move py limits targets current seconds true homed)
  unfolding jpos jmove jvel grip tool home move
  latched-Refuses joint deg dps homed current targets seconds =
      let (why, e) = guard_latched joint in
      let (_, e') = guard_homed_latched joint homed in
      (
        guarded-Refuses _ joint _ e',
        guarded-Refuses _ joint _ e',
        guarded-Refuses _ joint _ e,
        (refuse estop_latched, refl, refl),
        refl,
        ground (arith, e),
        (refuse estop_latched, refl, refl),
      )

  guard_homed_exact :
      (joint : ℤ) (estopped : Bool) (homed : ℤ → Bool)
      → ((in_range limits joint && (not estopped && homed joint)) ≡ true)
          × (guard_homed py limits joint estopped homed ≡ none)
        ⊎ ((in_range limits joint && (not estopped && homed joint)) ≡ false)
          × ((why : Text) × (guard_homed py limits joint estopped homed ≡ some why))
  unfolding guard_homed guard_motion check_joint
  guard_homed_exact joint estopped homed = elim (Bool-cases (in_range limits joint)) [
    | inl e ↦ elim (Bool-cases estopped) [
      | inl e' ↦ inr (ground (arith, e, e'), (estop_latched, ground (arith, e, e')))
      | inr e' ↦ elim (Bool-cases (homed joint)) [
        | inl e'' ↦ inl (ground (arith, e, e', e''), ground (arith, e, e', e''))
        | inr e'' ↦ inr (ground (arith, e, e', e''), (not_homed joint, ground (arith, e, e', e'')))
      ]
    ]
    | inr e ↦ elim (Option-cases (check_joint limits joint)) [
      | inl e' ↦ absurd (ground (arith, e, e'))
      | inr (why, e') ↦ inr (ground (arith, e), (why, ground (arith, e')))
    ]
  ]

module _ {F O : Type 0} (py : Runtime F O) (limits : List (JointLimit F))
    (sane : All (IsSaneJoint py) limits) where
  -- What an accepted frame for a joint carries.
  abbrev pub Carries : ℤ → (JointLimit F → Dict (Num F) → Type 0) → GateResult F → Type 0
  Carries joint P r = (lim : JointLimit F) × (limit limits joint ≡ some lim) × P lim r.args

  abbrev pub AngleAndSpeed : JointLimit F → Dict (Num F) → Type 0
  AngleAndSpeed lim args =
      (x : Num F) × (y : Num F) × (args ≡ (codes "deg", x) ∷ (codes "dps", y) ∷ [])
      × Within py lim.min_deg lim.max_deg x
      × Within py (real (py.literal 0 0)) lim.max_dps y

  -- An absolute move at a speed, for any numbers: the gate accepts it exactly when the joint is in
  -- range, the stop is not latched and the joint has been homed. It then carries an angle and a
  -- speed within that joint's limits, and nothing else.
  pub jmove_exact :
      (joint : ℤ) (deg dps : Value F O) (estopped : Bool) (homed : ℤ → Bool) (d v : F)
      → to_float py deg ≡ ok d
      → to_float py dps ≡ ok v
      → (r : GateResult F) × (jmove py limits joint deg dps estopped homed ≡ ok r)
        × Decided
            (in_range limits joint && (not estopped && homed joint))
            r
            (Carries joint AngleAndSpeed r)
  unfolding jmove guarded
  jmove_exact joint deg dps estopped homed d v p q =
      elim (guard_homed_exact py limits joint estopped homed) [
        | inr (bad, (why, e)) ↦ (refuse why, ground (arith, e), inr (bad, refl))
        | inl (good, e) ↦
            let (lim, at) = limit-in_range limits joint (ground arith) in
            let s = limit-IsSaneJoint py limits joint sane at in
            let x = bound py (real d) lim.min_deg lim.max_deg in
            let y = bound py (real v) (real (py.literal 0 0)) lim.max_dps in
            (
              accept ((codes "deg", x) ∷ (codes "dps", y) ∷ []),
              ground (arith, e, at, p, q),
              inl (
                good,
                refl,
                (
                  lim,
                  at,
                  (
                    x,
                    y,
                    refl,
                    bound-Within py (real d) _ _ s.sane_deg,
                    bound-Within py (real v) _ _ s.sane_speed,
                  ),
                ),
              ),
            )
      ]
