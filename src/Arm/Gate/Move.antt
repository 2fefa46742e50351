-- ===== src/Arm/Gate/Move.antt =====
-- When the gate accepts a synchronized move, and what it lets through.
use mathlib.Core.Path.{subst}
use mathlib.Core.List.{append-nil, append_assoc}
use pibot.Prelude.{
  ◌≡◌, refl, sym, ◌∙◌, Bool, true, false, ◌&&◌, not, none, some, List, [], ◌∷◌, ◌++◌, arith, All,
  ◌⊎◌, inl, inr, Option-cases,
}
use pibot.Prelude.Int.{ℤ}
use pibot.Python.Text.{Text}
use pibot.Python.Result.{ok}
use pibot.Python.Value.{Value, Num, real, Runtime, to_float}
use pibot.Control.Safety.{bound}
use pibot.Control.Safety.Bounds.{Within, bound-Within}
use pibot.Arm.Gate.{
  JointLimit, GateResult, refuse, limit, in_range, check_joint, guard_target, clamp_targets, move,
  estop_latched,
}
use pibot.Arm.Gate.Exact.{Decided, decided, limit-in_range, IsSaneJoint, limit-IsSaneJoint}

module _ {F O : Type 0} (py : Runtime F O) (limits : List (JointLimit F)) where
  -- A joint that may be moved to an angle.
  abbrev pub ready : (ℤ → Bool) → (ℤ → Bool) → ℤ → Bool
  ready homed current joint = in_range limits joint && (homed joint && current joint)

  abbrev pub all_ready : (ℤ → Bool) → (ℤ → Bool) → List (ℤ × Value F O) → Bool
  all_ready homed current [] = true
  all_ready homed current ((joint, deg) ∷ rest) =
      ready homed current joint && all_ready homed current rest

  -- The same joints in the same order, each at an angle within its limits.
  abbrev pub Clamped : List (ℤ × Value F O) → List (ℤ × Num F) → Type 0
  Clamped [] [] = Unit
  Clamped ((joint, deg) ∷ ts) ((k, x) ∷ xs) =
      (k ≡ joint)
      × ((lim : JointLimit F) × (limit limits joint ≡ some lim)
          × Within py lim.min_deg lim.max_deg x)
      × Clamped ts xs
  Clamped _ _ = ⊥

  -- The angles are numbers.
  abbrev pub Convert : List (ℤ × Value F O) → Type 0
  Convert = All (λ t. (d : F) × (to_float py t.1 ≡ ok d))

  guard_target_exact :
      (joint : ℤ) (homed current : ℤ → Bool)
      → (ready homed current joint ≡ true) × (guard_target py limits joint homed current ≡ none)
        ⊎ (ready homed current joint ≡ false)
          × ((why : Text) × (guard_target py limits joint homed current ≡ some why))
  unfolding guard_target check_joint
  guard_target_exact joint homed current =
      elim (Option-cases (guard_target py limits joint homed current)) [
        | inl e ↦ inl (ground (arith, e), e)
        | inr (why, e) ↦ inr (ground (arith, e), (why, e))
      ]

module _ {F O : Type 0} (py : Runtime F O) (limits : List (JointLimit F))
    (sane : All (IsSaneJoint py) limits) where
  abbrev Outcome :
      (ℤ → Bool) → (ℤ → Bool) → List (ℤ × Num F) → List (ℤ × Value F O) → GateResult F → Type 0
  Outcome homed current before targets r =
      (r.accepted ≡ all_ready py limits homed current targets)
      × (r.accepted ≡ true
          → (xs : List (ℤ × Num F)) × (r.targets ≡ before ++ xs) × Clamped py limits targets xs)

  clamp_targets_exact :
      (homed current : ℤ → Bool) (before : List (ℤ × Num F)) (targets : List (ℤ × Value F O))
      → Convert py limits targets
      → (r : GateResult F) × (clamp_targets py limits homed current before targets ≡ ok r)
        × Outcome homed current before targets r
  unfolding clamp_targets
  clamp_targets_exact homed current before [] c =
      (_, refl, (refl, λ h. ([], sym (append-nil before), tt)))
  clamp_targets_exact homed current before ((joint, deg) ∷ rest) ((d, p), c) =
      elim (guard_target_exact py limits joint homed current) [
        | inr (bad, (why, e)) ↦ (refuse why, rw (e, clamp_targets), (ground (arith, bad), λ h. cc))
        | inl (good, e) ↦
            let (lim, at) = limit-in_range limits joint (ground arith) in
            let x = bound py (real d) lim.min_deg lim.max_deg in
            let inside =
              bound-Within py (real d) _ _ (limit-IsSaneJoint py limits joint sane at).sane_deg in
            let (r, q, (same, out)) =
              clamp_targets_exact homed current (before ++ (joint, x) ∷ []) rest c in
            (
              r,
              ground (arith, e, at, p, q),
              (
                ground (arith, good, same),
                λ h.
                    let (xs, eq, k) = out h in
                    ((joint, x) ∷ xs, eq ∙ append_assoc before _ xs, (refl, (lim, at, inside), k)),
              ),
            )
      ]

  -- A synchronized move to angles that are numbers, in a positive time: the gate accepts it exactly
  -- when the stop is not latched and every target's joint is in range, homed and has telemetry. It
  -- then carries the same joints in the same order, each at an angle within its own limits.
  pub move_exact :
      (targets : List (ℤ × Value F O)) (current : ℤ → Bool) (seconds : F) (estopped : Bool)
      (homed : ℤ → Bool)
      → Convert py limits targets
      → py.le seconds (py.literal 0 0) ≡ false
      → (r : GateResult F) × (move py limits targets current seconds estopped homed ≡ ok r)
        × Decided
            (not estopped && all_ready py limits homed current targets)
            r
            (Clamped py limits targets r.targets)
  unfolding move
  move_exact targets current seconds true homed c h = (refuse estop_latched, refl, inr (refl, refl))
  move_exact targets current seconds false homed c h =
      let (r, e, (same, out)) = clamp_targets_exact homed current [] targets c in
      (
        r,
        ground (arith, h, e),
        decided (all_ready py limits homed current targets) r same (λ k.
            let (xs, eq, inside) = out k in subst (Clamped py limits targets) (sym eq) inside),
      )
