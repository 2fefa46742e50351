-- ===== src/Agent/ArmControl/Programs/Waits.antt =====
-- agent/app.py: an abort ends the wait of an arm program, however long the wait is.
use pibot.Prelude.{
  ◌≡◌, refl, ℕ, zero, suc, ◌≤◌, true, false, ◌&&◌, not, inl, inr, Bool-cases, arith, List,
}
use pibot.Python.Result.{ok}
use pibot.Python.Value.{Runtime}
use pibot.Arm.Boards.{Boards}
use pibot.Arm.Gate.{JointLimit}
use pibot.Arm.Manager.{Setup}
use pibot.Agent.ArmControl.Programs.{
  Player, Beside, returned, is_aborted, wait_once, min_of, run_wait_step,
}

module _ {F O W : Type 0} (py : Runtime F O) (boards : Boards F W) (setup : Setup)
    (limits : List (JointLimit F)) (b : Beside F O W) where
  -- The state after so many waits of the runner, in which the others went on.
  unfoldable pub others_after : ℕ → Player F W → Player F W
  unfolding wait_once
  others_after zero p = p
  others_after (suc n) p = others_after n (wait_once py boards setup limits b p).1

  -- While the steps are under way, a test that fails leaves the wait.
  left_at_once :
      (n : ℕ) (remaining : F) (p : Player F W)
      → (py.lt (py.literal 0 1) remaining && not (is_aborted py boards setup limits b p)) ≡ false
      → run_wait_step py boards setup limits b n remaining p ≡ (ok returned, p)
  unfolding run_wait_step
  left_at_once zero remaining p e = rw e refl
  left_at_once (suc n) remaining p e = rw e refl

  -- A wait of any length, infinite or not a number included, that is followed for n rounds, and in
  -- which the program is aborted or the e-stop is latched after k of them at most, returns: it has
  -- slept k times at most, and has changed nothing itself.
  pub abort_ends_wait :
      (k n : ℕ) (seconds : F) (p : Player F W)
      → k ≤ n
      → is_aborted py boards setup limits b (others_after k p) ≡ true
      → (j : ℕ) × (j ≤ k)
        × (run_wait_step py boards setup limits b n seconds p ≡ (ok returned, others_after j p))
  unfolding others_after run_wait_step
  abort_ends_wait zero n seconds p le aborted =
      (0, omega arith, left_at_once n seconds p (ground (arith, aborted)))
  abort_ends_wait (suc k) zero seconds p le aborted = absurd (omega arith)
  abort_ends_wait (suc k) (suc n) seconds p le aborted =
      let test = py.lt (py.literal 0 1) seconds && not (is_aborted py boards setup limits b p) in
      elim (Bool-cases test) [
        | inl e ↦
            let q = (wait_once py boards setup limits b p).1 in
            let rest = py.minus seconds (min_of py (py.literal 5 2) seconds) in
            let (j, at_most, ran) = abort_ends_wait k n rest q (omega arith) aborted in
            (suc j, omega arith, rw (run_wait_step, e) ran)
        | inr e ↦ (0, omega arith, left_at_once (suc n) seconds p e)
      ]
