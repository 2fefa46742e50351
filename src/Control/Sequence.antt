-- ===== src/Control/Sequence.antt =====
-- pibot/control/sequence.py: `play`, over the client. `clock` reads the time off the state of the
-- network, which changes while `pause` sleeps; the loop is followed for so many rounds. Reading the
-- file of a sequence is left out.
pub mod Abort
use pibot.Prelude.{
  ℕ, zero, suc, Bool, true, false, ◌&&◌, ◌||◌, Option, none, some, List, [], ◌∷◌, if◌then◌else◌,
}
use pibot.Prelude.Int.{ℤ, pos}
use pibot.Python.Text.{Text, codes, text_eq, one_of}
use pibot.Python.Result.{Result, ok, err, attribute_error, runtime_error}
use pibot.Python.Action.{Action, ◌>>=◌, ◌>>◌, pure, lift, read}
use pibot.Python.Value.{Value, bool, str, Runtime}
use pibot.Python.Tree.{Tree, leaf, dict, Fields, no_fields, field_at}
use pibot.Control.Client.{Web, Call, send_command, estop, on_web}

pub record Step (F O : Type 0) : Type 0 where
  pub at : F
  pub cmd : Text
  pub args : Fields F O

-- cmd == "estop"
unfoldable pub is_estop : Text → Bool
unfolding text_eq
is_estop cmd = text_eq cmd (codes "estop")

-- cmd in _MOTION
unfoldable pub holds : Text → Bool
unfolding one_of
holds cmd = one_of cmd (codes "drive" ∷ codes "motor" ∷ codes "servo" ∷ [])

module _ {F O : Type 0} where
  -- reply.get("rejected") == "estop"
  rejects : Option (Tree F O) → Bool
  unfolding text_eq
  rejects (some (leaf (str s))) = text_eq s (codes "estop")
  rejects _ = false

  -- reply.get("estop") is True
  latches : Option (Tree F O) → Bool
  latches (some (leaf (bool true))) = true
  latches _ = false

  -- `_aborted`
  unfoldable pub aborted : Step F O → Tree F O → Result Bool
  unfolding field_at rejects latches is_estop
  aborted step (dict d) = ok (
      is_estop step.cmd
      || (rejects (field_at (codes "rejected") d) || latches (field_at (codes "estop") d)))
  aborted step t = if is_estop step.cmd then ok true else err attribute_error

  -- steps[-1].at
  unfoldable pub last_at : Step F O → List (Step F O) → F
  last_at step [] = step.at
  last_at step (next ∷ steps) = last_at next steps

module _ {F O W : Type 0} (py : Runtime F O) (web : Web F O W) (clock : W → F)
    (pause : Action W (Unit {0})) where
  -- `_dispatch`
  unfoldable pub dispatch : Step F O → Call web (Tree F O)
  unfolding send_command estop is_estop
  dispatch step =
      if is_estop step.cmd then estop web else send_command web step.cmd (some step.args)

  -- A step sent, and whether its reply aborts the sequence.
  unfoldable pub aborts : Step F O → Call web Bool
  unfolding dispatch aborted
  aborts step = dispatch step >>= λ reply. lift (aborted step reply)

  -- The steps that are left and the one that is held, unless the sequence was aborted.
  abbrev pub Progress : Type 0
  Progress = Option (List (Step F O) × Option (Step F O))

  -- The steps that are due.
  unfoldable pub send_due : F → List (Step F O) → Option (Step F O) → Call web Progress
  unfolding aborts
  send_due now [] current = pure (some ([], current))
  send_due now (step ∷ steps) current =
      let rest = send_due now steps (some step) in
      if py.le step.at now
      then (aborts step >>= λ stopped. if stopped then pure none else rest)
      else pure (some (step ∷ steps, current))

  -- The step that is held is sent again.
  unfoldable pub hold : Option (Step F O) → Call web Bool
  unfolding aborts holds
  hold none = pure false
  hold (some step) = if holds step.cmd then aborts step else pure false

  -- steps are left, or the end has not come
  abbrev pub goes_on : List (Step F O) → F → F → Bool
  goes_on [] now end = if py.le end now then false else true
  goes_on (step ∷ steps) now end = true

  -- A round of the loop, once the steps that are due are sent, and what comes again.
  unfoldable pub end_round :
      F → F → Bool → (List (Step F O) → Option (Step F O) → Call web ℤ) → Progress → Call web ℤ
  unfolding hold send_command
  end_round now end final_stop again none = pure (pos 1)
  end_round now end final_stop again (some (steps, current)) =
      if goes_on steps now end
      then (hold current >>= λ stopped.
          if stopped then pure (pos 1) else (on_web web pause >> again steps current))
      else if final_stop
      then (send_command web (codes "stop") (some no_fields) >> pure (pos 0))
      else pure (pos 0)

  -- The loop of `play`, with the steps that are left and the one that is held.
  unfoldable pub play_rounds : ℕ → F → F → Bool → List (Step F O) → Option (Step F O) → Call web ℤ
  unfolding send_due end_round
  play_rounds zero start end final_stop steps current s = (err runtime_error, s)
  play_rounds (suc rounds) start end final_stop steps current s =
      let now = py.minus (clock s.1) start in
      (send_due now steps current
          >>= end_round now end final_stop (play_rounds rounds start end final_stop))
        s

  -- `play`
  unfoldable pub play : ℕ → Bool → List (Step F O) → Call web ℤ
  unfolding play_rounds last_at
  play rounds final_stop [] s = (ok (pos 0), s)
  play rounds final_stop (step ∷ steps) s =
      play_rounds rounds (clock s.1) (last_at step steps) final_stop (step ∷ steps) none s
