-- ===== src/Control/Sequence/Abort.antt =====
-- pibot/control/sequence.py: how a sequence that was aborted ends.
use mathlib.Core.Path.{subst}
use pibot.Prelude.{
  ◌≡◌, refl, ap, ℕ, zero, suc, Bool, true, false, Bool-cases, inl, inr, Option, none, some, List,
  [], ◌∷◌, if◌then◌else◌,
}
use pibot.Prelude.Int.{ℤ, pos}
use pibot.Python.Text.{codes}
use pibot.Python.Result.{ok}
use pibot.Python.Action.{Action, continue-ok, ◌>>=◌, ◌>>◌, pure, lift}
use pibot.Python.Value.{Runtime}
use pibot.Python.Tree.{Tree, no_fields}
use pibot.Control.Client.{AgentClient, Web, Call, send_command, on_web}
use pibot.Control.Sequence.{
  Step, aborted, dispatch, aborts, send_due, hold, holds, goes_on, end_round, play_rounds, play,
  last_at, Progress,
}

module _ {F O W : Type 0} (py : Runtime F O) (web : Web F O W) (clock : W → F)
    (pause : Action W (Unit {0})) where
  -- The last thing that was done was to send a step, and its reply aborts the sequence.
  abbrev pub EndsAborted : AgentClient × W → Type 0
  EndsAborted s' =
      (step : Step F O) × (s : AgentClient × W) × (reply : Tree F O) × (dispatch py web clock pause
          step s
        ≡ (ok reply, s'))
      × (aborted step reply ≡ ok true)

  aborts-EndsAborted :
      (step : Step F O) (s s' : AgentClient × W)
      → aborts py web clock pause step s ≡ (ok true, s')
      → EndsAborted s'
  unfolding aborts
  aborts-EndsAborted step s s' h =
      let (reply, answered, checked) =
        continue-ok (λ reply. lift (aborted step reply)) (dispatch py web clock pause step s).0
          (dispatch py web clock pause step s).1 h in
      (step, s, reply, cc, ap (λ q. q.0) checked)

  -- A test that ends what follows, and what follows.
  tested :
      {A : Type 0} (test : Call web Bool) (x y : A) (rest : Call web A) (s s' : AgentClient × W)
      → ((t : AgentClient × W) → test s ≡ (ok true, t) → EndsAborted t)
      → ((t : AgentClient × W) → rest t ≡ (ok y, s') → EndsAborted s')
      → (test >>= λ stopped. if stopped then pure x else rest) s ≡ (ok y, s')
      → EndsAborted s'
  tested test x y rest s s' stops goes h =
      let (stopped, answered, after) =
        continue-ok (λ stopped. if stopped then pure x else rest) (test s).0 (test s).1 h in
      chosen stopped answered after
    where
      chosen :
          (stopped : Bool)
          → (test s).0 ≡ ok stopped
          → (if stopped then pure x else rest) (test s).1 ≡ (ok y, s')
          → EndsAborted s'
      chosen true answered after = stops s' cc
      chosen false answered after = goes (test s).1 after

  send_due-EndsAborted :
      (now : F) (steps : List (Step F O)) (current : Option (Step F O)) (s s' : AgentClient × W)
      → send_due py web clock pause now steps current s ≡ (ok none, s')
      → EndsAborted s'
  unfolding send_due
  send_due-EndsAborted now [] current s s' h = cc
  send_due-EndsAborted now (step ∷ steps) current s s' h = elim (Bool-cases (py.le step.at now)) [
    | inr e ↦ let c = rw (send_due, e) at h in cc
    | inl e ↦
        tested (aborts py web clock pause step) none none
          (send_due py web clock pause now steps (some step)) s s'
          (λ t stops. aborts-EndsAborted step s t stops)
          (λ t goes. send_due-EndsAborted now steps (some step) t s' goes) (rw (send_due, e) at h)
  ]

  hold-EndsAborted :
      (current : Option (Step F O)) (s s' : AgentClient × W)
      → hold py web clock pause current s ≡ (ok true, s')
      → EndsAborted s'
  unfolding hold
  hold-EndsAborted none s s' h = cc
  hold-EndsAborted (some step) s s' h = elim (Bool-cases (holds step.cmd)) [
    | inl e ↦ aborts-EndsAborted step s s' (rw (hold, e) at h)
    | inr e ↦ let c = rw (hold, e) at h in cc
  ]

  end_round-EndsAborted :
      (now end : F) (final_stop : Bool) (again : List (Step F O) → Option (Step F O) → Call web ℤ)
      (progress : Progress py web clock pause) (s s' : AgentClient × W)
      → (progress ≡ none → EndsAborted s)
      → ((steps : List (Step F O)) (current : Option (Step F O)) (t : AgentClient × W)
          → again steps current t ≡ (ok (pos 1), s')
          → EndsAborted s')
      → end_round py web clock pause now end final_stop again progress s ≡ (ok (pos 1), s')
      → EndsAborted s'
  unfolding end_round
  end_round-EndsAborted now end final_stop again none s s' stopped goes h =
      subst EndsAborted (ap (λ q. q.1) h) (stopped refl)
  end_round-EndsAborted now end final_stop again (some (steps, current)) s s' stopped goes h =
      elim (Bool-cases (goes_on py web clock pause steps now end)) [
        | inl e ↦
            tested (hold py web clock pause current) (pos 1) (pos 1)
              (on_web web pause >> again steps current) s s'
              (λ t held. hold-EndsAborted current s t held)
              (λ t next.
                let (u, paused, after) =
                  continue-ok (λ _. again steps current) (on_web web pause t).0
                    (on_web web pause t).1 next in
                goes steps current (on_web web pause t).1 after)
              (rw (end_round, e) at h)
        | inr e ↦ not_one final_stop s s' (rw (end_round, e) at h)
      ]
    where
      not_one :
          (final_stop : Bool) (s s' : AgentClient × W)
          → (if final_stop
                then (send_command web (codes "stop") (some no_fields) >> pure (pos 0))
                else pure (pos 0))
              s
            ≡ (ok (pos 1), s')
          → EndsAborted s'
      not_one true s s' h =
          let (reply, answered, after) =
            continue-ok (λ _. pure (pos 0)) (send_command web (codes "stop") (some no_fields) s).0
              (send_command web (codes "stop") (some no_fields) s).1 h in
          cc
      not_one false s s' h = cc

  play_rounds-EndsAborted :
      (rounds : ℕ) (start end : F) (final_stop : Bool) (steps : List (Step F O))
      (current : Option (Step F O)) (s s' : AgentClient × W)
      → play_rounds py web clock pause rounds start end final_stop steps current s
        ≡ (ok (pos 1), s')
      → EndsAborted s'
  unfolding play_rounds
  play_rounds-EndsAborted zero start end final_stop steps current s s' h = cc
  play_rounds-EndsAborted (suc rounds) start end final_stop steps current s s' h =
      let now = py.minus (clock s.1) start in
      let due = send_due py web clock pause now steps current s in
      let (progress, answered, after) =
        continue-ok
          (end_round py web clock pause now end final_stop
            (play_rounds py web clock pause rounds start end final_stop))
          due.0 due.1 h in
      end_round-EndsAborted now end final_stop
        (play_rounds py web clock pause rounds start end final_stop) progress due.1 s'
        (λ none_left. send_due-EndsAborted now steps current s due.1 cc)
        (λ steps' current' t next.
          play_rounds-EndsAborted rounds start end final_stop steps' current' t s' next)
        after

  -- When `play` returns 1, the last thing that it did was to send a step whose reply aborts the
  -- sequence; nothing is sent after it.
  pub play-EndsAborted :
      (rounds : ℕ) (final_stop : Bool) (steps : List (Step F O)) (s s' : AgentClient × W)
      → play py web clock pause rounds final_stop steps s ≡ (ok (pos 1), s')
      → EndsAborted s'
  unfolding play
  play-EndsAborted rounds final_stop [] s s' h = cc
  play-EndsAborted rounds final_stop (step ∷ steps) s s' h =
      play_rounds-EndsAborted rounds (clock s.1) (last_at step steps) final_stop (step ∷ steps) none
        s s' h
