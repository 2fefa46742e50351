-- ===== src/Agent/Safety/Rate.antt =====
-- The rate limit: motion commands that go through are spaced.
use mathlib.Core.Path.{subst}
use pibot.Prelude.{
  ℕ, ◌+◌, ◌≡◌, refl, sym, ◌∙◌, true, false, some, List, [], ◌∷◌, arith, Bool-cases, Option-cases,
  inl, inr,
}
use pibot.Python.Result.{ok}
use pibot.Python.Value.{Runtime}
use pibot.Protocol.Message.{Message}
use pibot.Control.Safety.{is_motion}
use pibot.Agent.Safety.{
  Config, AgentSafety, sent, submit, emit_stop, tick, trip_estop, resume_estop,
}
use pibot.Agent.Safety.Events.{Event, command_in, ticked, tripped, resumed, step, run}

-- Nothing among the events is a motion command.
abbrev pub NoMotion : {F O : Type 0} → List (Event F O) → Type 0
NoMotion [] = Unit
NoMotion (command_in m ∷ es) = (is_motion m ≡ false) × NoMotion es
NoMotion (e ∷ es) = NoMotion es

module _ {F O : Type 0} (py : Runtime F O) (config : Config F) where
  -- What the rate limit is measured by is the same.
  abbrev Same : AgentSafety F → AgentSafety F → Type 0
  Same s t = (t.last_motion_t ≡ s.last_motion_t) × (t.min_interval ≡ s.min_interval)

  emit_stop-Same : (s : AgentSafety F) → Same s (emit_stop py config s).1
  unfolding emit_stop
  emit_stop-Same s = ground arith

  submit-Same :
      (m : Message F O) (s : AgentSafety F) → is_motion m ≡ false → Same s (submit py config m s).1
  unfolding submit
  submit-Same m s h = ground (arith, h)

  tick-Same : (s : AgentSafety F) → Same s (tick py config s).1
  unfolding tick
  tick-Same s = ground arith

  trip-Same : (s : AgentSafety F) → Same s (trip_estop py config s).1
  unfolding trip_estop
  trip-Same s = ground arith

  run-Same : (es : List (Event F O)) (s : AgentSafety F) → NoMotion es → Same s (run py config es s)
  unfolding run step resume_estop
  run-Same [] s h = (refl, refl)
  run-Same (command_in m ∷ es) s (h, hs) =
      let (p, q) = submit-Same m s h in
      let (p', q') = run-Same es (submit py config m s).1 hs in (p' ∙ p, q' ∙ q)
  run-Same (ticked ∷ es) s h =
      let (p, q) = tick-Same s in
      let (p', q') = run-Same es (tick py config s).1 h in (p' ∙ p, q' ∙ q)
  run-Same (tripped ∷ es) s h =
      let (p, q) = trip-Same s in
      let (p', q') = run-Same es (trip_estop py config s).1 h in (p' ∙ p, q' ∙ q)
  run-Same (resumed ∷ es) s h = run-Same es (resume_estop py config s).1 h

  -- The time that `submit` notes is the last one it reads.
  Noted : AgentSafety F → AgentSafety F → ℕ → Type 0
  Noted s t n =
      (t.reads ≡ n + 1)
      × (t.last_motion_t ≡ some (config.clock n))
      × (t.min_interval ≡ s.min_interval)

  submit-Noted :
      (m : Message F O) (s : AgentSafety F)
      → is_motion m ≡ true
      → (submit py config m s).0 ≡ ok sent
      → (n : ℕ) × Noted s (submit py config m s).1 n
  unfolding submit Noted
  submit-Noted m s h q = elim (Option-cases s.last_motion_t) [
    | inl e ↦ (s.reads + 1, ground (arith, h, q, e))
    | inr (t, e) ↦ elim (Bool-cases (py.le s.min_interval (py.literal 0 0))) [
      | inl p ↦ (s.reads + 1, ground (arith, h, q, e, p))
      | inr p ↦ (s.reads + 1 + 1, ground (arith, h, q, e, p))
    ]
  ]

  spaced :
      (m : Message F O) (s : AgentSafety F) (t : F)
      → is_motion m ≡ true
      → s.last_motion_t ≡ some t
      → py.le s.min_interval (py.literal 0 0) ≡ false
      → (submit py config m s).0 ≡ ok sent
      → py.lt (py.minus (config.clock s.reads) t) s.min_interval ≡ false
  unfolding submit
  spaced m s t h e p q = ground arith

  -- When a motion command goes through, then any ticks, trips, resumes and commands that are no
  -- motion come, and then another motion command goes through: the time that the second one reads
  -- first is no less than the minimum interval after the time that the first one read last.
  pub rate_spaced :
      (m m' : Message F O) (es : List (Event F O)) (s : AgentSafety F)
      → is_motion m ≡ true
      → is_motion m' ≡ true
      → NoMotion es
      → py.le s.min_interval (py.literal 0 0) ≡ false
      → (submit py config m s).0 ≡ ok sent
      → (submit py config m' (run py config es (submit py config m s).1)).0 ≡ ok sent
      → (n : ℕ) × ((submit py config m s).1.reads ≡ n + 1)
        × (py.lt
              (py.minus
                (config.clock (run py config es (submit py config m s).1).reads)
                (config.clock n))
              s.min_interval
            ≡ false)
  unfolding Noted
  rate_spaced m m' es s h h' quiet p q q' =
      let (n, (last, noted, interval)) = submit-Noted m s h q in
      let t = (submit py config m s).1 in
      let (same, interval') = run-Same es t quiet in
      let u = run py config es t in
      let e : u.min_interval ≡ s.min_interval = interval' ∙ interval in
      (
        n,
        last,
        subst (λ i. py.lt (py.minus (config.clock u.reads) (config.clock n)) i ≡ false) e
            (spaced m' u (config.clock n) h' (same ∙ noted)
              (subst (λ i. py.le i (py.literal 0 0) ≡ false) (sym e) p) q'),
      )
