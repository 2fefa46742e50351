-- ===== src/Agent/Safety/Deadman.antt =====
-- The deadman timer: when the commands stop coming, the robot is told to stop, once.
use mathlib.Core.Path.{subst}
use native.Mathlib.Nat.{add-zero}
use pibot.Prelude.{
  ℕ, zero, suc, ◌+◌, ◌%◌, ◌<◌, ◌≡◌, refl, sym, ap, true, false, List, [], ◌∷◌, ◌++◌, arith,
}
use pibot.Python.Result.{ok, err, transport_error}
use pibot.Python.Value.{Runtime}
use pibot.Protocol.Sequence.{next}
use pibot.Protocol.Codec.{ascii}
use pibot.Protocol.Ascii.Stop.{stop_frame, encode_stop}
use pibot.Control.Safety.{expired, feed}
use pibot.Agent.Safety.{Config, AgentSafety, read_clock, send, feed_watchdog, emit_stop, tick}
use pibot.Agent.Safety.Events.{Event, ticked, step, run}

-- n ticks of the agent's loop, with nothing between.
unfoldable pub ticks : {F O : Type 0} → ℕ → List (Event F O)
ticks zero = []
ticks (suc n) = ticked ∷ ticks n

shift_suc : (a b : ℕ) → a + suc b ≡ a + 1 + b
shift_suc a b = omega arith

module _ {F O : Type 0} (py : Runtime F O) (config : Config F)
    (plain : config.encoding ≡ ascii) where
  -- The state that a due tick leaves when the link is down.
  abbrev after_failure : AgentSafety F → AgentSafety F
  after_failure s = record s {
    reads = s.reads + 1;
    attempts = s.attempts + 1;
    seq = (next s.seq).0;
  }

  -- The state that a due tick leaves when the stop goes through.
  abbrev after_stop : AgentSafety F → AgentSafety F
  after_stop s = record s {
    reads = s.reads + 1 + 1;
    attempts = s.attempts + 1;
    seq = (next s.seq).0;
    sent = s.sent ++ stop_frame s.seq.next_seq ∷ [];
    stopped = true;
    wd = feed py s.wd (config.clock (s.reads + 1));
  }

  tick_quiet :
      (s : AgentSafety F)
      → s.stopped ≡ true
      → (tick py config s).1 ≡ record s { reads = s.reads + 1 }
  unfolding tick read_clock
  tick_quiet s h = ground (arith, h)

  -- A due tick on a link that is down: the stop is still due.
  tick_down :
      (s : AgentSafety F)
      → s.stopped ≡ false
      → expired py s.wd (config.clock s.reads) ≡ true
      → config.up s.attempts ≡ false
      → tick py config s ≡ (err transport_error, after_failure s)
  unfolding tick read_clock emit_stop send
  tick_down s h e d = ground (arith, h, e, d, plain, encode_stop py s.seq.next_seq)

  tick_up :
      (s : AgentSafety F)
      → s.stopped ≡ false
      → expired py s.wd (config.clock s.reads) ≡ true
      → config.up s.attempts ≡ true
      → tick py config s ≡ (ok tt, after_stop s)
  unfolding tick read_clock emit_stop send feed_watchdog
  tick_up s h e d = ground (arith, h, e, d, plain, encode_stop py s.seq.next_seq)

  sent_ticks_quiet :
      (n : ℕ) (s : AgentSafety F)
      → s.stopped ≡ true
      → ((run py config (ticks n) s).sent ≡ s.sent) × ((run py config (ticks n) s).stopped ≡ true)
  unfolding run step ticks
  sent_ticks_quiet zero s h = (refl, h)
  sent_ticks_quiet (suc n) s h =
      subst
        (λ t.
          ((run py config (ticks n) t).sent ≡ s.sent)
          × ((run py config (ticks n) t).stopped ≡ true))
        (sym (tick_quiet s h)) (sent_ticks_quiet n (record s { reads = s.reads + 1 }) h)

  -- What is reached from `t`, if one tick leads there from `s`.
  abbrev Stopped : ℕ → ℕ → AgentSafety F → ℕ → AgentSafety F → Type 0
  Stopped n k s number t =
      ((run py config (ticks n) (run py config (ticks k) t)).sent
        ≡ s.sent ++ stop_frame number ∷ [])
      × ((run py config (ticks n) (run py config (ticks k) t)).stopped ≡ true)

  -- With no command after the state s, the deadman window past at every tick, and the link down
  -- for the first k ticks and up at the next: exactly one stop command goes through, with the next
  -- sequence number at that tick, the agent knows that the robot was stopped, and n more ticks
  -- send nothing.
  pub deadman_stops :
      (k n : ℕ) (s : AgentSafety F)
      → s.stopped ≡ false
      → s.seq.next_seq < 256
      → ((i : ℕ) → i < suc k → expired py s.wd (config.clock (s.reads + i)) ≡ true)
      → ((i : ℕ) → i < k → config.up (s.attempts + i) ≡ false)
      → config.up (s.attempts + k) ≡ true
      → ((run py config (ticks n) (run py config (ticks (suc k)) s)).sent
          ≡ s.sent ++ stop_frame ((s.seq.next_seq + k) % 256) ∷ [])
        × ((run py config (ticks n) (run py config (ticks (suc k)) s)).stopped ≡ true)
  unfolding run step ticks next
  deadman_stops zero n s h small e d u =
      let due : expired py s.wd (config.clock s.reads) ≡ true =
        subst (λ r. expired py s.wd (config.clock r) ≡ true) (add-zero s.reads)
          (e 0 (omega arith)) in
      let open' : config.up s.attempts ≡ true =
        subst (λ r. config.up r ≡ true) (add-zero s.attempts) u in
      let number : (s.seq.next_seq + 0) % 256 ≡ s.seq.next_seq = omega arith in
      rw number (
        subst (Stopped n 0 s s.seq.next_seq) (sym (ap (λ p. p.1) (tick_up s h due open')))
          (sent_ticks_quiet n (after_stop s) refl))
  deadman_stops (suc k) n s h small e d u =
      let due : expired py s.wd (config.clock s.reads) ≡ true =
        subst (λ r. expired py s.wd (config.clock r) ≡ true) (add-zero s.reads)
          (e 0 (omega arith)) in
      let shut : config.up s.attempts ≡ false =
        subst (λ r. config.up r ≡ false) (add-zero s.attempts) (d 0 (omega arith)) in
      let number : ((s.seq.next_seq + 1) % 256 + k) % 256 ≡ (s.seq.next_seq + suc k) % 256 =
        omega arith in
      rw (← number) (
        subst (Stopped n (suc k) s (((s.seq.next_seq + 1) % 256 + k) % 256))
          (sym (ap (λ p. p.1) (tick_down s h due shut)))
          (deadman_stops k n (after_failure s) h (omega arith)
            (λ i lt.
              subst (λ r. expired py s.wd (config.clock r) ≡ true) (shift_suc s.reads i)
                (e (suc i) (omega arith)))
            (λ i lt.
              subst (λ r. config.up r ≡ false) (shift_suc s.attempts i) (d (suc i) (omega arith)))
            (subst (λ r. config.up r ≡ true) (shift_suc s.attempts k) u)))
