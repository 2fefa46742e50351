-- ===== src/Agent/Safety/Frames.antt =====
-- The frames that each method of the agent puts on the link.
use pibot.Prelude.{ℕ, ◌≡◌, refl, Bool, true, false, ◌&&◌, not, [], ◌∷◌, arith, Bool-cases, inl, inr}
use pibot.Prelude.Int.{pos}
use pibot.Python.Text.{codes, one_of}
use pibot.Python.Utf8.{Bytes}
use pibot.Python.Result.{ok}
use pibot.Python.Value.{Runtime}
use pibot.Protocol.Message.{Message, message, command}
use pibot.Protocol.Codec.{encode}
use pibot.Control.Safety.{trip, expired, allows, is_motion, clamp_command}
use pibot.Agent.Safety.{
  Config, AgentSafety, pure, gets, set_stopped, set_estop, next_seq, halting, rate, sent,
  read_clock, send, feed_watchdog, since_motion, note_motion, forward, check_rate, submit,
  emit_stop, tick, trip_estop,
}
use pibot.Agent.Safety.Sends.{
  Extends, Extends-same, Sends, Sends-pure, Sends-bind, Sends-bind-lift, Sends-if,
}

module _ {F O : Type 0} (py : Runtime F O) (config : Config F) where
  -- A frame of a message that `clamp_command` made of `m`, or of a stop.
  pub data FrameOf (m : Message F O) (frame : Bytes) : Type 0 where
    of :
        (c : Message F O)
        → clamp_command py m config.limits ≡ ok c
        → encode py c config.encoding ≡ ok frame
        → FrameOf m frame

  pub data StopFrame (frame : Bytes) : Type 0 where
    stop :
        (n : ℕ)
        → encode py (message command (pos n) (codes "stop") []) config.encoding ≡ ok frame
        → StopFrame frame

  module _ {Q : Bytes → Type 0} where
    Sends-read_clock : Sends Q (read_clock py config)
    unfolding read_clock
    Sends-read_clock = record { at = λ s. Extends-same Q s _ refl (λ h. h) }

    Sends-feed_watchdog : Sends Q (feed_watchdog py config)
    unfolding feed_watchdog
    Sends-feed_watchdog = record { at = λ s. Extends-same Q s _ refl (λ h. h) }

    Sends-set_stopped : (b : Bool) → Sends {F = F} Q (set_stopped b)
    Sends-set_stopped b = record { at = λ s. Extends-same Q s _ refl (λ h. h) }

    Sends-next_seq : Sends {F = F} Q next_seq
    Sends-next_seq = record { at = λ s. Extends-same Q s _ refl (λ h. h) }

    Sends-send : (frame : Bytes) → Q frame → Sends Q (send py config frame)
    unfolding send
    Sends-send frame q = record { at = λ s. go s (config.up s.attempts) refl }
      where
        go :
            (s : AgentSafety F) (b : Bool)
            → config.up s.attempts ≡ b
            → Extends Q s (send py config frame s).1
        go s true e = record {
          frames = frame ∷ [];
          appended = ground (arith, e);
          all = (q, tt);
          latch = ground (arith, e);
        }
        go s false e = Extends-same Q s _ (ground (arith, e)) (ground (arith, e))

    Sends-note_motion : (b : Bool) → Sends Q (note_motion py config b)
    unfolding note_motion
    Sends-note_motion true = record { at = λ s. Extends-same Q s _ refl (λ h. h) }
    Sends-note_motion false = Sends-pure tt

    Sends-check_rate : (b : Bool) → Sends Q (check_rate py config b)
    unfolding check_rate since_motion
    Sends-check_rate true = record { at = λ s. Extends-same Q s _ (ground arith) (ground arith) }
    Sends-check_rate false = Sends-pure false

    Sends-forward :
        (m : Message F O)
        → ((frame : Bytes) → FrameOf m frame → Q frame)
        → Sends Q (forward py config m)
    unfolding forward
    Sends-forward m k = Sends-bind-lift (clamp_command py m config.limits) _ λ c p.
        Sends-bind-lift (encode py c config.encoding) _ λ frame q.
          Sends-bind (send py config frame) _ (Sends-send frame (k frame (of c p q))) λ _.
            Sends-bind (feed_watchdog py config) _ Sends-feed_watchdog λ _.
              Sends-bind (note_motion py config (is_motion m)) _ (Sends-note_motion (is_motion m))
                λ _.
                  Sends-bind (set_stopped (one_of c.name halting)) _
                    (Sends-set_stopped (one_of c.name halting)) λ _. Sends-pure sent

    -- `submit` sends what it was given, clamped, and that only if the latch allows it.
    pub Sends-submit :
        (m : Message F O) (s : AgentSafety F)
        → ((frame : Bytes) → FrameOf m frame → allows s.estop m ≡ true → Q frame)
        → Extends Q s (submit py config m s).1
    unfolding submit
    Sends-submit m s k = elim (Bool-cases (allows s.estop m)) [
      | inl e ↦
          rw (e, submit)
            ((Sends-bind (check_rate py config (is_motion m)) _ (Sends-check_rate (is_motion m))
                λ limited.
                  Sends-if limited (pure rate) (forward py config m) (Sends-pure rate)
                    (Sends-forward m (λ frame of'. k frame of' e))).at
              s)
      | inr e ↦ rw (e, submit) (Extends-same Q s s refl (λ h. h))
    ]

    pub Sends-emit_stop :
        ((frame : Bytes) → StopFrame frame → Q frame) → Sends Q (emit_stop py config)
    unfolding emit_stop
    Sends-emit_stop k = Sends-bind next_seq _ Sends-next_seq λ n.
        Sends-bind-lift (encode py (message command (pos n) (codes "stop") []) config.encoding) _
          λ frame q.
            Sends-bind (send py config frame) _ (Sends-send frame (k frame (stop n q)))
              λ _. Sends-bind (set_stopped true) _ (Sends-set_stopped true) λ _. Sends-feed_watchdog

    pub Sends-tick : ((frame : Bytes) → StopFrame frame → Q frame) → Sends Q (tick py config)
    unfolding tick
    Sends-tick k = Sends-bind (read_clock py config) _ Sends-read_clock λ now.
        Sends-bind (gets λ s. expired py s.wd now && not s.stopped) _
          (record { at = λ s. Extends-same Q s _ refl (λ h. h) })
          λ due. Sends-if due (emit_stop py config) (pure tt) (Sends-emit_stop k) (Sends-pure tt)

    pub Sends-trip_estop :
        ((frame : Bytes) → StopFrame frame → Q frame) → Sends Q (trip_estop py config)
    unfolding trip_estop
    Sends-trip_estop k =
        Sends-bind (set_estop trip) _ (record { at = λ s. Extends-same Q s _ refl (λ h. refl) })
          λ _. Sends-emit_stop k
