-- ===== src/Agent/Safety.antt =====
-- agent/safety.py: the one place that every command passes before the transport. A method is an
-- action on the state, and what it changed before it raised stays changed. The clock and the link
-- are functions of how often they were called: `clock n` is the n-th reading, and `up n` says
-- whether the n-th frame goes through; otherwise `send` raises TransportError.
pub mod Sends
pub mod Frames
pub mod Events
pub mod Latch
pub mod Deadman
pub mod Rate
use pibot.Prelude.{
  ℕ, ◌+◌, Bool, true, false, ◌&&◌, ◌||◌, not, Option, none, some, List, [], ◌∷◌, ◌++◌,
  if◌then◌else◌,
}
use pibot.Prelude.Int.{ℤ, pos}
use pibot.Python.Text.{Text, codes, one_of}
use pibot.Python.Utf8.{Bytes}
use pibot.Python.Result.{Result, ok, err, Error, transport_error}
use pibot.Python.Value.{Runtime}
use pibot.Protocol.Sequence.{SeqTracker, fresh, next}
use pibot.Protocol.Message.{Message, message, command}
use pibot.Protocol.Codec.{encode}
use pibot.Control.Safety.{
  Limits, EStop, trip, resume, allows, is_motion, Watchdog, new_watchdog, feed, expired,
  clamp_command,
}

pub record Config (F : Type 0) : Type 0 where
  pub limits : Limits F
  pub deadman_ms : F
  pub max_rate_hz : F
  pub encoding : Text
  pub clock : ℕ → F
  pub up : ℕ → Bool

pub record AgentSafety (F : Type 0) : Type 0 where
  pub estop : EStop
  pub wd : Watchdog F
  pub min_interval : F
  pub last_motion_t : Option F
  pub seq : SeqTracker
  pub stopped : Bool
  pub reads : ℕ  -- how often the clock was read
  pub attempts : ℕ  -- how often `send` was called
  pub sent : List Bytes  -- what went through

abbrev pub Action : Type 0 → Type 0 → Type 0
Action F A = AgentSafety F → Result A × AgentSafety F

-- What follows a call: nothing, if it raised.
abbrev pub continue : {F A B : Type 0} → Result A → (A → Action F B) → Action F B
continue (ok a) f s = f a s
continue (err e) f s = (err e, s)

infixl 5 ◌>>=◌ ◌>>◌
abbrev pub ◌>>=◌ : {F A B : Type 0} → Action F A → (A → Action F B) → Action F B
◌>>=◌ m f s = let (r, s') = m s in continue r f s'

abbrev pub ◌>>◌ : {F A B : Type 0} → Action F A → Action F B → Action F B
m >> k = m >>= λ _. k

module _ {F A : Type 0} where
  abbrev pub pure : A → Action F A
  pure a s = (ok a, s)

  abbrev pub lift : Result A → Action F A
  lift r s = (r, s)

  abbrev pub gets : (AgentSafety F → A) → Action F A
  gets f s = (ok (f s), s)

abbrev pub modify : {F : Type 0} → (AgentSafety F → AgentSafety F) → Action F Unit
modify f s = (ok tt, f s)

-- The commands after which the robot stands.
abbrev pub halting : List Text
halting = codes "stop" ∷ codes "estop" ∷ []

-- Why a command was sent or not.
pub data Reason : Type 0 where
  sent estop rate : Reason

module _ {F : Type 0} where
  -- `self._stopped = …`
  abbrev pub set_stopped : Bool → Action F Unit
  set_stopped b = modify λ s. record s { stopped = b }

  -- `self._seq.next()`
  abbrev pub next_seq : Action F ℕ
  next_seq s = let (t, n) = next s.seq in (ok n, record s { seq = t })

  abbrev pub set_estop : (EStop → EStop) → Action F Unit
  set_estop f = modify λ s. record s { estop = f s.estop }

module _ {F O : Type 0} (py : Runtime F O) (config : Config F) where
  -- `self._clock()`
  unfoldable pub read_clock : Action F F
  read_clock s = (ok (config.clock s.reads), record s { reads = s.reads + 1 })

  -- `self._send(frame)`
  unfoldable pub send : Bytes → Action F Unit
  send frame s =
      if config.up s.attempts
      then (ok tt, record s { attempts = s.attempts + 1; sent = s.sent ++ frame ∷ [] })
      else (err transport_error, record s { attempts = s.attempts + 1 })

  -- `self._wd.feed()`
  unfoldable pub feed_watchdog : Action F Unit
  unfolding read_clock
  feed_watchdog = read_clock >>= λ now. modify λ s. record s { wd = feed py s.wd now }

  -- `AgentSafety(…)`, with the default rate of the program as any other
  unfoldable pub init : AgentSafety F
  unfolding new_watchdog fresh
  init = record {
    estop = record { latched = false };
    wd = new_watchdog py config.deadman_ms (config.clock 0);
    min_interval =
        if py.lt (py.literal 0 0) config.max_rate_hz
        then py.divide (py.literal 1 0) config.max_rate_hz
        else py.literal 0 0;
    last_motion_t = none;
    seq = fresh;
    stopped = false;
    reads = 1;
    attempts = 0;
    sent = [];
  }

  unfoldable pub since_motion : Option F → F → Action F Bool
  unfolding read_clock
  since_motion none interval = pure false
  since_motion (some t) interval =
      if py.le interval (py.literal 0 0)
      then pure false
      else read_clock >>= λ now. pure (py.lt (py.minus now t) interval)

  -- `_rate_limited`
  unfoldable pub rate_limited : Action F Bool
  unfolding since_motion
  rate_limited s = since_motion s.last_motion_t s.min_interval s

  unfoldable pub note_motion : Bool → Action F Unit
  unfolding read_clock
  note_motion true = read_clock >>= λ now. modify λ s. record s { last_motion_t = some now }
  note_motion false = pure tt

  -- The part of `submit` behind its guards.
  unfoldable pub forward : Message F O → Action F Reason
  unfolding send feed_watchdog note_motion one_of
  forward m = do
    clamped ← lift (clamp_command py m config.limits)
    frame ← lift (encode py clamped config.encoding)
    send frame
    feed_watchdog
    note_motion (is_motion m)
    set_stopped (one_of clamped.name halting)
    pure sent

  unfoldable pub check_rate : Bool → Action F Bool
  unfolding rate_limited
  check_rate true = rate_limited
  check_rate false = pure false

  -- `submit`
  unfoldable pub submit : Message F O → Action F Reason
  unfolding allows is_motion check_rate forward
  submit m s =
      if allows s.estop m
      then (check_rate (is_motion m) >>= λ limited. if limited then pure rate else forward m) s
      else (ok estop, s)

  -- `_emit_stop`
  unfoldable pub emit_stop : Action F Unit
  unfolding next send feed_watchdog
  emit_stop = do
    n ← next_seq
    frame ← lift (encode py (message command (pos n) (codes "stop") []) config.encoding)
    send frame
    set_stopped true
    feed_watchdog

  -- `trip_estop`
  unfoldable pub trip_estop : Action F Unit
  unfolding emit_stop
  trip_estop = do set_estop trip; emit_stop

  -- `resume`
  unfoldable pub resume_estop : Action F Unit
  resume_estop = set_estop resume

  -- `tick`
  unfoldable pub tick : Action F Unit
  unfolding read_clock emit_stop
  tick = do
    now ← read_clock
    due ← gets λ s. expired py s.wd now && not s.stopped
    if due then emit_stop else pure tt
