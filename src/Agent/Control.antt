-- ===== src/Agent/Control.antt =====
-- `class TransportController` of agent/control.py, the owner of the link to the robot. Calls of
-- `submit` wait for their replies side by side: a call is numbered, and its number stands for its
-- future too. What the calls, the reader and the ticker do between two waits is one step.
pub mod Table
pub mod Replies
pub mod Waits
pub mod Delivery
use pibot.Prelude.{
  ℕ, ◌+◌, Bool, true, false, Option, none, some, List, [], ◌∷◌, ◌++◌, ◌==◌, if◌then◌else◌,
}
use pibot.Prelude.Int.{ℤ, pos, eqb_ℤ}
use pibot.Python.Utf8.{Bytes}
use pibot.Python.Result.{Result, ok, err, Error, decode_error}
use pibot.Python.Value.{Runtime}
use pibot.Protocol.Message.{Message, MessageType, command, telemetry, ack, nak}
use pibot.Protocol.Sequence.{SeqTracker, fresh, next}
use pibot.Protocol.Codec.{decode}
use pibot.Agent.Safety.{
  AgentSafety, Config, Reason, sent, estop, rate, init, submit, tick, trip_estop, resume_estop,
}

-- What has become of a call of `submit`.
pub data Outcome (F O : Type 0) : Type 0 where
  not_begun : Outcome F O
  pending : Outcome F O
  rejected : Reason → Outcome F O
  raised : Error → Outcome F O
  replied : Message F O → Outcome F O
  timed_out : Outcome F O

pub record Call (F O : Type 0) : Type 0 where
  pub seq : ℤ
  pub future : Option (Message F O)
  pub outcome : Outcome F O

-- The dict of the acks is its lookup; `calls` holds what the first `count` calls have come to.
pub record Controller (F O : Type 0) : Type 0 where
  pub safety : AgentSafety F
  pub tracker : SeqTracker
  pub acks : ℤ → Option ℕ
  pub calls : ℕ → Call F O
  pub count : ℕ
  pub reading : Bool
  pub ticking : Bool
  pub telemetry_out : List (Message F O)

-- What happens: a call of `submit` begins, the wait of a call ends, the reader has a frame or
-- its `recv` raises, the ticker has its turn, and the two calls that preempt.
pub data Event (F O : Type 0) : Type 0 where
  begun : Message F O → Event F O
  ended : ℕ → Event F O
  received : Bytes → Event F O
  link_lost : Event F O
  ticked : Event F O
  tripped : Event F O
  resumed : Event F O

-- self._acks[seq] = fut
unfoldable pub register : ℤ → ℕ → (ℤ → Option ℕ) → ℤ → Option ℕ
register q i acks k = if eqb_ℤ q k then some i else acks k

-- self._acks.pop(seq, None)
unfoldable pub forget : ℤ → (ℤ → Option ℕ) → ℤ → Option ℕ
forget q acks k = if eqb_ℤ q k then none else acks k

unfoldable pub is_reply : MessageType → Bool
is_reply ack = true
is_reply nak = true
is_reply _ = false

unfoldable pub is_telemetry : MessageType → Bool
is_telemetry telemetry = true
is_telemetry _ = false

module _ {F O : Type 0} where
  unfoldable pub set_call : ℕ → Call F O → (ℕ → Call F O) → ℕ → Call F O
  set_call i c calls j = if i == j then c else calls j

  abbrev pub blank : Call F O
  blank = record { seq = pos 0; future = none; outcome = not_begun }

  -- Message(msg.type, seq, msg.name, dict(msg.args), msg.reason)
  unfoldable pub outgoing : ℕ → Message F O → Message F O
  outgoing q m = record m { seq = pos q }

  -- What the call of the safety layer leaves of a call that began: it waits, or it has ended.
  unfoldable pub admitted : Result Reason → Outcome F O
  admitted (ok sent) = pending
  admitted (ok why) = rejected why
  admitted (err why) = raised why

  -- The entry of a call that was refused is taken back; that of one whose sending raised is not.
  unfoldable pub kept_acks : Outcome F O → ℤ → (ℤ → Option ℕ) → ℤ → Option ℕ
  unfolding forget
  kept_acks (rejected why) q acks = forget q acks
  kept_acks _ q acks = acks

  -- What `wait_for` comes to, with a future that is done or not.
  unfoldable pub answered : Option (Message F O) → Outcome F O
  answered none = timed_out
  answered (some m) = replied m

  -- if fut is not None and not fut.done(): fut.set_result(msg)
  unfoldable pub resolved : Message F O → Call F O → Option (Message F O) → Call F O
  resolved m c none = record c { future = some m }
  resolved m c (some first) = c

  unfoldable pub resolve_call : Message F O → Call F O → Call F O
  unfolding resolved
  resolve_call m c = resolved m c c.future

  unfoldable pub resolve : Message F O → Option ℕ → (ℕ → Call F O) → ℕ → Call F O
  unfolding set_call resolve_call
  resolve m none calls = calls
  resolve m (some i) calls = set_call i (resolve_call m (calls i)) calls

  -- The end of a wait, in its `finally`; a call that does not wait has no end.
  unfoldable pub end_call : ℕ → Outcome F O → Controller F O → Controller F O
  unfolding set_call forget answered
  end_call i pending s =
      let c = s.calls i in
      record s {
        calls = set_call i (record c { outcome = answered c.future }) s.calls;
        acks = forget c.seq s.acks;
      }
  end_call i _ s = s

  -- What the reader does with a message.
  unfoldable pub routed : Message F O → Controller F O → Controller F O
  unfolding is_reply is_telemetry resolve
  routed m s =
      if is_reply m.type
      then record s { calls = resolve m (s.acks m.seq) s.calls }
      else if is_telemetry m.type
      then record s { telemetry_out = s.telemetry_out ++ m ∷ [] }
      else s

  -- A frame that does not decode is skipped; any other error is the end of the reader.
  unfoldable pub read_message : Result (Message F O) → Controller F O → Controller F O
  unfolding routed
  read_message (ok m) s = routed m s
  read_message (err (decode_error why)) s = s
  read_message (err why) s = record s { reading = false }

unfoldable pub goes_on : {A : Type 0} → Result A → Bool
goes_on (ok a) = true
goes_on (err why) = false

module _ {F O : Type 0} (py : Runtime F O) (config : Config F) where
  unfoldable pub new_controller : Controller F O
  unfolding init fresh
  new_controller = record {
    safety = init py config;
    tracker = fresh;
    acks = λ k. none;
    calls = λ i. blank;
    count = 0;
    reading = true;
    ticking = true;
    telemetry_out = [];
  }

  -- `submit`, up to its wait.
  unfoldable pub begin_call : Message F O → Controller F O → Controller F O
  unfolding next outgoing register admitted kept_acks set_call
  begin_call m s =
      let (tracker', q) = next s.tracker in
      let (answer, safety') = submit py config (outgoing q m) s.safety in
      let outcome' = admitted answer in
      record s {
        safety = safety';
        tracker = tracker';
        acks = kept_acks outcome' (pos q) (register (pos q) s.count s.acks);
        calls =
            set_call s.count (record { seq = pos q; future = none; outcome = outcome' }) s.calls;
        count = s.count + 1;
      }

  unfoldable pub receive_frame : Bytes → Controller F O → Controller F O
  unfolding read_message
  receive_frame frame s = if s.reading then read_message (decode py frame config.encoding) s else s

  -- A turn of the ticker. It catches nothing but its cancellation.
  unfoldable pub tick_once : Controller F O → Controller F O
  unfolding goes_on
  tick_once s =
      let (answer, safety') = tick py config s.safety in
      if s.ticking then record s { safety = safety'; ticking = goes_on answer } else s

  unfoldable pub step : Event F O → Controller F O → Controller F O
  unfolding begin_call end_call receive_frame tick_once
  step (begun m) s = begin_call m s
  step (ended i) s = end_call i (s.calls i).outcome s
  step (received frame) s = receive_frame frame s
  step link_lost s = record s { reading = false }
  step ticked s = tick_once s
  step tripped s = record s { safety = (trip_estop py config s.safety).1 }
  step resumed s = record s { safety = (resume_estop py config s.safety).1 }

  unfoldable pub run : List (Event F O) → Controller F O → Controller F O
  unfolding step
  run [] s = s
  run (e ∷ es) s = run es (step e s)
