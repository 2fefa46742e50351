-- ===== src/Control/Echo.antt =====
-- pibot/control/echo.py: the peer that answers as the firmware does.
pub mod Answers
use pibot.Prelude.{ℕ, zero, suc, Option, none, some, List, [], ◌∷◌, ◌++◌, length, if◌then◌else◌}
use pibot.Prelude.Int.{pos}
use pibot.Python.Text.{Text, codes, text_eq}
use pibot.Python.Utf8.{Bytes}
use pibot.Python.Result.{Result, ok, err, Error, decode_error, ◌>>=◌}
use pibot.Python.Value.{Value, float, Runtime}
use pibot.Protocol.Message.{Message, message, telemetry, ack_of, nak_of, is_command}
use pibot.Protocol.Sequence.{SeqTracker, fresh, next}
use pibot.Protocol.Codec.{encode, decode}
use pibot.Transport.FrameBuffer.{feed, next_frame}

pub record EchoResponder : Type 0 where
  pub buf : Bytes
  pub tlm_seq : SeqTracker

abbrev pub new_responder : EchoResponder
unfolding fresh
new_responder = record { buf = []; tlm_seq = fresh }

module _ {F O : Type 0} (py : Runtime F O) (encoding : Text) where
  -- The telemetry that answers a ping.
  unfoldable pub battery : ℕ → Message F O
  battery n =
      message telemetry (pos n) (codes "battery") ((codes "volts", float (py.literal 124 1)) ∷ [])

  -- The frames that answer a command.
  unfoldable pub respond : Message F O → SeqTracker → Result (List Bytes) × SeqTracker
  unfolding encode text_eq next battery
  respond m seq = elim (encode py (ack_of m.seq) encoding) [
    | err e ↦ (err e, seq)
    | ok reply ↦
        if text_eq m.name (codes "ping")
        then (let (seq', n) = next seq in
            (encode py (battery n) encoding >>= λ volts. ok (reply ∷ volts ∷ []), seq'))
        else (ok (reply ∷ []), seq)
  ]

  unfoldable pub refuse_frame : Error → Result (List Bytes)
  unfolding encode
  refuse_frame (decode_error why) =
      encode py (nak_of (pos 0) why) encoding >>= λ reply. ok (reply ∷ [])
  refuse_frame e = err e

  -- `_handle`
  unfoldable pub handle : Bytes → SeqTracker → Result (List Bytes) × SeqTracker
  unfolding decode respond refuse_frame is_command
  handle frame seq = elim (decode py frame encoding) [
    | err e ↦ (refuse_frame e, seq)
    | ok m ↦ if is_command m then respond m seq else (ok [], seq)
  ]

  -- The loop of `feed`, in n rounds at most: the frames to send back so far, or what was raised.
  unfoldable pub feed_rounds : ℕ → List Bytes → EchoResponder → Result (List Bytes) × EchoResponder
  unfolding next_frame handle
  feed_rounds zero out r = (ok out, r)
  feed_rounds (suc n) out r =
      let (found, rest) = next_frame r.buf in
      elim found [
        | none ↦ (ok out, r)
        | some frame ↦
            let (replies, seq) = handle frame r.tlm_seq in
            let r' : EchoResponder = record { buf = rest; tlm_seq = seq } in
            elim replies [ err e ↦ (err e, r') | ok more ↦ feed_rounds n (out ++ more) r' ]
      ]

  -- `feed`
  unfoldable pub feed_responder : Bytes → EchoResponder → Result (List Bytes) × EchoResponder
  unfolding feed_rounds
  feed_responder data' r =
      let buf = feed data' r.buf in feed_rounds (suc (length buf)) [] (record r { buf = buf })
