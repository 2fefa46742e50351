-- ===== src/Transport/Responder.antt =====
-- pibot/transport/responder.py: a transport whose peer is the responder of pibot/control/echo.py.
-- Nothing else runs while `recv` sleeps.
use pibot.Prelude.{Bool, false, Option, List, [], ◌∷◌, ◌++◌, if◌then◌else◌}
use pibot.Python.Text.{Text}
use pibot.Python.Utf8.{Bytes}
use pibot.Python.Result.{Result, ok, err, transport_error}
use pibot.Python.Action.{Action}
use pibot.Python.Value.{Runtime}
use pibot.Transport.FrameBuffer.{feed, next_frame}
use pibot.Transport.Loopback.{look_again}
use pibot.Control.Echo.{EchoResponder, new_responder, feed_responder}

pub record ResponderTransport : Type 0 where
  pub is_open : Bool
  pub rx : Bytes
  pub responder : EchoResponder
  pub sent : List Bytes

abbrev pub new_transport : ResponderTransport
new_transport = record { is_open = false; rx = []; responder = new_responder; sent = [] }

-- `open` and `close`
abbrev pub set_open : Bool → ResponderTransport → ResponderTransport
set_open is_open t = record t { is_open = is_open }

-- for out in …: self._rx.feed(out)
abbrev pub feed_each : List Bytes → Bytes → Bytes
feed_each [] rx = rx
feed_each (out ∷ outs) rx = feed_each outs (feed out rx)

abbrev pub taken_back : Result (List Bytes) → Action ResponderTransport (Unit {0})
taken_back (ok outs) t = (ok tt, record t { rx = feed_each outs t.rx })
taken_back (err why) t = (err why, t)

module _ {F O : Type 0} (py : Runtime F O) (encoding : Text) where
  -- The frame goes to the peer, and what it answers into the buffer.
  unfoldable pub exchange : Bytes → Action ResponderTransport (Unit {0})
  unfolding feed_responder
  exchange frame t =
      let (outs, peer) = feed_responder py encoding frame t.responder in
      taken_back outs (record t { sent = t.sent ++ frame ∷ []; responder = peer })

  -- `send`
  unfoldable pub send_responder : Bytes → Action ResponderTransport (Unit {0})
  unfolding exchange
  send_responder frame t = if t.is_open then exchange frame t else (err transport_error, t)

-- `recv`, for timeout > 0 or not
unfoldable pub recv_responder : Bool → Action ResponderTransport (Option Bytes)
unfolding next_frame look_again
recv_responder timed t =
    if t.is_open
    then (let (frame, rest) = look_again timed (next_frame t.rx) in
        (ok frame, record t { rx = rest }))
    else (err transport_error, t)
