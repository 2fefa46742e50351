-- ===== src/Transport/Loopback.antt =====
-- pibot/transport/loopback.py: a transport that gives back what was sent. Nothing else runs while
-- `recv` sleeps.
pub mod Order
use pibot.Prelude.{Bool, true, false, ◌&&◌, Option, none, some, List, [], ◌∷◌, ◌++◌, if◌then◌else◌}
use pibot.Python.Utf8.{Bytes}
use pibot.Python.Result.{Result, ok, err, transport_error}
use pibot.Transport.FrameBuffer.{feed, next_frame}

pub record LoopbackTransport : Type 0 where
  pub is_open : Bool
  pub buf : Bytes

abbrev pub new_loopback : LoopbackTransport
new_loopback = record { is_open = false; buf = [] }

abbrev pub open_loopback : LoopbackTransport → LoopbackTransport
open_loopback t = record { is_open = true; buf = [] }

abbrev pub close_loopback : LoopbackTransport → LoopbackTransport
close_loopback t = record t { is_open = false }

-- `send`, and `feed_raw`
unfoldable pub send_loopback : Bytes → LoopbackTransport → Result LoopbackTransport
send_loopback frame t =
    if t.is_open then ok (record t { buf = feed frame t.buf }) else err transport_error

-- `recv`: the second look into the buffer, after the timeout
unfoldable pub look_again : Bool → Option Bytes × Bytes → Option Bytes × Bytes
unfolding next_frame
look_again timed (none, buf) = if timed then next_frame buf else (none, buf)
look_again timed (some frame, buf) = (some frame, buf)

-- `recv`, for timeout > 0 or not
unfoldable pub recv_loopback : Bool → LoopbackTransport → Result (Option Bytes × LoopbackTransport)
unfolding next_frame look_again
recv_loopback timed t =
    if t.is_open
    then (let (frame, rest) = look_again timed (next_frame t.buf) in
        ok (frame, record t { buf = rest }))
    else err transport_error
