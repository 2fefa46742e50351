-- ===== src/Protocol/Ascii/Stop.antt =====
-- The agent's own stop command has a frame, whatever its number.
use pibot.Prelude.{ℕ, ◌<◌, ◌≡◌, some, [], ◌++◌, arith, All, All-append, All-imp}
use pibot.Prelude.Int.{pos}
use pibot.Python.Text.{Text, codes}
use pibot.Python.Number.{text_of_int, hex2}
use pibot.Python.Number.RoundTrip.{hex2_chars}
use pibot.Python.Utf8.{Bytes, encode_utf8}
use pibot.Python.Utf8.RoundTrip.{encode_utf8_ascii}
use pibot.Python.Result.{ok, ◌>>=◌, each}
use pibot.Python.Value.{Runtime}
use pibot.Protocol.Crc.{crc8}
use pibot.Protocol.Crc.Detection.{crc8-lt}
use pibot.Protocol.Message.{message, command}
use pibot.Protocol.Ascii.Encode.{to_utf8, framed}
use pibot.Protocol.Ascii.Tokens.{text_of_int_ascii}
use pibot.Protocol.Codec.{encode, ascii}

stop_payload : ℕ → Text
stop_payload n = text_of_int (pos n) ++ codes ",stop"

-- The frame of the stop command with a sequence number.
unfoldable pub stop_frame : ℕ → Bytes
unfolding framed stop_payload
stop_frame n = framed b'>' (stop_payload n) (crc8 (stop_payload n))

stop_payload_ascii : (n : ℕ) → All (λ c. c < 128) (stop_payload n)
unfolding stop_payload
stop_payload_ascii n =
    All-append _ (text_of_int (pos n)) (codes ",stop") (text_of_int_ascii (pos n)) (omega arith)

stop_frame_ascii : (n : ℕ) → All (λ c. c < 128) (stop_frame n)
unfolding stop_frame
stop_frame_ascii n =
    let p = stop_payload_ascii n in
    let small : crc8 (stop_payload n) < 256 =
      crc8-lt (stop_payload n) (All-imp (stop_payload n) (λ c h. omega arith) p) in
    (
      omega arith,
      All-append _ (stop_payload n) _ p (
        omega arith,
        All-append _ (hex2 (crc8 (stop_payload n))) _
            (All-imp (hex2 (crc8 (stop_payload n))) (λ c h. h.1)
              (hex2_chars (crc8 (stop_payload n)) small))
            (omega arith, tt),
      ),
    )

frame_of_ascii :
    (p : Text)
    → encode_utf8 p ≡ some p
    → encode_utf8 (framed b'>' p (crc8 p)) ≡ some (framed b'>' p (crc8 p))
    → (to_utf8 p >>= λ bytes. to_utf8 (framed b'>' p (crc8 bytes))) ≡ ok (framed b'>' p (crc8 p))
unfolding to_utf8
frame_of_ascii p e k = rw (e, k)

module _ {F O : Type 0} (py : Runtime F O) where
  pub encode_stop :
      (n : ℕ) → encode py (message command (pos n) (codes "stop") []) ascii ≡ ok (stop_frame n)
  unfolding encode stop_frame stop_payload each
  encode_stop n =
      frame_of_ascii (stop_payload n) (encode_utf8_ascii (stop_payload n) (stop_payload_ascii n))
        (encode_utf8_ascii (stop_frame n) (stop_frame_ascii n))
