-- ===== src/Protocol/Codec.antt =====
-- `encode` and `decode` of pibot/protocol/codec.py.
use pibot.Prelude.{ℕ, Bool, ◌||◌, none, some, ◌==◌, if◌then◌else◌}
use pibot.Python.Text.{Text, codes, text_eq, strip}
use pibot.Python.Utf8.{Bytes, decode_utf8}
use pibot.Python.Result.{Result, err, value_error}
use pibot.Python.Value.{Runtime}
use pibot.Protocol.Message.{Message}
use pibot.Protocol.Ascii.Encode.{encode_ascii, fail}
use pibot.Protocol.Ascii.Decode.{decode_ascii}
use pibot.Protocol.Json.{encode_json, decode_json}

abbrev pub ascii : Text
ascii = codes "ascii"

abbrev pub json : Text
json = codes "json"

-- The characters that `decode` strips at both ends.
unfoldable pub line_end : ℕ → Bool
line_end c = c == b'\r' || c == b'\n'

module _ {F O : Type 0} (py : Runtime F O) where
  unfoldable pub encode : Message F O → Text → Result Bytes
  unfolding text_eq encode_json encode_ascii
  encode m encoding =
      if text_eq encoding json
      then encode_json py m
      else if text_eq encoding ascii
      then encode_ascii py m
      else err value_error

  -- decode(frame) for a frame that is a str
  unfoldable pub decode_text : Text → Text → Result (Message F O)
  unfolding text_eq strip line_end decode_json decode_ascii
  decode_text text encoding =
      let line = strip line_end text in
      if text_eq encoding json
      then decode_json py line
      else if text_eq encoding ascii
      then decode_ascii py line
      else err value_error

  -- decode(frame) for bytes
  unfoldable pub decode : Bytes → Text → Result (Message F O)
  unfolding decode_text
  decode frame encoding = elim (decode_utf8 frame) [
    | none ↦ fail (codes "encoding")
    | some text ↦ decode_text text encoding
  ]
