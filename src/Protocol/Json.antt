-- ===== src/Protocol/Json.antt =====
-- The JSON framing of pibot/protocol/codec.py, over the json module of the interpreter.
use pibot.Prelude.{true, Option, none, some, [], ◌∷◌, ◌++◌}
use pibot.Prelude.Int.{ℤ}
use pibot.Python.Text.{Text, codes}
use pibot.Python.Utf8.{Bytes}
use pibot.Python.Result.{Result, ok, err, json_error, ◌>>=◌}
use pibot.Python.Dict.{Dict, get, without, merge}
use pibot.Python.Value.{Value, bool, int, str, object, Runtime, text_of}
use pibot.Protocol.Message.{
  MessageType, command, telemetry, ack, nak, Message, message, ack_of, nak_of,
}
use pibot.Protocol.Ascii.Encode.{to_utf8, fail}

module _ {F O : Type 0} where
  fields_of : MessageType → Message F O → Dict (Value F O)
  unfolding merge
  fields_of ack m = (codes "seq", int m.seq) ∷ (codes "ack", bool true) ∷ []
  fields_of nak m = (codes "seq", int m.seq) ∷ (codes "nak", str m.reason) ∷ []
  fields_of command m = merge ((codes "seq", int m.seq) ∷ (codes "cmd", str m.name) ∷ []) m.args
  fields_of telemetry m = merge ((codes "seq", int m.seq) ∷ (codes "tlm", str m.name) ∷ []) m.args

module _ {F O : Type 0} (py : Runtime F O) where
  -- `_encode_json`
  unfoldable pub encode_json : Message F O → Result Bytes
  unfolding fields_of to_utf8
  encode_json m = do text ← py.dumps (fields_of m.type m); to_utf8 (text ++ b'\n' ∷ [])

  -- The message of an object with a sequence number, by the first key that it has.
  unfoldable pub message_of : ℤ → Dict (Value F O) → Result (Message F O)
  unfolding get without text_of
  message_of n d = elim (get (codes "cmd") d) [
    | some v ↦ ok (message command n (text_of py v) (without (codes "seq") (codes "cmd") d))
    | none ↦ elim (get (codes "tlm") d) [
      | some v ↦ ok (message telemetry n (text_of py v) (without (codes "seq") (codes "tlm") d))
      | none ↦ elim (get (codes "ack") d) [
        | some v ↦ ok (ack_of n)
        | none ↦ elim (get (codes "nak") d) [
          | some v ↦ ok (nak_of n (text_of py v))
          | none ↦ fail (codes "schema")
        ]
      ]
    ]
  ]

  -- A bool is no sequence number, though it is an int to Python.
  seq_of : Option (Value F O) → Dict (Value F O) → Result (Message F O)
  unfolding message_of
  seq_of none d = fail (codes "schema")
  seq_of (some (int n)) d = message_of n d
  seq_of (some v) d = fail (codes "seq")

  of_value : Value F O → Result (Message F O)
  unfolding seq_of get
  of_value (object o) = elim (py.dict_of_object o) [
    | none ↦ fail (codes "schema")
    | some d ↦ seq_of (get (codes "seq") d) d
  ]
  of_value v = fail (codes "schema")

  -- except json.JSONDecodeError; what else json.loads raises passes through
  loaded : Result (Value F O) → Result (Message F O)
  unfolding of_value
  loaded (ok v) = of_value v
  loaded (err json_error) = fail (codes "json")
  loaded (err e) = err e

  -- `_decode_json`
  unfoldable pub decode_json : Text → Result (Message F O)
  unfolding loaded
  decode_json text = loaded (py.loads text)
