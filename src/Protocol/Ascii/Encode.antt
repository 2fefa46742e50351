-- ===== src/Protocol/Ascii/Encode.antt =====
-- `_fmt`, `_schema_for` and `_encode_ascii` of pibot/protocol/codec.py.
use pibot.Prelude.{ℕ, true, false, none, some, List, [], ◌∷◌, ◌++◌, map}
use pibot.Python.Text.{Text, codes, join}
use pibot.Python.Number.{text_of_int, hex2}
use pibot.Python.Utf8.{Bytes, encode_utf8}
use pibot.Python.Result.{
  Result, ok, err, key_error, value_error, decode_error, ◌>>=◌, or_raise, each,
}
use pibot.Python.Dict.{get, values}
use pibot.Python.Value.{Value, bool, Runtime, text_of}
use pibot.Protocol.Crc.{crc8}
use pibot.Protocol.Message.{MessageType, command, ack, nak, Message, schema_for}

-- text.encode()
unfoldable pub to_utf8 : Text → Result Bytes
to_utf8 s = or_raise (encode_utf8 s) value_error

abbrev pub fail {ℓ} : {A : Type ℓ} → Text → Result A
fail why = err (decode_error why)

unfoldable pub marker_of : MessageType → ℕ
marker_of command = b'>'
marker_of _ = b'<'

-- The line with its marker, its checksum in two hexadecimal digits and its end.
unfoldable pub framed : ℕ → Text → ℕ → Text
framed marker payload crc = marker ∷ (payload ++ b'*' ∷ (hex2 crc ++ b'\n' ∷ []))

module _ {F O : Type 0} (py : Runtime F O) where
  -- `_fmt`
  unfoldable pub fmt : Value F O → Text
  unfolding text_of
  fmt (bool true) = codes "1"
  fmt (bool false) = codes "0"
  fmt v = text_of py v

  -- The values in the order of the schema, or as they stand.
  unfoldable pub values_of : Message F O → Result (List (Value F O))
  unfolding schema_for values
  values_of m = elim (schema_for m.type m.name) [
    | none ↦ ok (values m.args)
    | some keys ↦ each (λ k. or_raise (get k m.args) key_error) keys
  ]

  unfoldable pub payload_of : Message F O → List (Value F O) → Text
  unfolding fmt join
  payload_of m vs = join b',' (text_of_int m.seq ∷ m.name ∷ map fmt vs)

  unfoldable pub encode_as : MessageType → Message F O → Result Bytes
  unfolding to_utf8 values_of payload_of framed marker_of
  encode_as ack m = to_utf8 (codes "ACK " ++ (text_of_int m.seq ++ b'\n' ∷ []))
  encode_as nak m = to_utf8 (codes "NAK " ++ (text_of_int m.seq ++ b' ' ∷ (m.reason ++ b'\n' ∷ [])))
  encode_as t m = do
    vs ← values_of m
    let payload = payload_of m vs
    bytes ← to_utf8 payload
    to_utf8 (framed (marker_of t) payload (crc8 bytes))

  -- `_encode_ascii`
  unfoldable pub encode_ascii : Message F O → Result Bytes
  unfolding encode_as
  encode_ascii m = encode_as m.type m
