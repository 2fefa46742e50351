-- ===== src/Protocol/Ascii/Decode.antt =====
-- `_parse_token`, `_parse_seq` and `_decode_ascii` of pibot/protocol/codec.py.
use pibot.Prelude.{
  ℕ, ◌+◌, Bool, false, ◌||◌, Option, none, some, List, [], ◌∷◌, ◌++◌, map, length, ◌==◌, leb,
  if◌then◌else◌,
}
use pibot.Prelude.Int.{ℤ, pos, negsuc, eqb_ℤ}
use pibot.Python.Text.{Text, codes, split, split_once, rpartition, strip, strip_prefix}
use pibot.Python.Number.{text_of_int}
use pibot.Python.Result.{Result, ok, ◌>>=◌}
use pibot.Python.Dict.{Dict, zip}
use pibot.Python.Value.{Value, int, float, str, Runtime, int_of_text, is_space}
use pibot.Protocol.Crc.{crc8}
use pibot.Protocol.Message.{
  MessageType, command, telemetry, Message, message, ack_of, nak_of, schema_for,
}
use pibot.Protocol.Ascii.Encode.{to_utf8, fail}

in_byte : ℤ → Bool
in_byte (pos n) = leb n 255
in_byte (negsuc n) = false

or_nothing : Option Text → Text
or_nothing none = []
or_nothing (some s) = s

unfoldable pub tail : Text → Text
tail [] = []
tail (c ∷ s) = s

-- f"arg{i}", from i on, for each token
unfoldable pub arg_names : ℕ → List Text → List Text
arg_names i [] = []
arg_names i (t ∷ ts) = (codes "arg" ++ text_of_int (pos i)) ∷ arg_names (i + 1) ts

unfoldable pub type_of : ℕ → MessageType
type_of c = if c == b'>' then command else telemetry

module _ {F O : Type 0} (py : Runtime F O) where
  -- `_parse_token`
  unfoldable pub parse_token : Text → Value F O
  unfolding int_of_text
  parse_token s = elim (int_of_text py 10 s) [
    | some n ↦ int n
    | none ↦ elim (py.float_of_text s) [ some x ↦ float x | none ↦ str s ]
  ]

  -- The values of the tokens under the names of the schema, which fixes how many there are.
  unfoldable pub named_args : Option (List Text) → List Text → Result (Dict (Value F O))
  unfolding parse_token arg_names zip
  named_args (some keys) tokens =
      if length tokens == length keys
      then ok (zip keys (map parse_token tokens))
      else fail (codes "arity")
  named_args none tokens = ok (zip (arg_names 0 tokens) (map parse_token tokens))

  -- `_parse_seq`
  unfoldable pub parse_seq : Text → Result ℤ
  unfolding int_of_text in_byte
  parse_seq s = elim (int_of_text py 10 s) [
    | none ↦ fail (codes "seq")
    | some n ↦ if in_byte n then ok n else fail (codes "seq")
  ]

  unfoldable pub decode_parts : MessageType → List Text → Result (Message F O)
  unfolding parse_seq named_args schema_for
  decode_parts t [] = fail (codes "fields")
  decode_parts t (p ∷ []) = fail (codes "fields")
  decode_parts t (p ∷ name ∷ tokens) = do
    n ← parse_seq p
    args ← named_args (schema_for t name) tokens
    ok (message t n name args)

  unfoldable pub decode_payload : MessageType → Text → Text → Result (Message F O)
  unfolding decode_parts int_of_text to_utf8 split
  decode_payload t payload crc_hex = elim (int_of_text py 16 crc_hex) [
    | none ↦ fail (codes "crc")
    | some expected ↦ do
      bytes ← to_utf8 payload
      if eqb_ℤ (pos (crc8 bytes)) expected
          then decode_parts t (split b',' payload)
          else fail (codes "crc")
  ]

  -- The tests on the frame's shape: with no star there is nothing to partition.
  unfoldable pub decode_framed : ℕ → Text → Result (Message F O)
  unfolding decode_payload type_of tail rpartition
  decode_framed c text =
      if c == b'>' || c == b'<'
      then elim (rpartition b'*' text) [
        | none ↦ fail (codes "frame")
        | some (body, crc_hex) ↦ decode_payload (type_of c) (tail body) crc_hex
      ]
      else fail (codes "marker")

  unfoldable pub decode_ack : Text → Result (Message F O)
  unfolding parse_seq strip is_space
  decode_ack rest = do n ← parse_seq (strip (is_space py) rest); ok (ack_of n)

  unfoldable pub decode_nak : Text → Result (Message F O)
  unfolding parse_seq split_once or_nothing
  decode_nak rest =
      let (first, reason) = split_once b' ' rest in
      parse_seq first >>= λ n. ok (nak_of n (or_nothing reason))

  -- `_decode_ascii`
  unfoldable pub decode_ascii : Text → Result (Message F O)
  unfolding decode_framed decode_ack decode_nak
  decode_ascii [] = fail (codes "empty")
  decode_ascii (c ∷ s) = elim (strip_prefix (codes "ACK ") (c ∷ s)) [
    | some rest ↦ decode_ack rest
    | none ↦ elim (strip_prefix (codes "NAK ") (c ∷ s)) [
      | some rest ↦ decode_nak rest
      | none ↦ decode_framed c (c ∷ s)
    ]
  ]
