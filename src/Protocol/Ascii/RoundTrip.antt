-- ===== src/Protocol/Ascii/RoundTrip.antt =====
-- `decode` gives back the message that `encode` framed.
use pibot.Prelude.{
  ℕ, ◌<◌, ◌≡◌, ◌⊎◌, inl, inr, refl, ◌∙◌, none, some, List, [], ◌∷◌, ◌++◌, map, arith, All, All-imp,
  length, length-map, Option, Option-cases,
}
use pibot.Prelude.Int.{pos}
use pibot.Python.Text.{Text, strip, lstrip, rstrip, strip_prefix, split, join}
use pibot.Python.Text.Laws.{Free, Free-of_All, rstrip-append, rpartition-append, split-join}
use pibot.Python.Number.{text_of_int, hex2}
use pibot.Python.Number.RoundTrip.{int_of_ascii-hex2, hex2_chars}
use pibot.Python.Utf8.{Bytes, encode_utf8, decode_utf8}
use pibot.Python.Utf8.RoundTrip.{decode_utf8-encode_utf8, encode_utf8_bytes}
use pibot.Python.Result.{ok, length-each, or_raise, key_error}
use pibot.Python.Dict.{get, zip}
use pibot.Python.Value.{Value, Runtime, int_of_text}
use pibot.Python.Value.Laws.{IsTextual}
use pibot.Protocol.Crc.{crc8}
use pibot.Protocol.Crc.Detection.{crc8-lt}
use pibot.Protocol.Message.{MessageType, command, telemetry, ack, nak, Message, message, schema_for}
use pibot.Protocol.Ascii.Encode.{to_utf8, marker_of, fmt, values_of, payload_of, framed, encode_as}
use pibot.Protocol.Ascii.Decode.{
  arg_names, named_args, type_of, decode_parts, decode_payload, decode_framed, decode_ascii, tail,
}
use pibot.Protocol.Ascii.Tokens.{
  IsNumber, reading, text_of_int_no_comma, parse_seq-text_of_int, tokens-fmt, fmt_all_no_comma,
}
use pibot.Protocol.Codec.{encode, decode, line_end, ascii}

-- A message that is framed with a checksum.
abbrev pub IsFramed : MessageType → Type 0
IsFramed command = Unit
IsFramed telemetry = Unit
IsFramed _ = ⊥

-- The names under which the receiver files the tokens.
unfoldable pub keys_for : Option (List Text) → List Text → List Text
keys_for none tokens = arg_names 0 tokens
keys_for (some keys) tokens = keys

rstrip_crc :
    (a b : ℕ) → 13 < a → 13 < b → rstrip line_end (b'*' ∷ a ∷ b ∷ b'\n' ∷ []) ≡ b'*' ∷ a ∷ b ∷ []
unfolding rstrip line_end
rstrip_crc a b h k = ground arith

lstrip_marker : (c : ℕ) (s : Text) → 13 < c → lstrip line_end (c ∷ s) ≡ c ∷ s
unfolding lstrip line_end
lstrip_marker c s h = ground arith

-- The line end is all that `decode` strips from a frame.
pub strip-framed :
    (marker n : ℕ) (payload : Text)
    → 13 < marker
    → n < 256
    → strip line_end (framed marker payload n) ≡ marker ∷ (payload ++ b'*' ∷ hex2 n)
unfolding strip framed hex2
strip-framed marker n payload h k =
    let (p, (q, _)) = hex2_chars n k in
    rw (lstrip_marker marker (payload ++ b'*' ∷ (hex2 n ++ b'\n' ∷ [])) h) (
      rstrip-append line_end (marker ∷ payload) (b'*' ∷ (hex2 n ++ b'\n' ∷ []))
        (rstrip_crc _ _ (omega arith) (omega arith)))

module _ {F O : Type 0} (py : Runtime F O) where
  pub decode_framed_line :
      (c : ℕ) (payload hex : Text)
      → (c ≡ b'>') ⊎ (c ≡ b'<')
      → Free b'*' hex
      → decode_framed py c (c ∷ (payload ++ b'*' ∷ hex)) ≡ decode_payload py (type_of c) payload hex
  unfolding decode_framed tail
  decode_framed_line c payload hex h free =
      rw (rpartition-append b'*' (c ∷ payload) hex free, decode_framed) (ground arith)

  decode_payload_line :
      (t : MessageType) (payload hex : Text) {bs : Bytes}
      → int_of_text py 16 hex ≡ some (pos (crc8 bs))
      → encode_utf8 payload ≡ some bs
      → decode_payload py t payload hex ≡ decode_parts py t (split b',' payload)
  unfolding decode_payload to_utf8
  decode_payload_line t payload hex h e = ground (arith, h, e)

  -- What `encode` has done when it succeeds.
  encode_parts :
      (t : MessageType) (m : Message F O) (vs : List (Value F O)) (bs : Bytes)
      → IsFramed t
      → values_of py m ≡ ok vs
      → encode_as py t m ≡ ok bs
      → (ps : Bytes) × (encode_utf8 (payload_of py m vs) ≡ some ps)
        × (encode_utf8 (framed (marker_of t) (payload_of py m vs) (crc8 ps)) ≡ some bs)
  unfolding encode_as to_utf8
  encode_parts command m vs bs h e k = elim (Option-cases (encode_utf8 (payload_of py m vs))) [
    | inl q ↦ ground (arith, e, q)
    | inr (ps, q) ↦ (ps, q, ground (arith, e, q))
  ]
  encode_parts telemetry m vs bs h e k = elim (Option-cases (encode_utf8 (payload_of py m vs))) [
    | inl q ↦ ground (arith, e, q)
    | inr (ps, q) ↦ (ps, q, ground (arith, e, q))
  ]
  encode_parts ack m vs bs h e k = absurd h
  encode_parts nak m vs bs h e k = absurd h

  pub decode_ascii_framed :
      (t : MessageType) (s : Text)
      → IsFramed t
      → decode_ascii py (marker_of t ∷ s) ≡ decode_framed py (marker_of t) (marker_of t ∷ s)
  unfolding decode_ascii marker_of strip_prefix
  decode_ascii_framed command s h = refl
  decode_ascii_framed telemetry s h = refl
  decode_ascii_framed ack s h = absurd h
  decode_ascii_framed nak s h = absurd h

  pub marker_facts :
      (t : MessageType)
      → IsFramed t
      → ((marker_of t ≡ b'>') ⊎ (marker_of t ≡ b'<'))
        × (type_of (marker_of t) ≡ t)
        × (13 < marker_of t)
  unfolding marker_of type_of
  marker_facts command h = (inl refl, refl, omega arith)
  marker_facts telemetry h = (inr refl, refl, omega arith)
  marker_facts ack h = absurd h
  marker_facts nak h = absurd h

module _ {F O : Type 0} (py : Runtime F O) (laws : IsTextual py) where
  pub hex_read : (n : ℕ) → n < 256 → int_of_text py 16 (hex2 n) ≡ some (pos n)
  unfolding int_of_text
  hex_read n h =
      rw (laws.ascii_of_ascii (hex2 n) (All-imp (hex2 n) (λ c p. p.1) (hex2_chars n h)))
        (int_of_ascii-hex2 n h)

  -- The line of a framed payload is taken apart into that payload.
  decode_line :
      (t : MessageType) (payload : Text) (ps : Bytes)
      → IsFramed t
      → encode_utf8 payload ≡ some ps
      → decode_ascii py (marker_of t ∷ (payload ++ b'*' ∷ hex2 (crc8 ps)))
        ≡ decode_parts py t (split b',' payload)
  decode_line t payload ps h e =
      let (known, same, _) = marker_facts py t h in
      let small : crc8 ps < 256 = crc8-lt ps (encode_utf8_bytes payload ps e) in
      let hex = hex2 (crc8 ps) in
      decode_ascii_framed py t (payload ++ b'*' ∷ hex) h
      ∙ decode_framed_line py (marker_of t) payload hex known
          (Free-of_All b'*' hex (All-imp hex (λ c p. ground arith) (hex2_chars (crc8 ps) small)))
      ∙ rw same (decode_payload_line py t payload hex (hex_read (crc8 ps) small) e)

  pub decode_utf8_line :
      (bs : Bytes) (s : Text)
      → decode_utf8 bs ≡ some s
      → decode py bs ascii ≡ decode_ascii py (strip line_end s)
  unfolding decode
  decode_utf8_line bs s e = rw (e, decode)

  decode_frame :
      (t : MessageType) (payload : Text) (ps bs : Bytes)
      → IsFramed t
      → encode_utf8 payload ≡ some ps
      → encode_utf8 (framed (marker_of t) payload (crc8 ps)) ≡ some bs
      → decode py bs ascii ≡ decode_parts py t (split b',' payload)
  decode_frame t payload ps bs h e k =
      let (_, _, printable) = marker_facts py t h in
      let small : crc8 ps < 256 = crc8-lt ps (encode_utf8_bytes payload ps e) in
      decode_utf8_line bs _ (decode_utf8-encode_utf8 _ bs k)
      ∙ (rw (strip-framed (marker_of t) (crc8 ps) payload printable small)
          (decode_line t payload ps h e))

  named_args-fmt :
      (schema : Option (List Text)) (vs : List (Value F O))
      → ((keys : List Text) → schema ≡ some keys → length vs ≡ length keys)
      → All IsNumber vs
      → named_args py schema (map (fmt py) vs)
        ≡ ok (zip (keys_for schema (map (fmt py) vs)) (map reading vs))
  unfolding named_args keys_for
  named_args-fmt none vs h k = rw (tokens-fmt py laws vs k)
  named_args-fmt (some keys) vs h k =
      ground (arith, h keys refl, tokens-fmt py laws vs k, length-map vs (fmt py))

  decode_parts-join :
      (t : MessageType) (n : ℕ) (name : Text) (vs : List (Value F O))
      → n < 256
      → Free b',' name
      → ((keys : List Text) → schema_for t name ≡ some keys → length vs ≡ length keys)
      → All IsNumber vs
      → decode_parts py t (split b',' (join b',' (text_of_int (pos n) ∷ name ∷ map (fmt py) vs)))
        ≡ ok (
            message t
              (pos n)
              name
              (zip (keys_for (schema_for t name) (map (fmt py) vs)) (map reading vs)))
  unfolding decode_parts
  decode_parts-join t n name vs small free same k =
      let e : split b',' (join b',' (text_of_int (pos n) ∷ name ∷ map (fmt py) vs))
          ≡ text_of_int (pos n) ∷ name ∷ map (fmt py) vs =
        split-join b',' (text_of_int (pos n)) (name ∷ map (fmt py) vs)
          (text_of_int_no_comma (pos n)) (free, fmt_all_no_comma py laws vs k) in
      rw (e, parse_seq-text_of_int py laws n small, named_args-fmt (schema_for t name) vs same k)

  length-values_of :
      (m : Message F O) (vs : List (Value F O)) (keys : List Text)
      → values_of py m ≡ ok vs
      → schema_for m.type m.name ≡ some keys
      → length vs ≡ length keys
  unfolding values_of
  length-values_of m vs keys h e =
      length-each (λ k. or_raise (get k m.args) key_error) keys vs (ground (arith, h, e))

  -- A command or telemetry message with a sequence number below 256, a name with no comma, and
  -- numbers or bools for its values, is decoded from its frame again: the type, the sequence
  -- number and the name are as sent, and the values stand in the order of the schema under its
  -- names (arg0, arg1, … if the name has no schema), a bool as 1 or 0.
  pub decode-encode-ascii :
      (m : Message F O) (n : ℕ) (vs : List (Value F O)) (bs : Bytes)
      → IsFramed m.type
      → m.seq ≡ pos n
      → n < 256
      → Free b',' m.name
      → values_of py m ≡ ok vs
      → All IsNumber vs
      → encode py m ascii ≡ ok bs
      → decode py bs ascii
        ≡ ok (
            message m.type
              (pos n)
              m.name
              (zip (keys_for (schema_for m.type m.name) (map (fmt py) vs)) (map reading vs)))
  unfolding encode payload_of
  decode-encode-ascii m n vs bs h e small free v k enc =
      let (ps, p, q) = encode_parts py m.type m vs bs h v enc in
      decode_frame m.type (payload_of py m vs) ps bs h p q
      ∙ rw e (
          decode_parts-join m.type n m.name vs small free (λ keys s. length-values_of m vs keys v s)
            k)
