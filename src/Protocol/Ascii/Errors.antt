-- ===== src/Protocol/Ascii/Errors.antt =====
-- What `decode` raises on bytes in the ASCII framing.
use pibot.Prelude.{
  ℕ, ◌≡◌, refl, Bool, true, false, none, some, List, [], ◌∷◌, arith, Option, Option-cases, inl, inr,
}
use pibot.Python.Text.{Text, codes, strip, strip_prefix, split, rpartition}
use pibot.Python.Utf8.{Bytes, decode_utf8}
use pibot.Python.Utf8.Scalars.{
  all_scalar, encode_utf8_total, decode_utf8_scalar, lstrip_scalar, rstrip_scalar,
  rpartition_scalar,
}
use pibot.Python.Result.{Result, ok, err, decode_error, ◌>>=◌}
use pibot.Python.Value.{Runtime}
use pibot.Protocol.Message.{MessageType, schema_for}
use pibot.Protocol.Ascii.Encode.{to_utf8}
use pibot.Protocol.Ascii.Decode.{
  parse_seq, named_args, decode_parts, decode_payload, decode_framed, decode_ack, decode_nak,
  decode_ascii, tail, type_of,
}
use pibot.Protocol.Codec.{decode, line_end, ascii}

-- The call returns, or raises DecodeError.
unfoldable pub hardened {ℓ} : {A : Type ℓ} → Result A → Bool
hardened (ok a) = true
hardened (err (decode_error why)) = true
hardened (err e) = false

hardened-bind :
    {A B : Type 0} (m : Result A) (f : A → Result B)
    → hardened m ≡ true
    → ((a : A) → hardened (f a) ≡ true)
    → hardened (m >>= f) ≡ true
unfolding hardened
hardened-bind (ok a) f h k = k a
hardened-bind (err e) f h k = ground arith

tail_scalar : (s : Text) → all_scalar s ≡ true → all_scalar (tail s) ≡ true
unfolding all_scalar tail
tail_scalar [] h = refl
tail_scalar (c ∷ s) h = ground arith

strip_line_scalar : (s : Text) → all_scalar s ≡ true → all_scalar (strip line_end s) ≡ true
unfolding strip
strip_line_scalar s h = rstrip_scalar line_end _ (lstrip_scalar line_end s h)

module _ {F O : Type 0} (py : Runtime F O) where
  parse_seq-hardened : (s : Text) → hardened (parse_seq py s) ≡ true
  unfolding parse_seq hardened
  parse_seq-hardened s = ground arith

  named_args-hardened :
      (schema : Option (List Text)) (tokens : List Text)
      → hardened (named_args py schema tokens) ≡ true
  unfolding named_args hardened
  named_args-hardened none tokens = refl
  named_args-hardened (some keys) tokens = ground arith

  decode_parts-hardened :
      (t : MessageType) (parts : List Text) → hardened (decode_parts py t parts) ≡ true
  unfolding decode_parts hardened
  decode_parts-hardened t [] = refl
  decode_parts-hardened t (p ∷ []) = refl
  decode_parts-hardened t (p ∷ name ∷ tokens) =
      hardened-bind (parse_seq py p) _ (parse_seq-hardened p) λ n.
        hardened-bind (named_args py (schema_for t name) tokens) _
          (named_args-hardened (schema_for t name) tokens) λ args. refl

  decode_payload-hardened :
      (t : MessageType) (payload crc_hex : Text)
      → all_scalar payload ≡ true
      → hardened (decode_payload py t payload crc_hex) ≡ true
  unfolding decode_payload to_utf8 hardened
  decode_payload-hardened t payload crc_hex h =
      let (bs, e) = encode_utf8_total payload h in
      ground (arith, e, decode_parts-hardened t (split b',' payload))

  decode_framed-hardened :
      (c : ℕ) (s : Text) → all_scalar s ≡ true → hardened (decode_framed py c s) ≡ true
  unfolding decode_framed hardened
  decode_framed-hardened c s h = elim (Option-cases (rpartition b'*' s)) [
    | inl e ↦ ground (arith, e)
    | inr (r, e) ↦ ground (
      arith,
      e,
      decode_payload-hardened (type_of c) (tail r.0) r.1,
      tail_scalar r.0,
      rpartition_scalar b'*' s {a = r.0} {b = r.1} h,
    )
  ]

  decode_ack-hardened : (rest : Text) → hardened (decode_ack py rest) ≡ true
  unfolding decode_ack hardened
  decode_ack-hardened rest = hardened-bind (parse_seq py _) _ (parse_seq-hardened _) λ n. refl

  decode_nak-hardened : (rest : Text) → hardened (decode_nak py rest) ≡ true
  unfolding decode_nak hardened
  decode_nak-hardened rest = hardened-bind (parse_seq py _) _ (parse_seq-hardened _) λ n. refl

  decode_ascii-hardened : (s : Text) → all_scalar s ≡ true → hardened (decode_ascii py s) ≡ true
  unfolding decode_ascii hardened
  decode_ascii-hardened [] h = refl
  decode_ascii-hardened (c ∷ s) h = elim (Option-cases (strip_prefix (codes "ACK ") (c ∷ s))) [
    | inr (rest, e) ↦ ground (arith, e, decode_ack-hardened rest)
    | inl e ↦ elim (Option-cases (strip_prefix (codes "NAK ") (c ∷ s))) [
      | inr (rest, e') ↦ ground (arith, e, e', decode_nak-hardened rest)
      | inl e' ↦ ground (arith, e, e', decode_framed-hardened c (c ∷ s))
    ]
  ]

  -- On any bytes at all, decoding in the ASCII framing returns a message or raises DecodeError;
  -- no other exception escapes.
  pub decode-ascii-hardened : (frame : Bytes) → hardened (decode py frame ascii) ≡ true
  unfolding decode hardened
  decode-ascii-hardened frame = elim (Option-cases (decode_utf8 frame)) [
    | inl e ↦ ground (arith, e)
    | inr (s, e) ↦ ground (
      arith,
      e,
      decode_ascii-hardened (strip line_end s),
      strip_line_scalar s,
      decode_utf8_scalar frame s,
    )
  ]
