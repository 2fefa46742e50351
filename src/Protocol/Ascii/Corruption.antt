-- ===== src/Protocol/Ascii/Corruption.antt =====
-- A frame whose payload was damaged within one byte is refused.
use pibot.Prelude.{ℕ, ◌<◌, ◌≡◌, ◌≢◌, ◌∙◌, ◌∷◌, ◌++◌, arith, All, All-imp, All-append, sym}
use pibot.Python.Text.{Text, codes}
use pibot.Python.Text.Laws.{Free-of_All}
use pibot.Python.Number.{hex2}
use pibot.Python.Number.RoundTrip.{hex2_chars}
use pibot.Python.Utf8.RoundTrip.{decode_utf8-encode_utf8, encode_utf8_ascii}
use pibot.Python.Result.{err, decode_error}
use pibot.Python.Value.{Runtime}
use pibot.Python.Value.Laws.{IsTextual}
use pibot.Protocol.Crc.{crc8}
use pibot.Protocol.Crc.Detection.{crc8-lt, crc8_detects_byte}
use pibot.Protocol.Message.{MessageType}
use pibot.Protocol.Ascii.Encode.{to_utf8, marker_of, framed}
use pibot.Protocol.Ascii.Decode.{decode_payload}
use pibot.Protocol.Ascii.RoundTrip.{
  IsFramed, hex_read, strip-framed, decode_framed_line, decode_ascii_framed, decode_utf8_line,
  marker_facts,
}
use pibot.Protocol.Codec.{decode, ascii}

abbrev pub IsAscii : Text → Type 0
IsAscii = All (λ c. c < 128)

module _ {F O : Type 0} (py : Runtime F O) (laws : IsTextual py) where
  decode_payload_wrong :
      (t : MessageType) (payload : Text) (n : ℕ)
      → n < 256
      → IsAscii payload
      → crc8 payload ≢ n
      → decode_payload py t payload (hex2 n) ≡ err (decode_error (codes "crc"))
  unfolding decode_payload to_utf8
  decode_payload_wrong t payload n small plain wrong =
      ground (arith, hex_read py laws n small, encode_utf8_ascii payload plain)

  framed-IsAscii :
      (t : MessageType) (payload : Text) (n : ℕ)
      → IsFramed t
      → n < 256
      → IsAscii payload
      → IsAscii (framed (marker_of t) payload n)
  unfolding framed
  framed-IsAscii t payload n h small plain =
      let (known, _, _) = marker_facts py t h in
      (
        ground arith,
        All-append _ payload _ plain (
          omega arith,
          All-append _ (hex2 n) _ (All-imp (hex2 n) (λ c p. p.1) (hex2_chars n small))
              (omega arith, tt),
        ),
      )

  -- A frame with another number than the checksum of its payload is refused.
  wrong_crc :
      (t : MessageType) (payload : Text) (n : ℕ)
      → IsFramed t
      → n < 256
      → IsAscii payload
      → crc8 payload ≢ n
      → decode py (framed (marker_of t) payload n) ascii ≡ err (decode_error (codes "crc"))
  wrong_crc t payload n h small plain wrong =
      let (known, same, printable) = marker_facts py t h in
      let frame = framed (marker_of t) payload n in
      decode_utf8_line py laws frame frame (
        decode_utf8-encode_utf8 frame frame
          (encode_utf8_ascii frame (framed-IsAscii t payload n h small plain)))
      ∙ rw (strip-framed (marker_of t) n payload printable small) (
          decode_ascii_framed py t _ h
          ∙ decode_framed_line py (marker_of t) payload (hex2 n) known (
              Free-of_All b'*' (hex2 n)
                (All-imp (hex2 n) (λ c p. ground arith) (hex2_chars n small)))
          ∙ decode_payload_wrong _ payload n small plain wrong)

  -- A command or telemetry frame in ASCII, in whose payload one byte was replaced by another of
  -- ASCII on the way, is refused with the reason crc, whatever the byte and its place.
  pub damaged_byte_refused :
      (t : MessageType) (xs ys : Text) (a b : ℕ)
      → IsFramed t
      → IsAscii xs
      → IsAscii ys
      → a < 128
      → b < 128
      → a ≢ b
      → decode py (framed (marker_of t) (xs ++ b ∷ ys) (crc8 (xs ++ a ∷ ys))) ascii
        ≡ err (decode_error (codes "crc"))
  damaged_byte_refused t xs ys a b h hx hy ha hb ne =
      let wide =
        λ (s : Text) (k : IsAscii s). All-imp {Q = λ c. c < 256} s (λ c p. omega arith) k in
      wrong_crc t (xs ++ b ∷ ys) (crc8 (xs ++ a ∷ ys)) h
        (crc8-lt _ (wide _ (All-append _ xs (a ∷ ys) hx (ha, hy))))
        (All-append _ xs (b ∷ ys) hx (hb, hy))
        (crc8_detects_byte xs ys b a (wide xs hx) (wide ys hy) (omega arith) (omega arith)
          (λ e. ne (sym e)))
