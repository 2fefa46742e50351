-- ===== src/Python/Utf8/RoundTrip.antt =====
-- Decoding gives back the text that was encoded.
use pibot.Prelude.{
  ℕ, ◌<◌, ◌≡◌, refl, true, some, [], ◌∷◌, ◌++◌, ltb, arith, Bool-cases, inl, inr, Option-cases, All,
}
use mathlib.Core.Path.{subst}
use pibot.Python.Text.{Text}
use pibot.Python.Utf8.{
  Bytes, is_scalar, encode_char, encode_utf8, decode_from, decode_utf8, prepend,
}

decode-encode_char :
    (c : ℕ) (bs : Bytes)
    → is_scalar c ≡ true
    → decode_from 0 0 0 (encode_char c ++ bs) ≡ prepend c (decode_from 0 0 0 bs)
unfolding is_scalar encode_char decode_from
decode-encode_char c bs h = elim (Bool-cases (ltb c 0x80)) [
  | inl one ↦ ground arith
  | inr more ↦ elim (Bool-cases (ltb c 0x800)) [
    | inl two ↦ ground arith
    | inr more' ↦ elim (Bool-cases (ltb c 0x10000)) [
      | inl three ↦ ground arith
      | inr four ↦ ground arith
    ]
  ]
]

-- Every text that can be encoded is decoded again.
pub decode_utf8-encode_utf8 :
    (s : Text) (bs : Bytes) → encode_utf8 s ≡ some bs → decode_utf8 bs ≡ some s
unfolding encode_utf8 decode_utf8
decode_utf8-encode_utf8 [] bs h = ground arith
decode_utf8-encode_utf8 (c ∷ s) bs h = elim (Option-cases (encode_utf8 s)) [
  | inl e ↦ ground (arith, e)
  | inr (r, e) ↦ ground (arith, e, decode-encode_char c r, decode_utf8-encode_utf8 s r)
]

-- ASCII is encoded as itself.
pub encode_utf8_ascii : (s : Text) → All (λ c. c < 128) s → encode_utf8 s ≡ some s
unfolding encode_utf8
encode_utf8_ascii [] h = refl
encode_utf8_ascii (c ∷ s) (p, h) = ground (arith, encode_utf8_ascii s h)

encode_char_bytes :
    (c : ℕ) (r : Bytes)
    → is_scalar c ≡ true
    → All (λ b. b < 256) r
    → All (λ b. b < 256) (encode_char c ++ r)
unfolding is_scalar encode_char
encode_char_bytes c r h k = elim (Bool-cases (ltb c 0x80)) [
  | inl one ↦ rw one (ground arith)
  | inr more ↦ elim (Bool-cases (ltb c 0x800)) [
    | inl two ↦ rw more (rw two (ground arith))
    | inr more' ↦ elim (Bool-cases (ltb c 0x10000)) [
      | inl three ↦ rw more (rw more' (rw three (ground arith)))
      | inr four ↦ rw more (rw more' (rw four (ground arith)))
    ]
  ]
]

encode_utf8_cons :
    (c : ℕ) (s : Text) {bs r : Bytes}
    → encode_utf8 s ≡ some r
    → encode_utf8 (c ∷ s) ≡ some bs
    → (is_scalar c ≡ true) × (encode_char c ++ r ≡ bs)
unfolding encode_utf8
encode_utf8_cons c s e h = ground (arith, e)

-- An encoding consists of bytes.
pub encode_utf8_bytes : (s : Text) (bs : Bytes) → encode_utf8 s ≡ some bs → All (λ b. b < 256) bs
unfolding encode_utf8
encode_utf8_bytes [] bs h = ground arith
encode_utf8_bytes (c ∷ s) bs h = elim (Option-cases (encode_utf8 s)) [
  | inl e ↦ ground (arith, e)
  | inr (r, e) ↦
      let (p, q) = encode_utf8_cons c s e h in
      subst (All (λ b. b < 256)) q (encode_char_bytes c r p (encode_utf8_bytes s r e))
]
