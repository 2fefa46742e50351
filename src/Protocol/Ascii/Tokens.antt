-- ===== src/Protocol/Ascii/Tokens.antt =====
-- Reading back what the frames' fields are printed from.
use pibot.Prelude.{
  ℕ, ◌<◌, ◌≡◌, refl, true, false, none, some, List, [], ◌∷◌, map, arith, All, All-imp,
}
use pibot.Prelude.Int.{ℤ, pos}
use pibot.Python.Text.Laws.{Free, Free-of_All}
use pibot.Python.Number.{text_of_int}
use pibot.Python.Number.RoundTrip.{int_of_ascii-text_of_int, text_of_int_chars}
use pibot.Python.Result.{ok}
use pibot.Python.Value.{Value, null, bool, int, float, str, object, Runtime, int_of_text}
use pibot.Python.Value.Laws.{IsTextual}
use pibot.Protocol.Ascii.Encode.{fmt}
use pibot.Protocol.Ascii.Decode.{parse_token, parse_seq}

-- A number or a bool: what the commands and the telemetry carry.
abbrev pub IsNumber : {F O : Type 0} → Value F O → Type 0
IsNumber (bool b) = Unit
IsNumber (int n) = Unit
IsNumber (float x) = Unit
IsNumber _ = ⊥

-- What the receiver reads: a bool travels as 1 or 0.
unfoldable pub reading : {F O : Type 0} → Value F O → Value F O
reading (bool true) = int (pos 1)
reading (bool false) = int (pos 0)
reading v = v

pub text_of_int_ascii : (z : ℤ) → All (λ c. c < 128) (text_of_int z)
text_of_int_ascii z = All-imp (text_of_int z) (λ c h. ground arith) (text_of_int_chars z)

pub text_of_int_no_comma : (z : ℤ) → Free b',' (text_of_int z)
text_of_int_no_comma z =
    Free-of_All b',' (text_of_int z)
      (All-imp (text_of_int z) (λ c h. ground arith) (text_of_int_chars z))

module _ {F O : Type 0} (py : Runtime F O) (laws : IsTextual py) where
  pub int_of_text-text_of_int : (z : ℤ) → int_of_text py 10 (text_of_int z) ≡ some z
  unfolding int_of_text
  int_of_text-text_of_int z =
      rw (laws.ascii_of_ascii (text_of_int z) (text_of_int_ascii z)) (int_of_ascii-text_of_int z)

  pub int_of_text-repr : (x : F) → int_of_text py 10 (py.repr x) ≡ none
  unfolding int_of_text
  int_of_text-repr x =
      rw (laws.ascii_of_ascii (py.repr x) (laws.repr_ascii x)) (laws.repr_not_int x)

  pub parse_seq-text_of_int : (n : ℕ) → n < 256 → parse_seq py (text_of_int (pos n)) ≡ ok (pos n)
  unfolding parse_seq
  parse_seq-text_of_int n h = ground (arith, int_of_text-text_of_int (pos n))

  pub parse_token-fmt : (v : Value F O) → IsNumber v → parse_token py (fmt py v) ≡ reading v
  unfolding parse_token fmt reading text_of_int
  parse_token-fmt (bool true) h = ground (arith, int_of_text-text_of_int (pos 1))
  parse_token-fmt (bool false) h = ground (arith, int_of_text-text_of_int (pos 0))
  parse_token-fmt (int n) h = ground (arith, int_of_text-text_of_int n)
  parse_token-fmt (float x) h = ground (arith, int_of_text-repr x, laws.float-repr x)
  parse_token-fmt null h = absurd h
  parse_token-fmt (str s) h = absurd h
  parse_token-fmt (object o) h = absurd h

  pub fmt_no_comma : (v : Value F O) → IsNumber v → Free b',' (fmt py v)
  unfolding fmt text_of_int
  fmt_no_comma (bool true) h = text_of_int_no_comma (pos 1)
  fmt_no_comma (bool false) h = text_of_int_no_comma (pos 0)
  fmt_no_comma (int n) h = text_of_int_no_comma n
  fmt_no_comma (float x) h = laws.repr_no_comma x
  fmt_no_comma null h = absurd h
  fmt_no_comma (str s) h = absurd h
  fmt_no_comma (object o) h = absurd h

  pub tokens-fmt :
      (vs : List (Value F O))
      → All IsNumber vs
      → map (parse_token py) (map (fmt py) vs) ≡ map reading vs
  tokens-fmt [] h = refl
  tokens-fmt (v ∷ vs) (h, hs) = λ i. parse_token-fmt v h i ∷ tokens-fmt vs hs i

  pub fmt_all_no_comma :
      (vs : List (Value F O)) → All IsNumber vs → All (Free b',') (map (fmt py) vs)
  fmt_all_no_comma [] h = tt
  fmt_all_no_comma (v ∷ vs) (h, hs) = (fmt_no_comma v h, fmt_all_no_comma vs hs)
