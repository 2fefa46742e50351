-- ===== src/Python/Utf8.antt =====
-- `str.encode()` and `bytes.decode("utf-8")`, both strict. `none` is a UnicodeError.
pub mod RoundTrip
pub mod Scalars
use pibot.Prelude.{
  ℕ, zero, suc, ◌+◌, ◌*◌, ◌/◌, ◌%◌, ◌-◌, Bool, true, false, ◌&&◌, ◌||◌, Option, none, some, List,
  [], ◌∷◌, ◌++◌, ltb, leb, if◌then◌else◌,
}
use pibot.Python.Text.{Text}

abbrev pub Bytes : Type 0
Bytes = List ℕ

-- The surrogates have no encoding.
unfoldable pub is_scalar : ℕ → Bool
is_scalar c = ltb c 0xD800 || (leb 0xE000 c && ltb c 0x110000)

unfoldable pub encode_char : ℕ → Bytes
encode_char c =
    if ltb c 0x80
    then c ∷ []
    else if ltb c 0x800
    then (0xC0 + c / 64) ∷ (0x80 + c % 64) ∷ []
    else if ltb c 0x10000
    then (0xE0 + c / 4096) ∷ (0x80 + c / 64 % 64) ∷ (0x80 + c % 64) ∷ []
    else (0xF0 + c / 262144) ∷ (0x80 + c / 4096 % 64) ∷ (0x80 + c / 64 % 64) ∷ (0x80 + c % 64) ∷ []

cons_char : ℕ → Option Bytes → Option Bytes
cons_char c none = none
cons_char c (some bs) = if is_scalar c then some (encode_char c ++ bs) else none

unfoldable pub encode_utf8 : Text → Option Bytes
unfolding cons_char encode_char is_scalar
encode_utf8 [] = some []
encode_utf8 (c ∷ s) = cons_char c (encode_utf8 s)

is_tail : ℕ → Bool
is_tail b = leb 0x80 b && ltb b 0xC0

add_tail : ℕ → ℕ → ℕ
add_tail n b = n * 64 + (b - 0x80)

prepend : ℕ → Option Text → Option Text
prepend c none = none
prepend c (some s) = some (c ∷ s)

-- The bytes of a character: how many follow a first byte, its payload, and the least code point
-- that needs this length. `none`: no character begins with that byte.
unfoldable pub lead : ℕ → Option (ℕ × ℕ × ℕ)
lead b =
    if ltb b 0x80
    then some (0, b, 0)
    else if ltb b 0xC0
    then none
    else if ltb b 0xE0
    then some (1, b - 0xC0, 0x80)
    else if ltb b 0xF0
    then some (2, b - 0xE0, 0x800)
    else if ltb b 0xF8
    then some (3, b - 0xF0, 0x10000)
    else none

-- `decode_from k n least`: k more bytes of a character with the payload n so far are due.
unfoldable pub decode_from : ℕ → ℕ → ℕ → Bytes → Option Text
unfolding lead is_tail add_tail is_scalar prepend
decode_from zero n least [] = some []
decode_from (suc k) n least [] = none
decode_from zero n least (b ∷ bs) = elim (lead b) [
  | none ↦ none
  | some (zero, c, _) ↦ prepend c (decode_from zero 0 0 bs)
  | some (suc k, m, low) ↦ decode_from (suc k) m low bs
]
decode_from (suc zero) n least (b ∷ bs) =
    elim (is_tail b && (leb least (add_tail n b) && is_scalar (add_tail n b))) [
      | true ↦ prepend (add_tail n b) (decode_from zero 0 0 bs)
      | false ↦ none
    ]
decode_from (suc (suc k)) n least (b ∷ bs) = elim (is_tail b) [
  | true ↦ decode_from (suc k) (add_tail n b) least bs
  | false ↦ none
]

unfoldable pub decode_utf8 : Bytes → Option Text
unfolding decode_from
decode_utf8 bs = decode_from 0 0 0 bs
