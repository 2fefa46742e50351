-- ===== src/Python/Number.antt =====
-- `int(text, base)` and `str(n)` of CPython, over ASCII text.
pub mod RoundTrip
use pibot.Prelude.{
  ℕ, zero, suc, ◌+◌, ◌-◌, ◌*◌, ◌/◌, ◌%◌, Bool, true, false, ◌&&◌, ◌||◌, Option, none, some, [], ◌∷◌,
  ◌==◌, ltb, leb, if◌then◌else◌,
}
use pibot.Prelude.Int.{ℤ, pos, negsuc, neg}
use pibot.Python.Text.{Text, lstrip}

-- What `int` skips at both ends.
py_space : ℕ → Bool
py_space c = (leb 9 c && leb c 13) || c == 32

-- The value of a character as a digit.
digit_value : ℕ → ℕ
digit_value c =
    if leb b'0' c && leb c b'9'
    then c - b'0'
    else if leb b'a' c && leb c b'z'
    then c - b'a' + 10
    else if leb b'A' c && leb c b'Z'
    then c - b'A' + 10
    else 37

unfoldable pub digit_of : ℕ → ℕ → Option ℕ
unfolding digit_value
digit_of base c = if ltb (digit_value c) base then some (digit_value c) else none

-- The digits at the head of a text, single underscores between them; `seen` says that the
-- character before was a digit.
unfoldable pub scan : ℕ → ℕ → Bool → Text → Option (ℕ × Text)
unfolding digit_of
scan base n seen [] = if seen then some (n, []) else none
scan base n seen (c ∷ s) = elim (digit_of base c) [
  | some d ↦ scan base (n * base + d) true s
  | none ↦ elim (c == b'_') [
    | true ↦ elim seen [ true ↦ scan base n false s | false ↦ none ]
    | false ↦ if seen then some (n, c ∷ s) else none
  ]
]

unfoldable pub take_sign : Text → Bool × Text
take_sign [] = (false, [])
take_sign (c ∷ s) =
    if c == b'-' then (true, s) else if c == b'+' then (false, s) else (false, c ∷ s)

skip_underscore : Text → Text
skip_underscore [] = []
skip_underscore (c ∷ s) = if c == b'_' then s else c ∷ s

-- The prefix 0x, which base 16 allows, and one underscore behind it.
unfoldable pub skip_prefix : ℕ → Text → Text
unfolding skip_underscore
skip_prefix base (z ∷ x ∷ s) =
    if base == 16 && (z == b'0' && (x == b'x' || x == b'X')) then skip_underscore s else z ∷ x ∷ s
skip_prefix base s = s

is_empty : Text → Bool
is_empty [] = true
is_empty (c ∷ s) = false

unfoldable pub finish : Bool → Option (ℕ × Text) → Option ℤ
unfolding is_empty py_space lstrip
finish minus none = none
finish minus (some (n, rest)) =
    if is_empty (lstrip py_space rest) then some (if minus then neg (pos n) else pos n) else none

-- `none` is a ValueError.
unfoldable pub int_of_ascii : ℕ → Text → Option ℤ
unfolding scan take_sign skip_prefix finish lstrip py_space
int_of_ascii base s =
    let (minus, body) = take_sign (lstrip py_space s) in
    finish minus (scan base 0 false (skip_prefix base body))

-- The decimal digits of `n` in front of `out`, with fuel above `n`.
unfoldable pub digits : ℕ → ℕ → Text → Text
digits zero n out = out
digits (suc f) n out =
    let out' = (b'0' + n % 10) ∷ out in
    let rest = digits f (n / 10) out' in if ltb n 10 then out' else rest

unfoldable pub text_of_int : ℤ → Text
unfolding digits
text_of_int (pos n) = digits (suc n) n []
text_of_int (negsuc n) = b'-' ∷ digits (suc (suc n)) (suc n) []

hex_digit : ℕ → ℕ
hex_digit d = if ltb d 10 then b'0' + d else b'A' + (d - 10)

-- f"{n:02X}", for a byte
unfoldable pub hex2 : ℕ → Text
unfolding hex_digit
hex2 n = hex_digit (n / 16) ∷ hex_digit (n % 16) ∷ []
