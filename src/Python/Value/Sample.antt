-- ===== src/Python/Value/Sample.antt =====
-- A small interpreter that meets the laws: the floats are whole numbers, printed with ".0", and
-- nan; there is no object but the empty dict.
use Prim.Native.Nat.{◌^◌}
use pibot.Prelude.{
  not, ◌≤◌, ℕ, zero, suc, ◌+◌, ◌*◌, ◌/◌, ◌%◌, ◌≡◌, refl, Bool, true, false, Option, none, some, [],
  ◌∷◌, arith, if◌then◌else◌, ◌<◌, All, ◌∙◌,
}
use pibot.Prelude.Int.{ℤ, pos, negsuc, ltb_ℤ, ◌≤ℤ◌, neg, pos_part, neg_part, sub_ℕ}
use pibot.Python.Text.{Text, codes, text_eq, contains}
use pibot.Python.Text.Laws.{Free}
use pibot.Python.Number.{int_of_ascii, digits, scan, take_sign, finish}
use pibot.Python.Number.RoundTrip.{
  IsDigit, digits_cons, scan-digits, int_of_ascii_digit, int_of_ascii_minus,
}
use pibot.Python.Result.{Result, ok, err, value_error, json_error}
use pibot.Python.Value.{Runtime}
use pibot.Python.Value.Laws.{IsTextual, IsTruncating}

pub data Float : Type 0 where
  finite : ℤ → Float
  nan : Float

abbrev pub less : Float → Float → Bool
less (finite a) (finite b) = ltb_ℤ a b
less _ _ = false

abbrev pub at_most : Float → Float → Bool
at_most (finite a) (finite b) = not (ltb_ℤ b a)
at_most _ _ = false

abbrev pub opposite : Float → Float
opposite (finite a) = finite (neg a)
opposite nan = nan

abbrev pub difference : Float → Float → Float
difference (finite a) (finite b) =
    finite (sub_ℕ (pos_part a + neg_part b) (neg_part a + pos_part b))
difference _ _ = nan

abbrev pub quotient : Float → Float → Float
quotient (finite (pos a)) (finite (pos b)) = finite (pos (a / b))
quotient _ _ = nan

abbrev pub product : Float → Float → Float
product (finite (pos a)) (finite (pos b)) = finite (pos (a * b))
product (finite (pos a)) (finite (negsuc b)) = finite (neg (pos (a * suc b)))
product (finite (negsuc a)) (finite (pos b)) = finite (neg (pos (suc a * b)))
product (finite (negsuc a)) (finite (negsuc b)) = finite (pos (suc a * suc b))
product _ _ = nan

abbrev pub distance : Float → Float
distance (finite (negsuc n)) = finite (pos (suc n))
distance x = x

unfoldable pub show : Float → Text
unfolding digits
show (finite (pos n)) = digits (suc n) n (codes ".0")
show (finite (negsuc n)) = b'-' ∷ digits (suc (suc n)) (suc n) (codes ".0")
show nan = codes "nan"

read_fraction : Bool → Option (ℕ × Text) → Option Float
unfolding text_eq
read_fraction minus none = none
read_fraction minus (some (n, rest)) =
    if text_eq rest (codes ".0") then some (finite (if minus then neg (pos n) else pos n)) else none

unfoldable pub read : Text → Option Float
unfolding text_eq take_sign scan read_fraction
read s =
    if text_eq s (codes "nan")
    then some nan
    else let (minus, body) = take_sign s in read_fraction minus (scan 10 0 false body)

abbrev pub truncate : Float → Result ℤ
truncate (finite n) = ok n
truncate nan = err value_error

abbrev pub sample : Runtime Float Unit
sample = record {
  lt = less;
  le = at_most;
  lt_int_float = λ a y. less (finite a) y;
  lt_float_int = λ x b. less x (finite b);
  negate = opposite;
  plus = λ x y. difference x (opposite y);
  minus = difference;
  times = product;
  divide = quotient;
  magnitude = distance;
  literal = λ m d. finite (pos (m / 10 ^ d));
  float_of_int = λ a. ok (finite a);
  int_of_float = truncate;
  float_of_text = λ s. read s;
  repr = λ x. show x;
  ascii_of = λ s. s;
  wide_space = λ c. false;
  show_object = λ o. codes "{}";
  truth_object = λ o. false;
  dict_of_object = λ o. some [];
  loads = λ s. err json_error;
  dumps = λ d. err value_error;
}

read_digit :
    (c : ℕ) (s : Text) → IsDigit c → read (c ∷ s) ≡ read_fraction false (scan 10 0 false (c ∷ s))
unfolding read
read_digit c s h = ground arith

read_minus :
    (c : ℕ) (s : Text)
    → IsDigit c
    → read (b'-' ∷ c ∷ s) ≡ read_fraction true (scan 10 0 false (c ∷ s))
unfolding read
read_minus c s h = ground arith

read-show : (x : Float) → read (show x) ≡ some x
unfolding show read_fraction scan text_eq
read-show (finite (pos n)) =
    let (c, s, e, d) = digits_cons (suc n) n (codes ".0") (omega arith) in
    rw e (read_digit c s d ∙ rw (← e) (rw (scan-digits (suc n) n false (codes ".0") (omega arith))))
read-show (finite (negsuc n)) =
    let (c, s, e, d) = digits_cons (suc (suc n)) (suc n) (codes ".0") (omega arith) in
    rw e (
      read_minus c s d
      ∙ rw (← e)
          (rw (scan-digits (suc (suc n)) (suc n) false (codes ".0") (omega arith)) (ground arith)))
read-show nan = unfold read in refl

show_not_int : (x : Float) → int_of_ascii 10 (show x) ≡ none
unfolding show scan finish
show_not_int (finite (pos n)) =
    let (c, s, e, d) = digits_cons (suc n) n (codes ".0") (omega arith) in
    rw e (
      int_of_ascii_digit c s d
      ∙ rw (← e) (rw (scan-digits (suc n) n false (codes ".0") (omega arith))))
show_not_int (finite (negsuc n)) =
    let (c, s, e, d) = digits_cons (suc (suc n)) (suc n) (codes ".0") (omega arith) in
    rw e (
      int_of_ascii_minus c s d
      ∙ rw (← e) (rw (scan-digits (suc (suc n)) (suc n) false (codes ".0") (omega arith))))
show_not_int nan = unfold int_of_ascii in refl

-- What the printed floats consist of.
abbrev IsPlain : ℕ → Type 0
IsPlain c = (b'-' ≤ c) × (c < 128)

digits-IsPlain : (f n : ℕ) (out : Text) → All IsPlain out → All IsPlain (digits f n out)
unfolding digits
digits-IsPlain zero n out h = h
digits-IsPlain (suc f) n out h = ground (arith, digits-IsPlain f (n / 10) ((b'0' + n % 10) ∷ out))

show-IsPlain : (x : Float) → All IsPlain (show x)
unfolding show
show-IsPlain (finite (pos n)) = digits-IsPlain (suc n) n (codes ".0") (omega arith)
show-IsPlain (finite (negsuc n)) =
    (omega arith, digits-IsPlain (suc (suc n)) (suc n) (codes ".0") (omega arith))
show-IsPlain nan = omega arith

plain_ascii : (s : Text) → All IsPlain s → All (λ c. c < 128) s
plain_ascii [] h = tt
plain_ascii (c ∷ s) (p, h) = (p.1, plain_ascii s h)

plain_no_comma : (s : Text) → All IsPlain s → Free b',' s
unfolding contains
plain_no_comma [] h = refl
plain_no_comma (c ∷ s) h = ground (arith, plain_no_comma s)

pub sample-IsTextual : IsTextual sample
sample-IsTextual = record {
  float-repr = read-show;
  repr_not_int = show_not_int;
  repr_ascii = λ x. plain_ascii (show x) (show-IsPlain x);
  repr_no_comma = λ x. plain_no_comma (show x) (show-IsPlain x);
  ascii_of_ascii = λ s h. refl;
}

truncate_between :
    (a b : ℤ) (x : Float)
    → less (finite a) x ≡ true
    → less x (finite b) ≡ true
    → (n : ℤ) × (truncate x ≡ ok n) × (a ≤ℤ n) × (n ≤ℤ b)
truncate_between a b (finite n) h k = (n, refl, ground arith, ground arith)
truncate_between a b nan h k = cc

pub sample-IsTruncating : IsTruncating sample
sample-IsTruncating = record { trunc_between = truncate_between }
