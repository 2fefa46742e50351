-- ===== src/Python/Number/RoundTrip.antt =====
-- `int` reads back what `str` prints, and the two hexadecimal digits of a byte.
use pibot.Prelude.{
  ℕ, zero, suc, ◌+◌, ◌*◌, ◌/◌, ◌%◌, ◌≤◌, ◌<◌, ◌≡◌, refl, Bool, true, false, none, some, [], ◌∷◌,
  arith, All, All-imp, every_below, every_below_sound, Option, Bool-cases, inl, inr, ltb, ◌∙◌,
}
use pibot.Prelude.Int.{ℤ, pos, negsuc, eqb_ℤ}
use pibot.Python.Text.{Text}
use pibot.Python.Number.{digit_of, scan, finish, int_of_ascii, digits, text_of_int, hex2}

abbrev pub IsDigit : ℕ → Type 0
IsDigit c = (b'0' ≤ c) × (c ≤ b'9')

digit_of_digit : (k : ℕ) → k < 10 → digit_of 10 (b'0' + k) ≡ some k
unfolding digit_of
digit_of_digit k h = ground arith

scan_digit :
    (n k : ℕ) (seen : Bool) (s : Text)
    → k < 10
    → scan 10 n seen ((b'0' + k) ∷ s) ≡ scan 10 (n * 10 + k) true s
unfolding scan
scan_digit n k seen s h = rw (digit_of_digit k h, scan)

-- Reading the digits of `n` and then `out` is reading `out` behind `n`.
pub scan-digits :
    (f n : ℕ) (seen : Bool) (out : Text)
    → n < f
    → scan 10 0 seen (digits f n out) ≡ scan 10 n true out
unfolding digits
scan-digits zero n seen out h = elim h [ ]
scan-digits (suc f) n seen out h = ground (
  arith,
  scan_digit 0 (n % 10) seen out,
  scan_digit (n / 10) (n % 10) true out,
  scan-digits f (n / 10) seen ((b'0' + n % 10) ∷ out),
)

pub digits_cons :
    (f n : ℕ) (out : Text) → n < f → (c : ℕ) × (s : Text) × (digits f n out ≡ c ∷ s) × IsDigit c
unfolding digits
digits_cons zero n out h = elim h [ ]
digits_cons (suc f) n out h = elim (Bool-cases (ltb n 10)) [
  | inl e ↦ (b'0' + n % 10, out, ground arith, omega arith)
  | inr e ↦
      let (c, s, p, q) = digits_cons f (n / 10) ((b'0' + n % 10) ∷ out) (ground arith) in
      (c, s, ground (arith, p), q)
]

pub digits-IsDigit : (f n : ℕ) (out : Text) → All IsDigit out → All IsDigit (digits f n out)
unfolding digits
digits-IsDigit zero n out h = h
digits-IsDigit (suc f) n out h = ground (arith, digits-IsDigit f (n / 10) ((b'0' + n % 10) ∷ out))

-- The characters of a printed integer.
pub text_of_int_chars : (z : ℤ) → All (λ c. (b'-' ≤ c) × (c ≤ b'9')) (text_of_int z)
unfolding text_of_int
text_of_int_chars (pos n) =
    All-imp (digits (suc n) n []) (λ c h. ground arith) (digits-IsDigit (suc n) n [] tt)
text_of_int_chars (negsuc n) = (
  omega arith,
  All-imp (digits (suc (suc n)) (suc n) []) (λ c h. ground arith)
      (digits-IsDigit (suc (suc n)) (suc n) [] tt),
)

-- A text that begins with a digit has no space, sign or prefix to skip.
pub int_of_ascii_digit :
    (c : ℕ) (s : Text)
    → IsDigit c
    → int_of_ascii 10 (c ∷ s) ≡ finish false (scan 10 0 false (c ∷ s))
unfolding int_of_ascii
int_of_ascii_digit c [] h = ground arith
int_of_ascii_digit c (d ∷ s) h = ground arith

pub int_of_ascii_minus :
    (c : ℕ) (s : Text)
    → IsDigit c
    → int_of_ascii 10 (b'-' ∷ c ∷ s) ≡ finish true (scan 10 0 false (c ∷ s))
unfolding int_of_ascii
int_of_ascii_minus c [] h = ground arith
int_of_ascii_minus c (d ∷ s) h = ground arith

-- For every integer z, int(str(z)) is z.
pub int_of_ascii-text_of_int : (z : ℤ) → int_of_ascii 10 (text_of_int z) ≡ some z
unfolding text_of_int finish scan
int_of_ascii-text_of_int (pos n) =
    let (c, s, e, d) = digits_cons (suc n) n [] (omega arith) in
    rw e (int_of_ascii_digit c s d ∙ rw (← e) (rw (scan-digits (suc n) n false [] (omega arith))))
int_of_ascii-text_of_int (negsuc n) =
    let (c, s, e, d) = digits_cons (suc (suc n)) (suc n) [] (omega arith) in
    rw e (
      int_of_ascii_minus c s d
      ∙ rw (← e) (rw (scan-digits (suc (suc n)) (suc n) false [] (omega arith)) (ground arith)))

is_some_of : ℕ → Option ℤ → Bool
is_some_of n none = false
is_some_of n (some z) = eqb_ℤ z (pos n)

is_some_of_sound : (n : ℕ) (o : Option ℤ) → is_some_of n o ≡ true → o ≡ some (pos n)
unfolding is_some_of
is_some_of_sound n none h = cc
is_some_of_sound n (some z) h = ground arith

hex_table : every_below (λ n. is_some_of n (int_of_ascii 16 (hex2 n))) 256 ≡ true
unfolding every_below is_some_of int_of_ascii hex2
hex_table = refl

-- For every byte, int(f"{n:02X}", 16) is n.
pub int_of_ascii-hex2 : (n : ℕ) → n < 256 → int_of_ascii 16 (hex2 n) ≡ some (pos n)
int_of_ascii-hex2 n h =
    is_some_of_sound n _
      (every_below_sound (λ k. is_some_of k (int_of_ascii 16 (hex2 k))) 256 hex_table n h)

-- The characters of a printed byte.
pub hex2_chars : (n : ℕ) → n < 256 → All (λ c. (48 ≤ c) × (c < 128)) (hex2 n)
unfolding hex2
hex2_chars n h = ground arith
