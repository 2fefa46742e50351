-- ===== src/Protocol/Crc/Detection.antt =====
-- What the checksum detects: it tells apart any two frames that differ within one byte.
use pibot.Prelude.{
  ℕ, zero, suc, ◌+◌, ◌/◌, ◌%◌, ◌<◌, ◌≡◌, ◌≢◌, refl, sym, ap, ◌∙◌, Bool, true, ◌&&◌, [], ◌∷◌, ◌++◌,
  arith, All, ◌==◌, ==_iff, ltb, if◌then◌else◌, every_below, every_below_sound, bit_xor,
}
use pibot.Python.Utf8.{Bytes}
use pibot.Protocol.Crc.{shifts, crc8_from, crc8}

abbrev pub IsByte : ℕ → Type 0
IsByte b = b < 256

-- The inverse of `shift`: the lowest bit tells whether the polynomial was subtracted.
unshift : ℕ → ℕ
unshift crc = if crc % 2 == 0 then crc / 2 else bit_xor crc 0x07 / 2 + 128

unshifts : ℕ → ℕ → ℕ
unfolding unshift
unshifts zero crc = crc
unshifts (suc n) crc = unshifts n (unshift crc)

shifts_table : every_below (λ c. unshifts 8 (shifts 8 c) == c && ltb (shifts 8 c) 256) 256 ≡ true
unfolding every_below unshifts shifts
shifts_table = refl

xor_table :
    every_below
      (λ c.
        every_below
          (λ b.
            bit_xor (bit_xor c b) b == c && (bit_xor c (bit_xor c b) == b && ltb (bit_xor c b) 256))
          256)
      256
    ≡ true
unfolding every_below
xor_table = refl

&&_true : {a b : Bool} → (a && b) ≡ true → (a ≡ true) × (b ≡ true)
&&_true {a} {b} h = ground arith

shifts_facts : (c : ℕ) → IsByte c → (unshifts 8 (shifts 8 c) ≡ c) × (shifts 8 c < 256)
shifts_facts c h =
    let (p, q) = &&_true (every_below_sound _ 256 shifts_table c h) in
    ((==_iff _ c).0 p, ground arith)

xor_facts :
    (c b : ℕ)
    → IsByte c
    → IsByte b
    → (bit_xor (bit_xor c b) b ≡ c) × (bit_xor c (bit_xor c b) ≡ b) × (bit_xor c b < 256)
xor_facts c b h k =
    let (p, rest) = &&_true (every_below_sound _ 256 (every_below_sound _ 256 xor_table c h) b k) in
    let (q, r) = &&_true rest in ((==_iff _ c).0 p, (==_iff _ b).0 q, ground arith)

byte_step : ℕ → ℕ → ℕ
byte_step c b = shifts 8 (bit_xor c b)

byte_step_lt : (c b : ℕ) → IsByte c → IsByte b → byte_step c b < 256
unfolding byte_step
byte_step_lt c b h k = (shifts_facts (bit_xor c b) (xor_facts c b h k).2).1

unstep : (c b : ℕ) → IsByte c → IsByte b → unshifts 8 (byte_step c b) ≡ bit_xor c b
unfolding byte_step
unstep c b h k = (shifts_facts (bit_xor c b) (xor_facts c b h k).2).0

-- Different bytes, and different states, lead to different states.
byte_step_byte :
    (c a b : ℕ) → IsByte c → IsByte a → IsByte b → byte_step c a ≡ byte_step c b → a ≡ b
byte_step_byte c a b h k l e =
    sym (xor_facts c a h k).1
    ∙ ap (bit_xor c) (sym (unstep c a h k) ∙ ap (unshifts 8) e ∙ unstep c b h l)
    ∙ (xor_facts c b h l).1

byte_step_state :
    (c d b : ℕ) → IsByte c → IsByte d → IsByte b → byte_step c b ≡ byte_step d b → c ≡ d
byte_step_state c d b h k l e =
    sym (xor_facts c b h l).0
    ∙ ap (λ t. bit_xor t b) (sym (unstep c b h l) ∙ ap (unshifts 8) e ∙ unstep d b k l)
    ∙ (xor_facts d b k l).0

crc8_from_lt : (c : ℕ) (data' : Bytes) → IsByte c → All IsByte data' → crc8_from c data' < 256
unfolding crc8_from byte_step
crc8_from_lt c [] h k = h
crc8_from_lt c (b ∷ s) h (k, ks) = crc8_from_lt (byte_step c b) s (byte_step_lt c b h k) ks

-- The checksum of bytes is a byte, so two hexadecimal digits hold it.
pub crc8-lt : (data' : Bytes) → All IsByte data' → crc8 data' < 256
unfolding crc8
crc8-lt data' h = crc8_from_lt 0 data' (omega arith) h

crc8_from_state :
    (c d : ℕ) (s : Bytes)
    → IsByte c
    → IsByte d
    → All IsByte s
    → crc8_from c s ≡ crc8_from d s
    → c ≡ d
unfolding crc8_from byte_step
crc8_from_state c d [] h k l e = e
crc8_from_state c d (b ∷ s) h k (l, ls) e = byte_step_state c d b h k l (
    crc8_from_state (byte_step c b) (byte_step d b) s (byte_step_lt c b h l) (byte_step_lt d b k l)
      ls e)

crc8_from_byte :
    (c a b : ℕ) (xs ys : Bytes)
    → IsByte c
    → IsByte a
    → IsByte b
    → All IsByte xs
    → All IsByte ys
    → crc8_from c (xs ++ a ∷ ys) ≡ crc8_from c (xs ++ b ∷ ys)
    → a ≡ b
unfolding crc8_from byte_step
crc8_from_byte c a b [] ys h ha hb hx hy e =
    byte_step_byte c a b h ha hb
      (crc8_from_state _ _ ys (byte_step_lt c a h ha) (byte_step_lt c b h hb) hy e)
crc8_from_byte c a b (x ∷ xs) ys h ha hb (hx, hxs) hy e =
    crc8_from_byte (byte_step c x) a b xs ys (byte_step_lt c x h hx) ha hb hxs hy e

-- Two frames of bytes that differ in one byte, in however many of its bits and wherever it
-- stands, have different checksums.
pub crc8_detects_byte :
    (xs ys : Bytes) (a b : ℕ)
    → All IsByte xs
    → All IsByte ys
    → IsByte a
    → IsByte b
    → a ≢ b
    → crc8 (xs ++ a ∷ ys) ≢ crc8 (xs ++ b ∷ ys)
unfolding crc8
crc8_detects_byte xs ys a b hx hy ha hb ne e =
    ne (crc8_from_byte 0 a b xs ys (omega arith) ha hb hx hy e)
