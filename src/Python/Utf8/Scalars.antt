-- ===== src/Python/Utf8/Scalars.antt =====
-- Decoded text can be encoded again, also in parts: it has no surrogates.
use pibot.Prelude.{
  ℕ, zero, suc, ◌≡◌, refl, Bool, true, ◌&&◌, none, some, [], ◌∷◌, ◌++◌, ◌-◌, arith, Option,
  Option-cases, inl, inr,
}
use pibot.Python.Text.{Text, lstrip, rstrip, rpartition}
use pibot.Python.Utf8.{
  Bytes, is_scalar, encode_char, encode_utf8, decode_from, decode_utf8, prepend, add_tail,
}

-- Every character has an encoding.
unfoldable pub all_scalar : Text → Bool
all_scalar [] = true
all_scalar (c ∷ s) = is_scalar c && all_scalar s

pub encode_utf8_total : (s : Text) → all_scalar s ≡ true → (bs : Bytes) × (encode_utf8 s ≡ some bs)
unfolding encode_utf8 all_scalar
encode_utf8_total [] h = ([], refl)
encode_utf8_total (c ∷ s) h =
    let (bs, e) = encode_utf8_total s (ground arith) in (encode_char c ++ bs, ground (arith, e))

scalars : Option Text → Bool
unfolding all_scalar
scalars none = true
scalars (some s) = all_scalar s

scalars-prepend :
    (c : ℕ) (o : Option Text) → is_scalar c ≡ true → scalars o ≡ true → scalars (prepend c o) ≡ true
unfolding scalars prepend
scalars-prepend c none h k = refl
scalars-prepend c (some t) h k = ground arith

decode_from-scalars : (k n least : ℕ) (bs : Bytes) → scalars (decode_from k n least bs) ≡ true
unfolding decode_from scalars
decode_from-scalars zero n least [] = refl
decode_from-scalars (suc k) n least [] = refl
decode_from-scalars zero n least (b ∷ bs) = ground (
  arith,
  scalars-prepend b (decode_from zero 0 0 bs),
  decode_from-scalars zero 0 0 bs,
  decode_from-scalars 1 (b - 0xC0) 0x80 bs,
  decode_from-scalars 2 (b - 0xE0) 0x800 bs,
  decode_from-scalars 3 (b - 0xF0) 0x10000 bs,
)
decode_from-scalars (suc zero) n least (b ∷ bs) = ground (
  arith,
  scalars-prepend (add_tail n b) (decode_from zero 0 0 bs),
  decode_from-scalars zero 0 0 bs,
)
decode_from-scalars (suc (suc k)) n least (b ∷ bs) =
    ground (arith, decode_from-scalars (suc k) (add_tail n b) least bs)

pub decode_utf8_scalar : (bs : Bytes) (s : Text) → decode_utf8 bs ≡ some s → all_scalar s ≡ true
unfolding decode_utf8 scalars
decode_utf8_scalar bs s e = ground (arith, decode_from-scalars 0 0 0 bs, e)

pub lstrip_scalar : (p : ℕ → Bool) (s : Text) → all_scalar s ≡ true → all_scalar (lstrip p s) ≡ true
unfolding lstrip all_scalar
lstrip_scalar p [] h = refl
lstrip_scalar p (c ∷ s) h = ground (arith, lstrip_scalar p s)

pub rstrip_scalar : (p : ℕ → Bool) (s : Text) → all_scalar s ≡ true → all_scalar (rstrip p s) ≡ true
unfolding rstrip all_scalar
rstrip_scalar p [] h = refl
rstrip_scalar p (c ∷ s) h = ground (arith, rstrip_scalar p s)

pub rpartition_scalar :
    (c : ℕ) (s : Text) {a b : Text}
    → all_scalar s ≡ true
    → rpartition c s ≡ some (a, b)
    → (all_scalar a ≡ true) × (all_scalar b ≡ true)
unfolding rpartition all_scalar
rpartition_scalar c [] h e = cc
rpartition_scalar c (d ∷ s) h e = elim (Option-cases (rpartition c s)) [
  | inl q ↦ ground (arith, q)
  | inr (r, q) ↦ ground (arith, q, rpartition_scalar c s {a = r.0} {b = r.1})
]
