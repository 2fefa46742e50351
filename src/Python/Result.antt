-- ===== src/Python/Result.antt =====
-- Calls that may raise, and the exceptions that the program raises or catches.
use pibot.Prelude.{
  ◌≡◌, refl, Bool, Option, none, some, List, [], ◌∷◌, arith, length, ◌⊎◌, inl, inr, if◌then◌else◌,
}
use pibot.Python.Text.{Text}

pub data Error : Type 0 where
  key_error value_error type_error overflow_error index_error : Error
  transport_error permission_error runtime_error json_error : Error
  attribute_error assertion_error pibot_error os_error : Error
  decode_error : Text → Error

pub data Result {ℓ} (A : Type ℓ) : Type ℓ where
  ok : A → Result A
  err : Error → Result A

module _ {ℓ κ} {A : Type ℓ} {B : Type κ} where
  infixl 5 ◌>>=◌
  abbrev pub ◌>>=◌ : Result A → (A → Result B) → Result B
  err why >>= next = err why
  ok a >>= next = next a

  -- What a sequence of calls returned came of what the first one returned.
  pub >>=-ok :
      (first : Result A) {next : A → Result B} {b : B}
      → (first >>= next) ≡ ok b
      → (a : A) × (first ≡ ok a) × (next a ≡ ok b)
  >>=-ok (err why) returned = cc
  >>=-ok (ok a) returned = (a, refl, returned)

infixl 5 ◌>>◌
abbrev pub ◌>>◌ {ℓ κ} : {A : Type ℓ} {B : Type κ} → Result A → Result B → Result B
first >> second = first >>= λ _. second

abbrev pub or_raise {ℓ} : {A : Type ℓ} → Option A → Error → Result A
or_raise none e = err e
or_raise (some a) e = ok a

-- raise e unless the test holds
abbrev pub require : Bool → Error → Result (Unit {0})
require holds e = if holds then ok tt else err e

-- The elements that a call makes of a list's elements, up to the first that raises.
unfoldable pub each {ℓ κ} : {A : Type ℓ} {B : Type κ} → (A → Result B) → List A → Result (List B)
each f [] = ok []
each f (a ∷ as') = f a >>= λ b. each f as' >>= λ bs. ok (b ∷ bs)

-- A call for each element makes as many results.
pub length-each {ℓ κ} :
    {A : Type ℓ} {B : Type κ} (f : A → Result B) (xs : List A) (ys : List B)
    → each f xs ≡ ok ys
    → length ys ≡ length xs
unfolding each
length-each f [] ys h = cc
length-each f (x ∷ xs) ys h =
    let (y, p, q) = >>=-ok (f x) h in
    let (zs, r, s) = >>=-ok (each f xs) q in ground (arith, length-each f xs zs r)

pub ok_or_err {ℓ} :
    {A : Type ℓ} (r : Result A) → ((a : A) × (r ≡ ok a)) ⊎ ((why : Error) × (r ≡ err why))
ok_or_err (ok a) = inl (a, refl)
ok_or_err (err why) = inr (why, refl)

pub ok-injective {ℓ} : {A : Type ℓ} {a b : A} → ok a ≡ ok b → a ≡ b
ok-injective h = cc
