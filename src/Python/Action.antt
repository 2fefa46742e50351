-- ===== src/Python/Action.antt =====
-- Calls that change a state of type S, and may raise: what has changed stays changed.
use pibot.Prelude.{◌≡◌, refl, List, [], ◌∷◌}
use pibot.Python.Result.{Result, ok, err, Error}

abbrev pub Action : Type 0 → Type 0 → Type 0
Action S A = S → Result A × S

abbrev pub continue : {S A B : Type 0} → Result A → (A → Action S B) → Action S B
continue (ok a) next s = next a s
continue (err why) next s = (err why, s)

infixl 5 ◌>>=◌ ◌>>◌
abbrev pub ◌>>=◌ : {S A B : Type 0} → Action S A → (A → Action S B) → Action S B
◌>>=◌ m next s = let (r, s') = m s in continue r next s'

abbrev pub ◌>>◌ : {S A B : Type 0} → Action S A → Action S B → Action S B
m >> k = m >>= λ _. k

abbrev pub pure : {S A : Type 0} → A → Action S A
pure a s = (ok a, s)

abbrev pub raise : {S A : Type 0} → Error → Action S A
raise why s = (err why, s)

-- A call that leaves the state alone.
abbrev pub lift : {S A : Type 0} → Result A → Action S A
lift r s = (r, s)

abbrev pub read : {S : Type 0} → Action S S
read s = (ok s, s)

abbrev pub write : {S : Type 0} → S → Action S (Unit {0})
write s' s = (ok tt, s')

-- with contextlib.suppress(Exception): …
abbrev pub suppress : {S : Type 0} → Action S (Unit {0}) → Action S (Unit {0})
suppress m s = let (r, s') = m s in (ok tt, s')

-- for a in list: …
unfoldable pub for_each : {S A : Type 0} → (A → Action S (Unit {0})) → List A → Action S (Unit {0})
for_each body [] = pure tt
for_each body (a ∷ as') = body a >> for_each body as'

-- What an action returned came of an answer to the first one.
pub continue-ok :
    {S A B : Type 0} {b : B} {s' : S} (next : A → Action S B) (answer : Result A) (s : S)
    → continue answer next s ≡ (ok b, s')
    → (a : A) × (answer ≡ ok a) × (next a s ≡ (ok b, s'))
continue-ok next (ok a) s returned = (a, refl, returned)
continue-ok next (err why) s returned = cc
