-- ===== src/Python/Dict.antt =====
-- `dict` with text keys, as its items in insertion order.
pub mod Laws
use pibot.Prelude.{Option, none, some, List, [], ◌∷◌, if◌then◌else◌}
use pibot.Python.Text.{Text, text_eq}

abbrev pub Dict {ℓ} : Type ℓ → Type ℓ
Dict V = List (Text × V)

module _ {ℓ} {V : Type ℓ} where
  -- d.get(key)
  unfoldable pub get : Text → Dict V → Option V
  get k [] = none
  get k ((j, v) ∷ d) = if text_eq j k then some v else get k d

  -- dict(zip(keys, values))
  unfoldable pub zip : List Text → List V → Dict V
  zip [] vs = []
  zip (k ∷ ks) [] = []
  zip (k ∷ ks) (v ∷ vs) = (k, v) ∷ zip ks vs

  unfoldable pub values : Dict V → List V
  values [] = []
  values ((k, v) ∷ d) = v ∷ values d

  -- {k: v for k, v in d.items() if k not in (a, b)}
  unfoldable pub without : Text → Text → Dict V → Dict V
  without a b [] = []
  without a b ((k, v) ∷ d) =
      let rest = without a b d in
      if text_eq k a then rest else if text_eq k b then rest else (k, v) ∷ rest

  -- d[key] = v: in place of the old value, or at the end
  unfoldable pub put : Text → V → Dict V → Dict V
  put k v [] = (k, v) ∷ []
  put k v ((j, w) ∷ d) = if text_eq j k then (j, v) ∷ d else (j, w) ∷ put k v d

  -- {**a, **b}
  unfoldable pub merge : Dict V → Dict V → Dict V
  unfolding put
  merge a [] = a
  merge a ((k, v) ∷ b) = merge (put k v a) b
