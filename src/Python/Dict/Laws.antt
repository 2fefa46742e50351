-- ===== src/Python/Dict/Laws.antt =====
-- What a dict gives for a key after a store.
use pibot.Prelude.{◌≡◌, true, false, some, [], ◌∷◌, arith, Bool-cases, inl, inr}
use pibot.Python.Text.{Text, text_eq}
use pibot.Python.Text.Laws.{text_eq_iff}
use pibot.Python.Dict.{Dict, get, put}

module _ {V : Type 0} where
  pub get-put : (k j : Text) (v : V) (d : Dict V) → text_eq k j ≡ true → get j (put k v d) ≡ some v
  unfolding get put
  get-put k j v [] h = ground (arith, h)
  get-put k j v ((i, w) ∷ d) h =
      let same : k ≡ j = (text_eq_iff k j).0 h in
      elim (Bool-cases (text_eq i k)) [
        | inl e ↦ ground (arith, e, same)
        | inr e ↦ ground (arith, e, same, get-put k j v d h)
      ]

  pub get-put_other :
      (k j : Text) (v : V) (d : Dict V) → text_eq k j ≡ false → get j (put k v d) ≡ get j d
  unfolding get put
  get-put_other k j v [] h = ground (arith, h)
  get-put_other k j v ((i, w) ∷ d) h = elim (Bool-cases (text_eq i k)) [
    | inl e ↦ let same : i ≡ k = (text_eq_iff i k).0 e in ground (arith, e, h, same)
    | inr e ↦ ground (arith, e, h, get-put_other k j v d h)
  ]
