-- ===== src/Agent/Auth/Admitted.antt =====
-- agent/auth.py and agent/app.py: which requests are handled.
use pibot.Prelude.{
  ◌≡◌, refl, ◌↔◌, ◌≢◌, ◌∙◌, ap, Bool, true, ◌&&◌, Option, none, some, [], ◌∷◌, ◌++◌, ◌⊎◌, inl, inr,
  Bool-cases, Option-cases, ==_iff, ◌==◌, arith,
}
use pibot.Python.Text.{Text, codes, text_eq, strip_prefix}
use pibot.Python.Text.Laws.{text_eq_iff, text_eq_refl}
use pibot.Python.Result.{ok}
use pibot.Agent.Auth.{
  is_loopback, is_ascii, compare_digest, matches_token, token_ok, Request, authorize,
}

strip_prefix-some : (p s rest : Text) → strip_prefix p s ≡ some rest → s ≡ p ++ rest
unfolding strip_prefix
strip_prefix-some [] s rest h = cc
strip_prefix-some (a ∷ p) [] rest h = cc
strip_prefix-some (a ∷ p) (b ∷ s) rest h = elim (Bool-cases (a == b)) [
  | inr e ↦ let c = rw (e, strip_prefix) at h in cc
  | inl e ↦
      let k = strip_prefix-some p s rest (rw (e, strip_prefix) at h) in
      rw ((==_iff a b).0 e, k) (refl)
]

strip_prefix-append : (p rest : Text) → strip_prefix p (p ++ rest) ≡ some rest
unfolding strip_prefix
strip_prefix-append [] rest = refl
strip_prefix-append (a ∷ p) rest = ground (arith, strip_prefix-append p rest)

-- The header carries the token, both of them of ASCII characters.
abbrev pub Bears : Option Text → Option Text → Type 0
Bears header token =
    (t : Text) × (token ≡ some t)
    × (t ≢ [])
    × (header ≡ some (codes "Bearer " ++ t))
    × (is_ascii t ≡ true)

compare_digest-exact : (s t : Text) → compare_digest s t ≡ ok true → (s ≡ t) × (is_ascii t ≡ true)
unfolding compare_digest
compare_digest-exact s t h = ground (arith, text_eq_iff s t)

compare_digest_refl : (t : Text) → is_ascii t ≡ true → compare_digest t t ≡ ok true
unfolding compare_digest
compare_digest_refl t h = rw (h, text_eq_refl t)

no_prefix : (rest : Option Text) (t : Text) → rest ≡ none → matches_token rest t ≡ ok true → ⊥
unfolding matches_token
no_prefix none t e h = cc
no_prefix (some given) t e h = cc

token_ok_sound : (header token : Option Text) → token_ok header token ≡ ok true → Bears header token
unfolding token_ok compare_digest matches_token
token_ok_sound header none h = cc
token_ok_sound header (some []) h = cc
token_ok_sound none (some (c ∷ t)) h = cc
token_ok_sound (some s) (some (c ∷ t)) h = elim (Option-cases (strip_prefix (codes "Bearer ") s)) [
  | inl e ↦ absurd (no_prefix _ _ e h)
  | inr (rest, e) ↦
      let (same, is_text) = compare_digest-exact rest (c ∷ t) (rw (e, matches_token) at h) in
      (
        c ∷ t,
        refl,
        (λ k. cc),
        ap some
            (strip_prefix-some (codes "Bearer ") s rest e ∙ ap (λ r. codes "Bearer " ++ r) same),
        is_text,
      )
]

token_ok_complete :
    (header token : Option Text) → Bears header token → token_ok header token ≡ ok true
unfolding token_ok matches_token compare_digest
token_ok_complete header token ([], e, some_token, e', is_text) = absurd (some_token refl)
token_ok_complete header token (c ∷ t, e, some_token, e', is_text) =
    rw (e, e', strip_prefix-append (codes "Bearer ") (c ∷ t)) (compare_digest_refl (c ∷ t) is_text)

module _ (parse : Text → Option Bool) (trust_loopback : Bool) (token : Option Text)
    (r : Request) where
  abbrev pub MayPass : Type 0
  MayPass =
      (r.path ≡ codes "/healthz")
      ⊎ ((trust_loopback ≡ true) × (is_loopback parse r.remote ≡ true))
      ⊎ Bears r.authorization token

  -- A request is handled exactly when it asks for /healthz, or comes from a loopback address while
  -- these are trusted, or carries "Bearer " and the agent's token, which is then not empty and of
  -- ASCII characters. An agent without a token serves nobody else.
  pub authorize_exact : (authorize parse trust_loopback token r ≡ ok true) ↔ MayPass
  unfolding authorize
  authorize_exact = elim (Bool-cases (text_eq r.path (codes "/healthz"))) [
    | inl e ↦ (λ h. inl ((text_eq_iff r.path (codes "/healthz")).0 e), λ g. ground (arith, e))
    | inr e ↦ elim (Bool-cases (trust_loopback && is_loopback parse r.remote)) [
      | inl e' ↦
          (λ h. inr (inl (ground (arith, e'), ground (arith, e'))), λ g. ground (arith, e, e'))
      | inr e' ↦ (
        λ h. inr (inr (token_ok_sound r.authorization token (ground (arith, h, e, e')))),
        λ g. elim g [
          | inl same ↦
              let c = (text_eq_iff r.path (codes "/healthz")).1 same in ground (arith, c, e)
          | inr (inl (trusts, near)) ↦ ground (arith, trusts, near, e')
          | inr (inr bears) ↦ ground (arith, e, e', token_ok_complete r.authorization token bears)
        ],
      )
    ]
  ]
