-- ===== src/Agent/Auth/Tokens.antt =====
-- agent/auth.py: a token that is generated is the one that is loaded from then on.
use pibot.Prelude.{
  ◌≡◌, refl, ◌∙◌, ap, ℕ, Bool, true, false, Option, none, some, [], ◌∷◌, ◌++◌, All, arith,
}
use pibot.Python.Text.{Text, lstrip, rstrip, strip, ascii_space}
use pibot.Python.Value.{Runtime, is_space}
use pibot.Agent.Auth.{TokenFile, or_none, load_token, written, generated, generate_token}

rstrip-line :
    (p : ℕ → Bool) (s : Text) (end : ℕ)
    → p end ≡ true
    → All (λ c. p c ≡ false) s
    → rstrip p (s ++ end ∷ []) ≡ s
unfolding rstrip
rstrip-line p [] end h a = ground (arith, h)
rstrip-line p (c ∷ []) end h (a, rest) = ground (arith, h, a)
rstrip-line p (c ∷ d ∷ s) end h (a, rest) = ground (arith, rstrip-line p (d ∷ s) end h rest)

lstrip_solid : (p : ℕ → Bool) (c : ℕ) (s : Text) → p c ≡ false → lstrip p (c ∷ s) ≡ c ∷ s
unfolding lstrip
lstrip_solid p c s h = ground (arith, h)

module _ {F O : Type 0} (py : Runtime F O) where
  -- A text that can be a token: one character or more, and no space.
  pub record IsToken (t : Text) : Type 0 where
    pub filled : or_none t ≡ some t
    pub solid : All (λ c. is_space py c ≡ false) t

  line_end : is_space py b'\n' ≡ true
  unfolding is_space ascii_space
  line_end = refl

  strip-line : (t : Text) → IsToken t → strip (is_space py) (t ++ b'\n' ∷ []) ≡ t
  unfolding strip or_none
  strip-line [] k = cc (k.filled)
  strip-line (c ∷ t) k =
      ap (rstrip (is_space py)) (lstrip_solid (is_space py) c (t ++ b'\n' ∷ []) k.solid.0)
      ∙ rstrip-line (is_space py) (c ∷ t) b'\n' line_end k.solid

  load_token_written :
      (token : Text) (mode : ℕ)
      → IsToken token
      → load_token py (some (record { content = token ++ b'\n' ∷ []; mode = mode })) ≡ some token
  unfolding load_token
  load_token_written token mode k = ap or_none (strip-line token k) ∙ k.filled

  module _ (masked : ℕ → ℕ) where
    again :
        (other token : Text) (f : Option TokenFile)
        → load_token py f ≡ some token
        → generate_token py masked other f ≡ (token, f)
    unfolding generate_token generated
    again other token f e = rw e refl

    kept :
        (fresh other : Text) (f : Option TokenFile) (loaded : Option Text)
        → load_token py f ≡ loaded
        → IsToken fresh
        → let (token, after) = generated py masked fresh f loaded in
          (load_token py after ≡ some token)
          × (generate_token py masked other after ≡ (token, after))
    unfolding generated written
    kept fresh other f (some existing) e k = (e, again other existing f e)
    kept fresh other f none e k =
        (load_token_written fresh 384 k, again other fresh _ (load_token_written fresh 384 k))

    -- Whatever was at the token's path, a file or nothing: the token that generate_token returns is
    -- the one loaded from then on, and another call returns it again and leaves the file alone. The
    -- fresh token has one character or more, and no space.
    pub generate_token-kept :
        (fresh other : Text) (f : Option TokenFile)
        → IsToken fresh
        → let (token, after) = generate_token py masked fresh f in
          (load_token py after ≡ some token)
          × (generate_token py masked other after ≡ (token, after))
    unfolding generate_token
    generate_token-kept fresh other f k = kept fresh other f (load_token py f) refl k
