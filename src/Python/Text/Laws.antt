-- ===== src/Python/Text/Laws.antt =====
-- Laws of the text methods: `split` undoes `join`, `rpartition` finds the last separator.
use pibot.Prelude.{
  ℕ, ◌≡◌, refl, ◌≢◌, ◌↔◌, ap, Bool, true, false, none, some, List, [], ◌∷◌, ◌++◌, arith, All, ◌∙◌,
}
use pibot.Python.Text.{Text, text_eq, contains, split, join, rpartition, rstrip}

pub text_eq_iff : (s t : Text) → (text_eq s t ≡ true) ↔ (s ≡ t)
unfolding text_eq
text_eq_iff [] [] = ground arith
text_eq_iff [] (b ∷ t) = ground arith
text_eq_iff (a ∷ s) [] = ground arith
text_eq_iff (a ∷ s) (b ∷ t) = ground (arith, text_eq_iff s t)

pub text_eq_refl : (s : Text) → text_eq s s ≡ true
text_eq_refl s = (text_eq_iff s s).1 refl

-- No character of the text is `c`.
abbrev pub Free : ℕ → Text → Type 0
Free c s = contains c s ≡ false

pub Free-append : (c : ℕ) (s t : Text) → Free c s → Free c t → Free c (s ++ t)
unfolding contains
Free-append c [] t h k = k
Free-append c (d ∷ s) t h k = ground (arith, Free-append c s t)

split-append : (c : ℕ) (p s : Text) → Free c p → split c (p ++ c ∷ s) ≡ p ∷ split c s
unfolding split contains
split-append c [] s h = ground arith
split-append c (d ∷ p) s h = ground (arith, split-append c p s)

split-Free : (c : ℕ) (p : Text) → Free c p → split c p ≡ p ∷ []
unfolding split contains
split-Free c [] h = refl
split-Free c (d ∷ p) h = ground (arith, split-Free c p)

pub split-join :
    (c : ℕ) (p : Text) (ps : List Text)
    → Free c p
    → All (Free c) ps
    → split c (join c (p ∷ ps)) ≡ p ∷ ps
unfolding join
split-join c p [] h k = split-Free c p h
split-join c p (q ∷ ps) h (k, ks) =
    split-append c p (join c (q ∷ ps)) h ∙ ap (λ r. p ∷ r) (split-join c q ps k ks)

rpartition-Free : (c : ℕ) (t : Text) → Free c t → rpartition c t ≡ none
unfolding rpartition contains
rpartition-Free c [] h = refl
rpartition-Free c (d ∷ t) h = ground (arith, rpartition-Free c t)

pub rpartition-append : (c : ℕ) (s t : Text) → Free c t → rpartition c (s ++ c ∷ t) ≡ some (s, t)
unfolding rpartition
rpartition-append c [] t h = ground (arith, rpartition-Free c t h)
rpartition-append c (d ∷ s) t h = rw (rpartition-append c s t h)

pub contains-append_self : (c : ℕ) (s t : Text) → contains c (s ++ c ∷ t) ≡ true
unfolding contains
contains-append_self c [] t = ground arith
contains-append_self c (d ∷ s) t = ground (arith, contains-append_self c s t)

pub Free-of_All : (c : ℕ) (s : Text) → All (λ d. d ≢ c) s → Free c s
unfolding contains
Free-of_All c [] h = refl
Free-of_All c (d ∷ s) (p, h) = ground (arith, Free-of_All c s)

pub rstrip-append :
    (p : ℕ → Bool) (s t : Text) {c : ℕ} {r : Text}
    → rstrip p t ≡ c ∷ r
    → rstrip p (s ++ t) ≡ s ++ c ∷ r
unfolding rstrip
rstrip-append p [] t h = h
rstrip-append p (e ∷ []) t h = rw h
rstrip-append p (e ∷ f ∷ s) t h = rw (rstrip-append p (f ∷ s) t h)
