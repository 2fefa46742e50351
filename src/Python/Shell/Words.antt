-- ===== src/Python/Shell/Words.antt =====
-- The shell takes apart what shlex.join put together.
use mathlib.Core.List.{append-nil, append_assoc}
use pibot.Prelude.{
  ℕ, ◌≡◌, refl, sym, ap, ◌∙◌, true, none, some, List, [], ◌∷◌, ◌++◌, map, arith, ◌==◌, Bool-cases,
  inl, inr,
}
use pibot.Python.Text.{Text, join}
use pibot.Python.Shell.{
  is_plain, all_plain, escape_ticks, quote, shell_join, plain, kind, bare, single, before, read,
  shell_words,
}

kind_plain : (c : ℕ) → is_plain c ≡ true → kind c ≡ plain
unfolding kind
kind_plain c h = ground arith

read-plain :
    (w x rest : Text)
    → all_plain x ≡ true
    → read bare (some w) (x ++ rest) ≡ read bare (some (w ++ x)) rest
unfolding read all_plain
read-plain w [] rest h = ap (λ t. read bare (some t) rest) (sym (append-nil w))
read-plain w (c ∷ x) rest h =
    let k : kind c ≡ plain = kind_plain c (ground (arith, h)) in
    rw (k, read)
      (read-plain (w ++ c ∷ []) x rest (ground (arith, h))
        ∙ ap (λ t. read bare (some t) rest) (append_assoc w (c ∷ []) x))

read-escape_ticks :
    (w x rest : Text)
    → read single (some w) (escape_ticks x ++ b'\'' ∷ rest) ≡ read bare (some (w ++ x)) rest
unfolding read escape_ticks
read-escape_ticks w [] rest = ap (λ t. read bare (some t) rest) (sym (append-nil w))
read-escape_ticks w (c ∷ x) rest =
    let step : read single (some (w ++ c ∷ [])) (escape_ticks x ++ b'\'' ∷ rest)
        ≡ read bare (some (w ++ c ∷ x)) rest =
      read-escape_ticks (w ++ c ∷ []) x rest
      ∙ ap (λ t. read bare (some t) rest) (append_assoc w (c ∷ []) x) in
    elim (Bool-cases (c == b'\'')) [
      | inl e ↦ ground (arith, e, step)
      | inr e ↦ ground (arith, e, step)
    ]

read-plain_word :
    (c : ℕ) (x rest : Text)
    → all_plain (c ∷ x) ≡ true
    → read bare none (c ∷ (x ++ rest)) ≡ read bare (some (c ∷ x)) rest
unfolding read all_plain
read-plain_word c x rest h =
    let k : kind c ≡ plain = kind_plain c (ground (arith, h)) in
    rw (k, read) (read-plain (c ∷ []) x rest (ground (arith, h)))

read-quoted :
    (x rest : Text)
    → read bare none (b'\'' ∷ (escape_ticks x ++ b'\'' ∷ rest)) ≡ read bare (some x) rest
unfolding read
read-quoted x rest = read-escape_ticks [] x rest

read-quote : (x rest : Text) → read bare none (quote x ++ rest) ≡ read bare (some x) rest
unfolding quote
read-quote [] rest = read-quoted [] rest
read-quote (c ∷ x) rest = elim (Bool-cases (all_plain (c ∷ x))) [
  | inl e ↦ rw (e, quote) (read-plain_word c x rest e)
  | inr e ↦
      rw (e, quote)
        (ap (λ t. read bare none (b'\'' ∷ t))
            (append_assoc (escape_ticks (c ∷ x)) (b'\'' ∷ []) rest)
          ∙ read-quoted (c ∷ x) rest)
]

-- Whatever the words hold, a POSIX shell takes the joined line apart into the same words.
pub shell_words-shell_join : (argv : List Text) → shell_words (shell_join argv) ≡ some argv
unfolding shell_words shell_join join read
shell_words-shell_join [] = refl
shell_words-shell_join (x ∷ []) = ap (read bare none) (sym (append-nil (quote x))) ∙ read-quote x []
shell_words-shell_join (x ∷ y ∷ argv) =
    read-quote x (b' ' ∷ join b' ' (quote y ∷ map quote argv))
    ∙ ap (before (some x)) (shell_words-shell_join (y ∷ argv))
