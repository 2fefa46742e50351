-- ===== src/Python/Text.antt =====
-- `str` as a list of code points, with the methods of `str` that the program calls.
pub mod Laws
use Prim.Native.String.{String}
use Prim.Native.Char.{code}
use pibot.Prelude.{
  ℕ, zero, suc, length, Bool, true, false, ◌&&◌, ◌||◌, not, Option, none, some, List, [], ◌∷◌, ◌++◌,
  ◌==◌, leb, if◌then◌else◌,
}

abbrev pub Text : Type 0
Text = List ℕ

-- A literal.
abbrev pub codes : String → Text
codes String.[] = []
codes (String.◌∷◌ c s) = code c ∷ codes s

unfoldable pub text_eq : Text → Text → Bool
text_eq [] [] = true
text_eq (a ∷ s) (b ∷ t) = a == b && text_eq s t
text_eq _ _ = false

-- name in {…}
unfoldable pub one_of : Text → List Text → Bool
unfolding text_eq
one_of s [] = false
one_of s (t ∷ ts) = text_eq s t || one_of s ts

-- c in text
unfoldable pub contains : ℕ → Text → Bool
contains c [] = false
contains c (d ∷ s) = d == c || contains c s

-- The rest behind a prefix, if the text starts with it.
unfoldable pub strip_prefix : Text → Text → Option Text
strip_prefix [] s = some s
strip_prefix (a ∷ p) [] = none
strip_prefix (a ∷ p) (b ∷ s) = elim (a == b) [ true ↦ strip_prefix p s | false ↦ none ]

cons_head : ℕ → List Text → List Text
cons_head c [] = (c ∷ []) ∷ []
cons_head c (p ∷ ps) = (c ∷ p) ∷ ps

-- text.split(sep), for a separator of one character
unfoldable pub split : ℕ → Text → List Text
unfolding cons_head
split sep [] = [] ∷ []
split sep (c ∷ s) = if c == sep then [] ∷ split sep s else cons_head c (split sep s)

-- sep.join(parts)
unfoldable pub join : ℕ → List Text → Text
join sep [] = []
join sep (p ∷ []) = p
join sep (p ∷ q ∷ ps) = p ++ sep ∷ join sep (q ∷ ps)

-- text.split(sep, 1), as the part before the first separator and what is behind it
unfoldable pub split_once : ℕ → Text → Text × Option Text
split_once sep [] = ([], none)
split_once sep (c ∷ s) =
    let (a, rest) = split_once sep s in if c == sep then ([], some s) else (c ∷ a, rest)

-- text.rpartition(sep), if the text contains the separator
unfoldable pub rpartition : ℕ → Text → Option (Text × Text)
rpartition sep [] = none
rpartition sep (c ∷ s) = elim (rpartition sep s) [
  | some (a, b) ↦ some (c ∷ a, b)
  | none ↦ if c == sep then some ([], s) else none
]

unfoldable pub lstrip : (ℕ → Bool) → Text → Text
lstrip p [] = []
lstrip p (c ∷ s) = let rest = lstrip p s in if p c then rest else c ∷ s

unfoldable pub rstrip : (ℕ → Bool) → Text → Text
rstrip p [] = []
rstrip p (c ∷ s) = elim (rstrip p s) [ [] ↦ if p c then [] else c ∷ [] | d ∷ t ↦ c ∷ d ∷ t ]

-- text.strip(…), for a class of characters
unfoldable pub strip : (ℕ → Bool) → Text → Text
unfolding lstrip rstrip
strip p s = rstrip p (lstrip p s)

-- str.isspace below 128
unfoldable pub ascii_space : ℕ → Bool
ascii_space c = (leb 9 c && leb c 13) || (leb 28 c && leb c 32)

-- The pieces of an f-string, one behind the other.
unfoldable pub concat : List Text → Text
concat [] = []
concat (p ∷ ps) = p ++ concat ps

is_char : ℕ → ℕ → Bool
is_char c d = d == c

-- text.rstrip(c)
unfoldable pub rstrip_char : ℕ → Text → Text
unfolding rstrip is_char
rstrip_char c s = rstrip (is_char c) s

abbrev pub is_empty : Text → Bool
is_empty [] = true
is_empty (c ∷ s) = false

-- An optional text that is given and not empty.
abbrev pub given : Option Text → Bool
given none = false
given (some s) = not (is_empty s)

-- The line boundaries of `str.splitlines`.
unfoldable pub is_boundary : ℕ → Bool
is_boundary c =
    (leb 10 c && leb c 13)
    || ((leb 28 c && leb c 30) || (c == 0x85 || (c == 0x2028 || c == 0x2029)))

-- A line feed behind a carriage return is part of the same boundary.
after_return : ℕ → Text → Text
after_return c [] = []
after_return c (d ∷ s) = if c == b'\r' && d == b'\n' then s else d ∷ s

-- text.splitlines(), in n rounds at most
unfoldable pub lines_in : ℕ → Text → List Text
unfolding is_boundary after_return cons_head
lines_in zero s = []
lines_in (suc n) [] = []
lines_in (suc n) (c ∷ s) = elim (is_boundary c) [
  | true ↦ [] ∷ lines_in n (after_return c s)
  | false ↦ cons_head c (lines_in n s)
]

unfoldable pub splitlines : Text → List Text
unfolding lines_in
splitlines s = lines_in (suc (length s)) s

-- text.partition(sep)[0] and [2]
unfoldable pub partition : ℕ → Text → Text × Text
partition sep [] = ([], [])
partition sep (c ∷ s) =
    let (a, rest) = partition sep s in if c == sep then ([], s) else (c ∷ a, rest)

-- text.replace(old, new), for an old text that is not empty, in n steps at most
replace_in : ℕ → Text → Text → Text → Text
unfolding strip_prefix
replace_in zero old new s = s
replace_in (suc n) old new [] = []
replace_in (suc n) old new (c ∷ s) =
    let kept = replace_in n old new s in
    elim (strip_prefix old (c ∷ s)) [
      | none ↦ c ∷ kept
      | some rest ↦ new ++ replace_in n old new rest
    ]

unfoldable pub replace : Text → Text → Text → Text
unfolding replace_in
replace old new s = replace_in (length s) old new s
