-- ===== src/Python/Shell.antt =====
-- `shlex.quote` and `shlex.join`, and how a POSIX shell takes a line apart into words.
pub mod Words
use pibot.Prelude.{
  ℕ, Bool, true, false, ◌&&◌, ◌||◌, not, Option, none, some, List, [], ◌∷◌, ◌++◌, map, ◌==◌, leb,
  if◌then◌else◌,
}
use pibot.Python.Text.{Text, join}

-- The characters that stand for themselves.
unfoldable pub is_plain : ℕ → Bool
is_plain c =
    (leb b'a' c && leb c b'z')
    || ((leb b'A' c && leb c b'Z')
        || ((leb b'0' c && leb c b'9')
            || (c == b'_'
                || (c == b'@'
                    || (c == b'%'
                        || (c == b'+'
                            || (c == b'='
                                || (c == b':' || (c == b',' || (leb b'-' c && leb c b'/'))))))))))

unfoldable pub all_plain : Text → Bool
unfolding is_plain
all_plain [] = true
all_plain (c ∷ s) = is_plain c && all_plain s

-- s.replace("'", "'\"'\"'")
unfoldable pub escape_ticks : Text → Text
escape_ticks [] = []
escape_ticks (c ∷ s) =
    let rest = escape_ticks s in
    if c == b'\'' then b'\'' ∷ b'"' ∷ b'\'' ∷ b'"' ∷ b'\'' ∷ rest else c ∷ rest

-- shlex.quote(s)
unfoldable pub quote : Text → Text
unfolding all_plain escape_ticks
quote [] = b'\'' ∷ b'\'' ∷ []
quote (c ∷ s) = if all_plain (c ∷ s) then c ∷ s else b'\'' ∷ (escape_ticks (c ∷ s) ++ b'\'' ∷ [])

-- shlex.join(argv)
unfoldable pub shell_join : List Text → Text
unfolding quote join
shell_join argv = join b' ' (map quote argv)

-- What a character is to the shell outside of quotes; the shell's reading of `special` is left out.
pub data Kind : Type 0 where
  blank tick double_quote plain special : Kind

kind : ℕ → Kind
unfolding is_plain
kind c =
    if c == b' '
    then blank
    else if c == b'\''
    then tick
    else if c == b'"'
    then double_quote
    else if is_plain c
    then plain
    else special

pub data Mode : Type 0 where
  bare single double : Mode

opened : Option Text → Text
opened none = []
opened (some w) = w

-- A word is put before the words behind it.
before : Option Text → Option (List Text) → Option (List Text)
before none words = words
before (some w) none = none
before (some w) (some words) = some (w ∷ words)

is_special : ℕ → Bool
is_special c = c == b'\\' || (c == b'$' || c == b'`')

-- The words of a line, read up to here in a mode and with a word begun or not. `none`: a quote is
-- left open, or a character has another meaning to the shell.
unfoldable pub read : Mode → Option Text → Text → Option (List Text)
unfolding kind opened before is_special
read bare word [] = before word (some [])
read single word [] = none
read double word [] = none
read bare word (c ∷ s) = elim (kind c) [
  | blank ↦ before word (read bare none s)
  | tick ↦ read single (some (opened word)) s
  | double_quote ↦ read double (some (opened word)) s
  | plain ↦ read bare (some (opened word ++ c ∷ [])) s
  | special ↦ none
]
read single word (c ∷ s) = elim (c == b'\'') [
  | true ↦ read bare word s
  | false ↦ read single (some (opened word ++ c ∷ [])) s
]
read double word (c ∷ s) = elim (c == b'"') [
  | true ↦ read bare word s
  | false ↦ elim (is_special c) [
    | true ↦ none
    | false ↦ read double (some (opened word ++ c ∷ [])) s
  ]
]

unfoldable pub shell_words : Text → Option (List Text)
unfolding read
shell_words s = read bare none s
