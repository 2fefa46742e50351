-- ===== src/Agent/Auth.antt =====
-- agent/auth.py, and `auth_middleware` of agent/app.py. What is at the token's path is a file or
-- nothing, on a disk that takes what is written; the fresh token of `secrets`, the test of the
-- `ipaddress` module and the effect of the umask are parameters.
pub mod Admitted
pub mod Tokens
use pibot.Prelude.{
  ℕ, Bool, true, false, ◌&&◌, not, Option, none, some, List, [], ◌∷◌, ◌++◌, ltb, if◌then◌else◌,
}
use pibot.Python.Text.{Text, codes, text_eq, strip, strip_prefix, is_empty}
use pibot.Python.Result.{Result, ok, err, type_error}
use pibot.Python.Value.{Runtime, is_space}

pub record TokenFile : Type 0 where
  pub content : Text
  pub mode : ℕ

-- token or None
unfoldable pub or_none : Text → Option Text
or_none [] = none
or_none (c ∷ s) = some (c ∷ s)

module _ {F O : Type 0} (py : Runtime F O) where
  unfoldable pub load_token : Option TokenFile → Option Text
  unfolding strip is_space or_none
  load_token none = none
  load_token (some f) = or_none (strip (is_space py) f.content)

  module _ (masked : ℕ → ℕ) where
    -- os.open(…, os.O_WRONLY | os.O_CREAT | os.O_TRUNC, 0o600): the mode is that of a new file only
    unfoldable pub opened : Option TokenFile → TokenFile
    opened none = record { content = []; mode = masked 384 }
    opened (some f) = record f { content = [] }

    -- os.write(fd, (token + "\n").encode("utf-8"))
    unfoldable pub written : Text → Option TokenFile → TokenFile
    unfolding opened
    written token f = record (opened f) { content = token ++ b'\n' ∷ [] }

    unfoldable pub generated : Text → Option TokenFile → Option Text → Text × Option TokenFile
    unfolding written
    generated fresh f (some existing) = (existing, f)
    generated fresh f none = (fresh, some (record (written fresh f) { mode = 384 }))

    -- The token, and what is at the path then.
    unfoldable pub generate_token : Text → Option TokenFile → Text × Option TokenFile
    unfolding generated load_token
    generate_token fresh f = generated fresh f (load_token f)

-- Whether ipaddress.ip_address takes a text, and its `is_loopback` then.
unfoldable pub is_loopback : (Text → Option Bool) → Option Text → Bool
is_loopback parse none = false
is_loopback parse (some []) = false
is_loopback parse (some (c ∷ s)) = elim (parse (c ∷ s)) [ none ↦ false | some b ↦ b ]

unfoldable pub is_ascii : Text → Bool
is_ascii [] = true
is_ascii (c ∷ s) = ltb c 128 && is_ascii s

-- hmac.compare_digest of two texts
unfoldable pub compare_digest : Text → Text → Result Bool
unfolding is_ascii text_eq
compare_digest s t = if is_ascii s && is_ascii t then ok (text_eq s t) else err type_error

unfoldable pub matches_token : Option Text → Text → Result Bool
unfolding compare_digest
matches_token none token = ok false
matches_token (some given) token = compare_digest given token

unfoldable pub token_ok : Option Text → Option Text → Result Bool
token_ok header none = ok false
token_ok header (some []) = ok false
token_ok none (some token) = ok false
token_ok (some header) (some token) = matches_token (strip_prefix (codes "Bearer ") header) token

pub record Request : Type 0 where
  pub path : Text
  pub remote : Option Text
  pub authorization : Option Text

-- `auth_middleware`: whether the request is handled, or answered by HTTPUnauthorized
unfoldable pub authorize : (Text → Option Bool) → Bool → Option Text → Request → Result Bool
unfolding token_ok
authorize parse trust_loopback token r =
    if text_eq r.path (codes "/healthz")
    then ok true
    else if trust_loopback && is_loopback parse r.remote
    then ok true
    else token_ok r.authorization token
