-- ===== src/Python/Value/Laws.antt =====
-- What the development relies on of the interpreter, as hypotheses.
use pibot.Prelude.{◌<◌, ◌≡◌, true, none, some, All}
use pibot.Prelude.Int.{ℤ, ◌≤ℤ◌}
use pibot.Python.Text.{Text}
use pibot.Python.Text.Laws.{Free}
use pibot.Python.Number.{int_of_ascii}
use pibot.Python.Result.{ok}
use pibot.Python.Value.{Runtime}

-- repr prints a float in ASCII, with no comma, so that float() reads it back; int() refuses it,
-- since it holds a point, an exponent, inf or nan. int() takes ASCII as it is.
pub record IsTextual {F O : Type 0} (py : Runtime F O) : Type 0 where
  pub float-repr : (x : F) → py.float_of_text (py.repr x) ≡ some x
  pub repr_not_int : (x : F) → int_of_ascii 10 (py.repr x) ≡ none
  pub repr_ascii : (x : F) → All (λ c. c < 128) (py.repr x)
  pub repr_no_comma : (x : F) → Free b',' (py.repr x)
  pub ascii_of_ascii : (s : Text) → All (λ c. c < 128) s → py.ascii_of s ≡ s

-- int() of a float between two integers is finite and between them.
pub record IsTruncating {F O : Type 0} (py : Runtime F O) : Type 0 where
  pub trunc_between :
      (a b : ℤ) (x : F)
      → py.lt_int_float a x ≡ true
      → py.lt_float_int x b ≡ true
      → (n : ℤ) × (py.int_of_float x ≡ ok n) × (a ≤ℤ n) × (n ≤ℤ b)
