-- ===== src/Python/Value.antt =====
-- Values of the program, and what it uses of the interpreter: floating point, the conversions
-- of numbers from and to text, the tables of Unicode, and the json module.
pub mod Laws
pub mod Sample
use pibot.Prelude.{
  ℕ, Bool, true, false, not, ◌&&◌, Option, none, some, List, [], ◌∷◌, leb, if◌then◌else◌,
}
use pibot.Prelude.Int.{ℤ, pos, neg, ltb_ℤ, eqb_ℤ}
use pibot.Python.Text.{Text, codes, ascii_space, is_empty}
use pibot.Python.Number.{int_of_ascii, text_of_int}
use pibot.Python.Result.{Result, ok, err, Error, value_error, type_error, or_raise, ◌>>=◌}
use pibot.Python.Dict.{Dict}

-- `F` holds the floats, `O` every other object (lists and dicts that json.loads makes).
pub data Value (F O : Type 0) : Type 0 where
  null : Value F O
  bool : Bool → Value F O
  int : ℤ → Value F O
  float : F → Value F O
  str : Text → Value F O
  object : O → Value F O

-- A number is an int or a float.
pub data Num (F : Type 0) : Type 0 where
  whole : ℤ → Num F
  real : F → Num F

pub record Runtime (F O : Type 0) : Type 0 where
  pub lt : F → F → Bool
  pub le : F → F → Bool
  pub lt_int_float : ℤ → F → Bool
  pub lt_float_int : F → ℤ → Bool
  pub negate : F → F
  pub plus : F → F → F
  pub minus : F → F → F
  pub times : F → F → F
  pub divide : F → F → F
  pub magnitude : F → F  -- abs
  pub literal : ℕ → ℕ → F  -- m and d for m / 10 ** d, as 124 and 1 for 12.4
  pub float_of_int : ℤ → Result F
  pub int_of_float : F → Result ℤ
  pub float_of_text : Text → Option F
  pub repr : F → Text
  pub ascii_of : Text → Text  -- decimal digits and spaces of Unicode to those of ASCII
  pub wide_space : ℕ → Bool  -- str.isspace from 128 on
  pub show_object : O → Text
  pub truth_object : O → Bool
  pub dict_of_object : O → Option (Dict (Value F O))
  pub loads : Text → Result (Value F O)
  pub dumps : Dict (Value F O) → Result Text

module _ {F O : Type 0} (py : Runtime F O) where
  -- str(v)
  unfoldable pub text_of : Value F O → Text
  text_of null = codes "None"
  text_of (bool true) = codes "True"
  text_of (bool false) = codes "False"
  text_of (int n) = text_of_int n
  text_of (float x) = py.repr x
  text_of (str s) = s
  text_of (object o) = py.show_object o

  -- float(v)
  unfoldable pub to_float : Value F O → Result F
  to_float null = err type_error
  to_float (bool true) = py.float_of_int (pos 1)
  to_float (bool false) = py.float_of_int (pos 0)
  to_float (int n) = py.float_of_int n
  to_float (float x) = ok x
  to_float (str s) = or_raise (py.float_of_text s) value_error
  to_float (object o) = err type_error

  -- bool(v)
  unfoldable pub truth : Value F O → Bool
  truth null = false
  truth (bool b) = b
  truth (int n) = not (eqb_ℤ n (pos 0))
  truth (float x) = not (py.le x (py.literal 0 0) && py.le (py.literal 0 0) x)
  truth (str s) = not (is_empty s)
  truth (object o) = py.truth_object o

  -- int(text, base)
  unfoldable pub int_of_text : ℕ → Text → Option ℤ
  int_of_text base s = int_of_ascii base (py.ascii_of s)

  -- str.isspace of a character
  unfoldable pub is_space : ℕ → Bool
  is_space c = if leb 128 c then py.wide_space c else ascii_space c

  -- a < b
  unfoldable pub num_lt : Num F → Num F → Bool
  num_lt (whole a) (whole b) = ltb_ℤ a b
  num_lt (whole a) (real y) = py.lt_int_float a y
  num_lt (real x) (whole b) = py.lt_float_int x b
  num_lt (real x) (real y) = py.lt x y

  -- max(a, b)
  unfoldable pub num_max : Num F → Num F → Num F
  unfolding num_lt
  num_max a b = if num_lt a b then b else a

  -- min(a, b)
  unfoldable pub num_min : Num F → Num F → Num F
  unfolding num_lt
  num_min a b = if num_lt b a then b else a

  -- -a
  unfoldable pub num_neg : Num F → Num F
  num_neg (whole a) = whole (neg a)
  num_neg (real x) = real (py.negate x)

  -- int(a)
  unfoldable pub num_trunc : Num F → Result ℤ
  num_trunc (whole a) = ok a
  num_trunc (real x) = py.int_of_float x

module _ {F O : Type 0} where
  unfoldable pub of_num : Num F → Value F O
  of_num (whole a) = int a
  of_num (real x) = float x
