-- ===== src/Python/Tree.antt =====
-- Values that hold one another, as `json.loads` makes them and the program builds them to be sent:
-- lists, dicts with text keys as their items in order, and the other values.
use pibot.Prelude.{Bool, true, false, Option, none, some, List, [], ◌∷◌, if◌then◌else◌}
use pibot.Prelude.Int.{ℤ, pos}
use pibot.Python.Text.{Text, text_eq}
use pibot.Python.Result.{Result, ok, err, type_error, value_error, or_raise}
use pibot.Python.Value.{Value, bool, int, float, str, Runtime, to_float, truth, int_of_text}

mutual
  pub data Tree (F O : Type 0) : Type 0 where
    leaf : Value F O → Tree F O
    list : Items F O → Tree F O
    dict : Fields F O → Tree F O

  pub data Items (F O : Type 0) : Type 0 where
    no_items : Items F O
    item : Tree F O → Items F O → Items F O

  pub data Fields (F O : Type 0) : Type 0 where
    no_fields : Fields F O
    field : Text → Tree F O → Fields F O → Fields F O

module _ {F O : Type 0} where
  -- d.get(key)
  unfoldable pub field_at : Text → Fields F O → Option (Tree F O)
  unfolding text_eq
  field_at k no_fields = none
  field_at k (field j v d) = if text_eq j k then some v else field_at k d

  -- a dict of so many items
  unfoldable pub fields_of_list : List (Text × Tree F O) → Fields F O
  fields_of_list [] = no_fields
  fields_of_list ((k, v) ∷ d) = field k v (fields_of_list d)

  -- A text.
  abbrev pub text_leaf : Text → Tree F O
  text_leaf s = leaf (str s)

  abbrev pub float_leaf : F → Tree F O
  float_leaf x = leaf (float x)

module _ {F O : Type 0} (py : Runtime F O) where
  -- float(v)
  unfoldable pub float_of : Tree F O → Result F
  unfolding to_float
  float_of (leaf v) = to_float py v
  float_of _ = err type_error

  -- bool(v)
  unfoldable pub truth_of : Tree F O → Bool
  unfolding truth
  truth_of (leaf v) = truth py v
  truth_of (list no_items) = false
  truth_of (list (item t ts)) = true
  truth_of (dict no_fields) = false
  truth_of (dict (field k t d)) = true

  -- int(v)
  unfoldable pub int_of : Tree F O → Result ℤ
  unfolding int_of_text
  int_of (leaf (bool b)) = ok (pos (if b then 1 else 0))
  int_of (leaf (int n)) = ok n
  int_of (leaf (float x)) = py.int_of_float x
  int_of (leaf (str s)) = or_raise (int_of_text py 10 s) value_error
  int_of _ = err type_error
