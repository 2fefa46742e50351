-- ===== src/Python/Sequence.antt =====
-- Lists indexed and counted as the interpreter does.
use pibot.Prelude.{
  ℕ, zero, suc, ◌-◌, Option, none, some, List, [], ◌∷◌, length, get_elem?, ltb, if◌then◌else◌,
}
use pibot.Prelude.Int.{ℤ, pos, negsuc}
use pibot.Python.Result.{Result, index_error, or_raise, ◌>>=◌}

-- The position that an index stands for in a sequence of length n: a negative one counts from
-- the end.
unfoldable pub index : ℕ → ℤ → Option ℕ
index n (pos i) = if ltb i n then some i else none
index n (negsuc i) = if ltb i n then some (n - i - 1) else none

module _ {ℓ} {A : Type ℓ} where
  -- xs[i]
  unfoldable pub get_at : List A → ℤ → Result A
  unfolding index
  get_at xs i =
      or_raise (index (length xs) i) index_error >>= λ k. or_raise (get_elem? xs k) index_error

  -- xs[k] = x, for a position in range
  unfoldable pub set_at : ℕ → A → List A → List A
  set_at k x [] = []
  set_at zero x (y ∷ ys) = x ∷ ys
  set_at (suc k) x (y ∷ ys) = y ∷ set_at k x ys

  -- [x for _ in range(n)]
  unfoldable pub replicate : ℕ → A → List A
  replicate zero x = []
  replicate (suc n) x = x ∷ replicate n x

-- range(from, from + n)
unfoldable pub range : ℕ → ℕ → List ℕ
range from zero = []
range from (suc n) = from ∷ range (suc from) n

module _ {ℓ} {A : Type ℓ} where
  -- xs[:n]
  unfoldable pub take : ℕ → List A → List A
  take zero xs = []
  take (suc n) [] = []
  take (suc n) (x ∷ xs) = x ∷ take n xs

  -- xs[n:]
  unfoldable pub drop : ℕ → List A → List A
  drop zero xs = xs
  drop (suc n) [] = []
  drop (suc n) (x ∷ xs) = drop n xs
