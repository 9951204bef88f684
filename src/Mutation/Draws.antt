-- ===== src/Mutation/Draws.antt =====
-- The functions of Python's `random` that the mutators call. A generator gives the result of the `n`-th
-- draw; the number of draws so far is passed along.
use fuzzing_framework.Prelude.{
  ℕ, zero, suc, ◌≤◌, ◌<◌, ◌≡◌, Bool, List, [], ◌∷◌, length, All, ltb, if◌then◌else◌,
}
use fuzzing_framework.Result.{Result, ok, err}

-- ValueError of an empty range, IndexError, struct.error, KeyError.
pub data Failure : Type 0 where
  value_error index_error struct_error key_error : Failure

pub record Random : Type 0 where
  -- `random.randint(lo, hi)`
  pub randint : ℕ → ℕ → ℕ → ℕ
  -- the index that `random.choice` takes in a list of that length
  pub index : ℕ → ℕ → ℕ
  -- `random.random() < 0.5`
  pub is_below_half : ℕ → Bool
  -- `random.shuffle`
  pub shuffle : ℕ → List ℕ → List ℕ

-- What is documented of them.
pub record IsRandom (r : Random) : Type 1 where
  pub randint_least : (n lo hi : ℕ) → lo ≤ hi → lo ≤ r.randint n lo hi
  pub randint_most : (n lo hi : ℕ) → lo ≤ hi → r.randint n lo hi ≤ hi
  pub index_inside : (n size : ℕ) → 0 < size → r.index n size < size
  pub shuffle_length : (n : ℕ) (xs : List ℕ) → length (r.shuffle n xs) ≡ length xs
  pub shuffle_all : (P : ℕ → Type 0) (n : ℕ) (xs : List ℕ) → All P xs → All P (r.shuffle n xs)

module _ (r : Random) where
  -- `random.randint(lo, hi)`
  unfoldable pub draw : ℕ → ℕ → ℕ → Result Failure (ℕ × ℕ)
  draw n lo hi = if ltb hi lo then err value_error else ok (r.randint n lo hi, suc n)

-- `xs[i]`
unfoldable pub get_at : {A : Type 0} → ℕ → List A → Result Failure A
get_at i [] = err index_error
get_at zero (x ∷ xs) = ok x
get_at (suc i) (x ∷ xs) = get_at i xs
