-- ===== src/Mutation/Yields.antt =====
-- Code that is sure to return, with what holds of the result.
use fuzzing_framework.Prelude.{
  ℕ, zero, suc, ◌≤◌, ◌<◌, ◌≡◌, refl, subst, Bool, true, false, List, [], ◌∷◌, arith, length, All,
  ltb, if◌then◌else◌,
}
use fuzzing_framework.Result.{Result, ok, err, ◌>>=◌}
use fuzzing_framework.Mutation.Draws.{Random, IsRandom, Failure, value_error, draw, get_at}
use fuzzing_framework.Mutation.Bytes.{choose}

-- It returns, and its result has the property.
abbrev pub Yields : {A : Type 0} → (A → Type 0) → Result Failure A → Type 0
Yields {A} P m = (a : A) × (m ≡ ok a) × P a

module _ {A : Type 0} where
  pub ok-Yields : (P : A → Type 0) (a : A) → P a → Yields P (ok a)
  ok-Yields P a p = (a, refl, p)

  pub if-Yields :
      (P : A → Type 0) (b : Bool) (m n : Result Failure A)
      → (b ≡ true → Yields P m)
      → (b ≡ false → Yields P n)
      → Yields P (if b then m else n)
  if-Yields P true m n h k = h refl
  if-Yields P false m n h k = k refl

  pub >>=-Yields :
      {B : Type 0} {P : A → Type 0} {Q : B → Type 0} (m : Result Failure A)
      (f : A → Result Failure B)
      → Yields P m
      → ((a : A) → P a → Yields Q (f a))
      → Yields Q (m >>= f)
  >>=-Yields (err e) f (a, e', p) k = absurd (cc e')
  >>=-Yields {P = P} (ok a) f (b, e, p) k = let same : b ≡ a = cc in k a (subst P same p)

  pub get_at-Yields :
      (P : A → Type 0) (i : ℕ) (xs : List A) → i < length xs → All P xs → Yields P (get_at i xs)
  unfolding get_at
  get_at-Yields P i [] h all = absurd (omega arith)
  get_at-Yields P zero (x ∷ xs) h all = (x, refl, all.0)
  get_at-Yields P (suc i) (x ∷ xs) h all = get_at-Yields P i xs (omega arith) all.1

module _ (r : Random) (is_random : IsRandom r) where
  pub draw-Yields :
      (n lo hi : ℕ) → lo ≤ hi → Yields (λ (v : ℕ × ℕ). (lo ≤ v.0) × (v.0 ≤ hi)) (draw r n lo hi)
  unfolding draw
  draw-Yields n lo hi h =
      if-Yields _ (ltb hi lo) (err value_error) (ok (r.randint n lo hi, suc n))
        (λ e. absurd (ground arith))
        (λ e. ok-Yields _ _ (is_random.randint_least n lo hi h, is_random.randint_most n lo hi h))

  pub choose-Yields :
      {A : Type 0} (P : A → Type 0) (n : ℕ) (xs : List A)
      → 0 < length xs
      → All P xs
      → Yields (λ (v : A × ℕ). P v.0) (choose r n xs)
  unfolding choose
  choose-Yields P n xs h all =
      >>=-Yields _ _
        (get_at-Yields P (r.index n (length xs)) xs (is_random.index_inside n (length xs) h) all)
        (λ x p. ok-Yields _ (x, suc n) p)
