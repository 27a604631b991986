-- ===== src/Dict/Skip.antt =====
-- The search of dictRehash for a chain that is not empty.
use redis_allocators.Prelude.{
  ℕ, zero, suc, ◌+◌, ◌≤◌, ◌<◌, ◌≡◌, inl, inr, refl, List, [], ◌∷◌, ◌==◌, arith, length, Bool-cases,
}
use redis_allocators.Dict.Chains.{Chain}
use redis_allocators.Dict.Valid.{total}
use redis_allocators.Dict.Table.{skip_empty}

pub nil_of_length {ℓ} : {A : Type ℓ} (xs : List A) → length xs ≡ 0 → xs ≡ []
nil_of_length [] h = refl
nil_of_length (x ∷ xs) h = absurd (omega arith)

module _ {ℓ} {K V : Type ℓ} (t : ℕ → Chain K V) where
  pub skip_empty-le : (fuel i : ℕ) → i ≤ skip_empty fuel t i
  unfolding skip_empty
  skip_empty-le zero i = omega arith
  skip_empty-le (suc fuel) i = ground (arith, skip_empty-le fuel (i + 1))

  skip_empty-le_end : (fuel i : ℕ) → skip_empty fuel t i ≤ i + fuel
  unfolding skip_empty
  skip_empty-le_end zero i = omega arith
  skip_empty-le_end (suc fuel) i = ground (arith, skip_empty-le_end fuel (i + 1))

  -- The chains that the search passes are empty.
  pub skip_empty_lem : (fuel i j : ℕ) → i ≤ j → j < skip_empty fuel t i → length (t j) ≡ 0
  unfolding skip_empty
  skip_empty_lem zero i j le lt = absurd (omega arith)
  skip_empty_lem (suc fuel) i j le lt = elim (Bool-cases (i == j)) [
    | inl e ↦ ground arith
    | inr e ↦ ground (arith, skip_empty_lem fuel (i + 1) j)
  ]

  -- Where it stops before its fuel is spent, it has found a chain.
  pub skip_empty_found :
      (fuel i : ℕ) → skip_empty fuel t i < i + fuel → 0 < length (t (skip_empty fuel t i))
  unfolding skip_empty
  skip_empty_found zero i lt = absurd (omega arith)
  skip_empty_found (suc fuel) i lt = ground (arith, skip_empty_found fuel (i + 1))

  pub total-le : (i n : ℕ) → i < n → length (t i) ≤ total t n
  unfolding total
  total-le i zero lt = absurd (omega arith)
  total-le i (suc n) lt = elim (Bool-cases (i == n)) [
    | inl e ↦ ground arith
    | inr e ↦ ground (arith, total-le i n)
  ]

  pub total_of_empty : (n : ℕ) → ((j : ℕ) → j < n → length (t j) ≡ 0) → total t n ≡ 0
  unfolding total
  total_of_empty zero h = refl
  total_of_empty (suc n) h =
      omega (arith, total_of_empty n (λ j p. h j (omega arith)), h n (omega arith))
