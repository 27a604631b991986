-- ===== src/Util/Digits.antt =====
-- `digits10` counts the decimal digits.
use redis_allocators.Prelude.{
  ℕ, suc, ◌+◌, ◌/◌, ◌^◌, ◌≤◌, ◌<◌, ◌≡◌, refl, arith, ltb, Bool-cases, inl, inr, length,
}
use redis_allocators.Util.Decimal.{decimal, decimal_of_lt, length-decimal_shift}
use redis_allocators.Util.{digits10_fuel, digits10}

-- A number from 10 ^ k to below ten times that has k + 1 digits.
length-decimal_at : (k v : ℕ) → 10 ^ k ≤ v → v / 10 ^ k < 10 → length (decimal v) ≡ k + 1
length-decimal_at k v h small =
    rw (length-decimal_shift k v h, decimal_of_lt (v / 10 ^ k) small) refl

length-decimal_of_lt : (v : ℕ) → v < 10 → length (decimal v) ≡ 1
length-decimal_of_lt v h = rw (decimal_of_lt v h) refl

-- The thresholds of the source, in order.
small_digits :
    (v : ℕ) → v < 1000000000000 → (fuel : ℕ) → digits10_fuel (suc fuel) v ≡ length (decimal v)
unfolding digits10_fuel
small_digits v h fuel = ground (
  arith,
  length-decimal_of_lt v,
  length-decimal_at 1 v,
  length-decimal_at 2 v,
  length-decimal_at 3 v,
  length-decimal_at 4 v,
  length-decimal_at 5 v,
  length-decimal_at 6 v,
  length-decimal_at 7 v,
  length-decimal_at 8 v,
  length-decimal_at 9 v,
  length-decimal_at 10 v,
  length-decimal_at 11 v,
)

-- From 10 ^ 12 on the function calls itself.
large_digits :
    (v : ℕ)
    → 1000000000000 ≤ v
    → (fuel : ℕ) → digits10_fuel (suc fuel) v ≡ 12 + digits10_fuel fuel (v / 1000000000000)
unfolding digits10_fuel
large_digits v h fuel = ground arith

-- `digits10` of a `uint64_t` is the length of its decimal text.
pub digits10-eq-length : (v : ℕ) → v < 2 ^ 64 → digits10 v ≡ length (decimal v)
unfolding digits10
digits10-eq-length v h = elim (Bool-cases (ltb v 1000000000000)) [
  | inl e ↦ small_digits v (ground arith) 1
  | inr e ↦ omega (
    arith,
    large_digits v (ground arith) 1,
    small_digits (v / 1000000000000) (omega arith) 0,
    length-decimal_shift 12 v (ground arith),
  )
]

digits10_fuel_bound :
    (fuel v : ℕ) → digits10_fuel (suc fuel) v ≤ 12 + digits10_fuel fuel (v / 1000000000000)
unfolding digits10_fuel
digits10_fuel_bound fuel v = ground arith

digits10_fuel_zero : (v : ℕ) → digits10_fuel 0 v ≡ 0
unfolding digits10_fuel
digits10_fuel_zero v = refl

pub length-decimal_bound : (v : ℕ) → v < 2 ^ 64 → length (decimal v) ≤ 24
unfolding digits10
length-decimal_bound v h = omega (
  arith,
  digits10-eq-length v h,
  digits10_fuel_bound 1 v,
  digits10_fuel_bound 0 (v / 1000000000000),
  digits10_fuel_zero (v / 1000000000000 / 1000000000000),
)
