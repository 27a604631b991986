-- ===== src/Util/Decimal.antt =====
-- The decimal text of an integer, against which the conversions of util.c are stated: no sign on
-- zero, no leading zero.
use native.Mathlib.Nat.{div-one, pow-succ', one-le-pow, div-div-eq-div-mul}
use redis_allocators.Prelude.{
  ℕ, zero, suc, ◌+◌, ◌*◌, ◌/◌, ◌%◌, ◌^◌, ◌≤◌, ◌<◌, ◌≡◌, refl, ◌∙◌, sym, ap, List, [], ◌∷◌, ◌++◌,
  arith, ltb, Bool-cases, inl, inr, if◌then◌else◌, length, length-append,
}
use redis_allocators.Prelude.Int.{ℤ, pos, negsuc}

unfoldable pub decimal_fuel : ℕ → ℕ → List ℕ
decimal_fuel zero v = (b'0' + v) ∷ []
decimal_fuel (suc f) v =
    let rest = decimal_fuel f (v / 10) in
    if ltb v 10 then (b'0' + v) ∷ [] else rest ++ (b'0' + v % 10) ∷ []

-- The decimal digits of a number, highest first.
unfoldable pub decimal : ℕ → List ℕ
unfolding decimal_fuel
decimal v = decimal_fuel v v

-- The text of an integer: `-` before the digits of a negative one.
unfoldable pub decimal_text : ℤ → List ℕ
decimal_text (pos n) = decimal n
decimal_text (negsuc n) = b'-' ∷ decimal (suc n)

decimal_fuel_enough : (f g v : ℕ) → v ≤ f → v ≤ g → decimal_fuel f v ≡ decimal_fuel g v
unfolding decimal_fuel
decimal_fuel_enough zero zero v p q = refl
decimal_fuel_enough zero (suc g) v p q = ground arith
decimal_fuel_enough (suc f) zero v p q = ground arith
decimal_fuel_enough (suc f) (suc g) v p q = elim (Bool-cases (ltb v 10)) [
  | inl e ↦ rw e
  | inr e ↦ rw (e, decimal_fuel_enough f g (v / 10) (ground arith) (ground arith))
]

pub decimal_of_lt : (v : ℕ) → v < 10 → decimal v ≡ (b'0' + v) ∷ []
unfolding decimal
decimal_of_lt zero h = refl
decimal_of_lt (suc v) h = ground arith

pub decimal_step : (v : ℕ) → 10 ≤ v → decimal v ≡ decimal (v / 10) ++ (b'0' + v % 10) ∷ []
unfolding decimal
decimal_step zero h = absurd (omega arith)
decimal_step (suc v) h =
    ground (arith, decimal_fuel_enough v (suc v / 10) (suc v / 10) (omega arith) (omega arith))

-- The digits below the last `k` are those of the quotient.
pub length-decimal_shift :
    (k v : ℕ) → 10 ^ k ≤ v → length (decimal v) ≡ k + length (decimal (v / 10 ^ k))
length-decimal_shift zero v h = omega (arith, ap (λ a. length (decimal a)) (div-one v))
length-decimal_shift (suc k) v h =
    let e : v / 10 ^ suc k ≡ v / 10 / 10 ^ k =
      sym (div-div-eq-div-mul v 10 (10 ^ k) ∙ ap (λ p. v / p) (sym (pow-succ' 10 k))) in
    let big : 10 * 10 ^ k ≤ v = rw (pow-succ' 10 k) at h in
    let unit : 1 ≤ 10 ^ k = one-le-pow k 10 (omega arith) in
    rw (e, decimal_step v (omega arith), length-append)
      (omega (arith, length-decimal_shift k (v / 10) (omega arith)))

pub length-decimal_pos : (v : ℕ) → 0 < length (decimal v)
length-decimal_pos v = elim (Bool-cases (ltb v 10)) [
  | inl h ↦ omega (arith, ap length (decimal_of_lt v (ground arith)))
  | inr h ↦
      let step = ap length (decimal_step v (ground arith)) in
      omega (arith, step, length-append (decimal (v / 10)) ((b'0' + v % 10) ∷ []))
]

-- The range of `long long`.
abbrev pub IsInt64 : ℤ → Type 0
IsInt64 (pos n) = n < 2 ^ 63
IsInt64 (negsuc n) = n < 2 ^ 63
