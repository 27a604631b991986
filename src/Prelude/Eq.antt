-- ===== src/Prelude/Eq.antt =====
-- Decided equality as an interface: numbers, pairs and texts are compared by one operator.
use redis_allocators.Prelude.Tests.{if◌then◌else◌}
use redis_allocators.Prelude.Tests
use Prim.Native.Nat.{ℕ, ◌+◌, ◌-◌}
use mathlib.Core.Path.{◌≡◌, refl}
use mathlib.Core.Logic.{◌↔◌}
use mathlib.Core.Bool.{Bool, true, false, ◌&&◌}
use mathlib.Core.List.{List, [], ◌∷◌, ◌++◌}
use native.Mathlib.Omega.{arith}

pub record Eq {ℓ} (A : Type ℓ) : Type ℓ where
  pub beq : A → A → Bool
  pub beq_iff : (a b : A) → (beq a b ≡ true) ↔ (a ≡ b)

instance abbrev pub nat_eq : Eq ℕ
nat_eq = record { beq = Tests.◌==◌; beq_iff = Tests.==_iff }

abbrev pub pair_beq {ℓ κ} : {A : Type ℓ} {B : Type κ} ⦃a : Eq A⦄ ⦃b : Eq B⦄ → A × B → A × B → Bool
pair_beq ⦃a⦄ ⦃b⦄ p q = a.beq p.0 q.0 && b.beq p.1 q.1

pub pair_beq_iff {ℓ κ} :
    {A : Type ℓ} {B : Type κ} ⦃a : Eq A⦄ ⦃b : Eq B⦄ (p q : A × B) → (pair_beq p q ≡ true) ↔ (p ≡ q)
pair_beq_iff ⦃a⦄ ⦃b⦄ (x, y) (x', y') = ground (arith, a.beq_iff x x', b.beq_iff y y')

instance abbrev pub pair_eq {ℓ κ} : {A : Type ℓ} {B : Type κ} ⦃a : Eq A⦄ ⦃b : Eq B⦄ → Eq (A × B)
pair_eq = record { beq = pair_beq; beq_iff = pair_beq_iff }

abbrev pub list_beq {ℓ} : {A : Type ℓ} ⦃a : Eq A⦄ → List A → List A → Bool
list_beq [] [] = true
list_beq [] (y ∷ ys) = false
list_beq (x ∷ xs) [] = false
list_beq ⦃a⦄ (x ∷ xs) (y ∷ ys) = a.beq x y && list_beq xs ys

pub list_beq_iff {ℓ} :
    {A : Type ℓ} ⦃a : Eq A⦄ (xs ys : List A) → (list_beq xs ys ≡ true) ↔ (xs ≡ ys)
list_beq_iff [] [] = ground arith
list_beq_iff [] (y ∷ ys) = ground arith
list_beq_iff (x ∷ xs) [] = ground arith
list_beq_iff ⦃a⦄ (x ∷ xs) (y ∷ ys) = ground (arith, a.beq_iff x y, list_beq_iff xs ys)

instance abbrev pub list_eq {ℓ} : {A : Type ℓ} ⦃a : Eq A⦄ → Eq (List A)
list_eq = record { beq = list_beq; beq_iff = list_beq_iff }

-- Lists as bags: occurrences, and the removal of the first one.
module _ {ℓ} {A : Type ℓ} ⦃eq : Eq A⦄ where
  unfoldable pub count : A → List A → ℕ
  count a [] = 0
  count a (x ∷ xs) = (if eq.beq a x then 1 else 0) + count a xs

  unfoldable pub remove_first : A → List A → List A
  remove_first a [] = []
  remove_first a (x ∷ xs) = if eq.beq a x then xs else x ∷ remove_first a xs

  pub count-append : (a : A) (xs ys : List A) → count a (xs ++ ys) ≡ count a xs + count a ys
  unfolding count
  count-append a [] ys = omega arith
  count-append a (x ∷ xs) ys = omega (arith, count-append a xs ys)

  pub count-remove_first :
      (a b : A) (xs : List A)
      → count a (remove_first b xs) ≡ count a xs - (if eq.beq a b then 1 else 0)
  unfolding count remove_first
  count-remove_first a b [] = ground arith
  count-remove_first a b (x ∷ xs) =
      ground (arith, count-remove_first a b xs, eq.beq_iff a b, eq.beq_iff b x, eq.beq_iff a x)

  pub count_cons :
      (a x : A) (xs : List A) → count a (x ∷ xs) ≡ (if eq.beq a x then 1 else 0) + count a xs
  unfolding count
  count_cons a x xs = refl

  pub remove_first_head : (a : A) (xs : List A) → remove_first a (a ∷ xs) ≡ xs
  unfolding remove_first
  remove_first_head a xs = ground (arith, eq.beq_iff a a)
