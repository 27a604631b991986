-- ===== src/Intset/Model.antt =====
-- The abstract view of an integer set: its members as a strictly increasing list.
use redis_allocators.Prelude.{
  ℕ, zero, suc, ◌+◌, ◌≤◌, ◌<◌, ◌≡◌, refl, ap, ap₂, ◌∙◌, Bool, true, false, List, [], ◌∷◌, ◌++◌,
  if◌then◌else◌, arith,
}
use redis_allocators.Prelude.Int.{ℤ, ltb_ℤ, eqb_ℤ, ◌<ℤ◌}

unfoldable pub contains : ℤ → List ℤ → Bool
contains v [] = false
contains v (x ∷ xs) = if eqb_ℤ v x then true else contains v xs

unfoldable pub insert : ℤ → List ℤ → List ℤ
insert v [] = v ∷ []
insert v (x ∷ xs) = if ltb_ℤ v x then v ∷ x ∷ xs else if eqb_ℤ v x then x ∷ xs else x ∷ insert v xs

unfoldable pub erase : ℤ → List ℤ → List ℤ
erase v [] = []
erase v (x ∷ xs) = if eqb_ℤ v x then xs else x ∷ erase v xs

abbrev pub AllBelow : ℤ → List ℤ → Type 0
AllBelow v [] = Unit
AllBelow v (x ∷ xs) = (x <ℤ v) × AllBelow v xs

abbrev pub AllAbove : ℤ → List ℤ → Type 0
AllAbove v [] = Unit
AllAbove v (x ∷ xs) = (v <ℤ x) × AllAbove v xs

pub insert_new :
    (v : ℤ) (xs ys : List ℤ) → AllBelow v xs → AllAbove v ys → insert v (xs ++ ys) ≡ xs ++ v ∷ ys
unfolding insert
insert_new v [] [] h k = refl
insert_new v [] (y ∷ ys) h k = ground arith
insert_new v (x ∷ xs) ys h k = ground (arith, insert_new v xs ys h.1 k)

pub insert_old : (v : ℤ) (xs ys : List ℤ) → AllBelow v xs → insert v (xs ++ v ∷ ys) ≡ xs ++ v ∷ ys
unfolding insert
insert_old v [] ys h = ground arith
insert_old v (x ∷ xs) ys h = ground (arith, insert_old v xs ys h.1)

pub erase_old : (v : ℤ) (xs ys : List ℤ) → AllBelow v xs → erase v (xs ++ v ∷ ys) ≡ xs ++ ys
unfolding erase
erase_old v [] ys h = ground arith
erase_old v (x ∷ xs) ys h = ground (arith, erase_old v xs ys h.1)

pub erase_absent : (v : ℤ) (xs : List ℤ) → contains v xs ≡ false → erase v xs ≡ xs
unfolding erase contains
erase_absent v [] h = refl
erase_absent v (x ∷ xs) h = ground (arith, erase_absent v xs)

pub contains_old : (v : ℤ) (xs ys : List ℤ) → contains v (xs ++ v ∷ ys) ≡ true
unfolding contains
contains_old v [] ys = ground arith
contains_old v (x ∷ xs) ys = ground (arith, contains_old v xs ys)

pub contains_absent :
    (v : ℤ) (xs ys : List ℤ) → AllBelow v xs → AllAbove v ys → contains v (xs ++ ys) ≡ false
unfolding contains
contains_absent v [] [] h k = refl
contains_absent v [] (y ∷ ys) h k = ground (arith, contains_absent v [] ys h k.1)
contains_absent v (x ∷ xs) ys h k = ground (arith, contains_absent v xs ys h.1 k)

-- The values of `f` at `n` places from `i` on.
unfoldable pub cells : (ℕ → ℤ) → ℕ → ℕ → List ℤ
cells f i zero = []
cells f i (suc n) = f i ∷ cells f (i + 1) n

pub cells-append :
    (f : ℕ → ℤ) (i n k j total : ℕ)
    → j ≡ i + n
    → total ≡ n + k
    → cells f i total ≡ cells f i n ++ cells f j k
unfolding cells
cells-append f i zero k j total e t = ap₂ (cells f) (omega arith) (omega arith)
cells-append f i (suc n) k j total e t =
    let shift : total ≡ suc (n + k) = omega arith in
    ap (cells f i) shift
    ∙ ap (λ r. f i ∷ r) (cells-append f (i + 1) n k j (n + k) (omega arith) refl)

pub cells_congr :
    (f g : ℕ → ℤ) (i k n : ℕ)
    → ((j : ℕ) → j < n → f (i + j) ≡ g (k + j))
    → cells f i n ≡ cells g k n
unfolding cells
cells_congr f g i k zero h = refl
cells_congr f g i k (suc n) h =
    ap₂ (λ x r. x ∷ r) (ap f (omega arith) ∙ h 0 (omega arith) ∙ ap g (omega arith))
      (cells_congr f g (i + 1) (k + 1) n
        (λ j p. ap f (omega arith) ∙ h (suc j) (omega arith) ∙ ap g (omega arith)))

pub cells-AllBelow :
    (f : ℕ → ℤ) (v : ℤ) (i n : ℕ)
    → ((j : ℕ) → i ≤ j → j < i + n → f j <ℤ v)
    → AllBelow v (cells f i n)
unfolding cells
cells-AllBelow f v i zero h = tt
cells-AllBelow f v i (suc n) h = (
  h i (omega arith) (omega arith),
  cells-AllBelow f v (i + 1) n (λ j p q. h j (omega arith) (omega arith)),
)

pub cells-AllAbove :
    (f : ℕ → ℤ) (v : ℤ) (i n : ℕ)
    → ((j : ℕ) → i ≤ j → j < i + n → v <ℤ f j)
    → AllAbove v (cells f i n)
unfolding cells
cells-AllAbove f v i zero h = tt
cells-AllAbove f v i (suc n) h = (
  h i (omega arith) (omega arith),
  cells-AllAbove f v (i + 1) n (λ j p q. h j (omega arith) (omega arith)),
)
