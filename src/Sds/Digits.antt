-- ===== src/Sds/Digits.antt =====
-- The two loops: what the digits loop leaves, and what the reversal does to a place.
use native.Mathlib.Nat.{pow-succ'}
use redis_allocators.Prelude.{
  ℕ, zero, suc, ◌+◌, ◌-◌, ◌/◌, ◌%◌, ◌^◌, ◌≤◌, ◌<◌, ◌≡◌, refl, ap, ap₂, sym, ◌∙◌, inl, inr, List, [],
  ◌∷◌, ◌++◌, ◌==◌, ltb, leb, ◌&&◌, if◌then◌else◌, arith, length, length-append, Bool-cases,
}
use redis_allocators.Prelude.Memory.{Memory, store, read}
use redis_allocators.Util.Decimal.{decimal, decimal_of_lt, decimal_step, length-decimal_pos}
use redis_allocators.Sds.{push_digits, reverse_loop}

-- The `n` bytes from `p` downwards.
unfoldable pub read_down : Memory → ℕ → ℕ → List ℕ
read_down m p zero = []
read_down m p (suc n) = m p ∷ read_down m (p - 1) n

read_down_snoc :
    (m : Memory) (p n : ℕ) → n ≤ p → read_down m p (suc n) ≡ read_down m p n ++ (m (p - n) ∷ [])
unfolding read_down
read_down_snoc m p zero h = ap (λ k. m k ∷ []) (omega arith)
read_down_snoc m p (suc n) h =
    let e : p - 1 - n ≡ p - suc n = omega arith in
    ap (λ l. m p ∷ l) (read_down_snoc m (p - 1) n (omega arith))
    ∙ ap (λ k. m p ∷ (read_down m (p - 1) n ++ (m k ∷ []))) e

-- What the digits loop leaves: the text downwards, and the cells below untouched.
pub record IsPushed (v : ℕ) (m : Memory) (p : ℕ) (m' : Memory) (q : ℕ) : Type 0 where
  pub size : q ≡ p + length (decimal v)
  pub text : read_down m' (q - 1) (length (decimal v)) ≡ decimal v
  pub below : (j : ℕ) → j < p → m' j ≡ m j
  pub above : (j : ℕ) → q ≤ j → m' j ≡ m j

push_last : (m : Memory) (p v : ℕ) → v < 10 → IsPushed v m p (store m p (b'0' + v % 10)) (p + 1)
unfolding read_down
push_last m p v small =
    let one = decimal_of_lt v small in
    let byte : b'0' + v % 10 ≡ b'0' + v = omega arith in
    let back : p + 1 - 1 ≡ p = omega arith in
    let here : store m p (b'0' + v % 10) p ≡ b'0' + v = ground arith in
    record {
      size = omega (arith, ap length one);
      text = rw (one, back) (ap (λ c. c ∷ []) here);
      below = λ j h. ground arith;
      above = λ j h. ground arith;
    }

push_next :
    (m m' : Memory) (p v q : ℕ)
    → 10 ≤ v
    → IsPushed (v / 10) (store m p (b'0' + v % 10)) (p + 1) m' q
    → IsPushed v m p m' q
unfolding read_down
push_next m m' p v q big pushed =
    let k = length (decimal (v / 10)) in
    let step = decimal_step v big in
    let long : length (decimal v) ≡ suc k =
      ap length step ∙ length-append (decimal (v / 10)) ((b'0' + v % 10) ∷ []) ∙ omega arith in
    let size : q ≡ p + 1 + k = pushed.size in
    let some_digit = length-decimal_pos (v / 10) in
    let at : q - 1 - k ≡ p = omega arith in
    let low : m' (q - 1 - k) ≡ b'0' + v % 10 =
      rw at (pushed.below p (omega arith) ∙ ground arith) in
    record {
      size = omega (arith, long);
      text =
          ap (read_down m' (q - 1)) long
          ∙ read_down_snoc m' (q - 1) k (omega arith)
          ∙ ap₂ (λ l c. l ++ (c ∷ [])) pushed.text low
          ∙ sym step;
      below = λ j h. pushed.below j (omega arith) ∙ ground arith;
      above = λ j h. pushed.above j h ∙ ground arith;
    }

pub push_digits-IsPushed :
    (fuel : ℕ) (m : Memory) (p v : ℕ)
    → v < 10 ^ suc fuel
    → let (m', q) = push_digits fuel m p v in IsPushed v m p m' q
unfolding push_digits
push_digits-IsPushed zero m p v small = push_last m p v (omega arith)
push_digits-IsPushed (suc fuel) m p v small =
    let less : v / 10 < 10 ^ suc fuel = omega (arith, pow-succ' 10 (suc fuel)) in
    elim (Bool-cases (v / 10 == 0)) [
      | inl e ↦ rw e (push_last m p v (ground arith))
      | inr e ↦ rw e (
          push_next m _ p v _ (ground arith)
            (push_digits-IsPushed fuel (store m p (b'0' + v % 10)) (p + 1) (v / 10) less))
    ]

-- Each byte goes to the mirrored place.
abbrev pub mirrored : Memory → ℕ → ℕ → Memory
mirrored m s p j = if leb s j && leb j p then m (s + p - j) else m j

swap_lem :
    (m : Memory) (s p j : ℕ)
    → s < p
    → mirrored (store (store m s (m p)) p (m s)) (s + 1) (p - 1) j ≡ mirrored m s p j
swap_lem m s p j less =
    let first : j ≡ s → m p ≡ m (s + p - j) = λ e. ap m (omega arith) in
    let last : j ≡ p → m s ≡ m (s + p - j) = λ e. ap m (omega arith) in
    let inner : m (s + 1 + (p - 1) - j) ≡ m (s + p - j) = ap m (omega arith) in ground arith

pub reverse_loop-mirrored :
    (fuel : ℕ) (m : Memory) (s p j : ℕ)
    → p < s + fuel
    → reverse_loop fuel m s p j ≡ mirrored m s p j
unfolding reverse_loop
reverse_loop-mirrored zero m s p j enough = ground arith
reverse_loop-mirrored (suc fuel) m s p j enough = elim (Bool-cases (ltb s p)) [
  | inr e ↦ elim (Bool-cases (leb s j && leb j p)) [
    | inl h ↦ let same : j ≡ s + p - j = ground arith in rw (e, h) (ap m same)
    | inr h ↦ rw (e, h) refl
  ]
  | inl e ↦
      let m' = store (store m s (m p)) p (m s) in
      rw e (
        reverse_loop-mirrored fuel m' (s + 1) (p - 1) j (ground arith)
        ∙ swap_lem m s p j (ground arith))
]

pub read_mirrored :
    (m m' : Memory) (i p n : ℕ)
    → n ≤ p + 1
    → ((j : ℕ) → j < n → m' (i + j) ≡ m (p - j))
    → read m' i n ≡ read_down m p n
unfolding read read_down
read_mirrored m m' i p zero fits h = refl
read_mirrored m m' i p (suc n) fits h =
    let head : m' i ≡ m p = ap m' (omega arith) ∙ h 0 (omega arith) ∙ ap m (omega arith) in
    let shift : (j : ℕ) → j < n → m' (i + 1 + j) ≡ m (p - 1 - j) =
      λ j less. ap m' (omega arith) ∙ h (suc j) (omega arith) ∙ ap m (omega arith) in
    ap₂ ◌∷◌ head (read_mirrored m m' (i + 1) (p - 1) n (omega arith) shift)
