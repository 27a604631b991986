-- ===== src/Util/Pairs.antt =====
-- The loop of ll2string, which prints two digits at a time.
use redis_allocators.Prelude.{
  ℕ, zero, suc, ◌+◌, ◌*◌, ◌/◌, ◌%◌, ◌^◌, ◌≤◌, ◌<◌, ◌≡◌, refl, ◌∙◌, sym, ap, ap₂, subst, [], ◌∷◌,
  ◌++◌, arith, ltb, leb, Bool-cases, inl, inr, length, true, false, holds_up_to, holds_up_to_below,
  ◌==◌, ◌&&◌, append_assoc, length-append,
}
use redis_allocators.Prelude.Memory.{Memory, store, read, read-append}
use redis_allocators.Util.Decimal.{decimal, decimal_of_lt, decimal_step, length-decimal_pos}
use redis_allocators.Util.{digit, print_pairs, print_last, sub32}

digit_table_check :
    holds_up_to 100 (λ k. (digit (k * 2) == 48 + k / 10) && (digit (k * 2 + 1) == 48 + k % 10))
    ≡ true
unfolding holds_up_to digit
digit_table_check = refl

-- The table holds the two digits of each number below 100.
digit_pair : (k : ℕ) → k < 100 → (digit (k * 2) ≡ 48 + k / 10) × (digit (k * 2 + 1) ≡ 48 + k % 10)
digit_pair k h = ground (arith, holds_up_to_below 100 _ k h digit_table_check)

decimal_pair :
    (v : ℕ) → 100 ≤ v → decimal v ≡ decimal (v / 100) ++ (48 + v % 100 / 10) ∷ (48 + v % 10) ∷ []
decimal_pair v h =
    decimal_step v (omega arith)
    ∙ ap (λ r. r ++ (48 + v % 10) ∷ []) (decimal_step (v / 10) (omega arith))
    ∙ append_assoc (decimal (v / 10 / 10)) _ _
    ∙ ap₂ (λ q d. decimal q ++ (48 + d) ∷ (48 + v % 10) ∷ []) (omega arith) (omega arith)

length-decimal_pair : (v : ℕ) → 100 ≤ v → length (decimal v) ≡ length (decimal (v / 100)) + 2
length-decimal_pair v h = ap length (decimal_pair v h) ∙ length-append (decimal (v / 100)) _

decimal_two : (v : ℕ) → 10 ≤ v → v < 100 → decimal v ≡ (48 + v / 10) ∷ (48 + v % 10) ∷ []
decimal_two v lo hi = rw (decimal_step v lo, decimal_of_lt (v / 10) (omega arith)) refl

-- What the two parts of the loop leave in the buffer.
abbrev pub print_number : ℕ → ℕ → ℕ → Memory → Memory
print_number fuel value next dst =
    let (rest, next', dst') = print_pairs fuel value next dst in print_last rest next' dst'

-- `value` is below 100 after `fuel` divisions.
abbrev pub Fits : ℕ → ℕ → Type 0
Fits zero value = value < 100
Fits (suc fuel) value = Fits fuel (value / 100)

-- The digits stand from `base` to `next`, and no other byte has changed.
pub record IsPrinted (value base next : ℕ) (before after : Memory) : Type 0 where
  pub digits : read after base (length (decimal value)) ≡ decimal value
  pub frame_below : (j : ℕ) → j < base → after j ≡ before j
  pub frame_above : (j : ℕ) → next < j → after j ≡ before j

print_last-IsPrinted :
    (value base next : ℕ) (dst : Memory)
    → value < 100
    → next < 2 ^ 32
    → next + 1 ≡ base + length (decimal value)
    → IsPrinted value base next dst (print_last value next dst)
unfolding print_last read
print_last-IsPrinted value base next dst small room e = elim (Bool-cases (ltb value 10)) [
  | inl h ↦
      let one = decimal_of_lt value (ground arith) in
      let here : next ≡ base = omega (arith, ap length one) in
      record {
        digits = rw one (ap (λ c. c ∷ []) (ground arith));
        frame_below = λ j p. ground arith;
        frame_above = λ j p. ground arith;
      }
  | inr h ↦
      let two = decimal_two value (ground arith) small in
      let here : next ≡ base + 1 = omega (arith, ap length two) in
      record {
        digits = rw two (
            ap₂ (λ c d. c ∷ d ∷ []) (ground (arith, digit_pair value small))
              (ground (arith, digit_pair value small)));
        frame_below = λ j p. ground arith;
        frame_above = λ j p. ground arith;
      }
]

-- The buffer after one round's two writes.
abbrev write_pair : ℕ → ℕ → Memory → Memory
write_pair value next dst =
    store (store dst next (digit (value % 100 * 2 + 1))) (sub32 next 1) (digit (value % 100 * 2))

-- The two digits of this round stand behind those of the later rounds.
append_pair :
    (value base next : ℕ) (dst after : Memory)
    → 100 ≤ value
    → next < 2 ^ 32
    → next + 1 ≡ base + length (decimal value)
    → IsPrinted (value / 100) base (sub32 next 2) (write_pair value next dst) after
    → IsPrinted value base next dst after
unfolding read
append_pair value base next dst after big room e printed =
    let k = length (decimal (value / 100)) in
    let pair = decimal_pair value big in
    let size = length-decimal_pair value big in
    let some_digit = length-decimal_pos (value / 100) in
    let table = digit_pair (value % 100) (omega arith) in
    record {
      digits =
          ap (read after base) size
          ∙ read-append after base k 2 (base + k) refl
          ∙ ap₂ ◌++◌ printed.digits (
              ap₂ (λ c d. c ∷ d ∷ []) (ground (arith, printed.frame_above (base + k)))
                (ground (arith, printed.frame_above (base + k + 1))))
          ∙ sym pair;
      frame_below = λ j p. ground (arith, printed.frame_below j);
      frame_above = λ j p. ground (arith, printed.frame_above j);
    }

print_pairs_more :
    (fuel value next : ℕ) (dst : Memory)
    → leb 100 value ≡ true
    → print_pairs (suc fuel) value next dst
      ≡ print_pairs fuel (value / 100) (sub32 next 2) (write_pair value next dst)
unfolding print_pairs
print_pairs_more fuel value next dst h = rw (h, print_pairs)

print_pairs_done :
    (fuel value next : ℕ) (dst : Memory)
    → leb 100 value ≡ false
    → print_pairs (suc fuel) value next dst ≡ (value, next, dst)
unfolding print_pairs
print_pairs_done fuel value next dst h = rw (h, print_pairs)

-- The loop and the last digits print the whole number.
pub print_number-IsPrinted :
    (fuel value base next : ℕ) (dst : Memory)
    → Fits fuel value
    → next < 2 ^ 32
    → next + 1 ≡ base + length (decimal value)
    → IsPrinted value base next dst (print_number fuel value next dst)
unfolding print_pairs
print_number-IsPrinted zero value base next dst small room e =
    print_last-IsPrinted value base next dst small room e
print_number-IsPrinted (suc fuel) value base next dst small room e =
    elim (Bool-cases (leb 100 value)) [
      | inl h ↦
          let big : 100 ≤ value = ground arith in
          let size = length-decimal_pair value big in
          let some_digit = length-decimal_pos (value / 100) in
          subst (λ (r : ℕ × ℕ × Memory). IsPrinted value base next dst (print_last r.0 r.1 r.2))
            (sym (print_pairs_more fuel value next dst h))
            (append_pair value base next dst _ big room e (
              print_number-IsPrinted fuel (value / 100) base (sub32 next 2)
                (write_pair value next dst) small (omega arith) (omega arith)))
      | inr h ↦
          subst (λ (r : ℕ × ℕ × Memory). IsPrinted value base next dst (print_last r.0 r.1 r.2))
            (sym (print_pairs_done fuel value next dst h))
            (print_last-IsPrinted value base next dst (ground arith) room e)
    ]
