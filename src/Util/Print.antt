-- ===== src/Util/Print.antt =====
-- `ll2string` writes the decimal text of its argument.
use redis_allocators.Prelude.{
  ℕ, suc, ◌+◌, ◌^◌, ◌≤◌, ◌<◌, ◌≡◌, refl, ◌∙◌, ap, List, ◌∷◌, arith, leb, length, true, false,
}
use redis_allocators.Prelude.Memory.{Memory, store, read, read_congr}
use redis_allocators.Prelude.Int.{ℤ, pos, negsuc, ltb_ℤ}
use redis_allocators.Util.Decimal.{decimal, decimal_text, IsInt64, length-decimal_pos}
use redis_allocators.Util.Digits.{digits10-eq-length, length-decimal_bound}
use redis_allocators.Util.{digits10, magnitude, ll2string, sub32, bool_to_nat}
use redis_allocators.Util.Pairs.{print_number, Fits, IsPrinted, print_number-IsPrinted}

magnitude_pos : (n : ℕ) → magnitude (pos n) ≡ n
unfolding magnitude
magnitude_pos n = refl

magnitude_neg : (n : ℕ) → magnitude (negsuc n) ≡ suc n
unfolding magnitude
magnitude_neg n = ground arith

ltb_pos : (n : ℕ) → ltb_ℤ (pos n) (pos 0) ≡ false
ltb_pos n = ground arith

ltb_negsuc : (n : ℕ) → ltb_ℤ (negsuc n) (pos 0) ≡ true
ltb_negsuc n = ground arith

-- The number that `ll2string` returns when the buffer is large enough.
size_lem :
    (v : ℤ)
    → IsInt64 v
    → digits10 (magnitude v) + bool_to_nat (ltb_ℤ v (pos 0)) ≡ length (decimal_text v)
unfolding decimal_text magnitude
size_lem (pos n) h = rw (ltb_pos n, digits10-eq-length n (omega arith)) (omega arith)
size_lem (negsuc n) h =
    rw (magnitude_neg n, ltb_negsuc n, digits10-eq-length (suc n) (omega arith)) (omega arith)

-- A buffer with no room for the text and the terminator: `ll2string` returns 0 and writes nothing.
pub ll2string_too_small :
    (dst : Memory) (dstlen : ℕ) (v : ℤ)
    → IsInt64 v
    → dstlen ≤ length (decimal_text v)
    → ll2string dst dstlen v ≡ (0, dst)
unfolding ll2string
ll2string_too_small dst dstlen v range h =
    let short : leb dstlen (digits10 (magnitude v) + bool_to_nat (ltb_ℤ v (pos 0))) ≡ true =
      ground (arith, size_lem v range) in
    rw (short, ll2string)

-- What a call that succeeds leaves: the length returned, the text, the terminator, and every
-- byte behind it as before.
abbrev pub Prints : Memory → ℤ → ℕ × Memory → Type 0
Prints dst v (size, after) =
    (size ≡ length (decimal_text v))
    × (read after 0 size ≡ decimal_text v)
    × (after size ≡ 0)
    × ((j : ℕ) → after (size + 1 + j) ≡ dst (size + 1 + j))

read-store_front :
    (m : Memory) (c k : ℕ) {bytes : List ℕ}
    → read m 1 k ≡ bytes
    → read (store m 0 c) 0 (suc k) ≡ c ∷ bytes
unfolding read
read-store_front m c k h =
    ap (λ r. c ∷ r) (read_congr (store m 0 c) m 1 k (λ j lo hi. ground arith) ∙ h)

-- The digits of a number with `base` bytes before them and a terminator behind them.
Fits-ten : (n : ℕ) → n < 2 ^ 64 → Fits 10 n
Fits-ten n h = omega arith

digits_and_end :
    (dst : Memory) (n base size : ℕ)
    → n < 2 ^ 64
    → base ≤ 1
    → size ≡ base + length (decimal n)
    → IsPrinted n base
        (sub32 size 1)
        (store dst size 0)
        (print_number 10 n (sub32 size 1) (store dst size 0))
digits_and_end dst n base size h small e =
    let some_digit = length-decimal_pos n in
    let few = length-decimal_bound n h in
    print_number-IsPrinted 10 n base _ _ (Fits-ten n h) (omega arith) (omega arith)

-- A buffer with room: `ll2string` returns the length of the decimal text of the number, has written
-- that text and the terminator, and has changed no byte behind them.
pub ll2string_lem :
    (dst : Memory) (dstlen : ℕ) (v : ℤ)
    → IsInt64 v
    → length (decimal_text v) < dstlen
    → Prints dst v (ll2string dst dstlen v)
unfolding ll2string decimal_text
ll2string_lem dst dstlen (pos n) range h =
    let size = size_lem (pos n) range in
    let long : leb dstlen (digits10 (magnitude (pos n)) + bool_to_nat (ltb_ℤ (pos n) (pos 0)))
        ≡ false =
      ground arith in
    let some_digit = length-decimal_pos n in
    let few = length-decimal_bound n (omega arith) in
    let k = length (decimal n) in
    let p = digits_and_end dst n 0 k (omega arith) (omega arith) (omega arith) in
    rw (long, ll2string)
      (rw (size, ltb_pos n, magnitude_pos n)
        (
          refl,
          p.digits,
          p.frame_above k (omega arith) ∙ ground arith,
          λ j. p.frame_above (k + 1 + j) (omega arith) ∙ ground arith,
        ))
ll2string_lem dst dstlen (negsuc n) range h =
    let size = size_lem (negsuc n) range in
    let long : leb dstlen (digits10 (magnitude (negsuc n)) + bool_to_nat (ltb_ℤ (negsuc n) (pos 0)))
        ≡ false =
      ground arith in
    let some_digit = length-decimal_pos (suc n) in
    let few = length-decimal_bound (suc n) (omega arith) in
    let k = length (decimal (suc n)) in
    let p = digits_and_end dst (suc n) 1 (suc k) (omega arith) (omega arith) (omega arith) in
    rw (long, ll2string)
      (rw (size, ltb_negsuc n, magnitude_neg n)
        (
          refl,
          read-store_front _ b'-' k p.digits,
          ground (arith, p.frame_above (suc k)),
          λ j. ground (arith, p.frame_above (suc k + 1 + j)),
        ))
