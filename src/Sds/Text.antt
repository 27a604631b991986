-- ===== src/Sds/Text.antt =====
-- The decimal text and its terminator in the buffer.
use native.Mathlib.Nat.{pow-succ'}
use redis_allocators.Prelude.{
  ℕ, zero, suc, ◌+◌, ◌-◌, ◌/◌, ◌%◌, ◌^◌, ◌≤◌, ◌<◌, ◌≡◌, refl, ap, ap₂, sym, ◌∙◌, true, false, inl,
  inr, some, List, [], ◌∷◌, ltb, arith, length, length-append, Bool-cases,
}
use redis_allocators.Prelude.Int.{ℤ, pos, negsuc, ltb_ℤ}
use redis_allocators.Prelude.Memory.{Memory, store, read}
use redis_allocators.Util.{magnitude, string2ll}
use redis_allocators.Util.Decimal.{
  decimal, decimal_text, decimal_of_lt, decimal_step, length-decimal_pos, IsInt64,
}
use redis_allocators.Sds.{push_digits, reverse_loop, sdsull2str, sdsll2str, sdsfromlonglong}
use redis_allocators.Util.Parse.{string2ll-decimal_text}
use redis_allocators.Sds.Digits.{
  read_down, push_digits-IsPushed, mirrored, reverse_loop-mirrored, read_mirrored,
}

reversed_lem :
    (m : Memory) (l : ℕ)
    → 0 < l
    → let m' = reverse_loop l (store m l 0) 0 (l - 1) in
      (read m' 0 l ≡ read_down m (l - 1) l) × (m' l ≡ 0) × ((j : ℕ) → l < j → m' j ≡ m j)
reversed_lem m l some_byte =
    let mirror = λ (j : ℕ). reverse_loop-mirrored l (store m l 0) 0 (l - 1) j (omega arith) in
    (
      read_mirrored m _ 0 (l - 1) l (omega arith) (λ j less. mirror (0 + j) ∙ cell j less),
      mirror l ∙ ground arith,
      λ j h. mirror j ∙ ground arith,
    )
  where
    cell : (j : ℕ) → j < l → mirrored (store m l 0) 0 (l - 1) (0 + j) ≡ m (l - 1 - j)
    cell j less = let e : 0 + (l - 1) - (0 + j) ≡ l - 1 - j = omega arith in ground (arith, ap m e)

pub length-decimal_le : (k v : ℕ) → v < 10 ^ suc k → length (decimal v) ≤ suc k
length-decimal_le zero v h = omega (arith, ap length (decimal_of_lt v (omega arith)))
length-decimal_le (suc k) v h = elim (Bool-cases (ltb v 10)) [
  | inl e ↦ omega (arith, ap length (decimal_of_lt v (ground arith)))
  | inr e ↦
      let less : v / 10 < 10 ^ suc k = omega (arith, pow-succ' 10 (suc k)) in
      omega (
        arith,
        ap length (decimal_step v (ground arith)),
        length-append (decimal (v / 10)) ((b'0' + v % 10) ∷ []),
        length-decimal_le k (v / 10) less,
      )
]

-- A buffer after a conversion: the text, its terminator, and nothing else.
pub record IsText (s : Memory) (text : List ℕ) (l : ℕ) (m : Memory) : Type 0 where
  pub size : l ≡ length text
  pub bytes : read m 0 l ≡ text
  pub terminator : m l ≡ 0
  pub above : (j : ℕ) → l < j → m j ≡ s j

read_down_congr :
    (m m' : Memory) (p n : ℕ) → ((j : ℕ) → j ≤ p → m j ≡ m' j) → read_down m p n ≡ read_down m' p n
unfolding read_down
read_down_congr m m' p zero h = refl
read_down_congr m m' p (suc n) h =
    ap₂ ◌∷◌ (h p (omega arith)) (read_down_congr m m' (p - 1) n (λ j le. h j (omega arith)))

magnitude_pos : (n : ℕ) → magnitude (pos n) ≡ n
unfolding magnitude
magnitude_pos n = refl

magnitude_negsuc : (n : ℕ) → n < 2 ^ 63 → magnitude (negsuc n) ≡ suc n
unfolding magnitude
magnitude_negsuc n small = ground arith

reversed-IsText :
    (s m : Memory) (l : ℕ) (text : List ℕ)
    → 0 < l
    → l ≡ length text
    → read_down m (l - 1) l ≡ text
    → ((j : ℕ) → l < j → m j ≡ s j)
    → IsText s text l (reverse_loop l (store m l 0) 0 (l - 1))
reversed-IsText s m l text some_byte size down above =
    let (bytes, terminator, rest) = reversed_lem m l some_byte in
    record {
      size = size;
      bytes = bytes ∙ down;
      terminator = terminator;
      above = λ j h. rest j h ∙ above j h;
    }

-- `sdsull2str` writes the decimal text of an unsigned long long and its terminator.
pub sdsull2str-IsText :
    (s : Memory) (v : ℕ) → v < 2 ^ 64 → let (l, m) = sdsull2str s v in IsText s (decimal v) l m
unfolding sdsull2str
sdsull2str-IsText s v small =
    let pushed = push_digits-IsPushed 24 s 0 v (omega arith) in
    let some_digit = length-decimal_pos v in
    let size : (push_digits 24 s 0 v).1 ≡ length (decimal v) = omega (arith, pushed.size) in
    reversed-IsText s _ _ (decimal v) (omega arith) size (ap (read_down _ _) size ∙ pushed.text)
      (λ j h. pushed.above j (omega arith))

-- `sdsll2str` writes the decimal text of a long long and its terminator, and no more than
-- SDS_LLSTR_SIZE bytes.
pub sdsll2str-IsText :
    (s : Memory) (v : ℤ)
    → IsInt64 v
    → let (l, m) = sdsll2str s v in IsText s (decimal_text v) l m × (l + 1 ≤ 21)
unfolding sdsll2str decimal_text read_down
sdsll2str-IsText s (pos n) small =
    let pushed = push_digits-IsPushed 24 s 0 n (omega arith) in
    let some_digit = length-decimal_pos n in
    let size : (push_digits 24 s 0 n).1 ≡ length (decimal n) = omega (arith, pushed.size) in
    let not_negative : ltb_ℤ (pos n) (pos 0) ≡ false = ground arith in
    rw (magnitude_pos n, not_negative)
      (
        reversed-IsText s _ _ (decimal n) (omega arith) size (ap (read_down _ _) size ∙ pushed.text)
            (λ j h. pushed.above j (omega arith)),
        omega (arith, length-decimal_le 18 n (omega arith)),
      )
sdsll2str-IsText s (negsuc n) small =
    let v = suc n in
    let some_digit = length-decimal_pos v in
    let (m, p) = push_digits 24 s 0 v in
    let pushed = push_digits-IsPushed 24 s 0 v (omega arith) in
    let size : p ≡ length (decimal v) = omega (arith, pushed.size) in
    let last : p + 1 - 1 ≡ p = omega arith in
    let digits =
      read_down_congr m (store m p b'-') (p - 1) (length (decimal v)) (λ j h. ground arith) in
    let minus : store m p b'-' p ≡ b'-' = ground arith in
    let long : p + 1 ≡ suc (length (decimal v)) = omega arith in
    let down : read_down (store m p b'-') (p + 1 - 1) (p + 1) ≡ b'-' ∷ decimal v =
      ap₂ (read_down (store m p b'-')) last long ∙ ap₂ ◌∷◌ minus (sym digits ∙ pushed.text) in
    let negative : ltb_ℤ (negsuc n) (pos 0) ≡ true = ground arith in
    rw (magnitude_negsuc n small, negative)
      (
        reversed-IsText s (store m p b'-') (p + 1) (b'-' ∷ decimal v) (omega arith) (omega arith)
            down (λ j h. ground (arith, pushed.above j (omega arith))),
        omega (arith, length-decimal_le 18 v (omega arith)),
      )

-- `sdsfromlonglong` is the decimal text, whatever the buffer holds before.
pub sdsfromlonglong-eq-decimal_text :
    (buf : Memory) (v : ℤ) → IsInt64 v → sdsfromlonglong buf v ≡ decimal_text v
unfolding sdsfromlonglong
sdsfromlonglong-eq-decimal_text buf v small =
    let (text, fits) = sdsll2str-IsText buf v small in text.bytes

-- `string2ll` reads every long long back from what `sdsfromlonglong` makes of it, whatever the
-- buffer of the conversion holds before.
pub string2ll-sdsfromlonglong :
    (buf : Memory) (v : ℤ) → IsInt64 v → string2ll (sdsfromlonglong buf v) ≡ some v
string2ll-sdsfromlonglong buf v small =
    ap string2ll (sdsfromlonglong-eq-decimal_text buf v small) ∙ string2ll-decimal_text v small
