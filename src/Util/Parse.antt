-- ===== src/Util/Parse.antt =====
-- `string2ll` accepts exactly the decimal texts of the numbers of type `long long`.
use redis_allocators.Prelude.{
  ℕ, zero, suc, ◌+◌, ◌-◌, ◌*◌, ◌/◌, ◌%◌, ◌^◌, ◌≤◌, ◌<◌, ◌≡◌, refl, ◌∙◌, sym, ap, ap₂, List, [], ◌∷◌,
  ◌++◌, arith, ltb, Bool-cases, inl, inr, length, true, false, Option, some, none, ◌==◌, Bool, ◌&&◌,
  append_assoc, append-nil,
}
use redis_allocators.Prelude.Int.{ℤ, pos, negsuc}
use redis_allocators.Util.Decimal.{decimal, decimal_text, IsInt64, decimal_of_lt, decimal_step}
use redis_allocators.Util.{string2ll, parse_first, parse_end, parse_digits}

parse_digits-append :
    (v m : ℕ) (xs ys : List ℕ)
    → parse_digits v xs ≡ some (m, [])
    → parse_digits v (xs ++ ys) ≡ parse_digits m ys
unfolding parse_digits
parse_digits-append v m [] ys h = ap (λ k. parse_digits k ys) (ground arith)
parse_digits-append v m (c ∷ xs) ys h =
    ground (arith, parse_digits-append ((v * 10 % 2 ^ 64 + (c - 48)) % 2 ^ 64) m xs ys)

-- The first digit of a positive number, and what the loop makes of the others.
record Parses (n : ℕ) : Type 0 where
  first : ℕ
  rest : List ℕ
  text : decimal n ≡ first ∷ rest
  low : 49 ≤ first
  high : first ≤ 57
  value : parse_digits (first - 48) rest ≡ some (n, [])

parse_last :
    (m d : ℕ)
    → d < 10
    → m * 10 + d < 2 ^ 64
    → parse_digits m ((48 + d) ∷ []) ≡ some (m * 10 + d, [])
unfolding parse_digits
parse_last m d h fits = ground arith

decimal-Parses : (fuel n : ℕ) → n < fuel → 0 < n → n < 2 ^ 64 → Parses n
decimal-Parses zero n h pos64 fits = absurd (omega arith)
decimal-Parses (suc fuel) n h positive fits = elim (Bool-cases (ltb n 10)) [
  | inl small ↦ record {
    first = 48 + n;
    rest = [];
    text = decimal_of_lt n (ground arith);
    low = omega arith;
    high = ground arith;
    value = unfold parse_digits in ground arith;
  }
  | inr large ↦
      let shorter = decimal-Parses fuel (n / 10) (ground arith) (ground arith) (omega arith) in
      record {
        first = shorter.first;
        rest = shorter.rest ++ (48 + n % 10) ∷ [];
        text = decimal_step n (ground arith) ∙ ap (λ r. r ++ (48 + n % 10) ∷ []) shorter.text;
        low = shorter.low;
        high = shorter.high;
        value =
            parse_digits-append _ (n / 10) shorter.rest _ shorter.value
            ∙ parse_last (n / 10) (n % 10) (omega arith) (omega arith)
            ∙ ap (λ k. some (k, [])) (omega arith);
      }
]

string2ll_pos : (n : ℕ) → 0 < n → n < 2 ^ 63 → string2ll (decimal n) ≡ some (pos n)
unfolding string2ll parse_first parse_end
string2ll_pos n positive range =
    let p = decimal-Parses (suc n) n (omega arith) positive (omega arith) in
    rw p.text (ground (arith, p.low, p.high, p.value))

string2ll_neg : (n : ℕ) → n < 2 ^ 63 → string2ll (b'-' ∷ decimal (suc n)) ≡ some (negsuc n)
unfolding string2ll parse_first parse_end
string2ll_neg n range =
    let p = decimal-Parses (suc (suc n)) (suc n) (omega arith) (omega arith) (omega arith) in
    rw p.text (ground (arith, p.low, p.high, p.value))

-- Every number of type `long long` is read back from its decimal text.
pub string2ll-decimal_text : (v : ℤ) → IsInt64 v → string2ll (decimal_text v) ≡ some v
unfolding decimal_text
string2ll-decimal_text (pos zero) range =
    rw (decimal_of_lt 0 (omega arith)) (unfold string2ll in refl)
string2ll-decimal_text (pos (suc n)) range = string2ll_pos (suc n) (omega arith) range
string2ll-decimal_text (negsuc n) range = string2ll_neg n range

-- A round that does not fail has read a digit, and nothing has wrapped.
parse_digits_cons :
    (v n c : ℕ) (p : List ℕ)
    → v < 2 ^ 64
    → parse_digits v (c ∷ p) ≡ some (n, [])
    → (48 ≤ c)
      × (c ≤ 57)
      × (v * 10 + (c - 48) < 2 ^ 64)
      × (parse_digits (v * 10 + (c - 48)) p ≡ some (n, []))
unfolding parse_digits
parse_digits_cons v n c p small h = ground arith

decimal_snoc :
    (v c : ℕ) → 0 < v → 48 ≤ c → c ≤ 57 → decimal (v * 10 + (c - 48)) ≡ decimal v ++ c ∷ []
decimal_snoc v c positive low high =
    decimal_step (v * 10 + (c - 48)) (omega arith)
    ∙ ap₂ (λ q d. decimal q ++ d ∷ []) (omega arith) (omega arith)

-- What the loop accepts is the decimal text of the number that it returns.
parse_digits_sound :
    (v n : ℕ) (p : List ℕ)
    → 0 < v
    → v < 2 ^ 64
    → parse_digits v p ≡ some (n, [])
    → (decimal n ≡ decimal v ++ p) × (0 < n) × (n < 2 ^ 64)
unfolding parse_digits
parse_digits_sound v n [] positive small h =
    let e : n ≡ v = ground arith in (rw append-nil (ap decimal e), omega arith, omega arith)
parse_digits_sound v n (c ∷ p) positive small h =
    let (low, high, fits, tail) = parse_digits_cons v n c p small h in
    let (text, positive', bound) =
      parse_digits_sound (v * 10 + (c - 48)) n p (omega arith) fits tail in
    (
      text
          ∙ ap (λ r. r ++ p) (decimal_snoc v c positive low high)
          ∙ append_assoc (decimal v) (c ∷ []) p,
      positive',
      bound,
    )

-- What `parse_first` accepts behind the sign.
abbrev Accepted : Bool → List ℕ → ℤ → Type 0
Accepted negative p v =
    (n : ℕ) × (decimal n ≡ p) × (0 < n) × (parse_end negative (some (n, [])) ≡ some v)

parse_end_used :
    (negative : Bool) (r : Option (ℕ × List ℕ)) (v : ℤ)
    → parse_end negative r ≡ some v
    → (n : ℕ) × (r ≡ some (n, []))
unfolding parse_end
parse_end_used negative none v h = cc
parse_end_used negative (some (n, [])) v h = (n, refl)
parse_end_used true (some (n, c ∷ p)) v h = cc
parse_end_used false (some (n, c ∷ p)) v h = cc

first_digit :
    (negative : Bool) (slen c : ℕ) (p : List ℕ) (v : ℤ)
    → (c == b'0' && slen == 1) ≡ false
    → parse_first negative slen (c ∷ p) ≡ some v
    → (49 ≤ c) × (c ≤ 57) × (parse_end negative (parse_digits (c - 48) p) ≡ some v)
unfolding parse_first
first_digit negative slen c p v nonzero h = ground arith

parse_first_sound :
    (negative : Bool) (slen c : ℕ) (p : List ℕ) (v : ℤ)
    → (c == b'0' && slen == 1) ≡ false
    → parse_first negative slen (c ∷ p) ≡ some v
    → Accepted negative (c ∷ p) v
parse_first_sound negative slen c p v nonzero h =
    let (low, high, ended) = first_digit negative slen c p v nonzero h in
    let (n, used) = parse_end_used negative _ v ended in
    let (text, positive, bound) =
      parse_digits_sound (c - 48) n p (omega arith) (omega arith) used in
    let one : decimal (c - 48) ≡ c ∷ [] =
      decimal_of_lt (c - 48) (omega arith) ∙ ap (λ d. d ∷ []) (omega arith) in
    (n, text ∙ ap (λ r. r ++ p) one, positive, ap (parse_end negative) (sym used) ∙ ended)

of_positive : (p : List ℕ) (v : ℤ) → Accepted false p v → IsInt64 v × (p ≡ decimal_text v)
unfolding parse_end decimal_text
of_positive p v (n, text, positive, h) =
    let fits : n < 2 ^ 63 = ground arith in
    let e : v ≡ pos n = ground arith in rw e (fits, sym text)

of_negative : (p : List ℕ) (v : ℤ) → Accepted true p v → IsInt64 v × (b'-' ∷ p ≡ decimal_text v)
unfolding parse_end decimal_text
of_negative p v (n, text, positive, h) =
    let fits : n ≤ 2 ^ 63 = ground arith in
    let e : v ≡ negsuc (n - 1) = ground arith in
    let back : suc (n - 1) ≡ n = omega arith in rw (e, back) (omega arith, ap (◌∷◌ b'-') (sym text))

parse_first_nil : (slen : ℕ) → parse_first true slen [] ≡ none
unfolding parse_first
parse_first_nil slen = refl

zero_text : decimal 0 ≡ b'0' ∷ []
zero_text = decimal_of_lt 0 (omega arith)

-- Whatever `string2ll` accepts is the decimal text of the number that it stores, and the number
-- is of type `long long`.
pub string2ll_sound : (s : List ℕ) (v : ℤ) → string2ll s ≡ some v → IsInt64 v × (s ≡ decimal_text v)
unfolding string2ll
string2ll_sound [] v h = cc
string2ll_sound (c ∷ []) v h = elim (Bool-cases (c == b'0')) [
  | inl zero_digit ↦
      let e : v ≡ pos 0 = ground arith in
      let d : c ≡ 48 = ground arith in rw (e, d) (omega arith, unfold decimal_text in sym zero_text)
  | inr other ↦
      of_positive (c ∷ []) v
        (parse_first_sound false 1 c [] v (ground arith) (ground (arith, parse_first_nil 1)))
]
string2ll_sound (c ∷ d ∷ p) v h = elim (Bool-cases (c == b'-')) [
  | inl minus ↦
      let e : c ≡ 45 = ground arith in
      rw e (
        of_negative (d ∷ p) v
          (parse_first_sound true (length (c ∷ d ∷ p)) d p v (ground arith) (ground arith)))
  | inr other ↦
      of_positive (c ∷ d ∷ p) v
        (parse_first_sound false (length (c ∷ d ∷ p)) c (d ∷ p) v (ground arith) (ground arith))
]
