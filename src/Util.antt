-- ===== src/Util.antt =====
-- util.c: conversions between integers and their decimal text.
pub mod Decimal
pub mod Digits
pub mod Print
pub mod Pairs
pub mod Parse
pub mod Glob
use Prim.Native.Char.{code}
use Prim.Native.String.{String}
use redis_allocators.Prelude.{
  ℕ, zero, suc, ◌+◌, ◌-◌, ◌*◌, ◌/◌, ◌%◌, ◌^◌, Bool, true, false, not, ◌&&◌, ◌||◌, Option, none,
  some, List, [], ◌∷◌, ltb, leb, ◌==◌, if◌then◌else◌, length, Option, some, none, ◌&&◌, ◌%◌, ◌++◌,
  length, get_or,
}
use redis_allocators.Prelude.Int.{ℤ, pos, negsuc, ltb_ℤ}
use redis_allocators.Prelude.Memory.{Memory, store}

-- A C comparison as a number.
abbrev pub bool_to_nat : Bool → ℕ
bool_to_nat true = 1
bool_to_nat false = 0

-- `uint32_t` and `unsigned long long` subtraction wrap.
abbrev pub sub32 : ℕ → ℕ → ℕ
sub32 a b = (a + 2 ^ 32 - b) % 2 ^ 32

abbrev pub neg64 : ℕ → ℕ
neg64 a = (2 ^ 64 - a % 2 ^ 64) % 2 ^ 64

-- A 64 bit word read as a `long long`.
abbrev pub signed64 : ℕ → ℤ
signed64 w = if ltb w (2 ^ 63) then pos w else negsuc (2 ^ 64 - w - 1)

-- `digits10`, the calls nested at most `fuel` deep.
unfoldable pub digits10_fuel : ℕ → ℕ → ℕ
digits10_fuel zero v = 0
digits10_fuel (suc fuel) v =
    let rest = digits10_fuel fuel (v / 1000000000000) in
    if ltb v 10
    then 1
    else if ltb v 100
    then 2
    else if ltb v 1000
    then 3
    else if ltb v 1000000000000
    then if ltb v 100000000
      then if ltb v 1000000
        then if ltb v 10000 then 4 else 5 + bool_to_nat (leb 100000 v)
        else 7 + bool_to_nat (leb 10000000 v)
      else if ltb v 10000000000
      then 9 + bool_to_nat (leb 1000000000 v)
      else 11 + bool_to_nat (leb 100000000000 v)
    else 12 + rest

-- A `uint64_t` is below the square of 10 ^ 12, so one nested call is enough.
unfoldable pub digits10 : ℕ → ℕ
digits10 v = digits10_fuel 2 v

-- The bytes of an ASCII literal.
abbrev pub codes : String → List ℕ
codes String.[] = []
codes (String.◌∷◌ c s) = code c ∷ codes s

-- The table `digits` of `ll2string`: the two characters of each number below 100.
abbrev pub digit_table : List ℕ
digit_table =
    codes "0001020304050607080910111213141516171819"
    ++ codes "2021222324252627282930313233343536373839"
    ++ codes "4041424344454647484950515253545556575859"
    ++ codes "6061626364656667686970717273747576777879"
    ++ codes "8081828384858687888990919293949596979899"

unfoldable pub digit : ℕ → ℕ
digit i = get_or digit_table i 0

-- The loop over pairs of digits of `ll2string`: `value`, `next` and the buffer when it ends. A
-- value below 100 ^ (fuel + 1) is done within `fuel` rounds.
unfoldable pub print_pairs : ℕ → ℕ → ℕ → Memory → ℕ × ℕ × Memory
print_pairs zero value next dst = (value, next, dst)
print_pairs (suc fuel) value next dst = elim (leb 100 value) [
  | true ↦
      let i = value % 100 * 2 in
      let dst' = store dst next (digit (i + 1)) in
      print_pairs fuel (value / 100) (sub32 next 2) (store dst' (sub32 next 1) (digit i))
  | false ↦ (value, next, dst)
]

-- The last one or two digits of `ll2string`.
unfoldable pub print_last : ℕ → ℕ → Memory → Memory
print_last value next dst =
    if ltb value 10
    then store dst next (b'0' + value)
    else let dst' = store dst next (digit (value * 2 + 1)) in
      store dst' (sub32 next 1) (digit (value * 2))

-- `-svalue` as an unsigned number; `LLONG_MIN` has no negation in `long long`.
unfoldable pub magnitude : ℤ → ℕ
magnitude (pos n) = n
magnitude (negsuc n) = if n == 2 ^ 63 - 1 then 2 ^ 63 - 1 + 1 else suc n

-- `ll2string(dst, dstlen, svalue)`: the number returned and the buffer after the call. Ten rounds
-- are enough, since 2 ^ 64 < 100 ^ 11.
unfoldable pub ll2string : Memory → ℕ → ℤ → ℕ × Memory
ll2string dst dstlen svalue =
    let negative = ltb_ℤ svalue (pos 0) in
    let value = magnitude svalue in
    let size = digits10 value + bool_to_nat negative in
    if leb dstlen size
    then (0, dst)
    else let (rest, next, dst') = print_pairs 10 value (sub32 size 1) (store dst size 0) in
      let dst'' = print_last rest next dst' in
      (size, if negative then store dst'' 0 b'-' else dst'')

abbrev pub ullong_max : ℕ
ullong_max = 2 ^ 64 - 1

abbrev pub is_digit : ℕ → Bool
is_digit c = leb b'0' c && leb c b'9'

-- The loop of `string2ll` over the digits behind the first: the number and the bytes not read, or
-- `none` for a number that does not fit into 64 bits.
unfoldable pub parse_digits : ℕ → List ℕ → Option (ℕ × List ℕ)
parse_digits v [] = some (v, [])
parse_digits v (c ∷ p) =
    let v' = v * 10 % 2 ^ 64 in
    let rest = parse_digits ((v' + (c - b'0')) % 2 ^ 64) p in
    if is_digit c
    then if ltb (ullong_max / 10) v
      then none
      else if ltb (ullong_max - (c - b'0')) v'
      then none
      else rest
    else some (v, c ∷ p)

-- The end of `string2ll`: all bytes are used and the number fits with its sign.
unfoldable pub parse_end : Bool → Option (ℕ × List ℕ) → Option ℤ
parse_end negative none = none
parse_end negative (some (v, c ∷ p)) = none
parse_end true (some (v, [])) = if ltb (2 ^ 63) v then none else some (signed64 (neg64 v))
parse_end false (some (v, [])) = if ltb (2 ^ 63 - 1) v then none else some (signed64 v)

-- `string2ll` behind the sign.
unfoldable pub parse_first : Bool → ℕ → List ℕ → Option ℤ
parse_first negative slen [] = none
parse_first negative slen (c ∷ p) =
    if leb b'1' c && leb c b'9'
    then parse_end negative (parse_digits (c - b'0') p)
    else if c == b'0' && slen == 1
    then some (pos 0)
    else none

-- `string2ll(s, slen, value)`: `none` for the result 0, and otherwise what is stored in `value`.
unfoldable pub string2ll : List ℕ → Option ℤ
string2ll [] = none
string2ll (c ∷ p) =
    if length (c ∷ p) == 1 && c == b'0'
    then some (pos 0)
    else if c == b'-'
    then parse_first true (length (c ∷ p)) p
    else parse_first false (length (c ∷ p)) (c ∷ p)
