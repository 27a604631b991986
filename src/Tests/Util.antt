-- ===== src/Tests/Util.antt =====
-- util.c: runs, and the theorems at concrete numbers.
use redis_allocators.Prelude.{◌≡◌, refl, ◌-◌, ◌^◌, none, some, arith, length}
use redis_allocators.Prelude.Int.{ℤ, negsuc}
use redis_allocators.Prelude.Memory.{Memory, read}
use redis_allocators.Util.Decimal.{decimal, decimal_fuel, decimal_text, IsInt64}
use redis_allocators.Util.Print.{ll2string_lem, Prints}
use redis_allocators.Util.Parse.{string2ll-decimal_text, string2ll_sound}
use redis_allocators.Util.{
  codes, digits10, digits10_fuel, ll2string, print_pairs, print_last, digit, magnitude, string2ll,
  parse_first, parse_end, parse_digits,
}

abbrev blank : Memory
blank = λ _. 7

printed_min : read (ll2string blank 21 (negsuc (2 ^ 63 - 1))).1 0 20 ≡ codes "-9223372036854775808"
unfolding digits10 digits10_fuel ll2string print_pairs print_last digit magnitude read
printed_min = refl

parsed_overflow : string2ll (codes "9223372036854775808") ≡ none
unfolding string2ll parse_first parse_end parse_digits
parsed_overflow = refl

abbrev minus_twelve : ℤ
minus_twelve = negsuc 11

length_of_twelve : length (decimal_text minus_twelve) ≡ 3
unfolding decimal_text decimal decimal_fuel
length_of_twelve = refl

ll2string_lem_example : Prints blank minus_twelve (ll2string blank 4 minus_twelve)
ll2string_lem_example =
    ll2string_lem blank 4 minus_twelve (omega arith) (omega (arith, length_of_twelve))

string2ll-decimal_text_example :
    string2ll (decimal_text (negsuc (2 ^ 63 - 1))) ≡ some (negsuc (2 ^ 63 - 1))
string2ll-decimal_text_example = string2ll-decimal_text (negsuc (2 ^ 63 - 1)) (omega arith)

string2ll_sound_example : IsInt64 minus_twelve × (codes "-12" ≡ decimal_text minus_twelve)
string2ll_sound_example =
    string2ll_sound (codes "-12") minus_twelve
      (unfold string2ll parse_first parse_end parse_digits in refl)
