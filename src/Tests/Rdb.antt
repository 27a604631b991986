-- ===== src/Tests/Rdb.antt =====
-- rdb.c: a length, a time and three strings in a buffer, and the theorems at them.
use redis_allocators.Prelude.{
  ℕ, ◌≤◌, ◌≡◌, refl, sym, ap, ◌∙◌, Bool, true, false, ◌&&◌, Option, none, some, List, [], ◌∷◌, ◌++◌,
  arith, length, replicate, leb, if◌then◌else◌, Bool-cases, Option-cases, inl, inr,
}
use redis_allocators.Prelude.Eq.{nat_eq, list_eq, list_beq, list_beq_iff}
use redis_allocators.Prelude.Int.{ℤ, pos, negsuc}
use redis_allocators.Prelude.Memory.{Memory, read}
use redis_allocators.Util.{
  codes, digits10, digits10_fuel, ll2string, print_pairs, print_last, digit, magnitude, string2ll,
  parse_first, parse_end, parse_digits,
}
use redis_allocators.Util.Decimal.{IsInt64}
use redis_allocators.Util.Parse.{string2ll_sound}
use redis_allocators.Rio.{Buffer, Rio, init_with_buffer, buffer_write, rio_write, write_loop}
use redis_allocators.Rio.Buffered.{buffer, rio}
use redis_allocators.Rdb.{
  Object, raw, Lzf, Strtoll, to_le, write_raw, save_len, load_len, encode_integer,
  try_integer_encoding, save_millisecond_time,
}
use redis_allocators.Rdb.Strings.{
  save_lzf_string_object, save_verbatim, save_raw_string, save_string_object,
}
use redis_allocators.Rdb.Lengths.{load_len-save_len}
use redis_allocators.Rdb.Restored.{IsStored, save_string_object-IsStored}
use redis_allocators.Rio.Accepting.{rio-buffer-IsAccepting}
use redis_allocators.Rdb.Accepted.{save_string_object-Succeeds}

abbrev blank : Memory
blank j = 7

-- A compressor that knows one string.
abbrev many : List ℕ
many = replicate 30 97

abbrev known : List ℕ → ℕ → Bool
known bytes n = list_beq bytes many && leb 2 n

abbrev toy_compress : List ℕ → ℕ → Option (List ℕ)
toy_compress bytes n = if known bytes n then some (30 ∷ 97 ∷ []) else none

toy_fits : (bytes out : List ℕ) (n : ℕ) → toy_compress bytes n ≡ some out → length out ≤ n
toy_fits bytes out n h = elim (Bool-cases (known bytes n)) [
  | inr e ↦ let h' = rw e at h in cc
  | inl e ↦
      let h' : some (30 ∷ 97 ∷ []) ≡ some out = sym (rw e refl) ∙ h in
      let same : 30 ∷ 97 ∷ [] ≡ out = cc in omega (arith, ap length same, two e)
]
  where
    two : known bytes n ≡ true → 2 ≤ n
    two e = ground arith

toy_inverse :
    (bytes out : List ℕ) (n : ℕ) → toy_compress bytes n ≡ some out → some many ≡ some bytes
toy_inverse bytes out n h = elim (Bool-cases (known bytes n)) [
  | inr e ↦ let h' = rw e at h in cc
  | inl e ↦ ap some (sym ((list_beq_iff bytes many).0 (left e)))
]
  where
    left : known bytes n ≡ true → list_beq bytes many ≡ true
    left e = ground arith

abbrev toy : Lzf
toy = record {
  compress = toy_compress;
  decompress = λ bytes n. some many;
  compress_fits = toy_fits;
  decompress-compress = toy_inverse;
}

-- A number that the whole text spells, with a stop at its end, or 0 and a stop at the start.
abbrev value_of : Option ℤ → ℤ
value_of none = pos 0
value_of (some v) = v

abbrev stop_of : Option ℤ → ℕ → ℕ
stop_of none n = 0
stop_of (some v) n = n

value_of-in_range : (s : List ℕ) → IsInt64 (value_of (string2ll s))
value_of-in_range s = elim (Option-cases (string2ll s)) [
  | inl e ↦ rw e (omega arith)
  | inr (v, e) ↦ rw e (string2ll_sound s v e).0
]

abbrev strtoll : Strtoll
strtoll = record {
  value = λ s. value_of (string2ll s);
  stop = λ s. stop_of (string2ll s) (length s);
  in_range = value_of-in_range;
}

abbrev fresh : List ℕ → Rio Buffer
fresh bytes = record {
  io = init_with_buffer bytes;
  update_cksum = none;
  cksum = 0;
  processed_bytes = 0;
  max_processing_chunk = 0;
}

abbrev saved : Object → Option (Rio Buffer × ℕ)
saved o = save_string_object (rio buffer) toy strtoll blank true (fresh []) o

bytes_of : Option (Rio Buffer × ℕ) → List ℕ
bytes_of none = []
bytes_of (some (r, n)) = r.io.ptr

minus_300 : bytes_of (saved (raw (codes "-300"))) ≡ 193 ∷ 212 ∷ 254 ∷ []
unfolding bytes_of save_string_object save_raw_string try_integer_encoding encode_integer to_le
    write_raw rio_write write_loop buffer_write string2ll parse_first parse_end parse_digits
    ll2string digits10 digits10_fuel print_pairs print_last digit magnitude read
minus_300 = refl

packed : bytes_of (saved (raw many)) ≡ 195 ∷ 2 ∷ 30 ∷ 30 ∷ 97 ∷ []
unfolding bytes_of save_string_object save_raw_string save_lzf_string_object save_len write_raw
    rio_write write_loop buffer_write
packed = refl

verbatim : bytes_of (saved (raw (codes "abc"))) ≡ 3 ∷ 97 ∷ 98 ∷ 99 ∷ []
unfolding bytes_of save_string_object save_raw_string save_verbatim try_integer_encoding save_len
    write_raw rio_write write_loop buffer_write string2ll parse_first ll2string digits10
    digits10_fuel
verbatim = refl

save_string_object-Succeeds_example :
    (t : Rio Buffer) × (n : ℕ) × (saved (raw many) ≡ some (t, n))
    × IsStored (rio buffer) toy blank (fresh []) many t n
save_string_object-Succeeds_example =
    save_string_object-Succeeds (rio buffer) toy rio-buffer-IsAccepting strtoll blank blank true
      (fresh []) (raw many) (omega arith)

abbrev three_bytes : Rio Buffer
three_bytes = record (fresh []) {
  io = record { ptr = 193 ∷ 212 ∷ 254 ∷ []; pos = 3 };
  processed_bytes = 3;
}

saved_300 : saved (raw (codes "-300")) ≡ some (three_bytes, 3)
unfolding save_string_object save_raw_string try_integer_encoding encode_integer to_le write_raw
    rio_write write_loop buffer_write string2ll parse_first parse_end parse_digits ll2string
    digits10 digits10_fuel print_pairs print_last digit magnitude read
saved_300 = refl

save_string_object-IsStored_example :
    IsStored (rio buffer) toy blank (fresh []) (codes "-300") three_bytes 3
save_string_object-IsStored_example =
    save_string_object-IsStored (rio buffer) toy blank strtoll blank true (fresh []) three_bytes
      (raw (codes "-300")) 3 (omega arith) saved_300

abbrev five_bytes : Rio Buffer
five_bytes = record (fresh []) {
  io = record { ptr = 128 ∷ 0 ∷ 1 ∷ 17 ∷ 112 ∷ []; pos = 5 };
  processed_bytes = 5;
}

saved_70000 : save_len (rio buffer) (fresh []) 70000 ≡ some (five_bytes, 5)
unfolding save_len write_raw rio_write write_loop buffer_write
saved_70000 = refl

load_len-save_len_example :
    (bytes : List ℕ) × (five_bytes.io.ptr ≡ [] ++ bytes)
    × (5 ≡ length bytes)
    × ((r : Rio Buffer) (rest : List ℕ)
        → (rio buffer).unread r ≡ bytes ++ rest
        → (u : Rio Buffer) × (load_len (rio buffer) r ≡ (70000, false, u))
          × ((rio buffer).unread u ≡ rest))
load_len-save_len_example =
    load_len-save_len (rio buffer) (fresh []) five_bytes 70000 5 (omega arith) saved_70000

abbrev eight_bytes : Rio Buffer
eight_bytes = record (fresh []) {
  io = record { ptr = 254 ∷ replicate 7 255; pos = 8 };
  processed_bytes = 8;
}

saved_time : save_millisecond_time (rio buffer) (fresh []) (negsuc 1) ≡ some (eight_bytes, 8)
unfolding save_millisecond_time to_le write_raw rio_write write_loop buffer_write
saved_time = refl
