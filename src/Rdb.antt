-- ===== src/Rdb.antt =====
-- rdb.c: lengths, integers, times and strings in the dump format.
pub mod Strings
pub mod Lengths
pub mod Integers
pub mod Saved
pub mod Packed
pub mod Restored
pub mod Accepted
use redis_allocators.Prelude.{
  ℕ, zero, suc, ◌+◌, ◌-◌, ◌*◌, ◌/◌, ◌%◌, ◌^◌, ◌≤◌, ◌<◌, ◌≡◌, Bool, true, false, not, ◌&&◌, ◌||◌,
  Option, none, some, List, [], ◌∷◌, ◌++◌, ◌==◌, ltb, leb, if◌then◌else◌, length, get_or, get_elem?,
}
use redis_allocators.Prelude.Fallible.{◌>>=◌}
use redis_allocators.Prelude.Eq.{nat_eq, list_eq, list_beq}
use redis_allocators.Prelude.Int.{ℤ, pos, negsuc, pos_part, neg_part}
use redis_allocators.Prelude.Memory.{Memory, read}
use redis_allocators.Util.{ll2string}
use redis_allocators.Util.Decimal.{IsInt64}
use redis_allocators.Sds.{sdsfromlonglong}
use redis_allocators.Rio.{Stream}

-- `REDIS_RDB_LENERR`
abbrev pub lenerr : ℕ
lenerr = 2 ^ 32 - 1

-- `REDIS_RDB_ENCVAL << 6`
abbrev pub encval : ℕ
encval = 192

-- A string object: its bytes, or an integer.
pub data Object : Type 0 where
  raw : List ℕ → Object
  int : ℤ → Object

-- What a load of an object returns: a null pointer, a call of `redisPanic`, or the object.
pub data Loaded (S : Type 0) : Type 0 where
  missing panics : Loaded S
  object : Object → S → Loaded S

-- liblzf: `none` is the result 0. What has been compressed into fewer bytes than it had comes back.
pub record Lzf : Type 0 where
  pub compress : (bytes : List ℕ) (outlen : ℕ) → Option (List ℕ)
  pub decompress : (bytes : List ℕ) (outlen : ℕ) → Option (List ℕ)
  pub compress_fits : (bytes out : List ℕ) (n : ℕ) → compress bytes n ≡ some out → length out ≤ n
  pub decompress-compress :
      (bytes out : List ℕ) (n : ℕ)
      → compress bytes n ≡ some out
      → decompress out (length bytes) ≡ some bytes

-- The C library's `strtoll`: the number, a `long long`, and the position where it stops.
pub record Strtoll : Type 0 where
  pub value : List ℕ → ℤ
  pub stop : List ℕ → ℕ
  pub in_range : (s : List ℕ) → IsInt64 (value s)

-- The byte at a position, the terminator behind the text.
abbrev pub char_at : List ℕ → ℕ → ℕ
char_at t i = elim (get_elem? t i) [ none ↦ 0 | some b ↦ b ]

-- Two's complement in 64 bits.
abbrev pub word64 : ℤ → ℕ
word64 (pos n) = n % 2 ^ 64
word64 (negsuc n) = 2 ^ 64 - 1 - n % 2 ^ 64

-- A word of `w` bits read as a signed number.
abbrev pub signed_word : ℕ → ℕ → ℤ
signed_word w v = if ltb v (2 ^ (w - 1)) then pos v else negsuc (2 ^ w - v - 1)

-- The bytes of a little endian number.
unfoldable pub to_le : ℕ → ℕ → List ℕ
to_le zero v = []
to_le (suc n) v = v % 256 ∷ to_le n (v / 256)

unfoldable pub from_le : List ℕ → ℕ
from_le [] = 0
from_le (b ∷ bytes) = b % 256 + 256 * from_le bytes

-- `htonl` and `ntohl` on the four bytes.
abbrev pub to_net : ℕ → List ℕ
to_net v = v / 2 ^ 24 % 256 ∷ v / 2 ^ 16 % 256 ∷ v / 2 ^ 8 % 256 ∷ v % 256 ∷ []

abbrev pub from_net : List ℕ → ℕ
from_net b = get_or b 0 0 * 2 ^ 24 + get_or b 1 0 * 2 ^ 16 + get_or b 2 0 * 2 ^ 8 + get_or b 3 0

-- `rdbEncodeInteger`: no bytes are the result 0.
unfoldable pub encode_integer : ℤ → List ℕ
encode_integer value =
    let w = word64 value in
    let fits = λ (n : ℕ). ltb (pos_part value) n && leb (neg_part value) n in
    if fits (2 ^ 7)
    then (encval + 0) ∷ to_le 1 w
    else if fits (2 ^ 15)
    then (encval + 1) ∷ to_le 2 w
    else if fits (2 ^ 31)
    then (encval + 2) ∷ to_le 4 w
    else []

-- `rdbTryIntegerEncoding`; `buf` is what the buffer for `ll2string` holds before.
unfoldable pub try_integer_encoding : Strtoll → Memory → List ℕ → List ℕ
try_integer_encoding strtoll buf s =
    let value = strtoll.value s in
    let (n, buf') = ll2string buf 32 value in
    if not (char_at s (strtoll.stop s) == 0)
    then []
    else if list_beq (read buf' 0 n) s
    then encode_integer value
    else []

-- The `int` that a save returns, as the number of its 32 bits: `none` is -1, and else the stream and the
-- count of bytes come back.
abbrev pub counted : {S : Type 0} → S → ℕ → Option (S × ℕ)
counted s n = if n % 2 ^ 32 == 2 ^ 32 - 1 then none else some (s, n % 2 ^ 32)

-- `n > 0` of such a count.
abbrev pub is_positive : ℕ → Bool
is_positive n = ltb 0 n && ltb n (2 ^ 31)

module _ {S : Type 0} (stream : Stream S) where
  -- `rdbWriteRaw`, over a stream.
  unfoldable pub write_raw : S → List ℕ → Option (S × ℕ)
  write_raw s bytes = do t ← stream.write s bytes; counted t (length bytes)

  unfoldable pub save_type : S → ℕ → Option (S × ℕ)
  save_type s t = write_raw s (t ∷ [])

  unfoldable pub load_type : S → Option (ℕ × S)
  load_type s = do (buf, t) ← stream.read s 1; some (get_or buf 0 0, t)

  -- `rdbLoadTime`
  unfoldable pub load_time : S → Option (ℤ × S)
  load_time s = do (buf, t) ← stream.read s 4; some (signed_word 32 (from_le buf), t)

  unfoldable pub save_millisecond_time : S → ℤ → Option (S × ℕ)
  save_millisecond_time s t = write_raw s (to_le 8 (word64 t))

  unfoldable pub load_millisecond_time : S → Option (ℤ × S)
  load_millisecond_time s = do (buf, t) ← stream.read s 8; some (signed_word 64 (from_le buf), t)

  -- `rdbSaveLen` of a `uint32_t`. The bits of the kind and of the length are disjoint.
  unfoldable pub save_len : S → ℕ → Option (S × ℕ)
  save_len s len =
      if ltb len (2 ^ 6)
      then write_raw s (len % 256 ∷ [])
      else if ltb len (2 ^ 14)
      then write_raw s ((64 + len / 256 % 256) ∷ len % 256 ∷ [])
      else do (t, n) ← write_raw s (128 ∷ []); (u, m) ← write_raw t (to_net len); some (u, 1 + 4)

  -- `rdbLoadLen`: the length or the kind of encoding, `isencoded`, and the stream, which nothing
  -- uses after an error.
  unfoldable pub load_len : S → ℕ × Bool × S
  load_len s = elim (stream.read s 1) [
    | none ↦ (lenerr, false, s)
    | some (buf, t) ↦
        let b = get_or buf 0 0 in
        let kind = b / 64 % 4 in
        if kind == 3
        then (b % 64, true, t)
        else if kind == 0
        then (b % 64, false, t)
        else if kind == 1
        then elim (stream.read t 1) [
          | none ↦ (lenerr, false, t)
          | some (buf', u) ↦ (b % 64 * 256 + get_or buf' 0 0, false, u)
        ]
        else elim (stream.read t 4) [
          | none ↦ (lenerr, false, t)
          | some (buf', u) ↦ (from_net buf', false, u)
        ]
  ]

  -- The end of `rdbLoadIntegerObject` for a word of `n` bytes.
  abbrev pub load_word : Memory → Bool → ℕ → Option (List ℕ × S) → Loaded S
  load_word buf encode n none = missing
  load_word buf encode n (some (enc, t)) =
      let val = signed_word (8 * n) (from_le enc) in
      object (if encode then int val else raw (sdsfromlonglong buf val)) t

  -- `rdbLoadIntegerObject`; `buf` is what the buffer of `sdsfromlonglong` holds before.
  unfoldable pub load_integer_object : Memory → S → ℕ → Bool → Loaded S
  load_integer_object buf s enctype encode =
      if enctype == 0
      then load_word buf encode 1 (stream.read s 1)
      else if enctype == 1
      then load_word buf encode 2 (stream.read s 2)
      else if enctype == 2
      then load_word buf encode 4 (stream.read s 4)
      else panics
