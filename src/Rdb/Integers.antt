-- ===== src/Rdb/Integers.antt =====
-- Integers in the dump format: what `rdbEncodeInteger` writes is read back.
use redis_allocators.Prelude.{
  ℕ, zero, suc, ◌+◌, ◌*◌, ◌/◌, ◌%◌, ◌^◌, ◌≤◌, ◌<◌, ◌≡◌, refl, ap, sym, ◌∙◌, Bool, true, ◌&&◌, ◌||◌,
  some, List, [], ◌∷◌, ◌++◌, ◌==◌, ltb, leb, if◌then◌else◌, arith, length, Bool-cases, inl, inr,
  ◌⊎◌,
}
use redis_allocators.Prelude.Int.{ℤ, pos_part, neg_part}
use redis_allocators.Prelude.Memory.{Memory}
use redis_allocators.Util.Decimal.{IsInt64}
use redis_allocators.Sds.{sdsfromlonglong}
use redis_allocators.Rio.{Stream}
use redis_allocators.Rdb.{
  Object, raw, int, object, Lzf, encval, word64, signed_word, to_le, from_le, encode_integer,
  load_word, load_integer_object, load_len, save_millisecond_time, load_millisecond_time,
}
use redis_allocators.Rdb.Strings.{generic_load_string_object}
use redis_allocators.Rdb.Lengths.{load_len_kind, write_raw-Emits}

length-to_le : (n v : ℕ) → length (to_le n v) ≡ n
unfolding to_le
length-to_le zero v = refl
length-to_le (suc n) v = ap suc (length-to_le n (v / 256))

from_le-to_le_one : (v : ℕ) → from_le (to_le 1 v) ≡ v % 2 ^ 8
unfolding to_le from_le
from_le-to_le_one v = omega arith

from_le-to_le_two : (v : ℕ) → from_le (to_le 2 v) ≡ v % 2 ^ 16
unfolding to_le from_le
from_le-to_le_two v = omega arith

from_le-to_le_four : (v : ℕ) → from_le (to_le 4 v) ≡ v % 2 ^ 32
unfolding to_le from_le
from_le-to_le_four v = omega arith

from_le-to_le_eight : (v : ℕ) → from_le (to_le 8 v) ≡ v % 2 ^ 64
unfolding to_le from_le
from_le-to_le_eight v = omega arith

pub length-encode_integer : (value : ℤ) → length (encode_integer value) ≤ 5
unfolding encode_integer to_le
length-encode_integer value = elim (Bool-cases (fits (2 ^ 7))) [
  | inl e ↦ rw e (omega arith)
  | inr e ↦ elim (Bool-cases (fits (2 ^ 15))) [
    | inl e' ↦ rw (e, e') (omega arith)
    | inr e' ↦ elim (Bool-cases (fits (2 ^ 31))) [
      | inl e'' ↦ rw (e, e', e'') (omega arith)
      | inr e'' ↦ rw (e, e', e'') (omega arith)
    ]
  ]
]
  where
    fits : ℕ → Bool
    fits n = ltb (pos_part value) n && leb (neg_part value) n

-- A word with room for a number keeps it.
abbrev pub Fits : ℕ → ℤ → Type 0
Fits half v = (pos_part v < half) × (neg_part v ≤ half)

signed_one : (v : ℤ) → Fits (2 ^ 7) v → signed_word 8 (from_le (to_le 1 (word64 v))) ≡ v
signed_one v fits = rw (from_le-to_le_one (word64 v)) (ground arith)

signed_two : (v : ℤ) → Fits (2 ^ 15) v → signed_word 16 (from_le (to_le 2 (word64 v))) ≡ v
signed_two v fits = rw (from_le-to_le_two (word64 v)) (ground arith)

signed_four : (v : ℤ) → Fits (2 ^ 31) v → signed_word 32 (from_le (to_le 4 (word64 v))) ≡ v
signed_four v fits = rw (from_le-to_le_four (word64 v)) (ground arith)

signed_eight : (v : ℤ) → Fits (2 ^ 63) v → signed_word 64 (from_le (to_le 8 (word64 v))) ≡ v
signed_eight v fits = rw (from_le-to_le_eight (word64 v)) (ground arith)

module _ {S : Type 0} (stream : Stream S) (lzf : Lzf) (buf : Memory) (encode : Bool) where
  -- The object for an integer.
  abbrev pub integer_object : ℤ → Object
  integer_object value = if encode then int value else raw (sdsfromlonglong buf value)

  -- The bytes are read as this object, and nothing behind them.
  abbrev pub LoadsAs : List ℕ → Object → Type 0
  LoadsAs bytes o =
      (s : S) (rest : List ℕ)
      → stream.unread s ≡ bytes ++ rest
      → (t : S) × (generic_load_string_object stream lzf buf s encode ≡ object o t)
        × (stream.unread t ≡ rest)

  generic_kind :
      (s t : S) (kind : ℕ)
      → load_len stream s ≡ (kind, true, t)
      → kind < 3
      → generic_load_string_object stream lzf buf s encode
        ≡ load_integer_object stream buf t kind encode
  unfolding generic_load_string_object
  generic_kind s t kind found small =
      let one_of : (kind == 0 || kind == 1 || kind == 2) ≡ true = ground arith in
      rw (found, one_of) refl

  -- A kind of integer with words of `n` bytes.
  IsKind : (kind n : ℕ) → Type 0
  IsKind kind n =
      (kind < 3)
      × ((s : S)
          → load_integer_object stream buf s kind encode
            ≡ load_word stream buf encode n (stream.read s n))

  word-LoadsAs :
      (kind n : ℕ) (value : ℤ)
      → IsKind kind n
      → signed_word (8 * n) (from_le (to_le n (word64 value))) ≡ value
      → LoadsAs ((encval + kind) ∷ to_le n (word64 value)) (integer_object value)
  unfolding IsKind
  word-LoadsAs kind n value (small, loads) same s rest h =
      let w = to_le n (word64 value) in
      let (t, got, left) = stream.read_lem s ((encval + kind) ∷ []) (w ++ rest) h in
      let (u, got', left') = stream.read_lem t w rest left in
      let found = load_len_kind stream s t (encval + kind) got (ground arith) in
      let exact : (encval + kind) % 64 ≡ kind = ground arith in
      let read : stream.read t n ≡ some (w, u) =
        ap (stream.read t) (sym (length-to_le n (word64 value))) ∙ got' in
      (
        u,
        generic_kind s t kind (found ∙ ap (λ k. (k, true, t)) exact) small
            ∙ loads t
            ∙ ap (load_word stream buf encode n) read
            ∙ ap (λ v. object (integer_object v) u) same,
        left',
      )

  pub encode_integer-LoadsAs :
      (value : ℤ)
      → (encode_integer value ≡ []) ⊎ LoadsAs (encode_integer value) (integer_object value)
  unfolding encode_integer IsKind load_integer_object
  encode_integer-LoadsAs value = elim (Bool-cases (fits (2 ^ 7))) [
    | inl e ↦
        rw e
          (inr (word-LoadsAs 0 1 value (omega arith, λ s. refl) (signed_one value (ground arith))))
    | inr e ↦ elim (Bool-cases (fits (2 ^ 15))) [
      | inl e' ↦
          rw (e, e')
            (inr
              (word-LoadsAs 1 2 value (omega arith, λ s. refl) (signed_two value (ground arith))))
      | inr e' ↦ elim (Bool-cases (fits (2 ^ 31))) [
        | inl e'' ↦
            rw (e, e', e'')
              (inr (
                word-LoadsAs 2 4 value (omega arith, λ s. refl) (signed_four value (ground arith))))
        | inr e'' ↦ rw (e, e', e'') (inl refl)
      ]
    ]
  ]
    where
      fits : ℕ → Bool
      fits n = ltb (pos_part value) n && leb (neg_part value) n

module _ {S : Type 0} (stream : Stream S) where
  load_time_steps :
      (s t : S) (bytes : List ℕ)
      → stream.read s 8 ≡ some (bytes, t)
      → load_millisecond_time stream s ≡ some (signed_word 64 (from_le bytes), t)
  unfolding load_millisecond_time
  load_time_steps s t bytes got = rw got refl

  -- A time in milliseconds that has been saved is loaded back, whatever its sign, and the load stops
  -- behind the eight bytes of the save.
  pub load_millisecond_time-save_millisecond_time :
      (s t : S) (v : ℤ) (n : ℕ)
      → IsInt64 v
      → save_millisecond_time stream s v ≡ some (t, n)
      → (bytes : List ℕ) × (stream.written t ≡ stream.written s ++ bytes)
        × (n ≡ 8)
        × ((r : S) (rest : List ℕ)
            → stream.unread r ≡ bytes ++ rest
            → (u : S) × (load_millisecond_time stream r ≡ some (v, u)) × (stream.unread u ≡ rest))
  unfolding save_millisecond_time
  load_millisecond_time-save_millisecond_time s t v n range h =
      let bytes = to_le 8 (word64 v) in
      let (wrote, long) =
        write_raw-Emits stream s bytes (omega (arith, length-to_le 8 (word64 v))) t n h in
      let eight = length-to_le 8 (word64 v) in
      (
        bytes,
        wrote,
        long ∙ eight,
        λ r rest front.
            let (u, got, left) = stream.read_lem r bytes rest front in
            (
              u,
              load_time_steps r u bytes (ap (stream.read r) (sym eight) ∙ got)
                  ∙ ap (λ w. some (w, u)) (signed_eight v (ground arith)),
              left,
            ),
      )
