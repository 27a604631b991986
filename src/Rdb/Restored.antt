-- ===== src/Rdb/Restored.antt =====
-- Every string object that is saved is loaded back.
use redis_allocators.Prelude.{
  ℕ, ◌+◌, ◌^◌, ◌≤◌, ◌<◌, ◌≡◌, refl, ap, sym, ◌∙◌, subst, Bool, true, false, ◌&&◌, Option, none,
  some, List, [], ◌∷◌, ◌++◌, ltb, leb, if◌then◌else◌, arith, length, Bool-cases, inl, inr, ◌⊎◌,
}
use redis_allocators.Prelude.Fallible.{◌>>=◌}
use redis_allocators.Prelude.Eq.{nat_eq, list_eq}
use redis_allocators.Prelude.Int.{ℤ}
use redis_allocators.Prelude.Memory.{Memory, read}
use redis_allocators.Util.{ll2string}
use redis_allocators.Util.Decimal.{IsInt64, decimal_text}
use redis_allocators.Util.Print.{ll2string_lem}
use redis_allocators.Sds.Text.{sdsfromlonglong-eq-decimal_text}
use redis_allocators.Rio.{Stream}
use redis_allocators.Rdb.{
  Object, raw, int, Lzf, Strtoll, encode_integer, try_integer_encoding, write_raw, save_len,
  counted, is_positive,
}
use redis_allocators.Rdb.Strings.{
  save_lzf_string_object, save_verbatim, save_raw_string, unpacked, save_long_long_as_string_object,
  save_string_object,
}
use redis_allocators.Rdb.Lengths.{
  len_bytes, write_raw-Emits, append-Emits, save_len-Emits, length-len_bytes, counted_lem,
}
use redis_allocators.Rdb.Integers.{
  LoadsAs, integer_object, encode_integer-LoadsAs, length-encode_integer,
}
use redis_allocators.Rdb.Saved.{
  text, text_fits, try_integer_encoding_lem, save_verbatim-Emits, verbatim-LoadsAs,
}
use redis_allocators.Rdb.Packed.{
  packed_bytes, save_lzf_string_object-IsPacked, packed-LoadsAs, length-packed_bytes,
}

-- What the format has room for, where an `int` holds the count of bytes: a compressed string may be
-- saved with 7 bytes more than it has.
abbrev pub IsStorable : Object → Type 0
IsStorable (raw bytes) = length bytes + 7 < 2 ^ 31
IsStorable (int value) = IsInt64 value

module _ {S : Type 0} (stream : Stream S) (lzf : Lzf) (buf : Memory) where
  -- Bytes from which either way of loading makes an object with this text, and stops behind them.
  abbrev pub Restores : List ℕ → List ℕ → Type 0
  Restores bytes content =
      (encode : Bool) → (o : Object) × LoadsAs stream lzf buf encode bytes o × (text o ≡ content)

  -- A save that has gone well.
  abbrev pub IsStored : S → List ℕ → S → ℕ → Type 0
  IsStored s content t n =
      (bytes : List ℕ) × (stream.written t ≡ stream.written s ++ bytes)
      × (n ≡ length bytes)
      × Restores bytes content

  text-integer_object :
      (encode : Bool) (v : ℤ)
      → IsInt64 v
      → text (integer_object stream lzf buf encode v) ≡ decimal_text v
  text-integer_object true v range = refl
  text-integer_object false v range = sdsfromlonglong-eq-decimal_text buf v range

  integer-Restores :
      (v : ℤ) (b : ℕ) (bytes : List ℕ)
      → IsInt64 v
      → encode_integer v ≡ b ∷ bytes
      → Restores (b ∷ bytes) (decimal_text v)
  integer-Restores v b bytes range e encode =
      elim (encode_integer-LoadsAs stream lzf buf encode v) [
        | inl empty ↦ absurd (∷≢[] (sym e ∙ empty))
        | inr loads ↦ (
          integer_object stream lzf buf encode v,
          subst (λ l. LoadsAs stream lzf buf encode l (integer_object stream lzf buf encode v)) e
              loads,
          text-integer_object encode v range,
        )
      ]
    where
      ∷≢[] : {l : List ℕ} {c : ℕ} → c ∷ l ≡ [] → ⊥
      ∷≢[] h = cc

  write_raw-IsStored :
      (s t : S) (bytes content : List ℕ) (n : ℕ)
      → length bytes < 2 ^ 31
      → write_raw stream s bytes ≡ some (t, n)
      → Restores bytes content
      → IsStored s content t n
  write_raw-IsStored s t bytes content n few h restores =
      let (wrote, long) = write_raw-Emits stream s bytes few t n h in (bytes, wrote, long, restores)

  verbatim-IsStored :
      (s t : S) (bytes : List ℕ) (n : ℕ)
      → length bytes + 7 < 2 ^ 31
      → save_verbatim stream lzf s bytes ≡ some (t, n)
      → IsStored s bytes t n
  verbatim-IsStored s t bytes n small h =
      let (wrote, long) = save_verbatim-Emits stream lzf s bytes small t n h in
      (
        len_bytes (length bytes) ++ bytes,
        wrote,
        long,
        λ encode. (raw bytes, verbatim-LoadsAs stream lzf buf encode bytes (omega arith), refl),
      )

  packed-IsStored :
      (s t : S) (bytes : List ℕ) (n : ℕ)
      → length bytes + 7 < 2 ^ 31
      → save_lzf_string_object stream lzf s bytes ≡ some (some (t, n))
      → IsStored s bytes t n
  packed-IsStored s t bytes n small h =
      let (out, packed, wrote, long) =
        save_lzf_string_object-IsPacked stream lzf s t bytes n small h in
      (
        packed_bytes out (length bytes),
        wrote,
        long,
        λ encode.
            (raw bytes, packed-LoadsAs stream lzf buf encode out bytes (omega arith) packed, refl),
      )

  -- The part of `rdbSaveRawString` behind the integer encoding.
  unpacked-IsStored :
      (s t : S) (bytes : List ℕ) (n : ℕ) (packed : Option (Option (S × ℕ)))
      → length bytes + 7 < 2 ^ 31
      → (packed ≡ save_lzf_string_object stream lzf s bytes) ⊎ (packed ≡ some none)
      → (packed >>= unpacked stream lzf s bytes) ≡ some (t, n)
      → IsStored s bytes t n
  unpacked-IsStored s t bytes n none small from h = cc
  unpacked-IsStored s t bytes n (some none) small from h = verbatim-IsStored s t bytes n small h
  unpacked-IsStored s t bytes n (some (some done)) small (inl e) h =
      let (out, packed, wrote, long) =
        save_lzf_string_object-IsPacked stream lzf s done.0 bytes done.1 small (sym e) in
      let le = length-packed_bytes stream lzf bytes out packed in
      let counts : is_positive done.1 ≡ true = ground arith in
      let same : some done ≡ some (t, n) = rw counts at h in
      packed-IsStored s t bytes n small (sym e ∙ ap some same)
  unpacked-IsStored s t bytes n (some (some done)) small (inr e) h = cc

  -- An integer encoding of this text, or none.
  IsAttempt : List ℕ → List ℕ → Type 0
  IsAttempt enc bytes =
      (enc ≡ []) ⊎ ((v : ℤ) × IsInt64 v × (decimal_text v ≡ bytes) × (enc ≡ encode_integer v))

  encoding-IsAttempt :
      (strtoll : Strtoll) (own : Memory) (bytes : List ℕ)
      → IsAttempt
          (if leb (length bytes) 11 then try_integer_encoding strtoll own bytes else [])
          bytes
  unfolding IsAttempt
  encoding-IsAttempt strtoll own bytes = elim (Bool-cases (leb (length bytes) 11)) [
    | inl e ↦ rw e (try_integer_encoding_lem strtoll own bytes)
    | inr e ↦ rw e (inl refl)
  ]

  length-IsAttempt : (enc bytes : List ℕ) → IsAttempt enc bytes → length enc ≤ 5
  unfolding IsAttempt
  length-IsAttempt enc bytes (inl e) = rw e (omega arith)
  length-IsAttempt enc bytes (inr (v, range, same, e)) = rw e (length-encode_integer v)

  attempted-IsStored :
      (s t : S) (bytes enc : List ℕ) (n : ℕ) (rest : Option (S × ℕ))
      → IsAttempt enc bytes
      → length enc ≤ 5
      → (rest ≡ some (t, n) → IsStored s bytes t n)
      → (if ltb 0 (length enc) then write_raw stream s enc else rest) ≡ some (t, n)
      → IsStored s bytes t n
  unfolding IsAttempt
  attempted-IsStored s t bytes [] n rest attempt few behind h = behind h
  attempted-IsStored s t bytes (b ∷ enc) n rest (inl e) few behind h = cc
  attempted-IsStored s t bytes (b ∷ enc) n rest (inr (v, range, same, e)) few behind h =
      let full : ltb 0 (length (b ∷ enc)) ≡ true = ground arith in
      let restores = subst (Restores (b ∷ enc)) same (integer-Restores v b enc range (sym e)) in
      write_raw-IsStored s t (b ∷ enc) bytes n (omega arith) (rw full at h) restores

  save_raw_string-IsStored :
      (strtoll : Strtoll) (own : Memory) (compression : Bool) (s t : S) (bytes : List ℕ) (n : ℕ)
      → length bytes + 7 < 2 ^ 31
      → save_raw_string stream lzf strtoll own compression s bytes ≡ some (t, n)
      → IsStored s bytes t n
  unfolding save_raw_string
  save_raw_string-IsStored strtoll own compression s t bytes n small h =
      let attempt = encoding-IsAttempt strtoll own bytes in
      attempted-IsStored s t bytes _ n _ attempt (length-IsAttempt _ bytes attempt)
        (unpacked-IsStored s t bytes n _ small (chosen (compression && ltb 20 (length bytes)))) h
    where
      chosen :
          (b : Bool)
          → let packed = if b then save_lzf_string_object stream lzf s bytes else some none in
            (packed ≡ save_lzf_string_object stream lzf s bytes) ⊎ (packed ≡ some none)
      chosen true = inl refl
      chosen false = inr refl

  -- The number as a string behind its length.
  abbrev number : S → ℕ → List ℕ → Option (S × ℕ)
  number s len bytes = do
    (t, n) ← save_len stream s len
    (u, m) ← write_raw stream t bytes
    counted u (n + m)

  number-IsStored :
      (s t : S) (v : ℤ) (bytes : List ℕ) (n : ℕ)
      → IsInt64 v
      → bytes ≡ decimal_text v
      → number s (length bytes) bytes ≡ some (t, n)
      → IsStored s (decimal_text v) t n
  number-IsStored s t v bytes n range same h =
      let few : length bytes < 32 = omega (arith, ap length same, text_fits v range) in
      let le = length-len_bytes (length bytes) in
      let (wrote, long) =
        append-Emits stream s (len_bytes (length bytes)) bytes (save_len stream s (length bytes))
          (λ u. write_raw stream u bytes) (λ u n m. counted u (n + m))
          (save_len-Emits stream s (length bytes))
          (λ u. write_raw-Emits stream u bytes (omega arith)) (λ u. counted_lem u _ (omega arith)) t
          n h in
      (
        len_bytes (length bytes) ++ bytes,
        wrote,
        long,
        λ encode. (raw bytes, verbatim-LoadsAs stream lzf buf encode bytes (omega arith), same),
      )

  save_long_long_as_string_object-IsStored :
      (own : Memory) (s t : S) (v : ℤ) (n : ℕ)
      → IsInt64 v
      → save_long_long_as_string_object stream lzf own s v ≡ some (t, n)
      → IsStored s (decimal_text v) t n
  unfolding save_long_long_as_string_object
  save_long_long_as_string_object-IsStored own s t v n range h = of (encode_integer v) refl h
    where
      of :
          (enc : List ℕ)
          → encode_integer v ≡ enc
          → (let (enclen, after) = ll2string own 32 v in
              if ltb 0 (length enc)
              then write_raw stream s enc
              else number s enclen (read after 0 enclen))
            ≡ some (t, n)
          → IsStored s (decimal_text v) t n
      of [] e h =
          let (size, bytes, end, rest) = ll2string_lem own 32 v range (text_fits v range) in
          let (enclen, after) = ll2string own 32 v in
          let long : length (read after 0 enclen) ≡ enclen = ap length bytes ∙ sym size in
          number-IsStored s t v (read after 0 enclen) n range bytes
            (ap (λ k. number s k (read after 0 enclen)) long ∙ h)
      of (b ∷ enc) e h =
          let full : ltb 0 (length (b ∷ enc)) ≡ true = ground arith in
          let few : length (b ∷ enc) ≤ 5 = subst (λ l. length l ≤ 5) e (length-encode_integer v) in
          write_raw-IsStored s t (b ∷ enc) (decimal_text v) n (omega arith) (rw full at h)
            (integer-Restores v b enc range e)

  -- A string object of a `long long`, or of less than 2 ^ 31 - 7 bytes, that has been saved is loaded
  -- back, as an integer or as bytes with the same text, in either mode of loading and with any
  -- buffers; the load stops behind the bytes that the save has counted.
  pub save_string_object-IsStored :
      (strtoll : Strtoll) (own : Memory) (compression : Bool) (s t : S) (o : Object) (n : ℕ)
      → IsStorable o
      → save_string_object stream lzf strtoll own compression s o ≡ some (t, n)
      → IsStored s (text o) t n
  unfolding save_string_object
  save_string_object-IsStored strtoll own compression s t (raw bytes) n small h =
      save_raw_string-IsStored strtoll own compression s t bytes n small h
  save_string_object-IsStored strtoll own compression s t (int value) n small h =
      save_long_long_as_string_object-IsStored own s t value n small h
