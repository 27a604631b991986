-- ===== src/Rdb/Strings.antt =====
-- rdb.c: strings in the dump format, as integers, compressed or verbatim.
use redis_allocators.Prelude.{
  ℕ, ◌+◌, ◌-◌, ◌%◌, ◌^◌, Bool, not, ◌&&◌, ◌||◌, Option, none, some, List, [], ◌∷◌, ◌==◌, ltb, leb,
  if◌then◌else◌, length,
}
use redis_allocators.Prelude.Fallible.{◌>>=◌}
use redis_allocators.Prelude.Eq.{nat_eq, list_eq}
use redis_allocators.Prelude.Int.{ℤ}
use redis_allocators.Prelude.Memory.{Memory, read}
use redis_allocators.Util.{ll2string}
use redis_allocators.Rio.{Stream}
use redis_allocators.Rdb.{
  lenerr, encval, Object, raw, int, Loaded, missing, panics, object, Lzf, Strtoll, encode_integer,
  try_integer_encoding, counted, is_positive, write_raw, save_len, load_len, load_integer_object,
}

module _ {S : Type 0} (stream : Stream S) (lzf : Lzf) where
  -- `rdbSaveLzfStringObject`: `some none` is the result 0.
  unfoldable pub save_lzf_string_object : S → List ℕ → Option (Option (S × ℕ))
  save_lzf_string_object s bytes =
      let len = length bytes in
      if leb len 4 then some none else elim (lzf.compress bytes (len - 4)) [
        | none ↦ some none
        | some out ↦ do
          (s₁, n₁) ← write_raw stream s ((encval + 3) ∷ [])
          (s₂, n₂) ← save_len stream s₁ (length out % 2 ^ 32)
          (s₃, n₃) ← save_len stream s₂ (len % 2 ^ 32)
          (s₄, n₄) ← write_raw stream s₃ out
          done ← counted s₄ (n₁ + n₂ + n₃ + n₄)
          some (some done)
      ]

  unfoldable pub load_lzf_string_object : S → Loaded S
  load_lzf_string_object s =
      let (clen, e₁, s₁) = load_len stream s in
      let (len, e₂, s₂) = load_len stream s₁ in
      if clen == lenerr
      then missing
      else if len == lenerr
      then missing
      else elim (stream.read s₂ clen) [
        | none ↦ missing
        | some (c, t) ↦ elim (lzf.decompress c len) [
          | none ↦ missing
          | some val ↦ object (raw val) t
        ]
      ]

  -- The end of `rdbSaveRawString`.
  unfoldable pub save_verbatim : S → List ℕ → Option (S × ℕ)
  save_verbatim s bytes = do
    head ← save_len stream s (length bytes % 2 ^ 32)
    if not (ltb 0 (length bytes))
        then some head
        else do done ← write_raw stream head.0 bytes; counted done.0 (head.1 + length bytes)

  -- What `rdbSaveRawString` makes of the result of the compression; it takes a count that is not
  -- positive for 0.
  abbrev pub unpacked : S → List ℕ → Option (S × ℕ) → Option (S × ℕ)
  unpacked s bytes none = save_verbatim s bytes
  unpacked s bytes (some done) =
      if is_positive done.1 then some done else save_verbatim done.0 bytes

  -- `rdbSaveRawString`; `compression` is `server.rdb_compression`.
  unfoldable pub save_raw_string :
      Strtoll → Memory → (compression : Bool) → S → List ℕ → Option (S × ℕ)
  save_raw_string strtoll buf compression s bytes =
      let enc = if leb (length bytes) 11 then try_integer_encoding strtoll buf bytes else [] in
      if ltb 0 (length enc) then write_raw stream s enc else do
        packed ←
            (if compression && ltb 20 (length bytes)
              then save_lzf_string_object s bytes
              else some none)
        unpacked s bytes packed

  -- `rdbSaveLongLongAsStringObject`
  unfoldable pub save_long_long_as_string_object : Memory → S → ℤ → Option (S × ℕ)
  save_long_long_as_string_object buf s value =
      let enc = encode_integer value in
      if ltb 0 (length enc)
      then write_raw stream s enc
      else let (enclen, buf') = ll2string buf 32 value in
        do
          (t, n) ← save_len stream s enclen
          (u, m) ← write_raw stream t (read buf' 0 enclen)
          counted u (n + m)

  -- `rdbSaveStringObject`
  unfoldable pub save_string_object :
      Strtoll → Memory → (compression : Bool) → S → Object → Option (S × ℕ)
  save_string_object strtoll buf compression s (raw bytes) =
      save_raw_string strtoll buf compression s bytes
  save_string_object strtoll buf compression s (int value) =
      save_long_long_as_string_object buf s value

  -- `rdbGenericLoadStringObject`
  unfoldable pub generic_load_string_object : Memory → S → (encode : Bool) → Loaded S
  generic_load_string_object buf s encode =
      let (len, isencoded, t) = load_len stream s in
      if isencoded
      then if len == 0 || len == 1 || len == 2
        then load_integer_object stream buf t len encode
        else if len == 3
        then load_lzf_string_object t
        else panics
      else if len == lenerr
      then missing
      else if len == 0
      then object (raw []) t
      else elim (stream.read t len) [ none ↦ missing | some (val, u) ↦ object (raw val) u ]
