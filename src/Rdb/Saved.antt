-- ===== src/Rdb/Saved.antt =====
-- Strings in the dump format: what is saved is loaded back.
use redis_allocators.Prelude.{
  ℕ, suc, ◌+◌, ◌%◌, ◌^◌, ◌<◌, ◌≡◌, refl, sym, ◌∙◌, Bool, true, false, some, List, [], ◌∷◌, ◌++◌,
  ◌==◌, ltb, arith, length, append_assoc, append-nil, Bool-cases, inl, inr, ◌⊎◌,
}
use redis_allocators.Prelude.Fallible.{>>=-eq-some}
use redis_allocators.Prelude.Eq.{nat_eq, list_eq, list_beq, list_beq_iff}
use redis_allocators.Prelude.Int.{ℤ, pos, negsuc}
use redis_allocators.Prelude.Memory.{Memory, read}
use redis_allocators.Util.{ll2string}
use redis_allocators.Util.Decimal.{IsInt64, decimal_text}
use redis_allocators.Util.Digits.{length-decimal_bound}
use redis_allocators.Util.Print.{ll2string_lem}
use redis_allocators.Rio.{Stream}
use redis_allocators.Rdb.{
  lenerr, Object, raw, int, Lzf, Strtoll, encode_integer, try_integer_encoding, write_raw, save_len,
  counted, char_at,
}
use redis_allocators.Rdb.Strings.{save_verbatim, generic_load_string_object}
use redis_allocators.Rdb.Lengths.{
  len_bytes, Emits, write_raw-Emits, append-Emits, save_len-Emits, load_len-len_bytes,
  length-len_bytes, counted_lem,
}
use redis_allocators.Rdb.Integers.{LoadsAs}

-- The bytes of an object.
abbrev pub text : Object → List ℕ
text (raw bytes) = bytes
text (int value) = decimal_text value

-- `ll2string` into a buffer of 32 bytes.
pub text_fits : (v : ℤ) → IsInt64 v → length (decimal_text v) < 32
unfolding decimal_text
text_fits (pos n) range = omega (arith, length-decimal_bound n (omega arith))
text_fits (negsuc n) range = omega (arith, length-decimal_bound (suc n) (omega arith))

pub printed :
    (buf : Memory) (v : ℤ)
    → IsInt64 v
    → let (n, m) = ll2string buf 32 v in read m 0 n ≡ decimal_text v
printed buf v range =
    let (size, bytes, end, rest) = ll2string_lem buf 32 v range (text_fits v range) in bytes

-- An integer encoding stands for the text that is saved.
pub try_integer_encoding_lem :
    (strtoll : Strtoll) (buf : Memory) (bytes : List ℕ)
    → let enc = try_integer_encoding strtoll buf bytes in
      (enc ≡ []) ⊎ ((v : ℤ) × IsInt64 v × (decimal_text v ≡ bytes) × (enc ≡ encode_integer v))
unfolding try_integer_encoding
try_integer_encoding_lem strtoll buf bytes =
    let v = strtoll.value bytes in
    let range = strtoll.in_range bytes in
    let (n, m) = ll2string buf 32 v in
    elim (Bool-cases (char_at bytes (strtoll.stop bytes) == 0)) [
      | inr e ↦ rw e (inl refl)
      | inl e ↦ elim (Bool-cases (list_beq (read m 0 n) bytes)) [
        | inr e' ↦ rw (e, e') (inl refl)
        | inl e' ↦
            rw (e, e')
              (inr (v, range, sym (printed buf v range) ∙ (list_beq_iff _ bytes).0 e', refl))
      ]
    ]

module _ {S : Type 0} (stream : Stream S) (lzf : Lzf) where
  pub save_verbatim-Emits :
      (s : S) (bytes : List ℕ)
      → length bytes + 7 < 2 ^ 31
      → Emits stream s (len_bytes (length bytes) ++ bytes) (save_verbatim stream lzf s bytes)
  unfolding save_verbatim
  save_verbatim-Emits s [] small = λ t n h.
      let (head, done, same) = >>=-eq-some (save_len stream s 0) (λ head. some head) h in
      rw (append-nil (len_bytes 0)) (save_len-Emits stream s 0 t n (done ∙ same))
  save_verbatim-Emits s (b ∷ bytes) small =
      let len = length (b ∷ bytes) in
      let whole : len % 2 ^ 32 ≡ len = ground arith in
      let full : ltb 0 len ≡ true = ground arith in
      rw (whole, full)
        (append-Emits stream s (len_bytes len) (b ∷ bytes) (save_len stream s len)
          (λ t. write_raw stream t (b ∷ bytes)) (λ u n m. counted u (n + len))
          (save_len-Emits stream s len) (λ t. write_raw-Emits stream t (b ∷ bytes) (omega arith))
          (λ t. counted_lem t _ (omega (arith, length-len_bytes len))))

  module _ (buf : Memory) (encode : Bool) where
    pub verbatim-LoadsAs :
        (bytes : List ℕ)
        → length bytes < lenerr
        → LoadsAs stream lzf buf encode (len_bytes (length bytes) ++ bytes) (raw bytes)
    unfolding generic_load_string_object
    verbatim-LoadsAs [] small s rest h =
        let (t, found, left) =
          load_len-len_bytes stream s 0 rest (omega arith)
            (h ∙ append_assoc (len_bytes 0) [] rest) in
        (t, rw (found, generic_load_string_object) refl, left)
    verbatim-LoadsAs (b ∷ bytes) small s rest h =
        let len = length (b ∷ bytes) in
        let (t, found, left) =
          load_len-len_bytes stream s len ((b ∷ bytes) ++ rest) (omega arith)
            (h ∙ append_assoc (len_bytes len) (b ∷ bytes) rest) in
        let (u, got, left') = stream.read_lem t (b ∷ bytes) rest left in
        let proper : (len == lenerr) ≡ false = ground arith in
        let full : (len == 0) ≡ false = ground arith in
        (u, rw (found, proper, full, got, generic_load_string_object) refl, left')
