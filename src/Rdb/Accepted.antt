-- ===== src/Rdb/Accepted.antt =====
-- Saving goes well on a stream that accepts every write, such as a buffer.
use redis_allocators.Prelude.{
  ℕ, ◌+◌, ◌-◌, ◌%◌, ◌^◌, ◌≤◌, ◌<◌, ◌≡◌, refl, ap, ◌∙◌, ◌⊎◌, Bool, true, false, ◌&&◌, Option, none,
  some, List, [], ltb, leb, if◌then◌else◌, arith, length, Bool-cases, Option-cases, inl, inr,
}
use redis_allocators.Prelude.Fallible.{◌>>=◌}
use redis_allocators.Prelude.Eq.{nat_eq, list_eq}
use redis_allocators.Prelude.Memory.{Memory, read}
use redis_allocators.Rio.{Stream}
use redis_allocators.Prelude.Int.{ℤ}
use redis_allocators.Util.{ll2string}
use redis_allocators.Util.Decimal.{IsInt64, decimal_text}
use redis_allocators.Rdb.{
  Object, raw, int, Lzf, Strtoll, encode_integer, try_integer_encoding, write_raw, save_len,
  counted, is_positive,
}
use redis_allocators.Rdb.Lengths.{len_bytes, length-len_bytes, save_len-Emits, counted_lem}
use redis_allocators.Rdb.Integers.{length-encode_integer}
use redis_allocators.Rdb.Saved.{text, text_fits, printed, try_integer_encoding_lem}
use redis_allocators.Rdb.Restored.{IsStorable, IsStored, save_string_object-IsStored}
use redis_allocators.Rdb.Strings.{
  save_lzf_string_object, save_verbatim, save_raw_string, unpacked, save_long_long_as_string_object,
  save_string_object,
}
use redis_allocators.Rio.Accepting.{Succeeds, >>=-Succeeds, IsAccepting}

-- A save that succeeds with this count.
abbrev Saves : {S : Type 0} → Option (S × ℕ) → ℕ → Type 0
Saves {S} saved n = (t : S) × (saved ≡ some (t, n))

>>=-Saves :
    {S : Type 0} {B : Type 0} (m : Option (S × ℕ)) (n : ℕ) (f : S × ℕ → Option B)
    → Saves m n
    → ((t : S) → Succeeds (f (t, n)))
    → Succeeds (m >>= f)
>>=-Saves m n f (t, e) next = rw e (next t)

counted-Succeeds : {S : Type 0} (s : S) (n : ℕ) → n < 2 ^ 31 → Succeeds (counted s n)
counted-Succeeds s n small = ((s, n), counted_lem s n small)

module _ {S : Type 0} (stream : Stream S) (lzf : Lzf) (accepts : IsAccepting stream.write) where
  write_raw-Saves :
      (s : S) (bytes : List ℕ)
      → length bytes < 2 ^ 31
      → Saves (write_raw stream s bytes) (length bytes)
  unfolding write_raw
  write_raw-Saves s bytes small =
      let (t, e) = accepts s bytes in (t, rw e (counted_lem t (length bytes) small))

  write_raw-Succeeds :
      (s : S) (bytes : List ℕ) → length bytes < 2 ^ 31 → Succeeds (write_raw stream s bytes)
  write_raw-Succeeds s bytes small =
      let (t, e) = write_raw-Saves s bytes small in ((t, length bytes), e)

  save_len-Succeeds : (s : S) (len : ℕ) → Succeeds (save_len stream s len)
  unfolding save_len
  save_len-Succeeds s len = elim (Bool-cases (ltb len (2 ^ 6))) [
    | inl small ↦ rw small (write_raw-Succeeds s _ (omega arith))
    | inr big ↦ elim (Bool-cases (ltb len (2 ^ 14))) [
      | inl middle ↦ rw (big, middle) (write_raw-Succeeds s _ (omega arith))
      | inr huge ↦
          rw (big, huge)
            (>>=-Succeeds (write_raw stream s _) _ (write_raw-Succeeds s _ (omega arith)) (λ p.
              >>=-Succeeds (write_raw stream p.0 _) _ (write_raw-Succeeds p.0 _ (omega arith))
                (λ q. ((q.0, 5), refl))))
    ]
  ]

  save_len-Saves : (s : S) (len : ℕ) → Saves (save_len stream s len) (length (len_bytes len))
  save_len-Saves s len =
      let (done, e) = save_len-Succeeds s len in
      let (wrote, long) = save_len-Emits stream s len done.0 done.1 e in
      (done.0, e ∙ ap (λ n. some (done.0, n)) long)

  save_verbatim-Succeeds :
      (s : S) (bytes : List ℕ)
      → length bytes + 7 < 2 ^ 31
      → Succeeds (save_verbatim stream lzf s bytes)
  unfolding save_verbatim
  save_verbatim-Succeeds s bytes small =
      let len = length bytes % 2 ^ 32 in
      let le = length-len_bytes len in
      >>=-Saves (save_len stream s len) (length (len_bytes len)) _ (save_len-Saves s len) (λ t.
        elim (Bool-cases (ltb 0 (length bytes))) [
          | inr empty ↦ rw empty ((t, length (len_bytes len)), refl)
          | inl full ↦ rw full (
              >>=-Saves (write_raw stream t bytes) (length bytes) _
                (write_raw-Saves t bytes (omega arith))
                (λ u. counted-Succeeds u (length (len_bytes len) + length bytes) (omega arith)))
        ])

  save_lzf_string_object-Succeeds :
      (s : S) (bytes : List ℕ)
      → length bytes + 7 < 2 ^ 31
      → Succeeds (save_lzf_string_object stream lzf s bytes)
  unfolding save_lzf_string_object
  save_lzf_string_object-Succeeds s bytes small = elim (Bool-cases (leb (length bytes) 4)) [
    | inl short ↦ rw short (none, refl)
    | inr long ↦ elim (Option-cases (lzf.compress bytes (length bytes - 4))) [
      | inl refused ↦ rw (long, refused) (none, refl)
      | inr (out, packed) ↦
          let fits = lzf.compress_fits bytes out (length bytes - 4) packed in
          let len₂ = length out % 2 ^ 32 in
          let len₃ = length bytes % 2 ^ 32 in
          let le₂ = length-len_bytes len₂ in
          let le₃ = length-len_bytes len₃ in
          rw (long, packed)
            (>>=-Saves (write_raw stream s _) 1 _ (write_raw-Saves s _ (omega arith)) (λ t₁.
              >>=-Saves (save_len stream t₁ len₂) _ _ (save_len-Saves t₁ len₂) (λ t₂.
                >>=-Saves (save_len stream t₂ len₃) _ _ (save_len-Saves t₂ len₃) (λ t₃.
                  >>=-Saves (write_raw stream t₃ out) _ _ (write_raw-Saves t₃ out (omega arith))
                    (λ t₄.
                      >>=-Succeeds
                        (counted t₄
                          (1 + length (len_bytes len₂) + length (len_bytes len₃) + length out))
                        _ (counted-Succeeds t₄ _ (omega arith)) (λ done. (some done, refl)))))))
    ]
  ]

  unpacked-Succeeds :
      (s : S) (bytes : List ℕ) (packed : Option (S × ℕ))
      → length bytes + 7 < 2 ^ 31
      → Succeeds (unpacked stream lzf s bytes packed)
  unpacked-Succeeds s bytes none small = save_verbatim-Succeeds s bytes small
  unpacked-Succeeds s bytes (some done) small = elim (Bool-cases (is_positive done.1)) [
    | inl e ↦ rw e (done, refl)
    | inr e ↦ rw e (save_verbatim-Succeeds done.0 bytes small)
  ]

  either :
      {A : Type 0} (b : Bool) {m n : Option A}
      → Succeeds m
      → Succeeds n
      → Succeeds (if b then m else n)
  either true hm hn = hm
  either false hm hn = hn

  length-try_integer_encoding :
      (strtoll : Strtoll) (own : Memory) (bytes : List ℕ)
      → length (if leb (length bytes) 11 then try_integer_encoding strtoll own bytes else []) ≤ 5
  length-try_integer_encoding strtoll own bytes = elim (Bool-cases (leb (length bytes) 11)) [
    | inr e ↦ rw e (omega arith)
    | inl e ↦ rw e (attempt (try_integer_encoding_lem strtoll own bytes))
  ]
    where
      attempt :
          {enc : List ℕ}
          → (enc ≡ []) ⊎ ((v : ℤ) × IsInt64 v × (decimal_text v ≡ bytes) × (enc ≡ encode_integer v))
          → length enc ≤ 5
      attempt (inl e) = rw e (omega arith)
      attempt (inr (v, range, same, e)) = rw e (length-encode_integer v)

  save_raw_string-Succeeds :
      (strtoll : Strtoll) (own : Memory) (compression : Bool) (s : S) (bytes : List ℕ)
      → length bytes + 7 < 2 ^ 31
      → Succeeds (save_raw_string stream lzf strtoll own compression s bytes)
  unfolding save_raw_string
  save_raw_string-Succeeds strtoll own compression s bytes small =
      let le = length-try_integer_encoding strtoll own bytes in
      either _ (write_raw-Succeeds s _ (omega arith)) (
        >>=-Succeeds
          (if compression && ltb 20 (length bytes)
            then save_lzf_string_object stream lzf s bytes
            else some none)
          _
          (either (compression && ltb 20 (length bytes))
            (save_lzf_string_object-Succeeds s bytes small) (none, refl))
          (λ packed. unpacked-Succeeds s bytes packed small))

  save_long_long_as_string_object-Succeeds :
      (own : Memory) (s : S) (v : ℤ)
      → IsInt64 v
      → Succeeds (save_long_long_as_string_object stream lzf own s v)
  unfolding save_long_long_as_string_object
  save_long_long_as_string_object-Succeeds own s v range =
      let enclen = (ll2string own 32 v).0 in
      let text = read (ll2string own 32 v).1 0 enclen in
      let few = text_fits v range in
      let short : length text < 32 = omega (arith, ap length (printed own v range)) in
      let le = length-len_bytes enclen in
      let le' = length-encode_integer v in
      either (ltb 0 (length (encode_integer v))) (write_raw-Succeeds s _ (omega arith)) (
        >>=-Saves (save_len stream s enclen) _ _ (save_len-Saves s enclen) (λ t.
          >>=-Saves (write_raw stream t text) _ _ (write_raw-Saves t text (omega arith))
            (λ u. counted-Succeeds u (length (len_bytes enclen) + length text) (omega arith))))

  -- A save of a storable object.
  object-Succeeds :
      (strtoll : Strtoll) (own : Memory) (compression : Bool) (s : S) (o : Object)
      → IsStorable o
      → Succeeds (save_string_object stream lzf strtoll own compression s o)
  unfolding save_string_object
  object-Succeeds strtoll own compression s (raw bytes) small =
      save_raw_string-Succeeds strtoll own compression s bytes small
  object-Succeeds strtoll own compression s (int v) range =
      save_long_long_as_string_object-Succeeds own s v range

  -- On a stream that accepts every write each string object of a `long long`, or of less than
  -- 2 ^ 31 - 7 bytes, is saved: the save returns the number of bytes that it has written, and from
  -- these bytes an object with the same text is loaded, in either mode of loading.
  pub save_string_object-Succeeds :
      (strtoll : Strtoll) (own buf : Memory) (compression : Bool) (s : S) (o : Object)
      → IsStorable o
      → (t : S) × (n : ℕ) × (save_string_object stream lzf strtoll own compression s o
          ≡ some (t, n))
        × IsStored stream lzf buf s (text o) t n
  save_string_object-Succeeds strtoll own buf compression s o small =
      let ((t, n), e) = object-Succeeds strtoll own compression s o small in
      (t, n, e, save_string_object-IsStored stream lzf buf strtoll own compression s t o n small e)
