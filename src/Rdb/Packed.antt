-- ===== src/Rdb/Packed.antt =====
-- Compressed strings in the dump format.
use redis_allocators.Prelude.{
  ℕ, ◌+◌, ◌-◌, ◌%◌, ◌^◌, ◌≤◌, ◌<◌, ◌≡◌, refl, ap, sym, ◌∙◌, Bool, true, false, Option, none, some,
  List, [], ◌∷◌, ◌++◌, ◌==◌, leb, arith, length, length-append, append_assoc, Bool-cases,
  Option-cases, inl, inr,
}
use redis_allocators.Prelude.Fallible.{◌>>=◌, >>=-eq-some}
use redis_allocators.Prelude.Eq.{nat_eq, list_eq}
use redis_allocators.Prelude.Memory.{Memory}
use redis_allocators.Rio.{Stream}
use redis_allocators.Rdb.{lenerr, encval, raw, object, Lzf, write_raw, save_len, load_len, counted}
use redis_allocators.Rdb.Strings.{
  save_lzf_string_object, load_lzf_string_object, generic_load_string_object,
}
use redis_allocators.Rdb.Lengths.{
  len_bytes, Emits, write_raw-Emits, save_len-Emits, load_len-len_bytes, load_len_kind,
  length-len_bytes, counted_lem, same_pair,
}
use redis_allocators.Rdb.Integers.{LoadsAs}

-- The bytes of a compressed string.
abbrev pub packed_bytes : List ℕ → ℕ → List ℕ
packed_bytes out len = (encval + 3) ∷ (len_bytes (length out) ++ (len_bytes len ++ out))

same_some : {A : Type 0} {a b : A} → some a ≡ some b → a ≡ b
same_some h = cc

module _ {S : Type 0} (stream : Stream S) (lzf : Lzf) where
  -- The string has been saved in a compressed form.
  abbrev pub IsPacked : S → List ℕ → S → ℕ → Type 0
  IsPacked s bytes t n =
      (out : List ℕ) × (lzf.compress bytes (length bytes - 4) ≡ some out)
      × (stream.written t ≡ stream.written s ++ packed_bytes out (length bytes))
      × (n ≡ length (packed_bytes out (length bytes)))

  pub length-packed_bytes :
      (bytes out : List ℕ)
      → lzf.compress bytes (length bytes - 4) ≡ some out
      → length (packed_bytes out (length bytes)) ≤ 11 + (length bytes - 4)
  length-packed_bytes bytes out packed = omega (
    arith,
    length-append (len_bytes (length out)) (len_bytes (length bytes) ++ out),
    length-append (len_bytes (length bytes)) out,
    length-len_bytes (length out),
    length-len_bytes (length bytes),
    lzf.compress_fits bytes out (length bytes - 4) packed,
  )

  abbrev finish : ℕ → S × ℕ → Option (Option (S × ℕ))
  finish m p = do done ← counted p.0 (m + p.1); some (some done)

  abbrev fourth : List ℕ → ℕ → S × ℕ → Option (Option (S × ℕ))
  fourth us m p = write_raw stream p.0 us >>= finish (m + p.1)

  abbrev third : (S → Option (S × ℕ)) → List ℕ → ℕ → S × ℕ → Option (Option (S × ℕ))
  third save₃ us m p = save₃ p.0 >>= fourth us (m + p.1)

  abbrev second :
      (S → Option (S × ℕ)) → (S → Option (S × ℕ)) → List ℕ → S × ℕ → Option (Option (S × ℕ))
  second save₂ save₃ us p = save₂ p.0 >>= third save₃ us p.1

  -- Four saves, one after the other.
  chain_lem :
      (s t : S) (xs ys zs us : List ℕ) (n : ℕ) (save₂ save₃ : S → Option (S × ℕ))
      → length (xs ++ (ys ++ (zs ++ us))) < 2 ^ 31
      → ((v : S) → Emits stream v ys (save₂ v))
      → ((v : S) → Emits stream v zs (save₃ v))
      → (write_raw stream s xs >>= second save₂ save₃ us) ≡ some (some (t, n))
      → (stream.written t ≡ stream.written s ++ (xs ++ (ys ++ (zs ++ us))))
        × (n ≡ length (xs ++ (ys ++ (zs ++ us))))
  chain_lem s t xs ys zs us n save₂ save₃ small emits₂ emits₃ h =
      let (p₁, done₁, h₁) = >>=-eq-some (write_raw stream s xs) (second save₂ save₃ us) h in
      let (p₂, done₂, h₂) = >>=-eq-some (save₂ p₁.0) (third save₃ us p₁.1) h₁ in
      let (p₃, done₃, h₃) = >>=-eq-some (save₃ p₂.0) (fourth us (p₁.1 + p₂.1)) h₂ in
      let (p₄, done₄, h₄) =
        >>=-eq-some (write_raw stream p₃.0 us) (finish (p₁.1 + p₂.1 + p₃.1)) h₃ in
      let sum₁ = length-append xs (ys ++ (zs ++ us)) in
      let sum₂ = length-append ys (zs ++ us) in
      let sum₃ = length-append zs us in
      let (w₁, n₁) = write_raw-Emits stream s xs (omega arith) p₁.0 p₁.1 done₁ in
      let (w₂, n₂) = emits₂ p₁.0 p₂.0 p₂.1 done₂ in
      let (w₃, n₃) = emits₃ p₂.0 p₃.0 p₃.1 done₃ in
      let (w₄, n₄) = write_raw-Emits stream p₃.0 us (omega arith) p₄.0 p₄.1 done₄ in
      let total = p₁.1 + p₂.1 + p₃.1 + p₄.1 in
      let whole = counted_lem p₄.0 total (omega arith) in
      let ended : some (some (p₄.0, total)) ≡ some (some (t, n)) =
        sym (ap (λ c. c >>= λ done. some (some done)) whole) ∙ h₄ in
      let same = same_pair (same_some ended) in
      let start = stream.written s in
      (
        ap stream.written (sym same.0)
            ∙ w₄
            ∙ ap (λ l. l ++ us) (w₃ ∙ ap (λ l. l ++ zs) (w₂ ∙ ap (λ l. l ++ ys) w₁))
            ∙ append_assoc ((start ++ xs) ++ ys) zs us
            ∙ append_assoc (start ++ xs) ys (zs ++ us)
            ∙ append_assoc start xs (ys ++ (zs ++ us)),
        omega (arith, same.1),
      )

  pub save_lzf_string_object-IsPacked :
      (s t : S) (bytes : List ℕ) (n : ℕ)
      → length bytes + 7 < 2 ^ 31
      → save_lzf_string_object stream lzf s bytes ≡ some (some (t, n))
      → IsPacked s bytes t n
  unfolding save_lzf_string_object
  save_lzf_string_object-IsPacked s t bytes n small h = elim (Bool-cases (leb (length bytes) 4)) [
    | inl e ↦ absurd (short e)
    | inr e ↦ elim (Option-cases (lzf.compress bytes (length bytes - 4))) [
      | inl none_out ↦ absurd (refused e none_out)
      | inr found ↦
          let out = found.0 in
          let fits : length out < 2 ^ 32 =
            omega (arith, lzf.compress_fits bytes out (length bytes - 4) found.1) in
          let whole : length bytes % 2 ^ 32 ≡ length bytes = ground arith in
          let whole' : length out % 2 ^ 32 ≡ length out = ground arith in
          let h' = rw (e, found.1, whole, whole') at h in
          let (wrote, long) =
            chain_lem s t ((encval + 3) ∷ []) (len_bytes (length out)) (len_bytes (length bytes))
              out n (λ v. save_len stream v (length out)) (λ v. save_len stream v (length bytes))
              (let le = length-packed_bytes bytes out found.1 in omega arith)
              (λ v. save_len-Emits stream v (length out))
              (λ v. save_len-Emits stream v (length bytes)) h' in
          (out, found.1, wrote, long)
    ]
  ]
    where
      short : leb (length bytes) 4 ≡ true → ⊥
      short e = let h' = rw e at h in cc

      refused : leb (length bytes) 4 ≡ false → lzf.compress bytes (length bytes - 4) ≡ none → ⊥
      refused e none_out = let h' = rw none_out at (rw e at h) in cc

  module _ (buf : Memory) (encode : Bool) where
    load_lzf_steps :
        (s t u v : S) (e e' : Bool) (clen : ℕ) (out bytes : List ℕ)
        → load_len stream s ≡ (clen, e, t)
        → (clen == lenerr) ≡ false
        → load_len stream t ≡ (length bytes, e', u)
        → (length bytes == lenerr) ≡ false
        → stream.read u clen ≡ some (out, v)
        → lzf.decompress out (length bytes) ≡ some bytes
        → load_lzf_string_object stream lzf s ≡ object (raw bytes) v
    unfolding load_lzf_string_object
    load_lzf_steps s t u v e e' clen out bytes found proper found' proper' got whole =
        rw (found, proper, found', proper', got, found, found', whole) refl

    load_lzf_lem :
        (s : S) (out bytes rest : List ℕ)
        → length out < lenerr
        → length bytes < lenerr
        → lzf.decompress out (length bytes) ≡ some bytes
        → stream.unread s ≡ len_bytes (length out) ++ (len_bytes (length bytes) ++ (out ++ rest))
        → (t : S) × (load_lzf_string_object stream lzf s ≡ object (raw bytes) t)
          × (stream.unread t ≡ rest)
    load_lzf_lem s out bytes rest few small whole h =
        let (t, found, left) = load_len-len_bytes stream s (length out) _ (omega arith) h in
        let (u, found', left') =
          load_len-len_bytes stream t (length bytes) (out ++ rest) (omega arith) left in
        let (v, got, left'') = stream.read_lem u out rest left' in
        let proper : (length out == lenerr) ≡ false = ground arith in
        let proper' : (length bytes == lenerr) ≡ false = ground arith in
        (
          v,
          load_lzf_steps s t u v false false (length out) out bytes found proper found' proper' got
              whole,
          left'',
        )

    generic_packed :
        (s t : S)
        → load_len stream s ≡ (3, true, t)
        → generic_load_string_object stream lzf buf s encode ≡ load_lzf_string_object stream lzf t
    unfolding generic_load_string_object
    generic_packed s t found = rw (found, generic_load_string_object) refl

    pub packed-LoadsAs :
        (out bytes : List ℕ)
        → length bytes < lenerr
        → lzf.compress bytes (length bytes - 4) ≡ some out
        → LoadsAs stream lzf buf encode (packed_bytes out (length bytes)) (raw bytes)
    packed-LoadsAs out bytes small packed s rest h =
        let a = len_bytes (length out) in
        let b = len_bytes (length bytes) in
        let (t, got, left) = stream.read_lem s ((encval + 3) ∷ []) ((a ++ (b ++ out)) ++ rest) h in
        let found = load_len_kind stream s t (encval + 3) got refl in
        let few : length out < lenerr =
          omega (arith, lzf.compress_fits bytes out (length bytes - 4) packed) in
        let behind =
          left ∙ append_assoc a (b ++ out) rest ∙ ap (λ l. a ++ l) (append_assoc b out rest) in
        let (u, loads, left') =
          load_lzf_lem t out bytes rest few small
            (lzf.decompress-compress bytes out (length bytes - 4) packed) behind in
        (u, generic_packed s t found ∙ loads, left')
