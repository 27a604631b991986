-- ===== src/Rdb/Lengths.antt =====
-- What `rdbWriteRaw` and `rdbSaveLen` write, and what `rdbLoadLen` makes of it.
use redis_allocators.Prelude.{
  ℕ, ◌+◌, ◌*◌, ◌/◌, ◌%◌, ◌^◌, ◌-◌, ◌≤◌, ◌==◌, ◌<◌, ◌≡◌, refl, ap, ap₂, sym, ◌∙◌, true, false,
  Option, some, List, [], ◌∷◌, ◌++◌, ltb, if◌then◌else◌, arith, length, length-append, append_assoc,
  Bool-cases, inl, inr,
}
use redis_allocators.Prelude.Fallible.{◌>>=◌, >>=-eq-some}
use redis_allocators.Rio.{Stream}
use redis_allocators.Rdb.{to_net, from_net, write_raw, save_len, load_len, counted}

-- The bytes of a length.
unfoldable pub len_bytes : ℕ → List ℕ
len_bytes len =
    if ltb len (2 ^ 6)
    then len ∷ []
    else if ltb len (2 ^ 14)
    then (64 + len / 256) ∷ len % 256 ∷ []
    else 128 ∷ to_net len

pub length-len_bytes : (len : ℕ) → length (len_bytes len) ≤ 5
unfolding len_bytes
length-len_bytes len = elim (Bool-cases (ltb len (2 ^ 6))) [
  | inl small ↦ rw small (omega arith)
  | inr big ↦ elim (Bool-cases (ltb len (2 ^ 14))) [
    | inl middle ↦ rw (big, middle) (omega arith)
    | inr huge ↦ rw (big, huge) (omega arith)
  ]
]

pub same_pair {ℓ} :
    {A B : Type ℓ} {a a' : A} {b b' : B}
    → ◌≡◌ {A = Option (A × B)} (some (a, b)) (some (a', b'))
    → (a ≡ a') × (b ≡ b')
same_pair h = (cc, cc)

-- A count that an `int` holds.
pub counted_lem : {S : Type 0} (s : S) (n : ℕ) → n < 2 ^ 31 → counted s n ≡ some (s, n)
counted_lem s n small =
    let whole : n % 2 ^ 32 ≡ n = omega arith in
    let fine : (n == 2 ^ 32 - 1) ≡ false = ground arith in rw whole (rw fine refl)

module _ {S : Type 0} (stream : Stream S) where
  -- A save appends these bytes, and returns how many they are.
  abbrev pub Emits : S → List ℕ → Option (S × ℕ) → Type 0
  Emits s bytes saved =
      (t : S) (n : ℕ)
      → saved ≡ some (t, n)
      → (stream.written t ≡ stream.written s ++ bytes) × (n ≡ length bytes)

  pub write_raw-Emits :
      (s : S) (bytes : List ℕ) → length bytes < 2 ^ 31 → Emits s bytes (write_raw stream s bytes)
  unfolding write_raw
  write_raw-Emits s bytes small t n h =
      let (u, wrote, done') =
        >>=-eq-some (stream.write s bytes) (λ u. counted u (length bytes)) h in
      let done : some (u, length bytes) ≡ some (t, n) =
        sym (counted_lem u (length bytes) small) ∙ done' in
      let same = same_pair done in
      (ap stream.written (sym same.0) ∙ stream.write_lem s u bytes wrote, sym same.1)

  -- Two saves, one after the other; `finish` is what the code makes of the two counts.
  pub append-Emits :
      (s : S) (xs ys : List ℕ) (first : Option (S × ℕ)) (next : S → Option (S × ℕ))
      (finish : S → ℕ → ℕ → Option (S × ℕ))
      → Emits s xs first
      → ((t : S) → Emits t ys (next t))
      → ((t : S) → finish t (length xs) (length ys) ≡ some (t, length xs + length ys))
      → Emits s (xs ++ ys) (first >>= λ p. next p.0 >>= λ q. finish q.0 p.1 q.1)
  append-Emits s xs ys first next finish head tail sum u k h =
      let last : S × ℕ → S × ℕ → Option (S × ℕ) = λ p q. finish q.0 p.1 q.1 in
      let (p, done, later) = >>=-eq-some first (λ p. next p.0 >>= last p) h in
      let (q, done', ended) = >>=-eq-some (next p.0) (last p) later in
      let (wrote, n) = head p.0 p.1 done in
      let (wrote', m) = tail p.0 q.0 q.1 done' in
      let whole : some (q.0, length xs + length ys) ≡ some (u, k) =
        sym (ap₂ (finish q.0) n m ∙ sum q.0) ∙ ended in
      let same = same_pair whole in
      (
        ap stream.written (sym same.0)
            ∙ wrote'
            ∙ ap (λ l. l ++ ys) wrote
            ∙ append_assoc (stream.written s) xs ys,
        sym same.1 ∙ sym (length-append xs ys),
      )

  pub save_len-Emits : (s : S) (len : ℕ) → Emits s (len_bytes len) (save_len stream s len)
  unfolding save_len len_bytes
  save_len-Emits s len = elim (Bool-cases (ltb len (2 ^ 6))) [
    | inl small ↦
        let byte : len % 256 ≡ len = ground arith in
        rw (small, byte) (write_raw-Emits s (len ∷ []) (omega arith))
    | inr big ↦ elim (Bool-cases (ltb len (2 ^ 14))) [
      | inl middle ↦
          let byte : len / 256 % 256 ≡ len / 256 = ground arith in
          rw (big, middle, byte)
            (write_raw-Emits s ((64 + len / 256) ∷ len % 256 ∷ []) (omega arith))
      | inr huge ↦
          rw (big, huge)
            (append-Emits s (128 ∷ []) (to_net len) (write_raw stream s (128 ∷ []))
              (λ t. write_raw stream t (to_net len)) (λ u n m. some (u, 1 + 4))
              (write_raw-Emits s (128 ∷ []) (omega arith))
              (λ t. write_raw-Emits t (to_net len) (omega arith)) (λ t. refl))
    ]
  ]

  load_len_short :
      (s t : S) (b : ℕ)
      → stream.read s 1 ≡ some (b ∷ [], t)
      → b / 64 % 4 ≡ 0
      → load_len stream s ≡ (b % 64, false, t)
  unfolding load_len
  load_len_short s t b got kind = rw (got, kind, load_len) refl

  load_len_middle :
      (s t u : S) (b c : ℕ)
      → stream.read s 1 ≡ some (b ∷ [], t)
      → b / 64 % 4 ≡ 1
      → stream.read t 1 ≡ some (c ∷ [], u)
      → load_len stream s ≡ (b % 64 * 256 + c, false, u)
  unfolding load_len
  load_len_middle s t u b c got kind got' = rw (got, kind, got', load_len) refl

  load_len_long :
      (s t u : S) (b : ℕ) (bytes : List ℕ)
      → stream.read s 1 ≡ some (b ∷ [], t)
      → b / 64 % 4 ≡ 2
      → stream.read t 4 ≡ some (bytes, u)
      → load_len stream s ≡ (from_net bytes, false, u)
  unfolding load_len
  load_len_long s t u b bytes got kind got' = rw (got, kind, got', load_len) refl

  pub load_len_kind :
      (s t : S) (b : ℕ)
      → stream.read s 1 ≡ some (b ∷ [], t)
      → b / 64 % 4 ≡ 3
      → load_len stream s ≡ (b % 64, true, t)
  unfolding load_len
  load_len_kind s t b got kind = rw (got, kind, load_len) refl

  pub load_len-len_bytes :
      (s : S) (len : ℕ) (rest : List ℕ)
      → len < 2 ^ 32
      → stream.unread s ≡ len_bytes len ++ rest
      → (t : S) × (load_len stream s ≡ (len, false, t)) × (stream.unread t ≡ rest)
  unfolding len_bytes
  load_len-len_bytes s len rest fits h = elim (Bool-cases (ltb len (2 ^ 6))) [
    | inl small ↦
        let (t, got, left) = stream.read_lem s (len ∷ []) rest (h ∙ rw small refl) in
        let value : len % 64 ≡ len = ground arith in
        (t, load_len_short s t len got (ground arith) ∙ ap (λ v. (v, false, t)) value, left)
    | inr big ↦ elim (Bool-cases (ltb len (2 ^ 14))) [
      | inl middle ↦
          let b = 64 + len / 256 in
          let (t, got, left) =
            stream.read_lem s (b ∷ []) (len % 256 ∷ rest) (h ∙ rw (big, middle) refl) in
          let (u, got', left') = stream.read_lem t (len % 256 ∷ []) rest left in
          let value : b % 64 * 256 + len % 256 ≡ len = ground arith in
          (
            u,
            load_len_middle s t u b (len % 256) got (ground arith) got'
                ∙ ap (λ v. (v, false, u)) value,
            left',
          )
      | inr huge ↦
          let (t, got, left) =
            stream.read_lem s (128 ∷ []) (to_net len ++ rest) (h ∙ rw (big, huge) refl) in
          let (u, got', left') = stream.read_lem t (to_net len) rest left in
          let value : from_net (to_net len) ≡ len = ground arith in
          (
            u,
            load_len_long s t u 128 (to_net len) got refl got' ∙ ap (λ v. (v, false, u)) value,
            left',
          )
    ]
  ]

  -- A length of 32 bits that has been saved is loaded back, as a length, and the load stops behind
  -- the bytes that the save has counted.
  pub load_len-save_len :
      (s t : S) (len n : ℕ)
      → len < 2 ^ 32
      → save_len stream s len ≡ some (t, n)
      → (bytes : List ℕ) × (stream.written t ≡ stream.written s ++ bytes)
        × (n ≡ length bytes)
        × ((r : S) (rest : List ℕ)
            → stream.unread r ≡ bytes ++ rest
            → (u : S) × (load_len stream r ≡ (len, false, u)) × (stream.unread u ≡ rest))
  load_len-save_len s t len n fits h =
      let (wrote, long) = save_len-Emits s len t n h in
      (len_bytes len, wrote, long, λ r rest. load_len-len_bytes r len rest fits)
