-- ===== src/Rio/Buffered.antt =====
-- A buffer is a stream, and so is a rio over a stream, whatever its chunk size.
use redis_allocators.Prelude.{
  ℕ, zero, suc, ◌+◌, ◌-◌, ◌≤◌, ◌≡◌, refl, ap, sym, ◌∙◌, false, none, some, List, [], ◌∷◌, ◌++◌, ltb,
  arith, length, take, drop, length-append, length-take, length-drop, take-append-drop,
  append_assoc, append-nil,
}
use redis_allocators.Prelude.Fallible.{>>=-eq-some}
use redis_allocators.Rio.{
  Backend, Stream, Buffer, buffer_write, buffer_read, Rio, chunk, moved, write_loop, rio_write,
  read_loop, rio_read,
}

module _ {ℓ} {A : Type ℓ} where
  pub take_append_self : (xs ys : List A) → take (length xs) (xs ++ ys) ≡ xs
  take_append_self [] ys = refl
  take_append_self (x ∷ xs) ys = ap (λ l. x ∷ l) (take_append_self xs ys)

  pub drop_append_self : (xs ys : List A) → drop (length xs) (xs ++ ys) ≡ ys
  drop_append_self [] ys = refl
  drop_append_self (x ∷ xs) ys = drop_append_self xs ys

  drop_nil : (n : ℕ) → drop {A = A} n [] ≡ []
  drop_nil zero = refl
  drop_nil (suc n) = refl

  pub drop-drop : (m n : ℕ) (xs : List A) → drop n (drop m xs) ≡ drop (m + n) xs
  drop-drop zero n xs = let e : n ≡ 0 + n = omega arith in ap (λ k. drop k xs) e
  drop-drop (suc m) n [] = drop_nil n ∙ sym (drop_nil (suc m + n))
  drop-drop (suc m) n (x ∷ xs) =
      let e : suc (m + n) ≡ suc m + n = omega arith in
      drop-drop m n xs ∙ ap (λ k. drop k (x ∷ xs)) e

pub buffer_read_lem :
    (b : Buffer) (x : ℕ) (bytes rest : List ℕ)
    → drop b.pos b.ptr ≡ (x ∷ bytes) ++ rest
    → (t : Buffer) × (buffer_read b (suc (length bytes)) ≡ some (x ∷ bytes, t))
      × (drop t.pos t.ptr ≡ rest)
unfolding buffer_read
buffer_read_lem b x bytes rest h =
    let n = suc (length bytes) in
    let long = ap length h in
    let fits : ltb (length b.ptr) (b.pos + n) ≡ false =
      ground (arith, length-drop b.pos b.ptr, length-append bytes rest) in
    (
      record b { pos = b.pos + n },
      rw (fits, h, take_append_self bytes rest) refl,
      sym (drop-drop b.pos n b.ptr) ∙ ap (drop n) h ∙ drop_append_self bytes rest,
    )

pub buffer_write_lem :
    (b t : Buffer) (bytes : List ℕ) → buffer_write b bytes ≡ some t → t.ptr ≡ b.ptr ++ bytes
unfolding buffer_write
buffer_write_lem b t bytes h = cc

-- The buffer keeps the promises of a backend.
abbrev pub buffer : Backend Buffer
buffer = record {
  write = buffer_write;
  read = buffer_read;
  written = λ b. b.ptr;
  unread = λ b. drop b.pos b.ptr;
  write_lem = buffer_write_lem;
  read_lem = buffer_read_lem;
}

module _ {S : Type 0} (backend : Backend S) where
  write_loop_lem :
      (fuel : ℕ) (r t : Rio S) (bytes : List ℕ)
      → write_loop backend.write fuel r bytes ≡ some t
      → backend.written t.io ≡ backend.written r.io ++ bytes
  unfolding write_loop
  write_loop_lem fuel r t [] h =
      sym (ap (λ x. elim x [ none ↦ backend.written r.io | some u ↦ backend.written u.io ]) h)
      ∙ sym (append-nil (backend.written r.io))
  write_loop_lem zero r t (b ∷ bytes) h = cc
  write_loop_lem (suc fuel) r t (b ∷ bytes) h =
      let n = chunk r (length (b ∷ bytes)) in
      let (io, wrote, later) = >>=-eq-some _ _ h in
      let first = backend.write_lem r.io io (take n (b ∷ bytes)) wrote in
      let rest = write_loop_lem fuel _ t (drop n (b ∷ bytes)) later in
      rest
      ∙ ap (λ l. l ++ drop n (b ∷ bytes)) first
      ∙ append_assoc (backend.written r.io) _ _
      ∙ ap (λ l. backend.written r.io ++ l) (take-append-drop n (b ∷ bytes))

  pub rio_write_lem :
      (r t : Rio S) (bytes : List ℕ)
      → rio_write backend.write r bytes ≡ some t
      → backend.written t.io ≡ backend.written r.io ++ bytes
  unfolding rio_write
  rio_write_lem r t bytes h = write_loop_lem (length bytes) r t bytes h

  chunk_cases : (r : Rio S) (len : ℕ) → (k : ℕ) × (chunk r (suc len) ≡ suc k) × (k ≤ len)
  chunk_cases r len = (chunk r (suc len) - 1, ground arith, ground arith)

  -- One round of `rioRead`.
  read_round :
      (fuel k : ℕ) (r t : Rio S) (io : S) (b : ℕ) (bytes : List ℕ)
      → chunk r (suc (length bytes)) ≡ suc k
      → backend.read r.io (suc k) ≡ some (b ∷ take k bytes, io)
      → read_loop backend.read fuel
          (moved r io (b ∷ take k bytes) (suc k))
          (suc (length bytes) - suc k)
        ≡ some (drop k bytes, t)
      → read_loop backend.read (suc fuel) r (suc (length bytes)) ≡ some (b ∷ bytes, t)
  unfolding read_loop
  read_round fuel k r t io b bytes size got later =
      rw (size, got, later) (ap (λ l. some (b ∷ l, t)) (take-append-drop k bytes))

  read_loop_lem :
      (fuel : ℕ) (r : Rio S) (bytes rest : List ℕ)
      → length bytes ≤ fuel
      → backend.unread r.io ≡ bytes ++ rest
      → (t : Rio S) × (read_loop backend.read fuel r (length bytes) ≡ some (bytes, t))
        × (backend.unread t.io ≡ rest)
  unfolding read_loop
  read_loop_lem fuel r [] rest enough h = (r, refl, h)
  read_loop_lem zero r (b ∷ bytes) rest enough h = absurd (omega arith)
  read_loop_lem (suc fuel) r (b ∷ bytes) rest enough h =
      let (k, size, fits) = chunk_cases r (length bytes) in
      let split = take-append-drop k bytes in
      let front : backend.unread r.io ≡ (b ∷ take k bytes) ++ (drop k bytes ++ rest) =
        h
        ∙ ap (λ l. b ∷ l ++ rest) (sym split)
        ∙ append_assoc (b ∷ take k bytes) (drop k bytes) rest in
      let (io, got, left) = backend.read_lem r.io b (take k bytes) (drop k bytes ++ rest) front in
      let long : suc (length (take k bytes)) ≡ suc k = omega (arith, length-take k bytes) in
      let remains : suc (length bytes) - suc k ≡ length (drop k bytes) =
        omega (arith, length-drop k bytes) in
      let r' = moved r io (b ∷ take k bytes) (suc k) in
      let few : length (drop k bytes) ≤ fuel = omega (arith, length-drop k bytes) in
      let (t, later, done) = read_loop_lem fuel r' (drop k bytes) rest few left in
      let got' = ap (backend.read r.io) (sym long) ∙ got in
      let later' = ap (read_loop backend.read fuel r') remains ∙ later in
      (t, read_round fuel k r t io b bytes size got' later', done)

  pub rio_read_lem :
      (r : Rio S) (bytes rest : List ℕ)
      → backend.unread r.io ≡ bytes ++ rest
      → (t : Rio S) × (rio_read backend.read r (length bytes) ≡ some (bytes, t))
        × (backend.unread t.io ≡ rest)
  unfolding rio_read
  rio_read_lem r bytes rest h = read_loop_lem (length bytes) r bytes rest (omega arith) h

  -- `rioWrite` and `rioRead` over a backend, whatever the chunk size.
  abbrev pub rio : Stream (Rio S)
  rio = record {
    write = rio_write backend.write;
    read = rio_read backend.read;
    written = λ r. backend.written r.io;
    unread = λ r. backend.unread r.io;
    write_lem = rio_write_lem;
    read_lem = rio_read_lem;
  }
