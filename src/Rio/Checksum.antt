-- ===== src/Rio/Checksum.antt =====
-- The checksum and the count of bytes do not depend on the chunks.
use redis_allocators.Prelude.{
  ℕ, zero, suc, ◌+◌, ◌-◌, ◌≤◌, ◌≡◌, refl, ap, sym, ◌∙◌, Option, some, List, [], ◌∷◌, ◌++◌, arith,
  length, take, drop, length-drop, take-append-drop,
}
use redis_allocators.Prelude.Fallible.{◌>>=◌, >>=-eq-some}
use redis_allocators.Rio.Crc64.{crc64, crc64-append, generic_update_checksum}
use redis_allocators.Rio.{Rio, chunk, add_cksum, moved, write_loop, rio_write, read_loop, rio_read}

-- A checksum that can be computed piece by piece, of which
-- `rioGenericUpdateChecksum` is one.
pub record IsGradual (update : ℕ → List ℕ → ℕ) : Type 0 where
  pub nil : (c : ℕ) → update c [] ≡ c
  pub append : (c : ℕ) (xs ys : List ℕ) → update c (xs ++ ys) ≡ update (update c xs) ys

module _ {S : Type 0} (update : ℕ → List ℕ → ℕ) (gradual : IsGradual update) where
  -- A stream whose checksum and count have moved over the bytes.
  abbrev pub HasCounted : Rio S → List ℕ → ℕ → Rio S → Type 0
  HasCounted r bytes len t =
      (t.cksum ≡ update r.cksum bytes) × (t.processed_bytes ≡ r.processed_bytes + len)

  HasCounted-same : (r t : Rio S) → r ≡ t → HasCounted r [] 0 t
  HasCounted-same r t same = (
    ap (λ (x : Rio S). x.cksum) (sym same) ∙ sym (gradual.nil r.cksum),
    ap (λ (x : Rio S). x.processed_bytes) (sym same) ∙ omega arith,
  )

  HasCounted-next :
      (r t : Rio S) (io : S) (part rest : List ℕ) (n len : ℕ)
      → r.update_cksum ≡ some update
      → HasCounted (moved r io part n) rest len t
      → HasCounted r (part ++ rest) (n + len) t
  HasCounted-next r t io part rest n len installed (sum, count) =
      let first : add_cksum r part ≡ update r.cksum part = rw installed refl in
      (sum ∙ ap (λ c. update c rest) first ∙ sym (gradual.append r.cksum part rest), omega arith)

  HasCounted-same_bytes :
      (r t : Rio S) {xs ys : List ℕ} {m k : ℕ}
      → HasCounted r xs m t
      → xs ≡ ys
      → m ≡ k
      → HasCounted r ys k t
  HasCounted-same_bytes r t (sum, count) ex em =
      (sum ∙ ap (update r.cksum) ex, count ∙ ap (λ l. r.processed_bytes + l) em)

  pub write_loop-HasCounted :
      (write : S → List ℕ → Option S) (fuel : ℕ) (r t : Rio S) (bytes : List ℕ)
      → r.update_cksum ≡ some update
      → write_loop write fuel r bytes ≡ some t
      → HasCounted r bytes (length bytes) t
  unfolding write_loop
  write_loop-HasCounted write fuel r t [] installed h = HasCounted-same r t cc
  write_loop-HasCounted write zero r t (b ∷ bytes) installed h = cc
  write_loop-HasCounted write (suc fuel) r t (b ∷ bytes) installed h =
      let n = chunk r (length (b ∷ bytes)) in
      let part = take n (b ∷ bytes) in
      let go : S → Option (Rio S) =
        λ io. write_loop write fuel (moved r io part n) (drop n (b ∷ bytes)) in
      let (io, wrote, later) = >>=-eq-some (write r.io part) go h in
      let next =
        write_loop-HasCounted write fuel (moved r io part n) t (drop n (b ∷ bytes)) installed
          later in
      let fits : n ≤ length (b ∷ bytes) = ground arith in
      let long : n + length (drop n (b ∷ bytes)) ≡ length (b ∷ bytes) =
        omega (arith, length-drop n (b ∷ bytes)) in
      HasCounted-same_bytes r t
        (HasCounted-next r t io part (drop n (b ∷ bytes)) n _ installed next)
        (take-append-drop n (b ∷ bytes)) long

  pub read_loop-HasCounted :
      (read : S → ℕ → Option (List ℕ × S)) (fuel : ℕ) (r t : Rio S) (len : ℕ) (bytes : List ℕ)
      → r.update_cksum ≡ some update
      → read_loop read fuel r len ≡ some (bytes, t)
      → HasCounted r bytes len t
  unfolding read_loop
  read_loop-HasCounted read fuel r t zero bytes installed h =
      let bare : (bytes ≡ []) × (r ≡ t) = (cc, cc) in
      HasCounted-same_bytes r t (HasCounted-same r t bare.1) (sym bare.0) refl
  read_loop-HasCounted read zero r t (suc len) bytes installed h = cc
  read_loop-HasCounted read (suc fuel) r t (suc len) bytes installed h =
      let n = chunk r (suc len) in
      let last : List ℕ → List ℕ × Rio S → Option (List ℕ × Rio S) =
        λ part rest. some (part ++ rest.0, rest.1) in
      let go : List ℕ × S → Option (List ℕ × Rio S) =
        λ got. read_loop read fuel (moved r got.1 got.0 n) (suc len - n) >>= last got.0 in
      let (got, found, later) = >>=-eq-some (read r.io n) go h in
      let (rest, next, done) =
        >>=-eq-some (read_loop read fuel (moved r got.1 got.0 n) (suc len - n)) (last got.0)
          later in
      let fits : n ≤ suc len = ground arith in
      let both : (got.0 ++ rest.0 ≡ bytes) × (rest.1 ≡ t) = (cc, cc) in
      let counted =
        read_loop-HasCounted read fuel (moved r got.1 got.0 n) t (suc len - n) rest.0 installed
          (next ∙ ap (λ u. some (rest.0, u)) both.1) in
      HasCounted-same_bytes r t (HasCounted-next r t got.1 got.0 rest.0 n _ installed counted)
        both.0 (omega arith)

generic_update_checksum-IsGradual : IsGradual generic_update_checksum
unfolding generic_update_checksum crc64
generic_update_checksum-IsGradual = record { nil = λ c. refl; append = crc64-append }

module _ {S : Type 0} where
  -- With `rioGenericUpdateChecksum` installed in both, and the same checksum before, a stream that has
  -- written some bytes and a stream that has read the same bytes have the same checksum, that of
  -- crc64 over all the bytes, whatever chunks the two use; each has counted the bytes.
  pub rio_read-rio_write_cksum :
      (write : S → List ℕ → Option S) (read : S → ℕ → Option (List ℕ × S)) (r t u v : Rio S)
      (bytes : List ℕ) (len : ℕ)
      → r.update_cksum ≡ some generic_update_checksum
      → u.update_cksum ≡ some generic_update_checksum
      → u.cksum ≡ r.cksum
      → rio_write write r bytes ≡ some t
      → rio_read read u len ≡ some (bytes, v)
      → (v.cksum ≡ t.cksum)
        × (t.cksum ≡ crc64 r.cksum bytes)
        × (t.processed_bytes ≡ r.processed_bytes + length bytes)
        × (v.processed_bytes ≡ u.processed_bytes + len)
  unfolding rio_write rio_read generic_update_checksum
  rio_read-rio_write_cksum write read r t u v bytes len installed installed' same wrote got =
      let update = generic_update_checksum in
      let gradual = generic_update_checksum-IsGradual in
      let (sum, count) =
        write_loop-HasCounted update gradual write (length bytes) r t bytes installed wrote in
      let (sum', count') =
        read_loop-HasCounted update gradual read len u v len bytes installed' got in
      (sum' ∙ ap (λ c. update c bytes) same ∙ sym sum, sum, count, count')
