-- ===== src/Rio.antt =====
-- rio.h and rio.c: streams of bytes over a buffer or a file, written and read in chunks, with a
-- running checksum.
pub mod Buffered
pub mod Crc64
pub mod Checksum
pub mod Accepting
use redis_allocators.Prelude.{
  ℕ, zero, suc, ◌+◌, ◌-◌, ◌≤◌, ◌<◌, ◌≡◌, refl, ap, sym, ◌∙◌, Bool, true, false, not, ◌&&◌, Option,
  none, some, List, [], ◌∷◌, ◌++◌, ◌==◌, ltb, if◌then◌else◌, arith, length, take, drop,
}
use redis_allocators.Prelude.Fallible.{◌>>=◌}

-- The functions of a backend and what they promise. `none` is the result 0, after which nothing
-- uses the stream. `written` and `unread` are the bytes before and behind its position.
pub record Backend (S : Type 0) : Type 0 where
  pub write : S → List ℕ → Option S
  pub read : S → ℕ → Option (List ℕ × S)
  pub written : S → List ℕ
  pub unread : S → List ℕ
  pub write_lem :
      (s t : S) (bytes : List ℕ) → write s bytes ≡ some t → written t ≡ written s ++ bytes
  pub read_lem :
      (s : S) (b : ℕ) (bytes rest : List ℕ)
      → unread s ≡ (b ∷ bytes) ++ rest
      → (t : S) × (read s (suc (length bytes)) ≡ some (b ∷ bytes, t)) × (unread t ≡ rest)

-- A stream that also takes and gives no bytes, as `rioWrite` and `rioRead` do.
pub record Stream (S : Type 0) : Type 0 where
  pub write : S → List ℕ → Option S
  pub read : S → ℕ → Option (List ℕ × S)
  pub written : S → List ℕ
  pub unread : S → List ℕ
  pub write_lem :
      (s t : S) (bytes : List ℕ) → write s bytes ≡ some t → written t ≡ written s ++ bytes
  pub read_lem :
      (s : S) (bytes rest : List ℕ)
      → unread s ≡ bytes ++ rest
      → (t : S) × (read s (length bytes) ≡ some (bytes, t)) × (unread t ≡ rest)

-- `io.buffer`
pub record Buffer : Type 0 where
  pub ptr : List ℕ
  pub pos : ℕ

-- `rioInitWithBuffer`
abbrev pub init_with_buffer : List ℕ → Buffer
init_with_buffer s = record { ptr = s; pos = 0 }

-- `rioBufferWrite`
unfoldable pub buffer_write : Buffer → List ℕ → Option Buffer
buffer_write b bytes = some (record { ptr = b.ptr ++ bytes; pos = b.pos + length bytes })

-- `rioBufferRead`; the position never passes the end.
unfoldable pub buffer_read : Buffer → ℕ → Option (List ℕ × Buffer)
buffer_read b len =
    if ltb (length b.ptr) (b.pos + len)
    then none
    else some (take len (drop b.pos b.ptr), record b { pos = b.pos + len })

-- `rio`: the state of the backend, with the checksum and the count of bytes. A chunk size of 0 is
-- none. Callers install `update_cksum`.
pub record Rio (S : Type 0) : Type 0 where
  pub io : S
  pub update_cksum : Option (ℕ → List ℕ → ℕ)
  pub cksum : ℕ
  pub processed_bytes : ℕ
  pub max_processing_chunk : ℕ

module _ {S : Type 0} where
  -- `bytes_to_write` and `bytes_to_read`
  abbrev pub chunk : Rio S → ℕ → ℕ
  chunk r len =
      if not (r.max_processing_chunk == 0) && ltb r.max_processing_chunk len
      then r.max_processing_chunk
      else len

  abbrev pub add_cksum : Rio S → List ℕ → ℕ
  add_cksum r bytes = elim r.update_cksum [ none ↦ r.cksum | some update ↦ update r.cksum bytes ]

  -- The stream after a chunk.
  abbrev pub moved : Rio S → S → List ℕ → ℕ → Rio S
  moved r io part n = record r {
    io = io;
    cksum = add_cksum r part;
    processed_bytes = r.processed_bytes + n;
  }

-- The loop of `rioWrite`. Each round writes a byte at least, so that as many rounds as there are
-- bytes are enough.
unfoldable pub write_loop :
    {S : Type 0} → (S → List ℕ → Option S) → ℕ → Rio S → List ℕ → Option (Rio S)
write_loop write fuel r [] = some r
write_loop write zero r (b ∷ bytes) = none
write_loop write (suc fuel) r (b ∷ bytes) =
    let n = chunk r (length (b ∷ bytes)) in
    let part = take n (b ∷ bytes) in
    do io ← write r.io part; write_loop write fuel (moved r io part n) (drop n (b ∷ bytes))

unfoldable pub rio_write : {S : Type 0} → (S → List ℕ → Option S) → Rio S → List ℕ → Option (Rio S)
rio_write write r bytes = write_loop write (length bytes) r bytes

-- The loop of `rioRead`, and the bytes that it has read.
unfoldable pub read_loop :
    {S : Type 0} → (S → ℕ → Option (List ℕ × S)) → ℕ → Rio S → ℕ → Option (List ℕ × Rio S)
read_loop read fuel r zero = some ([], r)
read_loop read zero r (suc len) = none
read_loop read (suc fuel) r (suc len) =
    let n = chunk r (suc len) in
    do
      (part, io) ← read r.io n
      (rest, t) ← read_loop read fuel (moved r io part n) (suc len - n)
      some (part ++ rest, t)

unfoldable pub rio_read :
    {S : Type 0} → (S → ℕ → Option (List ℕ × S)) → Rio S → ℕ → Option (List ℕ × Rio S)
rio_read read r len = read_loop read len r len
