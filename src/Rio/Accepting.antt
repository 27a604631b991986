-- ===== src/Rio/Accepting.antt =====
-- Streams that accept every write, such as a rio over a buffer.
use redis_allocators.Prelude.{
  ℕ, zero, suc, ◌+◌, ◌≤◌, ◌≡◌, refl, Option, none, some, List, [], ◌∷◌, ◌++◌, arith, take, drop,
  length, length-drop,
}
use redis_allocators.Prelude.Fallible.{◌>>=◌}
use redis_allocators.Rio.{Rio, moved, chunk, write_loop, rio_write, buffer_write}
use redis_allocators.Rio.Buffered.{buffer, rio}

abbrev pub Succeeds {ℓ} : {A : Type ℓ} → Option A → Type ℓ
Succeeds {A = A} o = (a : A) × (o ≡ some a)

pub >>=-Succeeds {ℓ κ} :
    {A : Type ℓ} {B : Type κ} (m : Option A) (f : A → Option B)
    → Succeeds m
    → ((a : A) → Succeeds (f a))
    → Succeeds (m >>= f)
>>=-Succeeds (some a) f first next = next a
>>=-Succeeds none f first next = let h = first.1 in cc

-- Every write succeeds.
abbrev pub IsAccepting : {S : Type 0} → (S → List ℕ → Option S) → Type 0
IsAccepting {S} write = (s : S) (bytes : List ℕ) → (t : S) × (write s bytes ≡ some t)

write_loop-Succeeds :
    {S : Type 0} (write : S → List ℕ → Option S) (fuel : ℕ) (r : Rio S) (bytes : List ℕ)
    → IsAccepting write
    → length bytes ≤ fuel
    → Succeeds (write_loop write fuel r bytes)
unfolding write_loop
write_loop-Succeeds write fuel r [] accepts enough = (r, refl)
write_loop-Succeeds write zero r (b ∷ bytes) accepts enough = absurd (omega arith)
write_loop-Succeeds write (suc fuel) r (b ∷ bytes) accepts enough =
    let n = chunk r (length (b ∷ bytes)) in
    >>=-Succeeds (write r.io (take n (b ∷ bytes)))
      (λ io. write_loop write fuel (moved r io (take n (b ∷ bytes)) n) (drop n (b ∷ bytes)))
      (accepts r.io (take n (b ∷ bytes)))
      (λ io.
        write_loop-Succeeds write fuel _ (drop n (b ∷ bytes)) accepts
          (ground (arith, length-drop n (b ∷ bytes))))

rio_write-IsAccepting :
    {S : Type 0} (write : S → List ℕ → Option S) → IsAccepting write → IsAccepting (rio_write write)
unfolding rio_write
rio_write-IsAccepting write accepts r bytes =
    write_loop-Succeeds write (length bytes) r bytes accepts (omega arith)

buffer_write-IsAccepting : IsAccepting buffer_write
unfolding buffer_write
buffer_write-IsAccepting b bytes =
    (record { ptr = b.ptr ++ bytes; pos = b.pos + length bytes }, refl)

-- A rio over a buffer accepts every write.
pub rio-buffer-IsAccepting : IsAccepting (rio buffer).write
rio-buffer-IsAccepting = rio_write-IsAccepting buffer_write buffer_write-IsAccepting
