-- ===== src/Prelude/Memory.antt =====
-- A block of bytes as C code sees it: a cell at each offset, read and written one by one.
use native.Mathlib.Nat.{pow-succ'}
use mathlib.Core.Bool.{◌&&◌}
use mathlib.Core.Logic.{◌⊎◌}
use redis_allocators.Prelude.Tests.{ltb, leb, ◌==◌, if◌then◌else◌}
use Prim.Native.Nat.{◌-◌, ◌*◌, ◌/◌, ◌%◌, ◌^◌, ℕ, zero, suc, ◌+◌, ◌≤◌, ◌<◌}
use mathlib.Core.Path.{◌∙◌, ◌≡◌, refl, ap₂, ap}
use mathlib.Core.List.{List, [], ◌∷◌, ◌++◌}
use native.Mathlib.Omega.{arith}

abbrev pub Memory : Type 0
Memory = ℕ → ℕ

abbrev pub store : Memory → ℕ → ℕ → Memory
store m i v = λ j. if i == j then v else m j

-- The `n` bytes from offset `i` on.
unfoldable pub read : Memory → ℕ → ℕ → List ℕ
read m i zero = []
read m i (suc n) = m i ∷ read m (i + 1) n

-- A run of bytes is split at any place.
pub read-append :
    (m : Memory) (i n k j : ℕ) → j ≡ i + n → read m i (n + k) ≡ read m i n ++ read m j k
unfolding read
read-append m i zero k j e = ap₂ (λ a n. read m a n) (omega arith) (omega arith)
read-append m i (suc n) k j e =
    let shift : suc n + k ≡ suc (n + k) = omega arith in
    ap (read m i) shift ∙ ap (λ r. m i ∷ r) (read-append m (i + 1) n k j (omega arith))

-- What is read depends on the cells of the run alone.
pub read_congr :
    (m m' : Memory) (i n : ℕ)
    → ((j : ℕ) → i ≤ j → j < i + n → m j ≡ m' j)
    → read m i n ≡ read m' i n
unfolding read
read_congr m m' i zero h = refl
read_congr m m' i (suc n) h =
    ap₂ ◌∷◌ (h i (omega arith) (omega arith))
      (read_congr m m' (i + 1) n (λ j p q. h j (omega arith) (omega arith)))

-- A little endian number of `n` bytes at offset `i`.
unfoldable pub read_le : Memory → ℕ → ℕ → ℕ
read_le m i zero = 0
read_le m i (suc n) = m i % 256 + 256 * read_le m (i + 1) n

unfoldable pub write_le : Memory → ℕ → ℕ → ℕ → Memory
write_le m i zero v = m
write_le m i (suc n) v = write_le (store m i (v % 256)) (i + 1) n (v / 256)

-- The C library's `memmove(m + to, m + from, n)`.
abbrev pub memmove : Memory → ℕ → ℕ → ℕ → Memory
memmove m to from n = λ j. if leb to j && ltb j (to + n) then m (from + (j - to)) else m j

pub read_le_congr :
    (m m' : Memory) (i k n : ℕ)
    → ((j : ℕ) → j < n → m (i + j) ≡ m' (k + j))
    → read_le m i n ≡ read_le m' k n
unfolding read_le
read_le_congr m m' i k zero h = refl
read_le_congr m m' i k (suc n) h =
    ap₂ (λ b r. b % 256 + 256 * r) (ap m (omega arith) ∙ h 0 (omega arith) ∙ ap m' (omega arith))
      (read_le_congr m m' (i + 1) (k + 1) n
        (λ j p. ap m (omega arith) ∙ h (suc j) (omega arith) ∙ ap m' (omega arith)))

pub write_le_frame : (m : Memory) (i n v j : ℕ) → (j < i) ⊎ (i + n ≤ j) → write_le m i n v j ≡ m j
unfolding write_le
write_le_frame m i zero v j h = refl
write_le_frame m i (suc n) v j h =
    write_le_frame (store m i (v % 256)) (i + 1) n (v / 256) j (omega arith) ∙ ground arith

-- A number that fits is read back.
pub read_le-write_le : (m : Memory) (i n v : ℕ) → v < 256 ^ n → read_le (write_le m i n v) i n ≡ v
unfolding read_le write_le
read_le-write_le m i zero v h = omega arith
read_le-write_le m i (suc n) v h =
    let step = pow-succ' 256 n in
    let small : v / 256 < 256 ^ n = omega arith in
    ground (
      arith,
      write_le_frame (store m i (v % 256)) (i + 1) n (v / 256) i (omega arith),
      read_le-write_le (store m i (v % 256)) (i + 1) n (v / 256) small,
    )

pub read_le-lt : (m : Memory) (i n : ℕ) → read_le m i n < 256 ^ n
unfolding read_le
read_le-lt m i zero = omega arith
read_le-lt m i (suc n) = omega (arith, read_le-lt m (i + 1) n, pow-succ' 256 n)
