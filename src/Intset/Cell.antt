-- ===== src/Intset/Cell.antt =====
-- One cell: what is written at a width is read back at it, and leaves the other cells alone.
use native.Mathlib.Nat.{mod-eq_of_lt, mod-lt}
use redis_allocators.Prelude.{
  ℕ, ◌+◌, ◌*◌, ◌%◌, ◌^◌, ◌≤◌, ◌<◌, ◌≡◌, ap, ◌⊎◌, inl, inr, Bool-cases, ltb, ◌==◌, if◌then◌else◌,
  arith,
}
use redis_allocators.Prelude.Int.{ℤ, pos, negsuc}
use redis_allocators.Prelude.Memory.{
  Memory, read_le, write_le, memmove, read_le_congr, write_le_frame, read_le-write_le, read_le-lt,
}
use redis_allocators.Intset.{signed, pattern_of, get_encoded, set_encoded}

-- The range of a signed number of `enc` bytes.
abbrev pub half_range : ℕ → ℕ
half_range enc = if enc == 8 then 2 ^ 63 else if enc == 4 then 2 ^ 31 else 2 ^ 15

abbrev pub Fits : ℕ → ℤ → Type 0
Fits half (pos n) = n < half
Fits half (negsuc n) = n < half

abbrev pub IsEncoding : ℕ → Type 0
IsEncoding enc = (enc ≡ 2) ⊎ (enc ≡ 4) ⊎ (enc ≡ 8)

pub encoding_range : (enc : ℕ) → IsEncoding enc → 256 ^ enc ≡ 2 * half_range enc
encoding_range enc (inl e) = rw e
encoding_range enc (inr (inl e)) = rw e
encoding_range enc (inr (inr e)) = rw e

-- The three branches as one formula in the width.
get_encoded_lem :
    (m : Memory) (p enc : ℕ)
    → IsEncoding enc
    → get_encoded m p enc ≡ signed (half_range enc) (read_le m (p * enc) enc)
unfolding get_encoded
get_encoded_lem m p enc (inl e) = rw e
get_encoded_lem m p enc (inr (inl e)) = rw e
get_encoded_lem m p enc (inr (inr e)) = rw e

set_encoded_lem :
    (m : Memory) (enc p : ℕ) (v : ℤ)
    → IsEncoding enc
    → set_encoded m enc p v ≡ write_le m (p * enc) enc (pattern_of (half_range enc) v)
unfolding set_encoded
set_encoded_lem m enc p v (inl e) = rw e
set_encoded_lem m enc p v (inr (inl e)) = rw e
set_encoded_lem m enc p v (inr (inr e)) = rw e

signed-pattern_of : (half : ℕ) (v : ℤ) → Fits half v → signed half (pattern_of half v) ≡ v
unfolding signed pattern_of
signed-pattern_of half (pos n) h =
    let e : n % (2 * half) ≡ n = mod-eq_of_lt (omega arith) in rw e (ground arith)
signed-pattern_of half (negsuc n) h =
    let e : n % (2 * half) ≡ n = mod-eq_of_lt (omega arith) in rw e (ground arith)

pattern_of-lt : (half : ℕ) (v : ℤ) → 0 < half → pattern_of half v < 2 * half
unfolding pattern_of
pattern_of-lt half (pos n) h = mod-lt n (omega arith)
pattern_of-lt half (negsuc n) h = omega arith

signed-Fits : (half w : ℕ) → 0 < half → w < 2 * half → Fits half (signed half w)
unfolding signed
signed-Fits half w positive h = elim (Bool-cases (ltb w half)) [
  | inl e ↦ rw e (ground arith)
  | inr e ↦ rw e (ground arith)
]

half_range_pos : (enc : ℕ) → 0 < half_range enc
half_range_pos enc = ground arith

-- A value in the range of the width is read back from its cell.
pub get-set_same :
    (m : Memory) (enc p : ℕ) (v : ℤ)
    → IsEncoding enc
    → Fits (half_range enc) v
    → get_encoded (set_encoded m enc p v) p enc ≡ v
get-set_same m enc p v width h =
    let small : pattern_of (half_range enc) v < 256 ^ enc =
      rw (encoding_range enc width) (pattern_of-lt _ v (half_range_pos enc)) in
    rw
      (
        get_encoded_lem _ p enc width,
        set_encoded_lem m enc p v width,
        read_le-write_le m (p * enc) enc _ small,
      )
      (signed-pattern_of _ v h)

-- A cell that lies apart from the one written is unchanged, whatever the two widths.
pub get-set_apart :
    (m : Memory) (w p r q : ℕ) (v : ℤ)
    → IsEncoding w
    → IsEncoding r
    → (q * r + r ≤ p * w) ⊎ (p * w + w ≤ q * r)
    → get_encoded (set_encoded m w p v) q r ≡ get_encoded m q r
get-set_apart m w p r q v width width' h =
    rw (get_encoded_lem _ q r width', get_encoded_lem m q r width', set_encoded_lem m w p v width)
      (ap (signed (half_range r)) (read_le_congr _ m (q * r) (q * r) r same))
  where
    same :
        (j : ℕ)
        → j < r
        → write_le m (p * w) w (pattern_of (half_range w) v) (q * r + j) ≡ m (q * r + j)
    same j lt = write_le_frame m (p * w) w _ (q * r + j) (omega arith)

-- What `memmove` has moved is read at its new place.
pub get-memmove_inside :
    (m : Memory) (enc to from n q : ℕ)
    → IsEncoding enc
    → q < n
    → get_encoded (memmove m (to * enc) (from * enc) (n * enc)) (to + q) enc
      ≡ get_encoded m (from + q) enc
get-memmove_inside m enc to from n q width h =
    rw (get_encoded_lem _ (to + q) enc width, get_encoded_lem m (from + q) enc width)
      (ap (signed (half_range enc))
        (read_le_congr _ m ((to + q) * enc) ((from + q) * enc) enc same))
  where
    inside : q * enc + enc ≤ n * enc
    inside = grind arith

    same :
        (j : ℕ)
        → j < enc
        → memmove m (to * enc) (from * enc) (n * enc) ((to + q) * enc + j)
          ≡ m ((from + q) * enc + j)
    same j lt = ground (arith)

pub get-memmove_outside :
    (m : Memory) (enc to from n q : ℕ)
    → IsEncoding enc
    → (q < to) ⊎ (to + n ≤ q)
    → get_encoded (memmove m (to * enc) (from * enc) (n * enc)) q enc ≡ get_encoded m q enc
get-memmove_outside m enc to from n q width h =
    rw (get_encoded_lem _ q enc width, get_encoded_lem m q enc width)
      (ap (signed (half_range enc)) (read_le_congr _ m (q * enc) (q * enc) enc same))
  where
    apart : (q * enc + enc ≤ to * enc) ⊎ (to * enc + n * enc ≤ q * enc)
    apart = elim h [ inl a ↦ inl (grind arith) | inr b ↦ inr (grind arith) ]

    same :
        (j : ℕ)
        → j < enc
        → memmove m (to * enc) (from * enc) (n * enc) (q * enc + j) ≡ m (q * enc + j)
    same j lt = ground arith

-- A cell holds a value in the range of its width.
pub get_encoded-Fits :
    (m : Memory) (p enc : ℕ) → IsEncoding enc → Fits (half_range enc) (get_encoded m p enc)
get_encoded-Fits m p enc width =
    rw (get_encoded_lem m p enc width) (signed-Fits _ _ (half_range_pos enc) bound)
  where
    bound : read_le m (p * enc) enc < 2 * half_range enc
    bound = rw (encoding_range enc width) at (read_le-lt m (p * enc) enc)
