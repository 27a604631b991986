-- ===== src/Intset/Shrink.antt =====
-- `intsetRemove` closes the gap that a member leaves.
use redis_allocators.Prelude.{
  ℕ, ◌+◌, ◌-◌, ◌*◌, ◌%◌, ◌^◌, ◌≤◌, ◌<◌, ◌≡◌, ap, ◌∙◌, inl, inr, true, false, ltb, leb,
  if◌then◌else◌, arith, Bool-cases,
}
use redis_allocators.Prelude.Int.{ℤ}
use redis_allocators.Prelude.Memory.{Memory, memmove}
use redis_allocators.Intset.{
  Intset, get, value_encoding, get_encoded, search, resize, move_tail, remove,
}
use redis_allocators.Intset.Cell.{get-memmove_inside, get-memmove_outside}
use redis_allocators.Intset.Valid.{IsValid, Removed, Removed-IsSorted}
use redis_allocators.Intset.Upgrade.{size_fits}
use redis_allocators.Intset.Grow.{move_tail_lem}

-- The cells of `intsetRemove` when the value stands at `p`.
abbrev closed : Intset → ℕ → Memory
closed s p = if ltb p (s.len - 1) then (move_tail s (p + 1) p).contents else s.contents

abbrev pub taken : Intset → ℕ → Intset
taken s p = record {
  encoding = s.encoding;
  len = s.len - 1;
  contents = closed s p;
  allocated = (s.len - 1) * s.encoding % 2 ^ 32;
}

module _ (s : Intset) (p : ℕ) (valid : IsValid s) (member : p < s.len) where
  closed_low : (i : ℕ) → i < p → get_encoded (closed s p) i s.encoding ≡ get s i
  unfolding get
  closed_low i lt = elim (Bool-cases (ltb p (s.len - 1))) [
    | inl a ↦ rw a (
        ap (λ (t : Intset). get_encoded t.contents i s.encoding)
          (move_tail_lem s (p + 1) p valid.width valid.small (omega arith))
        ∙ get-memmove_outside s.contents s.encoding p (p + 1) (s.len - (p + 1)) i valid.width
            (inl lt))
    | inr a ↦ rw a
  ]

  closed_high :
      (i : ℕ) → p ≤ i → i < s.len - 1 → get_encoded (closed s p) i s.encoding ≡ get s (i + 1)
  unfolding get
  closed_high i le lt =
      let a : ltb p (s.len - 1) ≡ true = ground arith in
      let m =
        memmove s.contents (p * s.encoding) ((p + 1) * s.encoding)
          ((s.len - (p + 1)) * s.encoding) in
      rw a (
        ap (λ (t : Intset). get_encoded t.contents i s.encoding)
          (move_tail_lem s (p + 1) p valid.width valid.small (omega arith))
        ∙ ap (λ k. get_encoded m k s.encoding) (omega arith)
        ∙ get-memmove_inside s.contents s.encoding p (p + 1) (s.len - (p + 1)) (i - p) valid.width
            (omega arith)
        ∙ ap (λ k. get_encoded s.contents k s.encoding) (omega arith))

  pub taken-Removed : Removed s (taken s p) p
  unfolding get
  taken-Removed = record { shorter = omega arith; low = closed_low; high = closed_high }

  pub taken-IsValid : IsValid (taken s p)
  taken-IsValid = record {
    width = valid.width;
    sorted = Removed-IsSorted s (get s p) p (taken s p) valid.sorted taken-Removed;
    small = omega arith;
    granted = size_fits (s.len - 1) s.encoding (omega arith) valid.width;
  }

module _ (s : Intset) (v : ℤ) where
  pub remove_old :
      (p : ℕ)
      → value_encoding v ≤ s.encoding
      → search s v ≡ (true, p)
      → remove s v ≡ (taken s p, true)
  unfolding remove resize move_tail
  remove_old p h found =
      let a : leb (value_encoding v) s.encoding ≡ true = ground arith in
      elim (Bool-cases (ltb p (s.len - 1))) [
        | inl b ↦ rw (found, remove) (rw a (rw b))
        | inr b ↦ rw (found, remove) (rw a (rw b))
      ]

  pub remove_absent : (p : ℕ) → search s v ≡ (false, p) → remove s v ≡ (s, false)
  unfolding remove
  remove_absent p found = rw (found, remove) (ground arith)
