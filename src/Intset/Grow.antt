-- ===== src/Intset/Grow.antt =====
-- `intsetAdd` opens a gap for a new value, and the search decides membership.
use redis_allocators.Prelude.{
  ℕ, ◌+◌, ◌-◌, ◌*◌, ◌%◌, ◌^◌, ◌≤◌, ◌<◌, ◌≡◌, refl, ap, ◌∙◌, inl, inr, Bool, true, false, ltb, ◌==◌,
  if◌then◌else◌, arith, Bool-cases,
}
use redis_allocators.Prelude.Int.{ℤ}
use redis_allocators.Prelude.Memory.{Memory, memmove}
use redis_allocators.Intset.{
  Intset, get, set, value_encoding, get_encoded, set_encoded, search, upgrade_and_add, resize,
  move_tail, add,
}
use redis_allocators.Intset.Cell.{
  IsEncoding, Fits, half_range, get-set_same, get-set_apart, get-memmove_inside,
  get-memmove_outside,
}
use redis_allocators.Intset.Search.{IsSorted, Split, Answers}
use redis_allocators.Intset.Model.{
  contains, contains_old, contains_absent, cells-AllBelow, cells-AllAbove,
}
use redis_allocators.Intset.Valid.{
  IsValid, Inserted, elements, Inserted-IsSorted, old_elements, elements_in_parts,
}
use redis_allocators.Intset.Upgrade.{size_fits}

moved_lem :
    (m : Memory) (enc to from counted n : ℕ)
    → IsEncoding enc
    → counted ≡ n
    → n < 2 ^ 28
    → (if enc == 8
        then memmove m (to * 8) (from * 8) (counted * 8 % 2 ^ 32)
        else if enc == 4
        then memmove m (to * 4) (from * 4) (counted * 4 % 2 ^ 32)
        else memmove m (to * 2) (from * 2) (counted * 2 % 2 ^ 32))
      ≡ memmove m (to * enc) (from * enc) (n * enc)
moved_lem m enc to from counted n (inl e) c small = rw (e, c, size_fits n 2 small (inl refl))
moved_lem m enc to from counted n (inr (inl e)) c small =
    rw (e, c, size_fits n 4 small (inr (inl refl)))
moved_lem m enc to from counted n (inr (inr e)) c small =
    rw (e, c, size_fits n 8 small (inr (inr refl)))

-- `intsetMoveTail` in the width of the set.
pub move_tail_lem :
    (s : Intset) (from to : ℕ)
    → IsEncoding s.encoding
    → s.len < 2 ^ 28
    → from ≤ s.len
    → move_tail s from to ≡ record s {
      contents =
          memmove s.contents (to * s.encoding) (from * s.encoding) ((s.len - from) * s.encoding);
    }
unfolding move_tail
move_tail_lem s from to width small le =
    ap (λ (c : Memory). record s { contents = c })
      (moved_lem s.contents s.encoding to from _ (s.len - from) width (omega arith) (omega arith))

-- The cells of `intsetAdd` when the value is new and its width is there: the tail moves up by one
-- cell, and the value is written in the gap.
abbrev pub gap : Intset → ℕ → Memory
gap s p = if ltb p s.len then (move_tail s p (p + 1)).contents else s.contents

-- The set that `intsetAdd` leaves then.
abbrev pub put : Intset → ℤ → ℕ → Intset
put s v p = record {
  encoding = s.encoding;
  len = s.len + 1;
  contents = set_encoded (gap s p) s.encoding p v;
  allocated = (s.len + 1) * s.encoding % 2 ^ 32;
}

module _ (s : Intset) (v : ℤ) (p : ℕ) (valid : IsValid s) (split : Split s v p)
    (fits : Fits (half_range s.encoding) v) where
  gap_low : (i : ℕ) → i < p → get_encoded (gap s p) i s.encoding ≡ get s i
  unfolding get
  gap_low i lt = elim (Bool-cases (ltb p s.len)) [
    | inl a ↦ rw a (
        ap (λ (t : Intset). get_encoded t.contents i s.encoding)
          (move_tail_lem s p (p + 1) valid.width valid.small split.within)
        ∙ get-memmove_outside s.contents s.encoding (p + 1) p (s.len - p) i valid.width
            (inl (omega arith)))
    | inr a ↦ rw a
  ]

  gap_high : (i : ℕ) → p ≤ i → i < s.len → get_encoded (gap s p) (i + 1) s.encoding ≡ get s i
  unfolding get
  gap_high i le lt =
      let a : ltb p s.len ≡ true = ground arith in
      let m =
        memmove s.contents ((p + 1) * s.encoding) (p * s.encoding) ((s.len - p) * s.encoding) in
      rw a (
        ap (λ (t : Intset). get_encoded t.contents (i + 1) s.encoding)
          (move_tail_lem s p (p + 1) valid.width valid.small split.within)
        ∙ ap (λ k. get_encoded m k s.encoding) (omega arith)
        ∙ get-memmove_inside s.contents s.encoding (p + 1) p (s.len - p) (i - p) valid.width
            (omega arith)
        ∙ ap (λ k. get_encoded s.contents k s.encoding) (omega arith))

  pub put-Inserted : Inserted s (put s v p) v p
  unfolding get
  put-Inserted = record {
    longer = refl;
    low = λ i lt.
        get-set_apart _ s.encoding p s.encoding i v valid.width valid.width (inl (grind arith))
        ∙ gap_low i lt;
    here = get-set_same _ s.encoding p v valid.width fits;
    high = λ i le lt.
        get-set_apart _ s.encoding p s.encoding (i + 1) v valid.width valid.width
          (inr (grind arith))
        ∙ gap_high i le lt;
  }

  pub put-IsValid : s.len + 1 < 2 ^ 28 → IsValid (put s v p)
  put-IsValid room = record {
    width = valid.width;
    sorted = Inserted-IsSorted s v p (put s v p) valid.sorted split put-Inserted;
    small = room;
    granted = size_fits (s.len + 1) s.encoding room valid.width;
  }

-- The branches of `intsetAdd`.
module _ (s : Intset) (v : ℤ) where
  pub add_wide : s.encoding < value_encoding v → add s v ≡ (upgrade_and_add s v, true)
  unfolding add
  add_wide h = let a : ltb s.encoding (value_encoding v) ≡ true = ground arith in rw (a, add)

  pub add_old :
      (p : ℕ) → value_encoding v ≤ s.encoding → search s v ≡ (true, p) → add s v ≡ (s, false)
  unfolding add
  add_old p h found =
      let a : ltb s.encoding (value_encoding v) ≡ false = ground arith in rw (a, add) (rw found)

  pub add_new :
      (p : ℕ)
      → value_encoding v ≤ s.encoding
      → search s v ≡ (false, p)
      → add s v ≡ (put s v p, true)
  unfolding add resize set move_tail
  add_new p h found =
      let a : ltb s.encoding (value_encoding v) ≡ false = ground arith in
      elim (Bool-cases (ltb p s.len)) [
        | inl b ↦ rw (a, add) (rw found (rw b))
        | inr b ↦ rw (a, add) (rw found (rw b))
      ]

-- What the search says of membership in the list.
pub contains_answer :
    (s : Intset) (v : ℤ) (found : Bool) (p : ℕ)
    → IsSorted s
    → Answers s v (found, p)
    → contains v (elements s) ≡ found
contains_answer s v found p sorted (inl h) =
    rw (h.0, old_elements s v p h.1 h.2) (contains_old v _ _)
contains_answer s v found p sorted (inr h) =
    let split = h.1 in
    rw (h.0, elements_in_parts s v p split)
      (contains_absent v _ _ (cells-AllBelow (get s) v 0 p (λ j _ q. split.below j (omega arith))) (
        cells-AllAbove (get s) v p (s.len - p)
          (λ j q r. split.above j q (let w = split.within in omega arith))))
