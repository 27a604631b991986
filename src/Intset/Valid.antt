-- ===== src/Intset/Valid.antt =====
-- The invariant of an integer set, and what it means for cells to have been inserted or removed.
use redis_allocators.Prelude.{
  ℕ, suc, ◌+◌, ◌-◌, ◌*◌, ◌^◌, ◌≤◌, ◌<◌, ◌≡◌, refl, sym, ap, ap₂, subst, ◌∙◌, List, ◌∷◌, ◌++◌, arith,
  dec_lt, ℕ_discrete,
}
use redis_allocators.Prelude.Int.{ℤ, ◌<ℤ◌}
use redis_allocators.Intset.{Intset, get}
use redis_allocators.Intset.Cell.{IsEncoding}
use redis_allocators.Intset.Search.{IsSorted, Split}
use redis_allocators.Intset.Model.{
  insert, erase, cells, cells-append, cells_congr, cells-AllBelow, cells-AllAbove, insert_new,
  erase_old,
}

-- The bound keeps positions within `int` and byte counts within `uint32_t`.
pub record IsValid (s : Intset) : Type 0 where
  pub width : IsEncoding s.encoding
  pub sorted : IsSorted s
  pub small : s.len < 2 ^ 28
  pub granted : s.allocated ≡ s.len * s.encoding

-- The members in the order of the cells.
unfoldable pub elements : Intset → List ℤ
elements s = cells (get s) 0 s.len

-- `t` holds the cells of `s` with `v` put in at `p`.
pub record Inserted (s t : Intset) (v : ℤ) (p : ℕ) : Type 0 where
  pub longer : t.len ≡ s.len + 1
  pub low : (i : ℕ) → i < p → get t i ≡ get s i
  pub here : get t p ≡ v
  pub high : (i : ℕ) → p ≤ i → i < s.len → get t (i + 1) ≡ get s i

-- `t` holds the cells of `s` but the one at `p`.
pub record Removed (s t : Intset) (p : ℕ) : Type 0 where
  pub shorter : t.len + 1 ≡ s.len
  pub low : (i : ℕ) → i < p → get t i ≡ get s i
  pub high : (i : ℕ) → p ≤ i → i < t.len → get t i ≡ get s (i + 1)

head_and_tail :
    (f : ℕ → ℤ) (i n : ℕ) {x : ℤ} {xs : List ℤ}
    → f i ≡ x
    → cells f (i + 1) n ≡ xs
    → cells f i (suc n) ≡ x ∷ xs
unfolding cells
head_and_tail f i n e h = ap₂ (λ x r. x ∷ r) e h

module _ (s : Intset) (v : ℤ) (p : ℕ) where
  pub elements_in_parts :
      Split s v p → elements s ≡ cells (get s) 0 p ++ cells (get s) p (s.len - p)
  unfolding elements
  elements_in_parts h =
      cells-append (get s) 0 p (s.len - p) p s.len (omega arith) (let w = h.within in omega arith)

  -- A member stands between the cells below it and those above it.
  pub old_elements :
      p < s.len
      → get s p ≡ v
      → elements s ≡ cells (get s) 0 p ++ v ∷ cells (get s) (p + 1) (s.len - p - 1)
  unfolding elements
  old_elements fit e =
      cells-append (get s) 0 p (suc (s.len - p - 1)) p s.len (omega arith) (omega arith)
      ∙ ap (λ r. cells (get s) 0 p ++ r) (head_and_tail (get s) p (s.len - p - 1) e refl)

  pub elements-insert :
      (t : Intset) → Split s v p → Inserted s t v p → elements t ≡ insert v (elements s)
  unfolding elements
  elements-insert t h ins =
      let w = h.within in
      let l = ins.longer in
      let low = cells-AllBelow (get s) v 0 p (λ j _ q. h.below j (omega arith)) in
      let high = cells-AllAbove (get s) v p (s.len - p) (λ j q r. h.above j q (omega arith)) in
      cells-append (get t) 0 p (suc (s.len - p)) p t.len (omega arith) (omega arith)
      ∙ ap₂ ◌++◌ (cells_congr (get t) (get s) 0 0 p (λ j q. ins.low (0 + j) (omega arith))) (
          head_and_tail (get t) p (s.len - p) ins.here (
            cells_congr (get t) (get s) (p + 1) p (s.len - p)
              (λ j q. ap (get t) (omega arith) ∙ ins.high (p + j) (omega arith) (omega arith))))
      ∙ sym (insert_new v _ _ low high)
      ∙ ap (insert v) (sym (elements_in_parts h))

  pub Inserted-IsSorted : (t : Intset) → IsSorted s → Split s v p → Inserted s t v p → IsSorted t
  Inserted-IsSorted t sorted h ins i j lt fit = elim (dec_lt j p) [
    | yes b ↦
        rw (ins.low i (omega arith), ins.low j b) (sorted i j lt (let w = h.within in omega arith))
    | no b ↦ elim (ℕ_discrete j p) [
      | yes e ↦ rw (ins.low i (omega arith), at e) (h.below i (omega arith))
      | no b' ↦ elim (dec_lt i p) [
        | yes c ↦
            rw (ins.low i c, up j (omega arith) fit)
              (sorted i (j - 1) (omega arith) (bound j (omega arith) fit))
        | no c ↦ elim (ℕ_discrete i p) [
          | yes e ↦
              rw (at e, up j (omega arith) fit)
                (h.above (j - 1) (omega arith) (bound j (omega arith) fit))
          | no c' ↦
              rw (up i (omega arith) (omega arith), up j (omega arith) fit)
                (sorted (i - 1) (j - 1) (omega arith) (bound j (omega arith) fit))
        ]
      ]
    ]
  ]
    where
      at : {k : ℕ} → k ≡ p → get t k ≡ v
      at e = ap (get t) e ∙ ins.here

      bound : (k : ℕ) → p < k → k < t.len → k - 1 < s.len
      bound k r q = let l = ins.longer in omega arith

      up : (k : ℕ) → p < k → k < t.len → get t k ≡ get s (k - 1)
      up k q r =
          let l = ins.longer in
          ap (get t) (omega arith) ∙ ins.high (k - 1) (omega arith) (omega arith)

  pub elements-erase :
      (t : Intset)
      → p < s.len
      → get s p ≡ v
      → IsSorted s
      → Removed s t p
      → elements t ≡ erase v (elements s)
  unfolding elements
  elements-erase t fit e sorted rem =
      let l = rem.shorter in
      let low =
        cells-AllBelow (get s) v 0 p
          (λ j _ q. subst (λ x. get s j <ℤ x) e (sorted j p (omega arith) fit)) in
      cells-append (get t) 0 p (s.len - p - 1) p t.len (omega arith) (omega arith)
      ∙ ap₂ ◌++◌ (cells_congr (get t) (get s) 0 0 p (λ j q. rem.low (0 + j) (omega arith))) (
          cells_congr (get t) (get s) p (p + 1) (s.len - p - 1)
            (λ j q. rem.high (p + j) (omega arith) (omega arith) ∙ ap (get s) (omega arith)))
      ∙ sym (erase_old v _ _ low)
      ∙ ap (erase v) (sym (old_elements fit e))

  pub Removed-IsSorted : (t : Intset) → IsSorted s → Removed s t p → IsSorted t
  Removed-IsSorted t sorted rem i j lt fit = elim (dec_lt j p) [
    | yes b ↦
        rw (rem.low i (omega arith), rem.low j b)
          (sorted i j lt (let l = rem.shorter in omega arith))
    | no b ↦ elim (dec_lt i p) [
      | yes c ↦
          rw (rem.low i c, rem.high j (omega arith) fit)
            (sorted i (j + 1) (omega arith) (let l = rem.shorter in omega arith))
      | no c ↦
          rw (rem.high i (omega arith) (omega arith), rem.high j (omega arith) fit)
            (sorted (i + 1) (j + 1) (omega arith) (let l = rem.shorter in omega arith))
    ]
  ]
