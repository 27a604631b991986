-- ===== src/Zmalloc/Prefixed/Counted.antt =====
-- The counter of `zmalloc.c` is the total of the live blocks, headers included.
use mathlib.Core.Option.{some-injective, none-ne-some}
use redis_allocators.Prelude.{
  ℕ, ◌+◌, ◌-◌, ◌%◌, ◌^◌, ◌<◌, ◌≡◌, refl, sym, ap, ◌∙◌, subst, Bool, true, false, Option, none, some,
  ◌∷◌, ◌==◌, if◌then◌else◌, arith, inl, inr, Bool-cases, Option-cases,
}
use redis_allocators.Zmalloc.{
  Heap, size_at, release, pad, stat_alloc, stat_free, zmalloc_enable_thread_safeness,
}
use redis_allocators.Zmalloc.Account.{
  total, total-release, IsValid, stat_alloc_lem, stat_free_lem, add-IsDistinct, release-IsDistinct,
  add-IsSized, release-IsSized, add-IsValid, release-IsValid,
}
use redis_allocators.Zmalloc.Prefixed.{
  prefix_size, weight, zmalloc, zrealloc, move_block, left_by, zfree, Step, allocates, reallocates,
  frees, protects, start, IsReachable, starts, continues,
}

-- The header is part of what is counted, and the rounding commutes with it.
pad-prefix :
    (size : ℕ) → size < 2 ^ 64 → pad ((size + prefix_size) % 2 ^ 64) % 2 ^ 64 ≡ weight size % 2 ^ 64
pad-prefix size small = ground arith

module _ (h : Heap) (valid : IsValid weight h) where
  -- A new block.
  pub placed : ℕ → ℕ → Heap
  placed size real = record h {
    blocks = (real, size) ∷ h.blocks;
    used_memory = stat_alloc ((size + prefix_size) % 2 ^ 64) h.used_memory;
  }

  pub placed-IsValid :
      (size real : ℕ)
      → size < 2 ^ 64
      → size_at real h.blocks ≡ none
      → IsValid weight (placed size real)
  unfolding placed total
  placed-IsValid size real small fresh =
      add-IsValid weight h real size ((size + prefix_size) % 2 ^ 64) small (pad-prefix size small)
        fresh valid

  -- A block less.
  pub freed : ℕ → ℕ → Heap
  freed real oldsize = record h {
    blocks = release real h.blocks;
    used_memory = stat_free ((oldsize + prefix_size) % 2 ^ 64) h.used_memory;
  }

  pub freed-IsValid :
      (real oldsize : ℕ)
      → size_at real h.blocks ≡ some oldsize
      → IsValid weight (freed real oldsize)
  unfolding freed
  freed-IsValid real oldsize there =
      release-IsValid weight h real oldsize ((oldsize + prefix_size) % 2 ^ 64) (omega arith)
        (pad-prefix oldsize (valid.sized real oldsize there)) there valid

  -- A block in the place of another.
  unfoldable pub moved : ℕ → ℕ → ℕ → ℕ → Heap
  moved real oldsize size new = record h {
    blocks = (new, size) ∷ release real h.blocks;
    used_memory = stat_alloc size (stat_free oldsize h.used_memory);
  }

  pub moved-IsValid :
      (real oldsize size new : ℕ)
      → size_at real h.blocks ≡ some oldsize
      → size < 2 ^ 64
      → size_at new (release real h.blocks) ≡ none
      → IsValid weight (moved real oldsize size new)
  unfolding moved total
  moved-IsValid real oldsize size new there small fresh =
      let old_small = valid.sized real oldsize there in
      let rest = total weight (release real h.blocks) in
      let sum = total-release weight real oldsize h.blocks there in
      let count = valid.accounted in
      let less =
        stat_free_lem oldsize (pad oldsize) (prefix_size + rest) h.used_memory old_small refl
          (count ∙ omega arith) in
      let more =
        stat_alloc_lem size (pad size) (prefix_size + rest) (stat_free oldsize h.used_memory) refl
          less in
      record {
        accounted = more ∙ omega arith;
        distinct =
            add-IsDistinct new size (release real h.blocks) fresh
              (release-IsDistinct real h.blocks valid.distinct);
        sized =
            add-IsSized new size (release real h.blocks) small
              (release-IsSized real h.blocks valid.distinct valid.sized);
      }

start-IsValid : IsValid weight start
unfolding total size_at release
start-IsValid = record { accounted = refl; distinct = λ p. refl; sized = λ p n h. absurd cc }

-- The result of a call that has one.
pub same_heap : (a b : Heap × ℕ) → some a ≡ some b → a.0 ≡ b.0
same_heap a b e = ap (λ (r : Heap × ℕ). r.0) (some-injective a b e)

allocate-IsValid :
    (h h' : Heap) (size real p : ℕ)
    → IsValid weight h
    → size < 2 ^ 64
    → size_at real h.blocks ≡ none
    → zmalloc h size (some real) ≡ some (h', p)
    → IsValid weight h'
unfolding zmalloc placed
allocate-IsValid h h' size real p valid small fresh run =
    subst (IsValid weight) (same_heap _ (h', p) run) (placed-IsValid h valid size real small fresh)

zrealloc_null :
    (h : Heap) (ptr size : ℕ) (given : Option ℕ)
    → (ptr == 0) ≡ true
    → zrealloc h ptr size given ≡ zmalloc h size given
unfolding zrealloc
zrealloc_null h ptr size given e = rw (e, zrealloc) refl

zrealloc_absent :
    (h : Heap) (ptr size : ℕ) (given : Option ℕ)
    → (ptr == 0) ≡ false
    → size_at (ptr - prefix_size) h.blocks ≡ none
    → zrealloc h ptr size given ≡ none
unfolding zrealloc move_block
zrealloc_absent h ptr size given e gone = rw (e, zrealloc) (rw gone refl)

module _ (h : Heap) (valid : IsValid weight h) (ptr oldsize : ℕ)
    (there : size_at (ptr - prefix_size) h.blocks ≡ some oldsize) (e : (ptr == 0) ≡ false) where
  pub zrealloc_live :
      (size new : ℕ)
      → zrealloc h ptr size (some new)
        ≡ some (moved h valid (ptr - prefix_size) oldsize size new, new + prefix_size)
  unfolding zrealloc move_block moved
  zrealloc_live size new = rw (e, zrealloc) (rw there refl)

  pub zfree_live : zfree h ptr ≡ some (freed h valid (ptr - prefix_size) oldsize)
  unfolding zfree freed
  zfree_live = rw (e, zfree) (rw there refl)

zfree_null : (h : Heap) (ptr : ℕ) → (ptr == 0) ≡ true → zfree h ptr ≡ some h
unfolding zfree
zfree_null h ptr e = rw (e, zfree) refl

zfree_absent :
    (h : Heap) (ptr : ℕ)
    → (ptr == 0) ≡ false
    → size_at (ptr - prefix_size) h.blocks ≡ none
    → zfree h ptr ≡ none
unfolding zfree
zfree_absent h ptr e gone = rw (e, zfree) (rw gone refl)

reallocate-IsValid :
    (h h' : Heap) (ptr size new p : ℕ)
    → IsValid weight h
    → size < 2 ^ 64
    → size_at new (left_by ptr h.blocks) ≡ none
    → zrealloc h ptr size (some new) ≡ some (h', p)
    → IsValid weight h'
reallocate-IsValid h h' ptr size new p valid small fresh run = elim (Bool-cases (ptr == 0)) [
  | inl e ↦
      let free : size_at new h.blocks ≡ none = subst (Fresh new) e fresh in
      allocate-IsValid h h' size new p valid small free
        (sym (zrealloc_null h ptr size (some new) e) ∙ run)
  | inr e ↦ elim (Option-cases (size_at (ptr - prefix_size) h.blocks)) [
    | inl gone ↦ absurd (none-ne-some _ (sym (zrealloc_absent h ptr size (some new) e gone) ∙ run))
    | inr (oldsize, there) ↦
        subst (IsValid weight)
          (same_heap _ (h', p) (sym (zrealloc_live h valid ptr oldsize there e size new) ∙ run))
          (moved-IsValid h valid (ptr - prefix_size) oldsize size new there small
            (subst (Fresh new) e fresh))
  ]
]
  where
    Fresh : ℕ → Bool → Type 0
    Fresh new b = size_at new (if b then h.blocks else release (ptr - prefix_size) h.blocks) ≡ none

free-IsValid :
    (h h' : Heap) (ptr : ℕ) → IsValid weight h → zfree h ptr ≡ some h' → IsValid weight h'
free-IsValid h h' ptr valid run = elim (Bool-cases (ptr == 0)) [
  | inl e ↦ subst (IsValid weight) (some-injective h h' (sym (zfree_null h ptr e) ∙ run)) valid
  | inr e ↦ elim (Option-cases (size_at (ptr - prefix_size) h.blocks)) [
    | inl gone ↦ absurd (none-ne-some _ (sym (zfree_absent h ptr e gone) ∙ run))
    | inr (oldsize, there) ↦
        subst (IsValid weight)
          (some-injective _ h' (sym (zfree_live h valid ptr oldsize there e) ∙ run))
          (freed-IsValid h valid (ptr - prefix_size) oldsize there)
  ]
]

-- Every call keeps the invariant.
Step-IsValid : (h h' : Heap) → IsValid weight h → Step h h' → IsValid weight h'
unfolding zmalloc_enable_thread_safeness
Step-IsValid h h' valid (allocates _ _ size real p small fresh run) =
    allocate-IsValid h h' size real p valid small fresh run
Step-IsValid h h' valid (reallocates _ _ ptr size new p small fresh run) =
    reallocate-IsValid h h' ptr size new p valid small fresh run
Step-IsValid h h' valid (frees _ _ ptr run) = free-IsValid h h' ptr valid run
Step-IsValid h h' valid (protects _) = record {
  accounted = valid.accounted;
  distinct = valid.distinct;
  sized = valid.sized;
}

pub reachable-IsValid : (h : Heap) → IsReachable h → IsValid weight h
reachable-IsValid _ starts = start-IsValid
reachable-IsValid _ (continues h h' before step) =
    Step-IsValid h h' (reachable-IsValid h before) step
