-- ===== src/Zmalloc/Prefixed/Calls.antt =====
-- What the calls of `zmalloc.c` promise to their callers.
use mathlib.Core.Option.{some-injective}
use redis_allocators.Prelude.{
  ℕ, ◌+◌, ◌-◌, ◌%◌, ◌^◌, ◌≤◌, ◌<◌, ◌≡◌, ◌≢◌, refl, sym, ap, ◌∙◌, false, Option, none, some, ◌∷◌,
  ◌==◌, arith, inl, inr, Bool-cases,
}
use redis_allocators.Zmalloc.{
  Blocks, Heap, size_at, release, stat_alloc, stat_free, zmalloc_used_memory,
}
use redis_allocators.Zmalloc.Account.{
  total, size_at-release, stat_free-stat_alloc, size_at_head, size_at_tail, release_head, pad_fits,
  IsValid,
}
use redis_allocators.Zmalloc.Prefixed.{
  prefix_size, weight, zmalloc, zrealloc, zfree, zmalloc_size, IsReachable,
}
use redis_allocators.Zmalloc.Prefixed.Counted.{reachable-IsValid, moved, zrealloc_live}

-- After any calls of zmalloc, zcalloc, zrealloc and zfree, `zmalloc_used_memory` is the total of
-- `zmalloc_size` over the live blocks, in a `size_t`.
pub zmalloc_used_memory-total :
    (h : Heap) → IsReachable h → zmalloc_used_memory h ≡ total weight h.blocks % 2 ^ 64
unfolding zmalloc_used_memory
zmalloc_used_memory-total h reached =
    let count = (reachable-IsValid h reached).accounted in
    elim (Bool-cases h.zmalloc_thread_safe) [
      | inl e ↦ rw (e, zmalloc_used_memory) (omega arith)
      | inr e ↦ rw (e, zmalloc_used_memory) count
    ]

free_live :
    (h : Heap) (ptr n : ℕ) (rest : Blocks)
    → (ptr == 0) ≡ false
    → size_at (ptr - prefix_size) h.blocks ≡ some n
    → release (ptr - prefix_size) h.blocks ≡ rest
    → zfree h ptr
      ≡ some (record h {
        blocks = rest;
        used_memory = stat_free ((n + prefix_size) % 2 ^ 64) h.used_memory;
      })
unfolding zfree
free_live h ptr n rest e there left = rw (e, zfree) (rw (there, left) refl)

free_placed :
    (h : Heap) (size real : ℕ)
    → h.used_memory < 2 ^ 64
    → zfree
        (record h {
          blocks = (real, size) ∷ h.blocks;
          used_memory = stat_alloc ((size + prefix_size) % 2 ^ 64) h.used_memory;
        })
        (real + prefix_size)
      ≡ some h
free_placed h size real fits =
    let n = (size + prefix_size) % 2 ^ 64 in
    let back : real + prefix_size - prefix_size ≡ real = omega arith in
    let blocks = (real, size) ∷ h.blocks in
    free_live _ (real + prefix_size) size h.blocks (ground arith)
      (ap (λ a. size_at a blocks) back ∙ size_at_head real size h.blocks)
      (ap (λ a. release a blocks) back ∙ release_head real size h.blocks)
    ∙ ap {B = Option Heap} (λ u. some (record h { used_memory = u }))
        (stat_free-stat_alloc n h.used_memory (omega arith) fits)

-- On a heap that satisfies the invariant, zfree of what zmalloc has just returned gives the heap
-- back.
pub zfree-zmalloc :
    (h h' : Heap) (size real p : ℕ)
    → IsValid weight h
    → size < 2 ^ 64
    → zmalloc h size (some real) ≡ some (h', p)
    → zfree h' p ≡ some h
unfolding zmalloc
zfree-zmalloc h h' size real p valid small run =
    let count = valid.accounted in
    let same : zfree _ _ ≡ zfree h' p =
      ap (λ (r : Heap × ℕ). zfree r.0 r.1) (some-injective _ (h', p) run) in
    sym same ∙ free_placed h size real (omega arith)

-- `zrealloc` of a live block: the new block has its size, the counter changes by
-- the difference, and the other blocks keep theirs.
abbrev pub Reallocates : Heap → ℕ → ℕ → ℕ → ℕ → Type 0
Reallocates h ptr oldsize size new =
    (h' : Heap) × (zrealloc h ptr size (some new) ≡ some (h', new + prefix_size))
    × (zmalloc_size h' (new + prefix_size) ≡ some (weight size))
    × ((h'.used_memory + weight oldsize) % 2 ^ 64 ≡ (h.used_memory + weight size) % 2 ^ 64)
    × ((q : ℕ)
        → prefix_size ≤ q
        → q ≢ ptr
        → q ≢ new + prefix_size
        → zmalloc_size h' q ≡ zmalloc_size h q)

-- A header that is known is what `zmalloc_size` reads.
size-weight :
    (h : Heap) (ptr : ℕ) (o : Option ℕ)
    → size_at (ptr - prefix_size) h.blocks ≡ o
    → zmalloc_size h ptr ≡ elim o [ none ↦ none | some size ↦ some (weight size) ]
unfolding zmalloc_size
size-weight h ptr o e = rw (e, zmalloc_size) refl

-- On a heap that satisfies the invariant, `zrealloc` of a live block succeeds, gives the new block its size, changes the counter by the difference, and
-- leaves the other blocks alone.
pub zrealloc-Reallocates :
    (h : Heap) (ptr oldsize size new : ℕ)
    → IsValid weight h
    → prefix_size ≤ ptr
    → size_at (ptr - prefix_size) h.blocks ≡ some oldsize
    → Reallocates h ptr oldsize size new
unfolding moved
zrealloc-Reallocates h ptr oldsize size new valid real there =
    let back : new + prefix_size - prefix_size ≡ new = omega arith in
    let rest = release (ptr - prefix_size) h.blocks in
    let h' = moved h valid (ptr - prefix_size) oldsize size new in
    (
      h',
      zrealloc_live h valid ptr oldsize there (ground arith) size new,
      size-weight h' (new + prefix_size) (some size)
          (ap (λ a. size_at a ((new, size) ∷ rest)) back ∙ size_at_head new size rest),
      (let old = pad_fits oldsize (valid.sized (ptr - prefix_size) oldsize there) in omega arith),
      λ q room other fresh.
          let apart : size_at (q - prefix_size) ((new, size) ∷ rest)
              ≡ size_at (q - prefix_size) h.blocks =
            size_at_tail (q - prefix_size) new size rest (λ e. fresh (omega arith))
            ∙ size_at-release (ptr - prefix_size) (q - prefix_size) h.blocks
                (λ e. other (omega arith)) in
          size-weight h' q (size_at (q - prefix_size) h.blocks) apart
          ∙ sym (size-weight h q (size_at (q - prefix_size) h.blocks) refl),
    )
