-- ===== src/Zmalloc/Sized/Tracked.antt =====
-- The counter of `zmalloc.c` is the total of the usable sizes, as the allocator reports them.
use mathlib.Core.Option.{some-injective, none-ne-some}
use redis_allocators.Prelude.{
  ℕ, ◌%◌, ◌^◌, ◌<◌, ◌≡◌, refl, ap, ◌∙◌, subst, Bool, Option, none, some, ◌==◌, if◌then◌else◌, arith,
  inl, inr, Bool-cases, Option-cases,
}
use redis_allocators.Zmalloc.{
  Heap, size_at, release, pad, zmalloc_used_memory, zmalloc_enable_thread_safeness,
}
use redis_allocators.Zmalloc.Account.{total, IsValid, add-IsValid, release-IsValid}
use redis_allocators.Zmalloc.Sized.{
  take_block, zmalloc, give_back, zrealloc, zfree, IsAllocator, Step, allocates, reallocates, frees,
  protects, start, IsReachable, starts, continues,
}

start-IsValid : IsValid pad start
unfolding total size_at release
start-IsValid = record { accounted = refl; distinct = λ p. refl; sized = λ p n h. absurd cc }

-- What the allocator's block does to a heap.
take-IsValid :
    (h h' : Heap) (block : Option (ℕ × ℕ)) (p : ℕ)
    → IsValid pad h
    → ((ptr usable : ℕ)
        → block ≡ some (ptr, usable)
        → (usable < 2 ^ 64) × (size_at ptr h.blocks ≡ none))
    → take_block h block ≡ some (h', p)
    → IsValid pad h'
unfolding take_block
take-IsValid h h' none p valid good run = absurd (none-ne-some _ run)
take-IsValid h h' (some (ptr, usable)) p valid good run =
    let (small, fresh) = good ptr usable refl in
    subst (IsValid pad) (ap (λ (r : Heap × ℕ). r.0) (some-injective _ (h', p) run))
      (add-IsValid pad h ptr usable usable small refl fresh valid)

allocate-IsValid :
    (malloc : ℕ → Option (ℕ × ℕ)) (h h' : Heap) (size p : ℕ)
    → IsValid pad h
    → IsAllocator malloc h.blocks
    → zmalloc malloc h size ≡ some (h', p)
    → IsValid pad h'
unfolding zmalloc
allocate-IsValid malloc h h' size p valid good run =
    take-IsValid h h' (malloc size) p valid
      (λ ptr usable e. let (_, small, fresh) = good size ptr usable e in (small, fresh)) run

give-IsValid :
    (h h' : Heap) (ptr : ℕ) (o : Option ℕ)
    → IsValid pad h
    → size_at ptr h.blocks ≡ o
    → give_back h ptr o ≡ some h'
    → IsValid pad h' × (h'.blocks ≡ release ptr h.blocks)
unfolding give_back
give-IsValid h h' ptr none valid there run = absurd (none-ne-some _ run)
give-IsValid h h' ptr (some oldsize) valid there run =
    subst (λ g. IsValid pad g × (g.blocks ≡ release ptr h.blocks)) (some-injective _ h' run)
      (
        release-IsValid pad h ptr oldsize oldsize (valid.sized ptr oldsize there) refl there valid,
        refl,
      )

reallocate-IsValid :
    (realloc : ℕ → Option (ℕ × ℕ)) (h h' : Heap) (ptr size p : ℕ)
    → IsValid pad h
    → IsAllocator realloc (if ptr == 0 then h.blocks else release ptr h.blocks)
    → zrealloc realloc h ptr size ≡ some (h', p)
    → IsValid pad h'
unfolding zrealloc
reallocate-IsValid realloc h h' ptr size p valid good run = elim (Bool-cases (ptr == 0)) [
  | inl e ↦ allocate-IsValid realloc h h' size p valid (subst Good e good) (subst Runs e run)
  | inr e ↦ elim (Option-cases (give_back h ptr (size_at ptr h.blocks))) [
    | inl gone ↦ absurd (none-ne-some _ (subst After gone (subst Runs e run)))
    | inr (g, left) ↦
        let (kept, blocks) = give-IsValid h g ptr (size_at ptr h.blocks) valid refl left in
        take-IsValid g h' (realloc size) p kept
          (λ q usable at.
            let (_, small, fresh) = subst Good e good size q usable at in
            (small, ap (size_at q) blocks ∙ fresh))
          (subst After left (subst Runs e run))
  ]
]
  where
    Good : Bool → Type 0
    Good b = IsAllocator realloc (if b then h.blocks else release ptr h.blocks)

    After : Option Heap → Type 0
    After o = elim o [ none ↦ none | some g ↦ take_block g (realloc size) ] ≡ some (h', p)

    Runs : Bool → Type 0
    Runs b =
        (if b then zmalloc realloc h size else elim (give_back h ptr (size_at ptr h.blocks)) [
          | none ↦ none
          | some g ↦ take_block g (realloc size)
        ])
        ≡ some (h', p)

free-IsValid : (h h' : Heap) (ptr : ℕ) → IsValid pad h → zfree h ptr ≡ some h' → IsValid pad h'
unfolding zfree
free-IsValid h h' ptr valid run = elim (Bool-cases (ptr == 0)) [
  | inl e ↦ subst (IsValid pad) (some-injective h h' (subst Runs e run)) valid
  | inr e ↦ (give-IsValid h h' ptr (size_at ptr h.blocks) valid refl (subst Runs e run)).0
]
  where
    Runs : Bool → Type 0
    Runs b = (if b then some h else give_back h ptr (size_at ptr h.blocks)) ≡ some h'

Step-IsValid : (h h' : Heap) → IsValid pad h → Step h h' → IsValid pad h'
unfolding zmalloc_enable_thread_safeness
Step-IsValid h h' valid (allocates malloc _ _ size p good run) =
    allocate-IsValid malloc h h' size p valid good run
Step-IsValid h h' valid (reallocates realloc _ _ ptr size p good run) =
    reallocate-IsValid realloc h h' ptr size p valid good run
Step-IsValid h h' valid (frees _ _ ptr run) = free-IsValid h h' ptr valid run
Step-IsValid h h' valid (protects _) = record {
  accounted = valid.accounted;
  distinct = valid.distinct;
  sized = valid.sized;
}

pub reachable-IsValid : (h : Heap) → IsReachable h → IsValid pad h
reachable-IsValid _ starts = start-IsValid
reachable-IsValid _ (continues h h' before step) =
    Step-IsValid h h' (reachable-IsValid h before) step

-- With `HAVE_MALLOC_SIZE`, after any calls of zmalloc, zcalloc, zrealloc and zfree over an
-- allocator that keeps its promise, `zmalloc_used_memory` is the total of the usable sizes of the
-- live blocks, rounded to words, in a `size_t`.
pub zmalloc_used_memory-usable :
    (h : Heap) → IsReachable h → zmalloc_used_memory h ≡ total pad h.blocks % 2 ^ 64
unfolding zmalloc_used_memory
zmalloc_used_memory-usable h reached =
    let count = (reachable-IsValid h reached).accounted in
    elim (Bool-cases h.zmalloc_thread_safe) [
      | inl e ↦ rw (e, zmalloc_used_memory) (omega arith)
      | inr e ↦ rw (e, zmalloc_used_memory) count
    ]
