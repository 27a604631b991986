-- ===== src/Zmalloc/Sized.antt =====
-- zmalloc.c with `HAVE_MALLOC_SIZE`: the allocator knows the usable size of a block, and `malloc`
-- (likewise `realloc`) returns the address with that size, or `none` for NULL, where the handler
-- ends the process. A call with a pointer that is not of a live block has no result.
pub mod Tracked
use redis_allocators.Prelude.{
  ℕ, zero, suc, ◌+◌, ◌-◌, ◌%◌, ◌^◌, ◌≤◌, ◌<◌, ◌≡◌, ◌≢◌, Bool, true, false, Option, none, some, List,
  [], ◌∷◌, ◌==◌, if◌then◌else◌,
}
use redis_allocators.Zmalloc.{
  Blocks, Heap, size_at, release, pad, stat_alloc, stat_free, zmalloc_enable_thread_safeness,
}

-- The block that the allocator has returned.
unfoldable pub take_block : Heap → Option (ℕ × ℕ) → Option (Heap × ℕ)
take_block h none = none
take_block h (some (ptr, usable)) = some (
  record h { blocks = (ptr, usable) ∷ h.blocks; used_memory = stat_alloc usable h.used_memory },
  ptr,
)

-- `zmalloc` and `zcalloc`: the heap and the pointer.
unfoldable pub zmalloc : (ℕ → Option (ℕ × ℕ)) → Heap → ℕ → Option (Heap × ℕ)
zmalloc malloc h size = take_block h (malloc size)

-- The old block leaves the total.
unfoldable pub give_back : Heap → ℕ → Option ℕ → Option Heap
give_back h ptr none = none
give_back h ptr (some oldsize) =
    some (record h { blocks = release ptr h.blocks; used_memory = stat_free oldsize h.used_memory })

unfoldable pub zrealloc : (ℕ → Option (ℕ × ℕ)) → Heap → ℕ → ℕ → Option (Heap × ℕ)
zrealloc realloc h ptr size =
    if ptr == 0 then zmalloc realloc h size else elim (give_back h ptr (size_at ptr h.blocks)) [
      | none ↦ none
      | some h' ↦ take_block h' (realloc size)
    ]

unfoldable pub zfree : Heap → ℕ → Option Heap
zfree h ptr = if ptr == 0 then some h else give_back h ptr (size_at ptr h.blocks)

-- What the allocator promises: a usable size of type `size_t` that is at least what is asked for,
-- at an address that no live block has.
abbrev pub IsAllocator : (ℕ → Option (ℕ × ℕ)) → Blocks → Type 0
IsAllocator malloc blocks =
    (size ptr usable : ℕ)
    → malloc size ≡ some (ptr, usable)
    → (size ≤ usable) × (usable < 2 ^ 64) × (size_at ptr blocks ≡ none)

-- What a program may do.
pub data Step : Heap → Heap → Type 0 where
  allocates :
      (malloc : ℕ → Option (ℕ × ℕ)) (h h' : Heap) (size p : ℕ)
      → IsAllocator malloc h.blocks
      → zmalloc malloc h size ≡ some (h', p)
      → Step h h'
  reallocates :
      (realloc : ℕ → Option (ℕ × ℕ)) (h h' : Heap) (ptr size p : ℕ)
      → IsAllocator realloc (if ptr == 0 then h.blocks else release ptr h.blocks)
      → zrealloc realloc h ptr size ≡ some (h', p)
      → Step h h'
  frees : (h h' : Heap) (ptr : ℕ) → zfree h ptr ≡ some h' → Step h h'
  protects : (h : Heap) → Step h (zmalloc_enable_thread_safeness h)

-- The heap at the start, and what is reached from it.
abbrev pub start : Heap
start = record { blocks = []; used_memory = 0; zmalloc_thread_safe = false }

pub data IsReachable : Heap → Type 0 where
  starts : IsReachable start
  continues : (h h' : Heap) → IsReachable h → Step h h' → IsReachable h'
