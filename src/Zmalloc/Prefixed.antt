-- ===== src/Zmalloc/Prefixed.antt =====
-- zmalloc.c without `HAVE_MALLOC_SIZE`: the size stands in a header of `PREFIX_SIZE` bytes in front
-- of the block. The argument `given` is what the allocator returns, `none` for NULL, where the
-- handler ends the process. A call with a pointer that is not of a live block has no result.
pub mod Counted
pub mod Calls
use redis_allocators.Prelude.{
  ℕ, zero, suc, ◌+◌, ◌-◌, ◌%◌, ◌^◌, ◌≤◌, ◌<◌, ◌≡◌, ◌≢◌, refl, sym, ap, ◌∙◌, Bool, true, false,
  Option, none, some, List, [], ◌∷◌, ◌==◌, if◌then◌else◌, arith, inl, inr, Bool-cases, Option-cases,
}
use redis_allocators.Zmalloc.{
  Blocks, Heap, size_at, release, pad, stat_alloc, stat_free, zmalloc_enable_thread_safeness,
}

abbrev pub prefix_size : ℕ
prefix_size = 8

-- `zmalloc` and `zcalloc`: the heap and the pointer.
unfoldable pub zmalloc : Heap → ℕ → Option ℕ → Option (Heap × ℕ)
zmalloc h size none = none
zmalloc h size (some real) = some (
  record h {
    blocks = (real, size) ∷ h.blocks;
    used_memory = stat_alloc ((size + prefix_size) % 2 ^ 64) h.used_memory;
  },
  real + prefix_size,
)

-- `zrealloc` behind its test for NULL, with the header of the old block. The allocator gives the old
-- block up, also where it returns the same address.
unfoldable pub move_block : Heap → ℕ → ℕ → Option ℕ → Option ℕ → Option (Heap × ℕ)
move_block h real size none given = none
move_block h real size (some oldsize) none = none
move_block h real size (some oldsize) (some new) = some (
  record h {
    blocks = (new, size) ∷ release real h.blocks;
    used_memory = stat_alloc size (stat_free oldsize h.used_memory);
  },
  new + prefix_size,
)

unfoldable pub zrealloc : Heap → ℕ → ℕ → Option ℕ → Option (Heap × ℕ)
zrealloc h ptr size given =
    if ptr == 0
    then zmalloc h size given
    else move_block h (ptr - prefix_size) size (size_at (ptr - prefix_size) h.blocks) given

-- The bytes that a header stands for.
abbrev pub weight : ℕ → ℕ
weight size = (pad size + prefix_size) % 2 ^ 64

unfoldable pub zmalloc_size : Heap → ℕ → Option ℕ
zmalloc_size h ptr = elim (size_at (ptr - prefix_size) h.blocks) [
  | none ↦ none
  | some size ↦ some (weight size)
]

unfoldable pub zfree : Heap → ℕ → Option Heap
zfree h ptr =
    let real = ptr - prefix_size in
    if ptr == 0 then some h else elim (size_at real h.blocks) [
      | none ↦ none
      | some oldsize ↦ some (record h {
        blocks = release real h.blocks;
        used_memory = stat_free ((oldsize + prefix_size) % 2 ^ 64) h.used_memory;
      })
    ]

-- The blocks that `realloc` leaves live, except the new one.
abbrev pub left_by : ℕ → Blocks → Blocks
left_by ptr blocks = if ptr == 0 then blocks else release (ptr - prefix_size) blocks

-- What a program may do: sizes are of type `size_t`, and the allocator returns an address that no
-- live block has.
pub data Step : Heap → Heap → Type 0 where
  allocates :
      (h h' : Heap) (size real p : ℕ)
      → size < 2 ^ 64
      → size_at real h.blocks ≡ none
      → zmalloc h size (some real) ≡ some (h', p)
      → Step h h'
  reallocates :
      (h h' : Heap) (ptr size new p : ℕ)
      → size < 2 ^ 64
      → size_at new (left_by ptr h.blocks) ≡ none
      → zrealloc h ptr size (some new) ≡ some (h', p)
      → Step h h'
  frees : (h h' : Heap) (ptr : ℕ) → zfree h ptr ≡ some h' → Step h h'
  protects : (h : Heap) → Step h (zmalloc_enable_thread_safeness h)

-- The heap at the start, and what is reached from it.
abbrev pub start : Heap
start = record { blocks = []; used_memory = 0; zmalloc_thread_safe = false }

pub data IsReachable : Heap → Type 0 where
  starts : IsReachable start
  continues : (h h' : Heap) → IsReachable h → Step h h' → IsReachable h'
