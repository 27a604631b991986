-- ===== src/Tests/Prefixed.antt =====
-- zmalloc.c without `HAVE_MALLOC_SIZE`: an allocation, a reallocation, and the theorems at them.
use redis_allocators.Prelude.{◌%◌, ◌^◌, ◌≡◌, refl, some, [], ◌∷◌, arith, false}
use redis_allocators.Zmalloc.{Heap, size_at, release, zmalloc_used_memory}
use redis_allocators.Zmalloc.Account.{total}
use redis_allocators.Zmalloc.Prefixed.{
  zmalloc, zrealloc, move_block, weight, start, IsReachable, starts, continues, allocates,
  reallocates,
}
use redis_allocators.Zmalloc.Prefixed.Calls.{zmalloc_used_memory-total}

-- 20 bytes and the header are 28, and 32 after rounding.
abbrev one : Heap
one = record { blocks = (1000, 20) ∷ []; used_memory = 32; zmalloc_thread_safe = false }

abbrev grown : Heap
grown = record { blocks = (2000, 100) ∷ []; used_memory = 112; zmalloc_thread_safe = false }

one_run : zmalloc start 20 (some 1000) ≡ some (one, 1008)
unfolding zmalloc
one_run = refl

grown_run : zrealloc one 1008 100 (some 2000) ≡ some (grown, 2008)
unfolding zrealloc move_block size_at release
grown_run = refl

one-IsReachable : IsReachable one
unfolding size_at
one-IsReachable =
    continues start one starts (allocates start one 20 1000 1008 (omega arith) refl one_run)

grown-IsReachable : IsReachable grown
unfolding size_at release
grown-IsReachable =
    continues one grown one-IsReachable
      (reallocates one grown 1008 100 2000 2008 (omega arith) refl grown_run)

zmalloc_used_memory-total_example :
    zmalloc_used_memory grown ≡ total weight ((2000, 100) ∷ []) % 2 ^ 64
zmalloc_used_memory-total_example = zmalloc_used_memory-total grown grown-IsReachable

one_header : size_at 1000 one.blocks ≡ some 20
unfolding size_at
one_header = refl
