-- ===== src/Tests/Sized.antt =====
-- zmalloc.c with `HAVE_MALLOC_SIZE`: an allocator with size classes, and the theorem at two blocks.
use redis_allocators.Prelude.{
  ℕ, ◌%◌, ◌^◌, ◌≡◌, refl, Option, some, none, [], ◌∷◌, arith, false, leb, if◌then◌else◌,
}
use redis_allocators.Zmalloc.{Heap, Blocks, size_at, pad, zmalloc_used_memory}
use redis_allocators.Zmalloc.Account.{total}
use redis_allocators.Zmalloc.Sized.{
  zmalloc, take_block, IsAllocator, start, IsReachable, starts, continues, allocates,
}
use redis_allocators.Zmalloc.Sized.Tracked.{zmalloc_used_memory-usable}

-- Blocks of 48 bytes at one address, and NULL for more.
abbrev bin_at : ℕ → ℕ → Option (ℕ × ℕ)
bin_at p size = if leb size 48 then some (p, 48) else none

bin_at-IsAllocator :
    (p : ℕ) (blocks : Blocks) → size_at p blocks ≡ none → IsAllocator (bin_at p) blocks
bin_at-IsAllocator p blocks free size ptr usable e = ground arith

abbrev one : Heap
one = record { blocks = (1000, 48) ∷ []; used_memory = 48; zmalloc_thread_safe = false }

abbrev two : Heap
two = record {
  blocks = (2000, 48) ∷ (1000, 48) ∷ [];
  used_memory = 96;
  zmalloc_thread_safe = false;
}

two-IsReachable : IsReachable two
unfolding size_at zmalloc take_block
two-IsReachable =
    continues one two
      (continues start one starts
        (allocates (bin_at 1000) start one 20 1000 (bin_at-IsAllocator 1000 [] refl) refl))
      (allocates (bin_at 2000) one two 33 2000 (bin_at-IsAllocator 2000 ((1000, 48) ∷ []) refl)
        refl)

zmalloc_used_memory-usable_example :
    zmalloc_used_memory two ≡ total pad ((2000, 48) ∷ (1000, 48) ∷ []) % 2 ^ 64
zmalloc_used_memory-usable_example = zmalloc_used_memory-usable two two-IsReachable
