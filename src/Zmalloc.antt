-- ===== src/Zmalloc.antt =====
-- zmalloc.c: allocation with a running total of the memory in use. The allocator below is not part
-- of it: what malloc, calloc and realloc return is an argument of the functions here.
pub mod Account
pub mod Prefixed
pub mod Sized
use redis_allocators.Prelude.{
  ℕ, zero, suc, ◌+◌, ◌-◌, ◌%◌, ◌^◌, Bool, true, false, Option, none, some, List, [], ◌∷◌, ◌==◌,
  if◌then◌else◌,
}

-- The live blocks, each with its address and a number of bytes: the header in front of the block,
-- or the allocator's own record of its size.
abbrev pub Blocks : Type 0
Blocks = List (ℕ × ℕ)

unfoldable pub size_at : ℕ → Blocks → Option ℕ
size_at p [] = none
size_at p (b ∷ rest) = if p == b.0 then some b.1 else size_at p rest

unfoldable pub release : ℕ → Blocks → Blocks
release p [] = []
release p (b ∷ rest) = if p == b.0 then rest else b ∷ release p rest

pub record Heap : Type 0 where
  pub blocks : Blocks
  pub used_memory : ℕ
  pub zmalloc_thread_safe : Bool

-- The rounding to a multiple of `sizeof(long)`, in a `size_t`.
abbrev pub pad : ℕ → ℕ
pad n = if n % 8 == 0 then n else (n + (8 - n % 8)) % 2 ^ 64

-- `update_zmalloc_stat_alloc`: the atomic addition and the plain one give the same total.
abbrev pub stat_alloc : ℕ → ℕ → ℕ
stat_alloc n used = (used + pad n) % 2 ^ 64

-- `update_zmalloc_stat_free`
abbrev pub stat_free : ℕ → ℕ → ℕ
stat_free n used = (used + (2 ^ 64 - pad n)) % 2 ^ 64

-- `zmalloc_used_memory`: the atomic addition of nothing, or a plain read.
unfoldable pub zmalloc_used_memory : Heap → ℕ
zmalloc_used_memory h =
    if h.zmalloc_thread_safe then (h.used_memory + 0) % 2 ^ 64 else h.used_memory

-- `zmalloc_enable_thread_safeness`
unfoldable pub zmalloc_enable_thread_safeness : Heap → Heap
zmalloc_enable_thread_safeness h = record h { zmalloc_thread_safe = true }
