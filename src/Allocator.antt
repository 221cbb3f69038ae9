-- ===== src/Allocator.antt =====
-- `struct kt_allocator` of src/kt_alloc.h: the interface by which a component asks for memory.
-- `data` is the state `S` of the allocator. `print_stats` only prints and is left out.
use kuberne_tsn.Common.{ℕ, Option}
use kuberne_tsn.Common.Run.{Run}

-- `alloc` is given a number of bytes and returns an address, or `none` for NULL; it may not return.
pub record KtAllocator (S : Type 0) : Type 0 where
  pub alloc : S → ℕ → Run (Option ℕ × S)
  pub free : S → ℕ → S
