-- ===== src/PageAlloc/Tests.antt =====
-- Runs of the page allocator on a memory of four pages of 256 bytes, which leaves three pages.
use kuberne_tsn.Common.{
  ℕ, zero, suc, ◌+◌, ◌*◌, ◌^◌, false, ◌≤◌, ◌<◌, ◌≡◌, ◌≢◌, refl, arith, true, none, ltb, ◌⊎◌,
}
use kuberne_tsn.Common.Run.{done}
use kuberne_tsn.PageAlloc.{
  PageAllocator, Init, ready, layout, init, fit_loop, make_pages, search_loop, search_from,
  scan_loop, mark_mask, mark_chain, found, endless, find_loop, find_aligned_pages, pages_for,
  take_pages, alloc, free,
}
use kuberne_tsn.PageAlloc.Search.{IsRun, IsFree}
use kuberne_tsn.PageAlloc.Search.Runs.{FirstRun, find_aligned_pages-FirstRun, find_loop-endless}
use kuberne_tsn.PageAlloc.Inv.{IsValid, reserved_at, mask_at}
use kuberne_tsn.PageAlloc.Alloc.{Allocated, alloc-found, take_pages-IsValid, alloc_correct}
use kuberne_tsn.PageAlloc.Free.{Freed, Same, free_correct, alloc-free_undoes}
use kuberne_tsn.PageAlloc.Layout.{Made, init-Made, layout-IsValid}

-- what `kt_page_allocator_init` makes of 1024 bytes in pages of 256
abbrev small_memory : PageAllocator
unfolding layout
small_memory = layout 4096 256 3 96 4

init_small : init 4096 1024 256 ≡ ready small_memory
unfolding init fit_loop layout make_pages
init_small = refl

-- The memory ends at 1048576, the last of the pages that a megabyte is cut into ends behind it.
last_page_end : Init → ℕ
last_page_end (ready al) = al.data_ptr + al.page_count * al.page_size
last_page_end _ = 0

init_overruns : ltb (2 ^ 20) (last_page_end (init 0 (2 ^ 20) 4096)) ≡ true
unfolding init fit_loop layout make_pages last_page_end
init_overruns = refl

small_memory-IsValid : IsValid small_memory
unfolding layout
small_memory-IsValid = layout-IsValid 4096 256 3 96 4 (omega arith) (omega arith) (omega arith)

init-Made_example : Made 1024 256 (init 4096 1024 256)
init-Made_example = init-Made 4096 1024 256 (omega arith) (omega arith) (omega arith)

-- the first two pages
first_two-IsFree : (p : ℕ) → 0 ≤ p → p < 2 → IsFree small_memory p
unfolding layout
first_two-IsFree zero lo hi = omega arith
first_two-IsFree (suc zero) lo hi = omega arith
first_two-IsFree (suc (suc p)) lo hi = absurd (omega arith)

first_two : IsRun small_memory (pages_for small_memory 300) 0
unfolding layout pages_for
first_two = record { fits = omega arith; all_free = first_two-IsFree }

two_pages-pos : 0 < pages_for small_memory 300
unfolding layout pages_for
two_pages-pos = omega arith

two_pages-enough : ltb small_memory.page_free (pages_for small_memory 300) ≡ false
unfolding layout pages_for
two_pages-enough = refl

two_pages-found : find_aligned_pages small_memory (pages_for small_memory 300) ≡ found 0
unfolding layout pages_for find_aligned_pages find_loop search_from search_loop scan_loop
two_pages-found = refl

-- the allocator after an allocation of 300 bytes
unfoldable two_taken : Allocated small_memory 300
two_taken =
    alloc-found small_memory-IsValid 300 two_pages-pos two_pages-enough 0 two_pages-found
      (first_two, λ j lt. absurd (omega arith))

find_aligned_pages-FirstRun_example : FirstRun small_memory 2 (find_aligned_pages small_memory 2)
find_aligned_pages-FirstRun_example = find_aligned_pages-FirstRun small_memory 2 (omega arith)

find_loop-endless_example : find_loop 100 small_memory 0 0 ≡ endless
unfolding layout
find_loop-endless_example =
    find_loop-endless 100 small_memory 0 1 (omega arith) (omega arith) (omega arith)

alloc_correct_example :
    Allocated small_memory 300
    ⊎ ((alloc small_memory 300 ≡ done (none, small_memory))
        × ((j : ℕ) → ¬ IsRun small_memory (pages_for small_memory 300) j))
alloc_correct_example = alloc_correct 300 small_memory-IsValid (omega arith)

-- the allocator with its first two pages taken
abbrev after_two : PageAllocator
after_two = take_pages small_memory 2 0

first_two_pages : IsRun small_memory 2 0
unfolding layout
first_two_pages = record { fits = omega arith; all_free = first_two-IsFree }

after_two-IsValid : IsValid after_two
after_two-IsValid = take_pages-IsValid small_memory-IsValid (omega arith) first_two_pages

after_two-state :
    (after_two.page_count ≡ 3)
    × (reserved_at after_two 0 ≡ 2)
    × (reserved_at after_two 1 ≡ 0)
    × (mask_at after_two 1 ≡ 0)
unfolding take_pages mark_mask mark_chain layout make_pages
after_two-state = (refl, refl, refl, refl)

free_correct_example :
    let al' = free after_two (after_two.data_ptr + 0 * after_two.page_size) in
    IsValid al' × Freed after_two al' (reserved_at after_two 0) 0
free_correct_example =
    free_correct after_two-IsValid (omega (arith, after_two-state.0))
      (omega (arith, after_two-state.1))

alloc-free_undoes_example :
    Same small_memory
      (free two_taken.after (small_memory.data_ptr + two_taken.index * small_memory.page_size))
alloc-free_undoes_example = alloc-free_undoes small_memory-IsValid (omega arith) two_taken

small_memory-count : 1 < small_memory.page_count
unfolding layout
small_memory-count = omega arith

small_memory-idle : mask_at small_memory 1 ≢ 0
unfolding layout
small_memory-idle = omega arith
