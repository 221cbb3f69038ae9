-- ===== src/PageAlloc.antt =====
-- src/kt_alloc.c and src/kt_alloc.h: an allocator of runs of pages in the shared memory. A pointer to
-- a page is its index in `page_list`. An access out of range is undefined in C; here such a read
-- gives a null page and such a write does nothing, and `Inv.IsValid` keeps the accesses in range. The
-- counters that run over pages stop at `page_count`, so they do not wrap.
pub mod Layout
pub mod Search
pub mod Marks
pub mod Inv
pub mod Alloc
pub mod Free
mod Tests
use kuberne_tsn.Common.{
  ℕ, zero, suc, ◌+◌, ◌-◌, ◌*◌, ◌/◌, ◌%◌, ◌^◌, bit_and, Bool, true, false, not, ◌&&◌, ◌||◌, Option,
  none, some, List, [], ◌∷◌, get_or, set, replicate, u32, add32, sub32, mul32, ltb, leb, ◌==◌,
  if◌then◌else◌,
}
use kuberne_tsn.Common.Run.{Run, done, spinning, ◌>>=◌}
use kuberne_tsn.Allocator.{KtAllocator}

-- `struct kt_page`; `free` is a flag.
pub record Page : Type 0 where
  pub next : ℕ
  pub free : ℕ
  pub offset : ℕ
  pub reserved : ℕ

-- `struct kt_page_allocator`
pub record PageAllocator : Type 0 where
  pub page_size : ℕ
  pub page_count : ℕ
  pub page_free : ℕ
  pub page_list : List Page
  pub free_pages_mask : List ℕ
  pub data_ptr : ℕ

abbrev pub null_page : Page
null_page = record { next = 0; free = 0; offset = 0; reserved = 0 }

abbrev pub page_at : List Page → ℕ → Page
page_at pages i = get_or pages i null_page

-- `sizeof(struct kt_page_allocator)` and `sizeof(struct kt_page)`
abbrev pub header_size : ℕ
header_size = 40

abbrev pub page_struct_size : ℕ
page_struct_size = 24

-- How the loop of `kt_page_allocator_init` ends: with the page count and the sizes of the list and
-- of the mask, or with `return -1`.
pub data Fit : Type 0 where
  fits : (page_count page_list_size mask_size : ℕ) → Fit
  too_small out_of_fuel : Fit

pub fit_loop : ℕ → ℕ → ℕ → Fit
fit_loop zero size page_count = out_of_fuel
fit_loop (suc fuel) size page_count =
    let page_list_size = mul32 page_count page_struct_size in
    let mask_size = mul32 page_count 1 in
    let total = u32 (header_size + page_list_size + mask_size) in
    let count = sub32 page_count 1 in
    let again = fit_loop fuel size count in
    if count == 0
    then too_small
    else if ltb size total
    then again
    else fits count page_list_size mask_size

-- The pages that the loop over `i` writes, from page `i` on. The last one's `next` is set behind it.
pub make_pages : ℕ → ℕ → ℕ → List Page
make_pages zero i page_size = []
make_pages (suc n) i page_size =
    record { next = i + 1; free = 1; offset = mul32 i page_size; reserved = 0 }
    ∷ make_pages n (i + 1) page_size

-- what `kt_page_allocator_init` returns, with the structure that it writes
pub data Init : Type 0 where
  ready : PageAllocator → Init
  failed : Init
  division_by_zero : Init

-- The structure for a page count, `data` being the start of the memory.
pub layout : ℕ → ℕ → ℕ → ℕ → ℕ → PageAllocator
layout base page_size page_count page_list_size mask_size =
    let page_list_offset = base + header_size in
    let mask_offset = page_list_offset + page_list_size * page_struct_size in
    let data_offset = mask_offset + mask_size * 1 in
    let pages = make_pages page_count 0 page_size in
    let last = page_count - 1 in
    record {
      page_size = page_size;
      page_count = page_count;
      page_free = page_count;
      page_list = set pages last (record (page_at pages last) { next = 0 });
      free_pages_mask = replicate page_count 1;
      data_ptr = (data_offset + page_size - 1) / page_size * page_size;
    }

pub is_power_of_2 : ℕ → Bool
is_power_of_2 n = bit_and n (sub32 n 1) == 0

-- `kt_page_allocator_init`; the fuel is the page count, which falls to 0 at the latest.
unfoldable pub init : ℕ → ℕ → ℕ → Init
unfolding is_power_of_2
init base size page_size =
    let page_count = size / page_size in
    let fit = fit_loop (sub32 page_count 1 + 1) size page_count in
    let after : Init = elim fit [
      | fits count list_size mask_size ↦ ready (layout base page_size count list_size mask_size)
      | _ ↦ failed
    ] in
    if not (is_power_of_2 size) || not (is_power_of_2 page_size)
    then failed
    else if page_size == 0
    then division_by_zero
    else after

-- The loop of `page_alloc_search_first_free_page_from`, with the rounds that are left.
pub search_loop : ℕ → List ℕ → ℕ → Option ℕ
search_loop zero mask i = none
search_loop (suc r) mask i = if get_or mask i 0 == 0 then search_loop r mask (i + 1) else some i

pub search_from : PageAllocator → ℕ → Option ℕ
search_from al start =
    let scan = search_loop (al.page_count - start) al.free_pages_mask start in
    if leb al.page_count start then none else scan

-- `page_alloc_search_first_free_page`
pub search_first : PageAllocator → Option ℕ
search_first al = search_from al 0

-- How the `for` loop of `page_alloc_find_aligned_pages` ends: by `return`, by `break`, by its test.
pub data Scan : Type 0 where
  complete : Scan
  blocked : (k : ℕ) → Scan
  exhausted : Scan

pub scan_loop : ℕ → PageAllocator → ℕ → ℕ → ℕ → Scan
scan_loop zero al pages_needed index page_found = exhausted
scan_loop (suc r) al pages_needed index page_found =
    let k = index + page_found in
    let rest = scan_loop r al pages_needed index (page_found + 1) in
    if ltb k al.page_count && not (get_or al.free_pages_mask k 0 == 0)
    then (if page_found + 1 == pages_needed then complete else rest)
    else blocked k

-- `page_alloc_find_aligned_pages`, with the rounds of the `while` loop as fuel
pub data Found : Type 0 where
  found : (index : ℕ) → Found
  not_found endless : Found

pub find_loop : ℕ → PageAllocator → ℕ → ℕ → Found
find_loop zero al pages_needed index = endless
find_loop (suc fuel) al pages_needed index = elim (search_from al index) [
  | none ↦ not_found
  | some i ↦
      let scan : Found = elim (scan_loop (pages_needed - 1) al pages_needed i 1) [
        | complete ↦ found i
        | blocked k ↦ find_loop fuel al pages_needed k
        | exhausted ↦ find_loop fuel al pages_needed i
      ] in
      if pages_needed == 1 then found i else scan
]

unfoldable pub find_aligned_pages : PageAllocator → ℕ → Found
unfolding find_loop scan_loop search_from search_loop
find_aligned_pages al pages_needed = find_loop (al.page_count + 1) al pages_needed 0

-- The loop that sets `free` of `n` pages, from one to the next.
pub mark_chain : ℕ → List Page → ℕ → ℕ → List Page
mark_chain zero pages tmp v = pages
mark_chain (suc n) pages tmp v =
    let page = page_at pages tmp in
    mark_chain n (set pages tmp (record page { free = v })) page.next v

-- The loop that sets `n` entries of the mask from `i` on.
pub mark_mask : ℕ → List ℕ → ℕ → ℕ → List ℕ
mark_mask zero mask i v = mask
mark_mask (suc n) mask i v = mark_mask n (set mask i v) (i + 1) v

pub pages_for : PageAllocator → ℕ → ℕ
pages_for al size = size / al.page_size + (if size % al.page_size == 0 then 0 else 1)

-- What `page_alloc_alloc` writes once it has found the run of pages at `index`.
pub take_pages : PageAllocator → ℕ → ℕ → PageAllocator
take_pages al n index =
    let page = page_at al.page_list index in
    let reserved = set al.page_list index (record page { reserved = n }) in
    record al {
      page_list = mark_chain n reserved index 0;
      free_pages_mask = mark_mask n al.free_pages_mask index 0;
      page_free = sub32 al.page_free n;
    }

-- `page_alloc_alloc`: `spinning` stands for a search that does not end.
unfoldable pub alloc : PageAllocator → ℕ → Run (Option ℕ × PageAllocator)
unfolding pages_for
alloc al size =
    let n = pages_for al size in
    let search : Run (Option ℕ × PageAllocator) = elim (find_aligned_pages al n) [
      | found index ↦
          done (some (al.data_ptr + (page_at al.page_list index).offset), take_pages al n index)
      | not_found ↦ done (none, al)
      | endless ↦ spinning
    ] in
    if ltb al.page_free n then done (none, al) else search

-- What `page_alloc_free` writes for the page at `index`.
pub give_back : PageAllocator → ℕ → PageAllocator
give_back al index =
    let page = page_at al.page_list index in
    let n = page.reserved in
    let freed = set al.page_list index (record page { free = 1 }) in
    let pages = mark_chain n freed index 1 in
    record al {
      page_list = set pages index (record (page_at pages index) { reserved = 0 });
      page_free = add32 al.page_free n;
      free_pages_mask = mark_mask n al.free_pages_mask index 1;
    }

-- `page_alloc_free` of a pointer into the pages
unfoldable pub free : PageAllocator → ℕ → PageAllocator
free al ptr =
    let index = u32 ((ptr - al.data_ptr) / al.page_size) in
    if (page_at al.page_list index).free == 0 then give_back al index else al

-- `kt_page_allocator_make`, which does not look at what `kt_page_allocator_init` returns: if that
-- fails the memory is read as it was, as `old`.
unfoldable pub make : PageAllocator → ℕ → ℕ → ℕ → Run PageAllocator
make old base size page_size = elim (init base size page_size) [
  | ready al ↦ done al
  | failed ↦ done old
  | division_by_zero ↦ Run.aborted
]

-- The allocator as the interface that the ring is created through.
abbrev pub page_allocator : KtAllocator PageAllocator
page_allocator = record { alloc = alloc; free = free }
