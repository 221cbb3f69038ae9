-- ===== src/PageAlloc/Inv.antt =====
-- The invariant of the page allocator.
use kuberne_tsn.Common.{ℕ, ◌+◌, ◌*◌, ◌^◌, ◌≤◌, ◌<◌, ◌≡◌, arith, length, get_or}
use kuberne_tsn.PageAlloc.{PageAllocator, page_at}
use kuberne_tsn.PageAlloc.Marks.{free_count}

-- how many pages were reserved from page `i` on
abbrev pub reserved_at : PageAllocator → ℕ → ℕ
reserved_at al i = (page_at al.page_list i).reserved

abbrev pub mask_at : PageAllocator → ℕ → ℕ
mask_at al i = get_or al.free_pages_mask i 0

pub record IsValid (al : PageAllocator) : Type 0 where
  pub sized : 0 < al.page_size
  pub small : al.page_count * al.page_size < 2 ^ 32
  pub pages : length al.page_list ≡ al.page_count
  pub masks : length al.free_pages_mask ≡ al.page_count
  pub counted : al.page_free ≡ free_count al.free_pages_mask
  pub linked : (i : ℕ) → i + 1 < al.page_count → (page_at al.page_list i).next ≡ i + 1
  pub placed : (i : ℕ) → i < al.page_count → (page_at al.page_list i).offset ≡ i * al.page_size
  pub agree : (i : ℕ) → i < al.page_count → (page_at al.page_list i).free ≡ mask_at al i
  pub flags : (i : ℕ) → i < al.page_count → mask_at al i ≤ 1
  -- the pages of a reservation exist and are busy, and no other starts among them
  pub inside :
      (i : ℕ) → i < al.page_count → 0 < reserved_at al i → i + reserved_at al i ≤ al.page_count
  pub busy : (i p : ℕ) → i < al.page_count → i ≤ p → p < i + reserved_at al i → mask_at al p ≡ 0
  pub apart :
      (i j : ℕ) → i < j → j < i + reserved_at al i → i < al.page_count → reserved_at al j ≡ 0

-- The page count is a 32-bit number.
pub page_count-lt : {al : PageAllocator} → IsValid al → al.page_count < 2 ^ 32
page_count-lt v = grind (arith, v.sized, v.small)
