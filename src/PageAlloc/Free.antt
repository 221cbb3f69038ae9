-- ===== src/PageAlloc/Free.antt =====
-- `page_alloc_free` on a valid allocator.
use kuberne_tsn.Common.{
  ℕ, ◌+◌, ◌-◌, ◌*◌, ◌/◌, ◌≤◌, ◌<◌, ◌≡◌, ◌≢◌, refl, sym, ◌∙◌, arith, length, set, length-set,
  get_or-set, ltb, leb, ◌&&◌, ◌==◌, if◌then◌else◌, u32, dec_lt, false,
}
use native.Mathlib.Nat.{div-add-mod', mod-lt}
use kuberne_tsn.PageAlloc.{
  PageAllocator, null_page, page_at, mark_chain, mark_mask, give_back, free, pages_for,
}
use kuberne_tsn.PageAlloc.Marks.{
  length-mark_mask, get_or-mark_mask, length-mark_chain, page_at-mark_chain, free_count,
  free_count-give, free_count-le,
}
use kuberne_tsn.PageAlloc.Inv.{IsValid, page_count-lt, reserved_at, mask_at}
use kuberne_tsn.PageAlloc.Alloc.{Allocated, pages_for-pos, none_reserved}

-- `al'` is `al` with the reservation of the `n` pages from `i` on given up.
pub record Freed (al al' : PageAllocator) (n i : ℕ) : Type 0 where
  pub same_size : al'.page_size ≡ al.page_size
  pub same_count : al'.page_count ≡ al.page_count
  pub same_base : al'.data_ptr ≡ al.data_ptr
  pub more : al'.page_free ≡ al.page_free + n
  pub mask : (p : ℕ) → mask_at al' p ≡ (if leb i p && ltb p (i + n) then 1 else mask_at al p)
  pub reservations : (p : ℕ) → reserved_at al' p ≡ (if p == i then 0 else reserved_at al p)

-- The index that a page's address is turned back into.
page_index : (base i size : ℕ) → 0 < size → (base + i * size - base) / size ≡ i
page_index base i size pos =
    grind (arith, div-add-mod' (base + i * size - base) size, mod-lt (base + i * size - base) pos)

-- A busy page is freed.
free-give_back :
    {al : PageAllocator} (v : IsValid al) {i : ℕ}
    → i < al.page_count
    → mask_at al i ≡ 0
    → free al (al.data_ptr + i * al.page_size) ≡ give_back al i
unfolding free
free-give_back {al} v {i} lt busy =
    let index : u32 ((al.data_ptr + i * al.page_size - al.data_ptr) / al.page_size) ≡ i =
      ground (arith, page_index al.data_ptr i al.page_size v.sized, page_count-lt v) in
    let taken : (page_at al.page_list i).free ≡ 0 = ground (arith, v.agree i) in
    rw (index, taken, free) refl

module _ {al : PageAllocator} (v : IsValid al) {i : ℕ} (lt : i < al.page_count)
    (held : 0 < reserved_at al i) where
  -- A page after `give_back`.
  page_at-give_back :
      (p : ℕ)
      → page_at (give_back al i).page_list p ≡ record (page_at al.page_list p) {
        free = if leb i p && ltb p (i + reserved_at al i) then 1 else (page_at al.page_list p).free;
        reserved = if p == i then 0 else reserved_at al p;
      }
  unfolding give_back
  page_at-give_back p =
      let n = reserved_at al i in
      let page = record (page_at al.page_list i) { free = 1 } in
      let start = set al.page_list i page in
      let reach = v.inside i lt held in
      let inside : i < length al.page_list = omega (arith, v.pages) in
      let at = λ (t : ℕ). get_or-set al.page_list i t page null_page inside in
      let chain = mark_chain n start i 1 in
      let chained = λ (t : ℕ).
        page_at-mark_chain n start i 1 t (omega (arith, length-set al.page_list i page, v.pages))
          (λ t lo hi. ground (arith, at t, v.linked t (omega arith))) in
      let last =
        get_or-set chain i p (record (page_at chain i) { reserved = 0 }) null_page
          (omega (arith, length-mark_chain n start i 1, length-set al.page_list i page)) in
      ground (arith, at p, at i, chained p, chained i, last)

  mask_at-give_back :
      (p : ℕ)
      → mask_at (give_back al i) p
        ≡ (if leb i p && ltb p (i + reserved_at al i) then 1 else mask_at al p)
  unfolding give_back
  mask_at-give_back p =
      get_or-mark_mask (reserved_at al i) al.free_pages_mask i 1 p
        (omega (arith, v.masks, v.inside i lt held))

  free_count-give_back :
      free_count (give_back al i).free_pages_mask ≡ free_count al.free_pages_mask + reserved_at al i
  unfolding give_back
  free_count-give_back =
      free_count-give (reserved_at al i) al.free_pages_mask i
        (omega (arith, v.masks, v.inside i lt held)) (λ p lo hi. v.busy i p lt lo hi)

  length-give_back :
      (length (give_back al i).page_list ≡ al.page_count)
      × (length (give_back al i).free_pages_mask ≡ al.page_count)
  unfolding give_back
  length-give_back =
      let n = reserved_at al i in
      let start = set al.page_list i (record (page_at al.page_list i) { free = 1 }) in
      let chain = mark_chain n start i 1 in
      (
        length-set chain i (record (page_at chain i) { reserved = 0 })
            ∙ length-mark_chain n start i 1
            ∙ length-set al.page_list i (record (page_at al.page_list i) { free = 1 })
            ∙ v.pages,
        length-mark_mask n al.free_pages_mask i 1 ∙ v.masks,
      )

  give_back-Freed : Freed al (give_back al i) (reserved_at al i) i
  unfolding give_back
  give_back-Freed = record {
    same_size = refl;
    same_count = refl;
    same_base = refl;
    more = omega (
      arith,
      v.counted,
      length-give_back.1,
      page_count-lt v,
      free_count-le (give_back al i).free_pages_mask,
      free_count-give_back,
    );
    mask = mask_at-give_back;
    reservations = λ p. ground (arith, page_at-give_back p);
  }

  -- Another reservation does not meet this one.
  clear_of :
      (a p : ℕ)
      → a < al.page_count
      → a ≢ i
      → a ≤ p
      → p < a + reserved_at al a
      → i ≤ p
      → p < i + reserved_at al i
      → ⊥
  clear_of a p la ne lo hi lo' hi' = elim (dec_lt a i) [
    | yes before ↦ absurd (omega (arith, v.apart a i before (omega arith) la))
    | no behind ↦ absurd (omega (arith, v.apart i a (omega arith) (omega arith) lt))
  ]

  give_back-IsValid : IsValid (give_back al i)
  unfolding give_back
  give_back-IsValid =
      let freed = give_back-Freed in
      let mask = mask_at-give_back in
      record {
        sized = omega (arith, v.sized);
        small = omega (arith, v.small);
        pages = length-give_back.0;
        masks = length-give_back.1;
        counted = omega (arith, v.counted, freed.more, free_count-give_back);
        linked = λ j l. ground (arith, page_at-give_back j, v.linked j);
        placed = λ j l. ground (arith, page_at-give_back j, v.placed j);
        agree = λ j l. ground (arith, page_at-give_back j, mask j, v.agree j);
        flags = λ j l. ground (arith, mask j, v.flags j);
        inside = λ j l some_pages. ground (arith, freed.reservations j, v.inside j);
        busy =
            λ j p l lo hi. ground (arith, freed.reservations j, mask p, v.busy j p, clear_of j p);
        apart = λ a b l reach inside.
            ground (arith, freed.reservations a, freed.reservations b, v.apart a b);
      }

-- On a valid allocator `page_alloc_free` of the address of a reservation gives its pages up and no
-- others, and keeps the invariant.
pub free_correct :
    {al : PageAllocator}
    → IsValid al
    → {i : ℕ} → i < al.page_count
    → 0 < reserved_at al i
    → let al' = free al (al.data_ptr + i * al.page_size) in
      IsValid al' × Freed al al' (reserved_at al i) i
free_correct v {i} lt held =
    rw (free-give_back v lt (v.busy i i lt (omega arith) (omega arith)))
      (give_back-IsValid v lt held, give_back-Freed v lt held)

-- An allocator in the same state, whatever is kept of pages that are not there.
pub record Same (al al' : PageAllocator) : Type 0 where
  pub count : al'.page_count ≡ al.page_count
  pub left : al'.page_free ≡ al.page_free
  pub mask : (p : ℕ) → p < al.page_count → mask_at al' p ≡ mask_at al p
  pub reservations : (p : ℕ) → p < al.page_count → reserved_at al' p ≡ reserved_at al p

-- Freeing what `page_alloc_alloc` has just returned undoes the allocation: the number of free pages,
-- the mask and the reservations are those from before.
pub alloc-free_undoes :
    {al : PageAllocator} {size : ℕ}
    → IsValid al
    → 0 < size
    → (a : Allocated al size) → Same al (free a.after (al.data_ptr + a.index * al.page_size))
alloc-free_undoes {al} {size} v some_bytes a =
    let n = pages_for al size in
    let i = a.index in
    let fits = a.run.fits in
    let here : reserved_at a.after i ≡ n = ground (arith, a.taken.reservations i) in
    let pos : 0 < n = pages_for-pos al size v.sized some_bytes in
    let freed =
      (free_correct a.valid {i = i} (omega (arith, a.taken.same_count)) (omega arith)).1 in
    rw (sym a.taken.same_base, sym a.taken.same_size)
      record {
        count = freed.same_count ∙ a.taken.same_count;
        left = omega (arith, freed.more, a.taken.fewer);
        mask = λ p lt. ground (arith, freed.mask p, a.taken.mask p, v.flags p, a.run.all_free p);
        reservations = λ p lt.
            ground
              (arith, freed.reservations p, a.taken.reservations p, none_reserved v pos a.run p);
      }

-- On a valid allocator `page_alloc_free` of the address of a page that is free changes nothing.
pub free-idle :
    {al : PageAllocator}
    → IsValid al
    → {i : ℕ} → i < al.page_count
    → mask_at al i ≢ 0
    → free al (al.data_ptr + i * al.page_size) ≡ al
unfolding free
free-idle {al} v {i} lt idle =
    let index : u32 ((al.data_ptr + i * al.page_size - al.data_ptr) / al.page_size) ≡ i =
      ground (arith, page_index al.data_ptr i al.page_size v.sized, page_count-lt v) in
    let test : ((page_at al.page_list i).free == 0) ≡ false = ground (arith, v.agree i) in
    rw (index, test, free) refl

give_back-interior :
    (al : PageAllocator) (i : ℕ)
    → i < length al.page_list
    → mask_at al i ≡ 0
    → reserved_at al i ≡ 0
    → let al' = give_back al i in
      ((page_at al'.page_list i).free ≡ 1)
      × (mask_at al' i ≡ 0)
      × (al'.page_free ≡ u32 al.page_free)
unfolding give_back mark_chain mark_mask
give_back-interior al i inside taken none_held =
    let page = record (page_at al.page_list i) { free = 1 } in
    let start = set al.page_list i page in
    rw none_held (
      ground (
        arith,
        get_or-set al.page_list i i page null_page inside,
        get_or-set start i i (record (page_at start i) { reserved = 0 }) null_page
            (omega (arith, length-set al.page_list i page)),
      ),
      taken,
      omega arith,
    )

-- On a valid allocator `page_alloc_free` of a busy page at which no reservation starts marks it free in the
-- page list alone: in the mask it stays busy, and the number of free pages stays the same modulo 2^32.
pub free-interior :
    {al : PageAllocator}
    → IsValid al
    → {i : ℕ} → i < al.page_count
    → mask_at al i ≡ 0
    → reserved_at al i ≡ 0
    → let al' = free al (al.data_ptr + i * al.page_size) in
      ((page_at al'.page_list i).free ≡ 1)
      × (mask_at al' i ≡ 0)
      × (al'.page_free ≡ u32 al.page_free)
free-interior {al} v {i} lt taken none_held =
    let inside : i < length al.page_list = omega (arith, v.pages) in
    rw (free-give_back v lt taken) (give_back-interior al i inside taken none_held)
