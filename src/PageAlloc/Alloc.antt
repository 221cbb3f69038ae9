-- ===== src/PageAlloc/Alloc.antt =====
-- `page_alloc_alloc` on a valid allocator.
use kuberne_tsn.Common.{
  ℕ, ◌+◌, ◌*◌, ◌≤◌, ◌<◌, ◌≡◌, refl, ◌∙◌, arith, Option, none, some, length, set, length-set,
  get_or-set, ltb, leb, ◌&&◌, ◌==◌, if◌then◌else◌, Bool-cases, inl, inr, ◌⊎◌, true, false,
}
use native.Mathlib.Nat.{div-add-mod', mod-lt}
use kuberne_tsn.Common.Run.{Run, done, spinning}
use kuberne_tsn.PageAlloc.{
  PageAllocator, null_page, page_at, Found, found, not_found, endless, find_aligned_pages,
  take_pages, pages_for, alloc,
}
use kuberne_tsn.PageAlloc.Search.{IsRun}
use kuberne_tsn.PageAlloc.Search.Runs.{FirstRun, find_aligned_pages-FirstRun}
use kuberne_tsn.PageAlloc.Marks.{
  length-mark_mask, get_or-mark_mask, length-mark_chain, page_at-mark_chain, free_count,
  free_count-take, free_count-le,
}
use kuberne_tsn.PageAlloc.Inv.{IsValid, page_count-lt, reserved_at, mask_at}

-- `al'` is `al` with the `n` pages from `i` on taken, as one reservation.
pub record Taken (al al' : PageAllocator) (n i : ℕ) : Type 0 where
  pub same_size : al'.page_size ≡ al.page_size
  pub same_count : al'.page_count ≡ al.page_count
  pub same_base : al'.data_ptr ≡ al.data_ptr
  pub fewer : al'.page_free + n ≡ al.page_free
  pub mask : (p : ℕ) → mask_at al' p ≡ (if leb i p && ltb p (i + n) then 0 else mask_at al p)
  pub reservations : (p : ℕ) → reserved_at al' p ≡ (if p == i then n else reserved_at al p)

module _ {al : PageAllocator} (v : IsValid al) {n i : ℕ} (pos : 0 < n) (run : IsRun al n i) where
  -- A page after `take_pages`.
  page_at-take_pages :
      (p : ℕ)
      → page_at (take_pages al n i).page_list p ≡ record (page_at al.page_list p) {
        free = if leb i p && ltb p (i + n) then 0 else (page_at al.page_list p).free;
        reserved = if p == i then n else reserved_at al p;
      }
  unfolding take_pages
  page_at-take_pages p =
      let page = record (page_at al.page_list i) { reserved = n } in
      let start = set al.page_list i page in
      let inside : i < length al.page_list = omega (arith, v.pages, run.fits) in
      let at = λ (t : ℕ). get_or-set al.page_list i t page null_page inside in
      ground (
        arith,
        at p,
        page_at-mark_chain n start i 0 p
            (omega (arith, length-set al.page_list i page, v.pages, run.fits))
            (λ t lo hi. ground (arith, at t, v.linked t (omega (arith, run.fits)))),
      )

  mask_at-take_pages :
      (p : ℕ)
      → mask_at (take_pages al n i) p ≡ (if leb i p && ltb p (i + n) then 0 else mask_at al p)
  unfolding take_pages
  mask_at-take_pages p =
      get_or-mark_mask n al.free_pages_mask i 0 p (omega (arith, v.masks, run.fits))

  length-take_pages :
      (length (take_pages al n i).page_list ≡ al.page_count)
      × (length (take_pages al n i).free_pages_mask ≡ al.page_count)
  unfolding take_pages
  length-take_pages =
      let page = record (page_at al.page_list i) { reserved = n } in
      (
        length-mark_chain n (set al.page_list i page) i 0
            ∙ length-set al.page_list i page
            ∙ v.pages,
        length-mark_mask n al.free_pages_mask i 0 ∙ v.masks,
      )

  take_pages-Taken : Taken al (take_pages al n i) n i
  unfolding take_pages
  take_pages-Taken = record {
    same_size = refl;
    same_count = refl;
    same_base = refl;
    fewer = omega (
      arith,
      v.counted,
      v.masks,
      page_count-lt v,
      free_count-le al.free_pages_mask,
      free_count-take n al.free_pages_mask i (omega (arith, v.masks, run.fits)) run.all_free,
    );
    mask = mask_at-take_pages;
    reservations = λ p. ground (arith, page_at-take_pages p);
  }

  counted-take_pages :
      (take_pages al n i).page_free ≡ free_count (take_pages al n i).free_pages_mask
  unfolding take_pages
  counted-take_pages = omega (
    arith,
    v.counted,
    take_pages-Taken.fewer,
    free_count-take n al.free_pages_mask i (omega (arith, v.masks, run.fits)) run.all_free,
  )

  -- A page of the run belongs to no reservation.
  pub none_reserved : (j : ℕ) → i ≤ j → j < i + n → reserved_at al j ≡ 0
  none_reserved j lo hi =
      ground (arith, run.fits, run.all_free j lo hi, v.busy j j (omega (arith, run.fits)))

  -- No reservation of another page reaches into the run.
  out_of_reach : (a : ℕ) → a < i → i < a + reserved_at al a → ⊥
  out_of_reach a lt reach =
      run.all_free i (omega arith) (omega arith)
        (v.busy a i (omega (arith, run.fits)) (omega arith) reach)

  pub take_pages-IsValid : IsValid (take_pages al n i)
  unfolding take_pages
  take_pages-IsValid =
      let taken = take_pages-Taken in
      let mask = mask_at-take_pages in
      record {
        sized = omega (arith, v.sized);
        small = omega (arith, v.small);
        pages = length-take_pages.0;
        masks = length-take_pages.1;
        counted = counted-take_pages;
        linked = λ j lt. ground (arith, page_at-take_pages j, v.linked j);
        placed = λ j lt. ground (arith, page_at-take_pages j, v.placed j);
        agree = λ j lt. ground (arith, page_at-take_pages j, mask j, v.agree j);
        flags = λ j lt. ground (arith, mask j, v.flags j);
        inside = λ j lt some_pages. ground (arith, taken.reservations j, v.inside j, run.fits);
        busy = λ j p lt lo hi. ground (arith, taken.reservations j, mask p, v.busy j p);
        apart = λ a b lt reach inside. ground (
          arith,
          taken.reservations a,
          taken.reservations b,
          v.apart a b,
          none_reserved b,
          out_of_reach a,
        );
      }

-- The number of pages asked for is the least that holds `size` bytes.
pub pages_for_lem :
    (al : PageAllocator) (size : ℕ)
    → 0 < al.page_size
    → (size ≤ pages_for al size * al.page_size)
      × (pages_for al size * al.page_size < size + al.page_size)
unfolding pages_for
pages_for_lem al size pos = ground (arith, div-add-mod' size al.page_size, mod-lt size pos)

pub pages_for-pos :
    (al : PageAllocator) (size : ℕ) → 0 < al.page_size → 0 < size → 0 < pages_for al size
pages_for-pos al size pos some_bytes = grind (arith, (pages_for_lem al size pos).0)

-- What an allocation that succeeds does: it takes the first run of as many pages as hold `size`
-- bytes, and returns the address of its first page.
pub record Allocated (al : PageAllocator) (size : ℕ) : Type 0 where
  pub index : ℕ
  pub after : PageAllocator
  pub run : IsRun al (pages_for al size) index
  pub first : (j : ℕ) → j < index → ¬ IsRun al (pages_for al size) j
  pub valid : IsValid after
  pub taken : Taken al after (pages_for al size) index
  pub result : alloc al size ≡ done (some (al.data_ptr + index * al.page_size), after)

-- A run needs as many free pages.
not_short : {al : PageAllocator} → IsValid al → {n i : ℕ} → IsRun al n i → ¬ (al.page_free < n)
not_short {al} v {n} {i} run short =
    let taken =
      free_count-take n al.free_pages_mask i (omega (arith, v.masks, run.fits)) run.all_free in
    absurd (omega (arith, v.counted))

alloc-short :
    (al : PageAllocator) (size : ℕ)
    → ltb al.page_free (pages_for al size) ≡ true
    → alloc al size ≡ done (none, al)
unfolding alloc
alloc-short al size short = rw (short, alloc)

alloc-search :
    (al : PageAllocator) (size : ℕ)
    → ltb al.page_free (pages_for al size) ≡ false
    → {search : Found} → find_aligned_pages al (pages_for al size) ≡ search
    → alloc al size ≡ elim search as (λ _. Run (Option ℕ × PageAllocator)) [
      | found index ↦ done (
        some (al.data_ptr + (page_at al.page_list index).offset),
        take_pages al (pages_for al size) index,
      )
      | not_found ↦ done (none, al)
      | endless ↦ spinning
    ]
unfolding alloc
alloc-search al size long e = rw (long, e, alloc)

pub alloc-found :
    {al : PageAllocator}
    → IsValid al
    → (size : ℕ) → 0 < pages_for al size
    → ltb al.page_free (pages_for al size) ≡ false
    → (i : ℕ) → find_aligned_pages al (pages_for al size) ≡ found i
    → FirstRun al (pages_for al size) (found i)
    → Allocated al size
alloc-found {al} v size pos long i e (run, first) = record {
  index = i;
  after = take_pages al (pages_for al size) i;
  run = run;
  first = first;
  valid = take_pages-IsValid v pos run;
  taken = take_pages-Taken v pos run;
  result =
      let place : (page_at al.page_list i).offset ≡ i * al.page_size =
        v.placed i (omega (arith, run.fits)) in
      alloc-search al size long e ∙ rw place refl;
}

alloc-searched :
    {al : PageAllocator}
    → IsValid al
    → (size : ℕ) → 0 < pages_for al size
    → ltb al.page_free (pages_for al size) ≡ false
    → (search : Found) → find_aligned_pages al (pages_for al size) ≡ search
    → FirstRun al (pages_for al size) search
    → Allocated al size
      ⊎ ((alloc al size ≡ done (none, al)) × ((j : ℕ) → ¬ IsRun al (pages_for al size) j))
alloc-searched v size pos long (found i) e h = inl (alloc-found v size pos long i e h)
alloc-searched {al} v size pos long not_found e no_run = inr (alloc-search al size long e, no_run)
alloc-searched {al} v size pos long endless e bad = absurd bad

-- On a valid allocator `page_alloc_alloc` of at least one byte returns: with the first run of free pages that is long
-- enough, which is busy afterwards while all other pages stay as they were; or, exactly when there is
-- no such run, with NULL and the allocator unchanged.
pub alloc_correct :
    {al : PageAllocator} (size : ℕ)
    → IsValid al
    → 0 < size
    → Allocated al size
      ⊎ ((alloc al size ≡ done (none, al)) × ((j : ℕ) → ¬ IsRun al (pages_for al size) j))
alloc_correct {al} size v some_bytes =
    let pos = pages_for-pos al size v.sized some_bytes in
    elim (Bool-cases (ltb al.page_free (pages_for al size))) [
      | inl short ↦
          inr (alloc-short al size short, λ j run. not_short v run (ground (arith, short)))
      | inr e ↦
          alloc-searched v size pos e (find_aligned_pages al (pages_for al size)) refl
            (find_aligned_pages-FirstRun al (pages_for al size) pos)
    ]
