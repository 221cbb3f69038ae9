-- ===== src/PageAlloc/Search/Runs.antt =====
-- `page_alloc_find_aligned_pages` finds the first run of free pages, if there is one.
use kuberne_tsn.Common.{
  ℕ, zero, suc, ◌+◌, ◌-◌, ◌≤◌, ◌<◌, ◌≡◌, refl, ◌∙◌, arith, none, some, ◌==◌, Option-cases, inl, inr,
  false, dec_lt, ℕ_discrete,
}
use kuberne_tsn.PageAlloc.{
  PageAllocator, search_from, Scan, complete, blocked, exhausted, scan_loop, Found, found,
  not_found, endless, find_loop, find_aligned_pages,
}
use kuberne_tsn.PageAlloc.Search.{
  IsFree, IsBusy, IsRun, search_from-Searched, Scanned, scan_loop-Scanned,
}

-- What `page_alloc_find_aligned_pages` promises: the first run of free pages, or that there is none.
abbrev pub FirstRun : PageAllocator → ℕ → Found → Type 0
FirstRun al n (found i) = IsRun al n i × ((j : ℕ) → j < i → ¬ IsRun al n j)
FirstRun al n not_found = (j : ℕ) → ¬ IsRun al n j
FirstRun al n endless = ⊥

-- No run starts before `index`.
abbrev NoneBefore : PageAllocator → ℕ → ℕ → Type 0
NoneBefore al n index = (j : ℕ) → j < index → ¬ IsRun al n j

-- A run that starts before page `k` ends before it, if page `k` is busy or not there.
NoneBefore-blocked :
    (al : PageAllocator) (n k : ℕ)
    → (k < al.page_count → IsBusy al k)
    → (j : ℕ) → j ≤ k
    → k < j + n
    → ¬ IsRun al n j
NoneBefore-blocked al n k shut j lo hi run = run.all_free k lo hi (shut (omega (arith, run)))

NoneBefore-free :
    (al : PageAllocator) (n index i : ℕ)
    → 0 < n
    → NoneBefore al n index
    → ((p : ℕ) → index ≤ p → p < i → IsBusy al p)
    → NoneBefore al n i
NoneBefore-free al n index i pos before busy j lt run = elim (dec_lt j index) [
  | yes old ↦ before j old run
  | no new ↦ run.all_free j (omega arith) (omega arith) (busy j (omega arith) lt)
]

found-run :
    (al : PageAllocator) (n i : ℕ) → 1 < n → IsFree al i → Scanned al n i 1 complete → IsRun al n i
found-run al n i wide free rest = record {
  fits = omega (arith, (rest (i + n - 1) (omega arith) (omega arith)).0);
  all_free =
      λ p lo hi. elim (ℕ_discrete p i) [ yes e ↦ rw e free | no ne ↦ (rest p (omega arith) hi).1 ];
}

-- After the inner loop: it has found the run, or the outer loop goes on behind the page it met.
after_scan :
    (fuel : ℕ) (al : PageAllocator) (n i : ℕ) (s : Scan)
    → 1 < n
    → IsFree al i
    → NoneBefore al n i
    → Scanned al n i 1 s
    → ((k : ℕ) → i < k → NoneBefore al n k → FirstRun al n (find_loop fuel al n k))
    → FirstRun al n (elim s as (λ _. Found) [
      | complete ↦ found i
      | blocked k ↦ find_loop fuel al n k
      | exhausted ↦ find_loop fuel al n i
    ])
after_scan fuel al n i complete wide free before h ih = (found-run al n i wide free h, before)
after_scan fuel al n i (blocked k) wide free before h ih = ih k (omega (arith, h.0)) λ j lt.
    elim (dec_lt j i) [
      | yes old ↦ before j old
      | no new ↦ NoneBefore-blocked al n k h.2 j (omega arith) (omega (arith, h.1))
    ]
after_scan fuel al n i exhausted wide free before h ih = absurd h

-- One round of the outer loop.
find_loop-none :
    (fuel : ℕ) (al : PageAllocator) (n index : ℕ)
    → search_from al index ≡ none
    → find_loop (suc fuel) al n index ≡ not_found
unfolding find_loop
find_loop-none fuel al n index e = rw (e, find_loop)

find_loop-one :
    (fuel : ℕ) (al : PageAllocator) (index : ℕ) {i : ℕ}
    → search_from al index ≡ some i
    → find_loop (suc fuel) al 1 index ≡ found i
unfolding find_loop
find_loop-one fuel al index e = rw (e, find_loop)

find_loop-scan :
    (fuel : ℕ) (al : PageAllocator) (n index : ℕ) {i : ℕ}
    → search_from al index ≡ some i
    → (n == 1) ≡ false
    → find_loop (suc fuel) al n index ≡ elim (scan_loop (n - 1) al n i 1) as (λ _. Found) [
      | complete ↦ found i
      | blocked k ↦ find_loop fuel al n k
      | exhausted ↦ find_loop fuel al n i
    ]
unfolding find_loop
find_loop-scan fuel al n index e more = rw (e, find_loop, more)

find_loop-FirstRun :
    (fuel : ℕ) (al : PageAllocator) (n index : ℕ)
    → 0 < n
    → 0 < fuel
    → al.page_count < fuel + index
    → NoneBefore al n index
    → FirstRun al n (find_loop fuel al n index)
unfolding find_loop
find_loop-FirstRun zero al n index pos some_fuel enough before = absurd (omega arith)
find_loop-FirstRun (suc fuel) al n index pos some_fuel enough before =
    elim (Option-cases (search_from al index)) [
      | inl e ↦
          let busy = rw e at (search_from-Searched al index) in
          rw (find_loop-none fuel al n index e) (λ j run.
            NoneBefore-free al n index (j + 1) pos before
              (λ p lo hi. busy p lo (omega (arith, run.fits))) j (omega arith) run)
      | inr (i, e) ↦
          let (lo, hi, free, busy) = rw e at (search_from-Searched al index) in
          let before' = NoneBefore-free al n index i pos before busy in
          elim (ℕ_discrete n 1) [
            | yes one ↦
                let run : IsRun al 1 i = record {
                  fits = omega arith;
                  all_free = λ p l h. let here : p ≡ i = omega arith in rw here free;
                } in
                rw one (rw (find_loop-one fuel al index e) (run, rw one at before'))
            | no more ↦
                let test : (n == 1) ≡ false = ground arith in
                rw (find_loop-scan fuel al n index e test) (
                  after_scan fuel al n i (scan_loop (n - 1) al n i 1) (omega arith) free before'
                    (scan_loop-Scanned (n - 1) al n i 1 (omega arith) (omega arith))
                    (λ k lt none_before.
                      find_loop-FirstRun fuel al n k pos (omega arith) (omega arith) none_before))
          ]
    ]

-- For at least one page the search ends, and finds the first run of free pages if there is one.
pub find_aligned_pages-FirstRun :
    (al : PageAllocator) (n : ℕ) → 0 < n → FirstRun al n (find_aligned_pages al n)
unfolding find_aligned_pages
find_aligned_pages-FirstRun al n pos =
    find_loop-FirstRun (al.page_count + 1) al n 0 pos (omega arith) (omega arith)
      (λ j lt. absurd (omega arith))

-- For no page at all the search goes on for ever, on any fuel, if some page is free.
pub find_loop-endless :
    (fuel : ℕ) (al : PageAllocator) (index p : ℕ)
    → index ≤ p
    → p < al.page_count
    → IsFree al p
    → find_loop fuel al 0 index ≡ endless
unfolding find_loop scan_loop
find_loop-endless zero al index p le lt free = refl
find_loop-endless (suc fuel) al index p le lt free = elim (Option-cases (search_from al index)) [
  | inl e ↦ absurd (free ((rw e at (search_from-Searched al index)) p le lt))
  | inr (i, e) ↦
      let (lo, hi, open_page, busy) = rw e at (search_from-Searched al index) in
      find_loop-scan fuel al 0 index e refl
      ∙ find_loop-endless fuel al i i (omega arith) hi open_page
]
