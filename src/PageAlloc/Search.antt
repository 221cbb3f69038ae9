-- ===== src/PageAlloc/Search.antt =====
-- What the two inner loops of `page_alloc_find_aligned_pages` find out.
pub mod Runs
use kuberne_tsn.Common.{
  ℕ, zero, suc, ◌+◌, ◌-◌, ◌≤◌, ◌<◌, ◌≡◌, ◌≢◌, refl, sym, ◌∙◌, ap, arith, Option, none, some, List,
  get_or, ltb, leb, not, ◌&&◌, ◌==◌, if◌then◌else◌, Option-cases, Bool-cases, inl, inr, true, false,
  dec_lt, ℕ_discrete,
}
use kuberne_tsn.PageAlloc.{
  PageAllocator, search_loop, search_from, Scan, complete, blocked, exhausted, scan_loop, Found,
  found, not_found, endless, find_loop, find_aligned_pages,
}

-- page `p` is free by the mask
abbrev pub IsFree : PageAllocator → ℕ → Type 0
IsFree al p = get_or al.free_pages_mask p 0 ≢ 0

abbrev pub IsBusy : PageAllocator → ℕ → Type 0
IsBusy al p = get_or al.free_pages_mask p 0 ≡ 0

-- the `n` pages from `i` on exist and are free
pub record IsRun (al : PageAllocator) (n i : ℕ) : Type 0 where
  pub fits : i + n ≤ al.page_count
  pub all_free : (p : ℕ) → i ≤ p → p < i + n → IsFree al p

-- `i` is the first free page from `start` on, or there is none
abbrev pub Searched : PageAllocator → ℕ → Option ℕ → Type 0
Searched al start (some i) =
    (start ≤ i) × (i < al.page_count) × IsFree al i × ((p : ℕ) → start ≤ p → p < i → IsBusy al p)
Searched al start none = (p : ℕ) → start ≤ p → p < al.page_count → IsBusy al p

Searched-later :
    (al : PageAllocator) (i : ℕ) (o : Option ℕ)
    → IsBusy al i
    → Searched al (i + 1) o
    → Searched al i o
Searched-later al i none busy h =
    λ p lo hi. elim (ℕ_discrete p i) [ yes e ↦ rw e busy | no ne ↦ h p (omega arith) hi ]
Searched-later al i (some j) busy h = (
  omega arith,
  h.1,
  h.2,
  λ p lo hi. elim (ℕ_discrete p i) [ yes e ↦ rw e busy | no ne ↦ h.3 p (omega arith) hi ],
)

search_loop-Searched :
    (r : ℕ) (al : PageAllocator) (i : ℕ)
    → i + r ≡ al.page_count
    → Searched al i (search_loop r al.free_pages_mask i)
unfolding search_loop
search_loop-Searched zero al i e = λ p lo hi. absurd (omega arith)
search_loop-Searched (suc r) al i e = elim (Bool-cases (get_or al.free_pages_mask i 0 == 0)) [
  | inl busy ↦ rw busy (
      Searched-later al i (search_loop r al.free_pages_mask (i + 1)) (ground arith)
        (search_loop-Searched r al (i + 1) (omega arith)))
  | inr free ↦ rw free (omega arith, omega arith, ground arith, λ p lo hi. absurd (omega arith))
]

pub search_from-Searched :
    (al : PageAllocator) (start : ℕ) → Searched al start (search_from al start)
unfolding search_from
search_from-Searched al start = elim (Bool-cases (leb al.page_count start)) [
  | inl past ↦ rw past (λ p lo hi. absurd (ground arith))
  | inr inside ↦ rw inside (search_loop-Searched (al.page_count - start) al start (ground arith))
]

-- What the inner loop has found out when it stops, from its `page_found` on.
abbrev pub Scanned : PageAllocator → ℕ → ℕ → ℕ → Scan → Type 0
Scanned al n i from complete =
    (p : ℕ) → i + from ≤ p → p < i + n → (p < al.page_count) × IsFree al p
Scanned al n i from (blocked k) = (i + from ≤ k) × (k < i + n) × (k < al.page_count → IsBusy al k)
Scanned al n i from exhausted = ⊥

Scanned-later :
    (al : PageAllocator) (n i from : ℕ) (s : Scan)
    → i + from < al.page_count
    → IsFree al (i + from)
    → Scanned al n i (from + 1) s
    → Scanned al n i from s
Scanned-later al n i from complete inside free h = λ p lo hi. elim (ℕ_discrete p (i + from)) [
  | yes e ↦ rw e (inside, free)
  | no ne ↦ h p (omega arith) hi
]
Scanned-later al n i from (blocked k) inside free h = (omega arith, h.1, h.2)
Scanned-later al n i from exhausted inside free h = h

pub scan_loop-Scanned :
    (r : ℕ) (al : PageAllocator) (n i from : ℕ)
    → 0 < r
    → from + r ≡ n
    → Scanned al n i from (scan_loop r al n i from)
unfolding scan_loop
scan_loop-Scanned zero al n i from pos e = absurd (omega arith)
scan_loop-Scanned (suc r) al n i from pos e =
    let k = i + from in
    elim (Bool-cases (ltb k al.page_count && not (get_or al.free_pages_mask k 0 == 0))) [
      | inl open_page ↦ elim (Bool-cases (from + 1 == n)) [
        | inl last ↦
            rw (open_page, last)
              (λ p lo hi. let here : p ≡ k = ground arith in rw here (ground arith))
        | inr more ↦
            rw (open_page, more)
              (Scanned-later al n i from (scan_loop r al n i (from + 1)) (ground arith)
                (ground arith) (scan_loop-Scanned r al n i (from + 1) (ground arith) (omega arith)))
      ]
      | inr shut ↦ rw shut (omega arith, omega arith, λ inside. ground arith)
    ]
