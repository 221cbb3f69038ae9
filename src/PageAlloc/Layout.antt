-- ===== src/PageAlloc/Layout.antt =====
-- `kt_page_allocator_init`: the structure that it writes, and when it writes none.
use kuberne_tsn.Common.{
  ℕ, zero, suc, ◌+◌, ◌-◌, ◌*◌, ◌/◌, ◌^◌, ◌≤◌, ◌<◌, ◌≡◌, refl, sym, ◌∙◌, ap, arith, Bool-cases, inl,
  inr, false, true, ◌⊎◌, ℕ_discrete, dec_lt, length, get_or, replicate, length-set, get_or-set,
  length-replicate, u32, sub32, mul32, ltb, ◌==◌, if◌then◌else◌,
}
use native.Mathlib.Nat.{div-add-mod', mod-lt}
use kuberne_tsn.PageAlloc.{
  PageAllocator, null_page, page_at, header_size, page_struct_size, Fit, fits, too_small,
  out_of_fuel, fit_loop, make_pages, Init, ready, failed, division_by_zero, layout, is_power_of_2,
  init,
}
use kuberne_tsn.PageAlloc.Marks.{free_count-replicate}
use kuberne_tsn.PageAlloc.Inv.{IsValid, mask_at}

length-make_pages : (n i page_size : ℕ) → length (make_pages n i page_size) ≡ n
unfolding make_pages
length-make_pages zero i page_size = refl
length-make_pages (suc n) i page_size = ap suc (length-make_pages n (i + 1) page_size)

page_at-make_pages :
    (n i page_size p : ℕ)
    → p < n
    → page_at (make_pages n i page_size) p
      ≡ record { next = i + p + 1; free = 1; offset = mul32 (i + p) page_size; reserved = 0 }
unfolding make_pages
page_at-make_pages zero i page_size p lt = absurd (omega arith)
page_at-make_pages (suc n) i page_size zero lt = ground arith
page_at-make_pages (suc n) i page_size (suc p) lt =
    page_at-make_pages n (i + 1) page_size p (omega arith) ∙ ground arith

get_or-replicate : (n p : ℕ) → p < n → get_or {A = ℕ} (replicate n 1) p 0 ≡ 1
get_or-replicate zero p lt = absurd (omega arith)
get_or-replicate (suc n) zero lt = refl
get_or-replicate (suc n) (suc p) lt = get_or-replicate n p (omega arith)

-- the bytes of the allocator with the entries of its list and its mask for one page more than `count`
abbrev pub structures : ℕ → ℕ
structures count = header_size + (count + 1) * (page_struct_size + 1)

-- What a fit promises, the loop having started at `page_count`: the structures of the count fit, and those of
-- no larger one; there is no fit when those of no count do.
abbrev pub Fits : ℕ → ℕ → Fit → Type 0
Fits size page_count (fits count list_size mask_size) =
    (0 < count)
    × (count < page_count)
    × (structures count ≤ size)
    × ((c : ℕ) → count < c → c < page_count → size < structures c)
    × (list_size ≡ mul32 (count + 1) page_struct_size)
    × (mask_size ≡ mul32 (count + 1) 1)
Fits size page_count too_small = (c : ℕ) → 0 < c → c < page_count → size < structures c
Fits size page_count out_of_fuel = ⊥

one-more :
    (size page_count low : ℕ)
    → size < structures (page_count - 1)
    → ((c : ℕ) → low < c → c < page_count - 1 → size < structures c)
    → (c : ℕ) → low < c
    → c < page_count
    → size < structures c
one-more size page_count low big below c lo hi = elim (ℕ_discrete c (page_count - 1)) [
  | yes e ↦ rw e big
  | no ne ↦ below c lo (omega arith)
]

Fits-later :
    (size page_count : ℕ) (f : Fit)
    → size < structures (page_count - 1)
    → Fits size (page_count - 1) f
    → Fits size page_count f
Fits-later size page_count (fits count l m) big h =
    (h.0, omega (arith, h.1), h.2, one-more size page_count count big h.3, h.4, h.5)
Fits-later size page_count too_small big h = one-more size page_count 0 big h
Fits-later size page_count out_of_fuel big h = absurd h

-- A round of the loop, where the page count does not wrap.
fit_loop-round :
    (fuel size page_count : ℕ)
    → 0 < page_count
    → page_count < 2 ^ 32
    → fit_loop (suc fuel) size page_count ≡ (
        if page_count - 1 == 0
        then too_small
        else if ltb size
            (u32 (header_size + mul32 page_count page_struct_size + mul32 page_count 1))
        then fit_loop fuel size (page_count - 1)
        else fits (page_count - 1) (mul32 page_count page_struct_size) (mul32 page_count 1))
unfolding fit_loop
fit_loop-round fuel size page_count pos small =
    let count : sub32 page_count 1 ≡ page_count - 1 = omega arith in rw (count, fit_loop) refl

fit_loop-Fits :
    (fuel size page_count : ℕ)
    → 0 < page_count
    → structures page_count < 2 ^ 32
    → page_count ≤ fuel
    → Fits size page_count (fit_loop fuel size page_count)
fit_loop-Fits zero size page_count pos small enough = absurd (omega arith)
fit_loop-Fits (suc fuel) size page_count pos small enough =
    let total = u32 (header_size + mul32 page_count page_struct_size + mul32 page_count 1) in
    let back : page_count ≡ page_count - 1 + 1 = omega arith in
    let sum : total ≡ structures (page_count - 1) = omega arith in
    rw (fit_loop-round fuel size page_count pos (omega arith))
      (elim (Bool-cases (page_count - 1 == 0)) [
        | inl one ↦ rw one (λ c lo hi. absurd (ground (arith, one)))
        | inr more ↦ elim (Bool-cases (ltb size total)) [
          | inl big ↦
              rw (more, big)
                (Fits-later size page_count (fit_loop fuel size (page_count - 1))
                  (ground (arith, big, sum))
                  (fit_loop-Fits fuel size (page_count - 1) (ground (arith, more)) (omega arith)
                    (omega arith)))
          | inr small_enough ↦
              rw (more, small_enough)
                (
                  ground (arith, more),
                  omega arith,
                  ground (arith, small_enough, sum),
                  λ c lo hi. absurd (omega arith),
                  ap (λ c. mul32 c page_struct_size) back,
                  ap (λ c. mul32 c 1) back,
                )
        ]
      ])

module _ (base page_size count list_size mask_size : ℕ) (sized : 0 < page_size)
    (some_pages : 0 < count) (small : count * page_size < 2 ^ 32) where
  page_at-layout :
      (p : ℕ)
      → p < count
      → page_at (layout base page_size count list_size mask_size).page_list p ≡ record {
        next = if count - 1 == p then 0 else p + 1;
        free = 1;
        offset = p * page_size;
        reserved = 0;
      }
  unfolding layout
  page_at-layout p lt =
      let pages = make_pages count 0 page_size in
      let last = count - 1 in
      let offset : mul32 p page_size ≡ p * page_size = grind arith in
      ground (
        arith,
        offset,
        length-make_pages count 0 page_size,
        page_at-make_pages count 0 page_size p lt,
        get_or-set pages last p (record (page_at pages last) { next = 0 }) null_page,
      )

  pub layout-IsValid : IsValid (layout base page_size count list_size mask_size)
  unfolding layout
  layout-IsValid = record {
    sized = sized;
    small = small;
    pages =
        let pages = make_pages count 0 page_size in
        length-set pages (count - 1) (record (page_at pages (count - 1)) { next = 0 })
        ∙ length-make_pages count 0 page_size;
    masks = length-replicate count 1;
    counted = sym (free_count-replicate count);
    linked = λ i lt. ground (arith, page_at-layout i);
    placed = λ i lt. ground (arith, page_at-layout i);
    agree = λ i lt. ground (arith, page_at-layout i, get_or-replicate count i);
    flags = λ i lt. ground (arith, get_or-replicate count i);
    inside = λ i lt held. ground (arith, page_at-layout i);
    busy = λ i p lt lo hi. ground (arith, page_at-layout i);
    apart = λ i j before inside lt. ground (arith, page_at-layout i);
  }

-- A count of pages that the test of the size accepts: less than the memory has pages, and with structures that
-- are no larger than the memory.
pub record Room (size page_size count : ℕ) : Type 0 where
  pub some_pages : 0 < count
  pub fewer : count < size / page_size
  pub listed : structures count ≤ size

-- What `kt_page_allocator_init` makes: a valid allocator, all of its pages free, with the largest count for
-- which there is room.
pub record Fresh (size page_size : ℕ) (al : PageAllocator) : Type 0 where
  pub valid : IsValid al
  pub same_size : al.page_size ≡ page_size
  pub room : Room size page_size al.page_count
  pub most : (c : ℕ) → Room size page_size c → c ≤ al.page_count
  pub all_free : (i : ℕ) → i < al.page_count → mask_at al i ≡ 1
  pub free_pages : al.page_free ≡ al.page_count
  pub even_size : is_power_of_2 size ≡ true
  pub even_page : is_power_of_2 page_size ≡ true

-- It fails for a size that is no power of two, and when there is room for no count of pages.
abbrev pub Made : ℕ → ℕ → Init → Type 0
Made size page_size (ready al) = Fresh size page_size al
Made size page_size failed =
    (is_power_of_2 size ≡ false)
    ⊎ ((is_power_of_2 page_size ≡ false) ⊎ ((c : ℕ) → ¬ Room size page_size c))
Made size page_size division_by_zero = ⊥

init-fit :
    (base size page_size : ℕ) (f : Fit)
    → 0 < page_size
    → size < 2 ^ 32
    → is_power_of_2 size ≡ true
    → is_power_of_2 page_size ≡ true
    → Fits size (size / page_size) f
    → Made size page_size (elim f as (λ _. Init) [
      | fits count list_size mask_size ↦ ready (layout base page_size count list_size mask_size)
      | _ ↦ failed
    ])
unfolding layout
init-fit base size page_size (fits count l m) sized small even_size even_page h =
    let below : count * page_size < size = grind (arith, h.0, h.1, div-add-mod' size page_size) in
    record {
      valid = layout-IsValid base page_size count l m sized h.0 (omega arith);
      same_size = refl;
      room = record { some_pages = h.0; fewer = h.1; listed = h.2 };
      most = λ c room. elim (dec_lt count c) [
        | yes more ↦ absurd (omega (arith, h.3 c more room.fewer, room.listed))
        | no few ↦ omega arith
      ];
      all_free = λ i lt. get_or-replicate count i lt;
      free_pages = refl;
      even_size = even_size;
      even_page = even_page;
    }
init-fit base size page_size too_small sized small even_size even_page h =
    inr (inr (λ c room. absurd (omega (arith, h c room.some_pages room.fewer, room.listed))))
init-fit base size page_size out_of_fuel sized small even_size even_page h = absurd h

-- `kt_page_allocator_init` of a memory of at least one page returns, for pages of 32 bytes or more: with -1
-- only if the size of the memory or of a page is no power of two, or if there is room for no count of pages
-- (`Room`), else with a valid allocator of free pages, and the largest count for which there is room. That the
-- pages then lie in the memory is not stated.
pub init-Made :
    (base size page_size : ℕ)
    → 32 ≤ page_size
    → page_size ≤ size
    → size < 2 ^ 32
    → Made size page_size (init base size page_size)
unfolding init
init-Made base size page_size sized le small =
    let pos : 0 < page_size = omega arith in
    let some : 0 < size / page_size = grind (arith, div-add-mod' size page_size, mod-lt size pos) in
    let few : size / page_size * 32 ≤ size = grind (arith, div-add-mod' size page_size) in
    let test : (page_size == 0) ≡ false = ground arith in
    let fit =
      fit_loop-Fits (sub32 (size / page_size) 1 + 1) size (size / page_size) some (omega arith)
        (omega arith) in
    elim (Bool-cases (is_power_of_2 size)) [
      | inr odd ↦ rw (odd, init) (inl odd)
      | inl even_size ↦ elim (Bool-cases (is_power_of_2 page_size)) [
        | inr odd ↦ rw (even_size, odd, init) (inr (inl odd))
        | inl even_page ↦
            rw (even_size, even_page, test, init)
              (init-fit base size page_size
                (fit_loop (sub32 (size / page_size) 1 + 1) size (size / page_size)) pos small
                even_size even_page fit)
      ]
    ]
