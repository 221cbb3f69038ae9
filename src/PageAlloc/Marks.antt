-- ===== src/PageAlloc/Marks.antt =====
-- What the loops over the pages of a run write, and how the free pages are counted.
use kuberne_tsn.Common.{
  ℕ, zero, suc, ◌+◌, ◌≤◌, ◌<◌, ◌≡◌, ◌≢◌, refl, ◌∙◌, ap, arith, List, [], ◌∷◌, length, get_or, set,
  length-set, get_or-set, replicate, ltb, leb, ◌&&◌, ◌==◌, if◌then◌else◌,
}
use kuberne_tsn.PageAlloc.{Page, null_page, page_at, mark_chain, mark_mask}

pub length-mark_mask :
    (n : ℕ) (mask : List ℕ) (i v : ℕ) → length (mark_mask n mask i v) ≡ length mask
unfolding mark_mask
length-mark_mask zero mask i v = refl
length-mark_mask (suc n) mask i v =
    length-mark_mask n (set mask i v) (i + 1) v ∙ length-set mask i v

pub get_or-mark_mask :
    (n : ℕ) (mask : List ℕ) (i v p : ℕ)
    → i + n ≤ length mask
    → get_or (mark_mask n mask i v) p 0 ≡ (if leb i p && ltb p (i + n) then v else get_or mask p 0)
unfolding mark_mask
get_or-mark_mask zero mask i v p le = ground arith
get_or-mark_mask (suc n) mask i v p le = ground (
  arith,
  get_or-mark_mask n (set mask i v) (i + 1) v p,
  length-set mask i v,
  get_or-set mask i p v 0,
)

pub length-mark_chain :
    (n : ℕ) (pages : List Page) (i v : ℕ) → length (mark_chain n pages i v) ≡ length pages
unfolding mark_chain
length-mark_chain zero pages i v = refl
length-mark_chain (suc n) pages i v =
    let page = record (page_at pages i) { free = v } in
    length-mark_chain n (set pages i page) (page_at pages i).next v ∙ length-set pages i page

mark_chain-zero : (pages : List Page) (i v : ℕ) → mark_chain 0 pages i v ≡ pages
unfolding mark_chain
mark_chain-zero pages i v = refl

mark_chain-suc :
    (n : ℕ) (pages : List Page) (i v : ℕ) {t : ℕ}
    → (page_at pages i).next ≡ t
    → mark_chain (suc n) pages i v
      ≡ mark_chain n (set pages i (record (page_at pages i) { free = v })) t v
unfolding mark_chain
mark_chain-suc n pages i v e =
    ap (λ t. mark_chain n (set pages i (record (page_at pages i) { free = v })) t v) e

-- Along pages that are linked in order, the chain is the stretch of `n` pages from `i` on.
pub page_at-mark_chain :
    (n : ℕ) (pages : List Page) (i v p : ℕ)
    → i + n ≤ length pages
    → ((t : ℕ) → i ≤ t → t + 1 < i + n → (page_at pages t).next ≡ t + 1)
    → page_at (mark_chain n pages i v) p ≡ (
        if leb i p && ltb p (i + n) then record (page_at pages p) { free = v } else page_at pages p)
page_at-mark_chain zero pages i v p le linked = rw (mark_chain-zero pages i v) (ground arith)
page_at-mark_chain (suc zero) pages i v p le linked =
    let page = record (page_at pages i) { free = v } in
    rw
      (mark_chain-suc 0 pages i v refl, mark_chain-zero (set pages i page) (page_at pages i).next v)
      (ground (arith, get_or-set pages i p page null_page))
page_at-mark_chain (suc (suc n)) pages i v p le linked =
    let page = record (page_at pages i) { free = v } in
    let at = λ (t : ℕ). get_or-set pages i t page null_page (omega arith) in
    ap (λ l. page_at l p) (mark_chain-suc (suc n) pages i v (linked i (omega arith) (omega arith)))
    ∙ page_at-mark_chain (suc n) (set pages i page) (i + 1) v p
        (omega (arith, length-set pages i page))
        (λ t lo hi. ground (arith, at t, linked t (omega arith) (omega arith)))
    ∙ ground (arith, at p)

-- the number of pages that the mask shows as free
pub free_count : List ℕ → ℕ
free_count [] = 0
free_count (m ∷ mask) = (if m == 0 then 0 else 1) + free_count mask

free_count-set :
    (mask : List ℕ) (i v : ℕ)
    → i < length mask
    → free_count (set mask i v) + (if get_or mask i 0 == 0 then 0 else 1)
      ≡ free_count mask + (if v == 0 then 0 else 1)
unfolding free_count
free_count-set [] i v lt = absurd (omega arith)
free_count-set (m ∷ mask) zero v lt = omega arith
free_count-set (m ∷ mask) (suc i) v lt = omega (arith, free_count-set mask i v (omega arith))

-- Taking `n` free pages leaves `n` fewer.
pub free_count-take :
    (n : ℕ) (mask : List ℕ) (i : ℕ)
    → i + n ≤ length mask
    → ((p : ℕ) → i ≤ p → p < i + n → get_or mask p 0 ≢ 0)
    → free_count (mark_mask n mask i 0) + n ≡ free_count mask
unfolding mark_mask
free_count-take zero mask i le free = omega arith
free_count-take (suc n) mask i le free =
    let at = λ (p : ℕ). get_or-set mask i p 0 0 (omega arith) in
    ground (
      arith,
      free_count-set mask i 0 (omega arith),
      free i (omega arith) (omega arith),
      free_count-take n (set mask i 0) (i + 1) (omega (arith, length-set mask i 0))
          (λ p lo hi. ground (arith, at p, free p (omega arith) (omega arith))),
    )

-- Giving `n` busy pages back makes `n` more.
pub free_count-give :
    (n : ℕ) (mask : List ℕ) (i : ℕ)
    → i + n ≤ length mask
    → ((p : ℕ) → i ≤ p → p < i + n → get_or mask p 0 ≡ 0)
    → free_count (mark_mask n mask i 1) ≡ free_count mask + n
unfolding mark_mask
free_count-give zero mask i le busy = omega arith
free_count-give (suc n) mask i le busy =
    let at = λ (p : ℕ). get_or-set mask i p 1 0 (omega arith) in
    ground (
      arith,
      free_count-set mask i 1 (omega arith),
      busy i (omega arith) (omega arith),
      free_count-give n (set mask i 1) (i + 1) (omega (arith, length-set mask i 1))
          (λ p lo hi. ground (arith, at p, busy p (omega arith) (omega arith))),
    )

pub free_count-le : (mask : List ℕ) → free_count mask ≤ length mask
unfolding free_count
free_count-le [] = omega arith
free_count-le (m ∷ mask) = ground (arith, free_count-le mask)

pub free_count-replicate : (n : ℕ) → free_count (replicate n 1) ≡ n
unfolding free_count
free_count-replicate zero = refl
free_count-replicate (suc n) = ground (arith, free_count-replicate n)
