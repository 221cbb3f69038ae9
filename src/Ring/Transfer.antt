-- ===== src/Ring/Transfer.antt =====
-- What the copying loops do to the words of a ring, seen from its counters.
use kuberne_tsn.Common.{ℕ, ◌+◌, ◌-◌, ◌%◌, ◌≤◌, ◌<◌, ◌≡◌, sym, ap, ◌∙◌, List, arith, length, take}
use kuberne_tsn.Copy.{copy_words}
use kuberne_tsn.Copy.Laws.{get_or-copy_words}
use kuberne_tsn.Ring.Arith.{add-mod-ne, add-mod_straight}
use kuberne_tsn.Ring.Window.{window, window_ext, window_straight, slice_ext, slice-eq-take}

module _ (ring src : List ℕ) (size a n : ℕ) (straight : a % size + n ≤ size)
    (storage : size ≤ length ring) where
  -- The stretch that is written holds the words of the table.
  pub written : n ≤ length src → window (copy_words n src 0 ring (a % size)) size a n ≡ take n src
  written h =
      window_straight (copy_words n src 0 ring (a % size)) size a n straight
      ∙ slice_ext (copy_words n src 0 ring (a % size)) src (a % size) 0 n
          (λ t p. ground (arith, get_or-copy_words n src 0 ring (a % size) (a % size + t)))
      ∙ slice-eq-take src n h

  -- The words before it lie off the stretch.
  disjoint :
      (h u t : ℕ)
      → h + u ≡ a
      → u + n ≤ size
      → t < u
      → a % size ≤ (h + t) % size
      → (h + t) % size < a % size + n
      → ⊥
  disjoint h u t e fit p lo hi =
      let m = (h + t) % size - a % size in
      let shift : a + m ≡ h + t + (u - t + m) = omega arith in
      add-mod-ne size (h + t) (u - t + m) (omega arith) (omega arith)
        (sym (ap (λ x. x % size) shift) ∙ add-mod_straight size a m (omega arith) ∙ omega arith)

  -- The words before it are not touched, as long as all of them fit.
  pub untouched :
      (h u : ℕ)
      → h + u ≡ a
      → u + n ≤ size
      → window (copy_words n src 0 ring (a % size)) size h u ≡ window ring size h u
  untouched h u e fit = window_ext (copy_words n src 0 ring (a % size)) ring size h h u λ t p.
      ground
        (arith, get_or-copy_words n src 0 ring (a % size) ((h + t) % size), disjoint h u t e fit p)
