-- ===== src/Ring/Window.antt =====
-- The words that a stretch of counters leads to, going round the ring.
use native.Mathlib.Nat.{add-zero, zero-add, suc-add}
use kuberne_tsn.Common.{
  ℕ, zero, suc, ◌+◌, ◌-◌, ◌%◌, ◌≤◌, ◌<◌, ◌≡◌, refl, ap, ap₂, ◌∙◌, List, [], ◌∷◌, ◌++◌, arith,
  length, get_or, take, drop,
}
use kuberne_tsn.Ring.Arith.{add-mod_straight}

-- the `n` words from counter `h` on, in a ring of `size` cells
abbrev pub window : List ℕ → ℕ → ℕ → ℕ → List ℕ
window ring size h zero = []
window ring size h (suc n) = get_or ring (h % size) 0 ∷ window ring size (h + 1) n

-- the `n` words of an array from index `i` on
abbrev pub slice : List ℕ → ℕ → ℕ → List ℕ
slice src i zero = []
slice src i (suc n) = get_or src i 0 ∷ slice src (i + 1) n

pub length-window : (ring : List ℕ) (size h n : ℕ) → length (window ring size h n) ≡ n
length-window ring size h zero = refl
length-window ring size h (suc n) = ap suc (length-window ring size (h + 1) n)

pub get_or-window :
    (ring : List ℕ) (size h n j : ℕ)
    → j < n
    → get_or (window ring size h n) j 0 ≡ get_or ring ((h + j) % size) 0
get_or-window ring size h zero j lt = absurd (omega arith)
get_or-window ring size h (suc n) zero lt = rw (add-zero h)
get_or-window ring size h (suc n) (suc j) lt =
    let e : h + 1 + j ≡ h + suc j = omega arith in
    rw e at (get_or-window ring size (h + 1) n j (omega arith))

pub window-add :
    (ring : List ℕ) (size h m n : ℕ)
    → window ring size h (m + n) ≡ window ring size h m ++ window ring size (h + m) n
window-add ring size h zero n = rw (zero-add, add-zero)
window-add ring size h (suc m) n =
    let e : suc m + n ≡ suc (m + n) = omega arith in
    let f : h + 1 + m ≡ h + suc m = omega arith in
    rw e (ap (λ w. get_or ring (h % size) 0 ∷ w) (rw f at (window-add ring size (h + 1) m n)))

-- Two stretches with equal words.
pub window_ext :
    (ring ring' : List ℕ) (size h h' n : ℕ)
    → ((t : ℕ) → t < n → get_or ring ((h + t) % size) 0 ≡ get_or ring' ((h' + t) % size) 0)
    → window ring size h n ≡ window ring' size h' n
window_ext ring ring' size h h' zero same = refl
window_ext ring ring' size h h' (suc n) same =
    ap₂ ◌∷◌ (rw (add-zero h, add-zero h') at (same 0 (omega arith))) (
      window_ext ring ring' size (h + 1) (h' + 1) n (λ t p.
        let e : h + suc t ≡ h + 1 + t = omega arith in
        let f : h' + suc t ≡ h' + 1 + t = omega arith in rw (e, f) at (same (suc t) (omega arith))))

-- A stretch that does not go round the end is a slice of the array.
pub window_straight :
    (ring : List ℕ) (size h n : ℕ)
    → h % size + n ≤ size
    → window ring size h n ≡ slice ring (h % size) n
window_straight ring size h zero fit = refl
window_straight ring size h (suc zero) fit = refl
window_straight ring size h (suc (suc n)) fit =
    let e = add-mod_straight size h 1 (omega arith) in
    ap (λ w. get_or ring (h % size) 0 ∷ w)
      (window_straight ring size (h + 1) (suc n) (omega (arith, e))
        ∙ ap (λ i. slice ring i (suc n)) e)

pub slice_ext :
    (src src' : List ℕ) (i i' n : ℕ)
    → ((t : ℕ) → t < n → get_or src (i + t) 0 ≡ get_or src' (i' + t) 0)
    → slice src i n ≡ slice src' i' n
slice_ext src src' i i' zero same = refl
slice_ext src src' i i' (suc n) same =
    ap₂ ◌∷◌ (rw (add-zero i, add-zero i') at (same 0 (omega arith))) (
      slice_ext src src' (i + 1) (i' + 1) n (λ t p.
        let e : i + suc t ≡ i + 1 + t = omega arith in
        let f : i' + suc t ≡ i' + 1 + t = omega arith in rw (e, f) at (same (suc t) (omega arith))))

slice-cons : (x : ℕ) (xs : List ℕ) (i n : ℕ) → slice (x ∷ xs) (suc i) n ≡ slice xs i n
slice-cons x xs i zero = refl
slice-cons x xs i (suc n) = ap (λ w. get_or xs i 0 ∷ w) (rw suc-add (slice-cons x xs (i + 1) n))

pub slice-eq-take : (src : List ℕ) (n : ℕ) → n ≤ length src → slice src 0 n ≡ take n src
slice-eq-take src zero h = refl
slice-eq-take [] (suc n) h = absurd (omega arith)
slice-eq-take (x ∷ xs) (suc n) h =
    ap (λ w. x ∷ w) (slice-cons x xs 0 n ∙ slice-eq-take xs n (omega arith))

pub take-window :
    (ring : List ℕ) (size h m n : ℕ) → m ≤ n → take m (window ring size h n) ≡ window ring size h m
take-window ring size h zero n le = refl
take-window ring size h (suc m) zero le = absurd (omega arith)
take-window ring size h (suc m) (suc n) le =
    ap (λ w. get_or ring (h % size) 0 ∷ w) (take-window ring size (h + 1) m n (omega arith))

pub drop-window :
    (ring : List ℕ) (size h m n : ℕ)
    → m ≤ n
    → drop m (window ring size h n) ≡ window ring size (h + m) (n - m)
drop-window ring size h zero n le =
    let e : h + 0 ≡ h = omega arith in let f : n - 0 ≡ n = omega arith in rw (e, f)
drop-window ring size h (suc m) zero le = absurd (omega arith)
drop-window ring size h (suc m) (suc n) le =
    let e : h + 1 + m ≡ h + suc m = omega arith in
    let f : suc n - suc m ≡ n - m = omega arith in
    rw f (rw e at (drop-window ring size (h + 1) m n (omega arith)))
