-- ===== src/Copy/Laws.antt =====
-- What the copying loops leave in the target, and that the unrolled loop is the plain one.
use kuberne_tsn.Common.{
  ℕ, zero, suc, ◌+◌, ◌-◌, ◌*◌, ◌/◌, ◌%◌, ◌≤◌, ◌<◌, ◌≡◌, refl, ◌∙◌, List, length, get_or, length-set,
  get_or-set, arith, ltb, leb, ◌&&◌, if◌then◌else◌,
}
use kuberne_tsn.Common.Bits.{bit_and_mask}
use native.Mathlib.Nat.{zero-add, add-zero, suc-add}
use kuberne_tsn.Copy.{copy_word, copy_words, copy_quads, copy_rest, copy_unrolled}

pub length-copy_words :
    (n : ℕ) (src : List ℕ) (i : ℕ) (dst : List ℕ) (j : ℕ)
    → length (copy_words n src i dst j) ≡ length dst
unfolding copy_words
length-copy_words zero src i dst j = refl
length-copy_words (suc n) src i dst j =
    length-copy_words n src (i + 1) (copy_word src i dst j) (j + 1)
    ∙ length-set dst j (get_or src i 0)

-- Entry `p` of the target: the words of the source on the stretch that is written, the old ones off it.
pub get_or-copy_words :
    (n : ℕ) (src : List ℕ) (i : ℕ) (dst : List ℕ) (j p : ℕ)
    → j + n ≤ length dst
    → get_or (copy_words n src i dst j) p 0
      ≡ (if leb j p && ltb p (j + n) then get_or src (i + (p - j)) 0 else get_or dst p 0)
unfolding copy_words
get_or-copy_words zero src i dst j p h = ground arith
get_or-copy_words (suc n) src i dst j p h = ground (
  arith,
  get_or-copy_words n src (i + 1) (copy_word src i dst j) (j + 1) p,
  length-set dst j (get_or src i 0),
  get_or-set dst j p (get_or src i 0) 0,
)

copy_words-add :
    (m n : ℕ) (src : List ℕ) (i : ℕ) (dst : List ℕ) (j : ℕ)
    → copy_words (m + n) src i dst j ≡ copy_words n src (i + m) (copy_words m src i dst j) (j + m)
unfolding copy_words
copy_words-add zero n src i dst j = ground (arith, zero-add n, add-zero i, add-zero j)
copy_words-add (suc m) n src i dst j =
    rw (suc-add m n)
      (ground (arith, copy_words-add m n src (i + 1) (copy_word src i dst j) (j + 1)))

copy_quads-eq :
    (r : ℕ) (src : List ℕ) (i : ℕ) (dst : List ℕ) (j : ℕ)
    → copy_quads r src i dst j ≡ copy_words (r * 4) src i dst j
unfolding copy_quads copy_words
copy_quads-eq zero src i dst j = refl
copy_quads-eq (suc r) src i dst j =
    let four = copy_words 4 src i dst j in
    let size : suc r * 4 ≡ 4 + r * 4 = omega arith in
    rw (size, copy_words-add 4 (r * 4) src i dst j)
      (ground (arith, copy_quads-eq r src (i + 4) four (j + 4)))

copy_rest-eq :
    (r : ℕ) (src : List ℕ) (i : ℕ) (dst : List ℕ) (j : ℕ)
    → r < 4
    → copy_rest r src i dst j ≡ copy_words r src i dst j
unfolding copy_rest copy_words
copy_rest-eq zero src i dst j h = refl
copy_rest-eq (suc zero) src i dst j h = ground arith
copy_rest-eq (suc (suc zero)) src i dst j h = ground arith
copy_rest-eq (suc (suc (suc zero))) src i dst j h = ground arith
copy_rest-eq (suc (suc (suc (suc r)))) src i dst j h = absurd (omega arith)

-- The loop over blocks of four and the switch over the rest copy the same words as a plain loop.
pub copy_unrolled-eq :
    (n : ℕ) (src : List ℕ) (i : ℕ) (dst : List ℕ) (j : ℕ)
    → copy_unrolled n src i dst j ≡ copy_words n src i dst j
unfolding copy_unrolled
copy_unrolled-eq n src i dst j =
    let blocks = n / 4 * 4 in
    let size : n ≡ blocks + n % 4 = omega arith in
    rw (
      bit_and_mask 2 n,
      copy_quads-eq (n / 4) src i dst j,
      copy_rest-eq (n % 4) src (i + blocks) (copy_words blocks src i dst j) (j + blocks)
          (omega arith),
      ← copy_words-add blocks (n % 4) src i dst j,
      ← size,
    )
