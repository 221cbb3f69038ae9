-- ===== src/Copy.antt =====
-- The copying loops of src/kt_ringbuf.c, between the ring and the caller's table. In both
-- directions a word goes from one array to another, so source and target are arguments here.
-- The indices stay below the size of the ring plus the length of the burst, so they do not wrap.
pub mod Laws
use kuberne_tsn.Common.{
  ℕ, zero, suc, ◌+◌, ◌-◌, ◌*◌, ◌/◌, ◌%◌, bit_and, List, get_or, set, ◌==◌, if◌then◌else◌,
}

-- dst[j] = src[i]
abbrev pub copy_word : List ℕ → ℕ → List ℕ → ℕ → List ℕ
copy_word src i dst j = set dst j (get_or src i 0)

-- `n` rounds of a loop that copies a word and advances both indices
unfoldable pub copy_words : ℕ → List ℕ → ℕ → List ℕ → ℕ → List ℕ
copy_words zero src i dst j = dst
copy_words (suc n) src i dst j = copy_words n src (i + 1) (copy_word src i dst j) (j + 1)

-- the loop over blocks of four, `i < (n & ~0x3)`, which makes `n / 4` rounds
pub copy_quads : ℕ → List ℕ → ℕ → List ℕ → ℕ → List ℕ
copy_quads zero src i dst j = dst
copy_quads (suc r) src i dst j =
    let one = copy_word src i dst j in
    let two = copy_word src (i + 1) one (j + 1) in
    let three = copy_word src (i + 2) two (j + 2) in
    let four = copy_word src (i + 3) three (j + 3) in copy_quads r src (i + 4) four (j + 4)

-- the switch over `n & 0x3`, whose cases fall through
pub copy_rest : ℕ → List ℕ → ℕ → List ℕ → ℕ → List ℕ
copy_rest r src i dst j =
    let case_1 = λ (t : ℕ) (d : List ℕ). copy_word src (i + t) d (j + t) in
    let case_2 = λ (t : ℕ) (d : List ℕ). case_1 (t + 1) (copy_word src (i + t) d (j + t)) in
    let case_3 = λ (t : ℕ) (d : List ℕ). case_2 (t + 1) (copy_word src (i + t) d (j + t)) in
    if r == 3
    then case_3 0 dst
    else if r == 2
    then case_2 0 dst
    else if r == 1
    then case_1 0 dst
    else dst

-- blocks of four, then the rest
unfoldable pub copy_unrolled : ℕ → List ℕ → ℕ → List ℕ → ℕ → List ℕ
unfolding copy_quads copy_rest
copy_unrolled n src i dst j =
    let k = n / 4 * 4 in
    copy_rest (bit_and n 3) src (i + k) (copy_quads (n / 4) src i dst j) (j + k)
