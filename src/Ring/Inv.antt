-- ===== src/Ring/Inv.antt =====
-- The invariant of a ring that no call is working on, and the words that it holds.
use kuberne_tsn.Common.{
  ℕ, ◌-◌, ◌^◌, ◌≤◌, ◌<◌, ◌≡◌, some, List, [], arith, length, sub32, add32, mul32,
}
use kuberne_tsn.Common.Run.{done}
use native.Mathlib.Nat.{mod-eq_of_lt}
use kuberne_tsn.Common.Bits.{bit_and_mask}
use kuberne_tsn.Allocator.{KtAllocator}
use kuberne_tsn.Ring.{RingBuf, header_size, create, count}
use kuberne_tsn.Ring.Arith.{pow2-pos, pow2-le}
use kuberne_tsn.Ring.Window.{window, length-window}

-- the number of words between the tails
abbrev pub used : RingBuf → ℕ
used rb = sub32 rb.prod.tail rb.cons.tail

-- the words that a client has put in and not taken out, oldest first
abbrev pub contents : RingBuf → List ℕ
contents rb = window rb.ring rb.size rb.cons.tail (used rb)

-- A ring of 2 ^ k cells, at most half the range of the counters.
pub record IsValid (k : ℕ) (rb : RingBuf) : Type 0 where
  pub small : k ≤ 31
  pub size_eq : rb.size ≡ 2 ^ k
  pub mask_eq : rb.mask ≡ 2 ^ k - 1
  pub capacity_eq : rb.capacity ≡ 2 ^ k - 1
  pub prod_quiet : rb.prod.head ≡ rb.prod.tail
  pub cons_quiet : rb.cons.head ≡ rb.cons.tail
  pub prod_word : rb.prod.tail < 2 ^ 32
  pub cons_word : rb.cons.tail < 2 ^ 32
  pub room : used rb ≤ 2 ^ k - 1
  pub storage : 2 ^ k ≤ length rb.ring

pub length-contents : (rb : RingBuf) → length (contents rb) ≡ used rb
length-contents rb = length-window rb.ring rb.size rb.cons.tail (used rb)

-- What `kt_ringbuf_create` makes of a block that has room for 2 ^ k words is valid and empty, if
-- `count` is a power of two.
pub create-IsValid :
    {S : Type 0} (al : KtAllocator S) (block : ℕ → RingBuf) (s s' : S) (name : List ℕ) (k esize : ℕ)
    {rb : RingBuf}
    → k ≤ 31
    → ((a : ℕ) → 2 ^ k ≤ length (block a).ring)
    → create al block s name (2 ^ k) esize ≡ done (some rb, s')
    → IsValid k rb × (contents rb ≡ [])
unfolding create
create-IsValid al block s s' name k esize h big e =
    grind (arith, pow2-pos, pow2-le, al.alloc s (add32 header_size (mul32 (2 ^ k) esize)))

-- `kt_ringbuf_count` is the number of words in the ring.
pub count-eq-length : {k : ℕ} {rb : RingBuf} → IsValid k rb → count rb ≡ length (contents rb)
unfolding count
count-eq-length {k} {rb} v = rw (length-contents rb) (
    ground (
      arith,
      v,
      bit_and_mask k (used rb),
      mod-eq_of_lt {n = used rb} {m = 2 ^ k} (omega (arith, pow2-pos k, v.room)),
    ))
