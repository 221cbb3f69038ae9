-- ===== src/Ring/Straddle.antt =====
-- A burst that goes round the end of the ring. The first loop of the second branch of
-- `__kt_ringbuf_enqueue_elems` and `__kt_ringbuf_dequeue_elems` runs to `n` and not to the end of
-- the ring, so the burst goes on behind the ring and its start is left alone.
use kuberne_tsn.Common.{
  ℕ, ◌+◌, ◌-◌, ◌%◌, ◌^◌, ◌≤◌, ◌<◌, ◌≡◌, ◌≢◌, sym, ◌∙◌, List, arith, sub32, length, get_or, take,
  get_or-take, ltb, leb, ◌&&◌, if◌then◌else◌,
}
use kuberne_tsn.Common.Bits.{bit_and_mask}
use kuberne_tsn.Common.Run.{done}
use kuberne_tsn.Copy.{copy_words}
use kuberne_tsn.Copy.Laws.{get_or-copy_words}
use kuberne_tsn.Ring.{RingBuf, enqueue_elems, dequeue_elems}
use kuberne_tsn.Ring.Arith.{pow2-pos, pow2-le}
use kuberne_tsn.Ring.Window.{window, get_or-window}
use kuberne_tsn.Ring.Inv.{IsValid}
use native.Mathlib.Nat.{mod-lt, zero-add, mod-add-mod, mod_self}

module _ {k : ℕ} {rb : RingBuf} (v : IsValid k rb) (counter n : ℕ) (small : n ≤ rb.size)
    (round : rb.size < counter % rb.size + n) where
  index-lt : counter % rb.size < rb.size
  index-lt = mod-lt counter (omega (arith, v, pow2-pos k))

  -- A burst that goes round the end is written behind the ring: cell `p` gets the word of the table
  -- at its distance from the index, whether or not it is a cell of the ring, and no cell before the
  -- index changes.
  pub enqueue_elems-overrun :
      (table : List ℕ)
      → counter % rb.size + n ≤ length rb.ring
      → (rb' : RingBuf) × (enqueue_elems rb counter table 8 n ≡ done rb')
        × ((p : ℕ)
            → get_or rb'.ring p 0 ≡ (
                if leb (counter % rb.size) p && ltb p (counter % rb.size + n)
                then get_or table (p - counter % rb.size) 0
                else get_or rb.ring p 0))
  unfolding enqueue_elems copy_words
  enqueue_elems-overrun table behind =
      let i = counter % rb.size in
      let bound = index-lt in
      let wide = pow2-le k v.small in
      (
        record rb { ring = copy_words n table 0 rb.ring i },
        rw (v.mask_eq, bit_and_mask k counter, ← v.size_eq) (ground (arith, v)),
        λ p. rw (get_or-copy_words n table 0 rb.ring i p behind, zero-add),
      )

  -- A dequeue that goes round the end reads on behind the ring: word `j` of the table is the word
  -- `j` cells after the index, whether or not that is a cell of the ring.
  pub dequeue_elems-overrun :
      (table : List ℕ)
      → n ≤ length table
      → (table' : List ℕ) × (dequeue_elems rb counter table 8 n ≡ done table')
        × ((j : ℕ) → j < n → get_or table' j 0 ≡ get_or rb.ring (counter % rb.size + j) 0)
  unfolding dequeue_elems copy_words
  dequeue_elems-overrun table le =
      let i = counter % rb.size in
      let bound = index-lt in
      let wide = pow2-le k v.small in
      let mask : sub32 rb.size 1 ≡ 2 ^ k - 1 = omega (arith, v, pow2-pos k) in
      (
        copy_words n rb.ring i table 0,
        rw (mask, bit_and_mask k counter, ← v.size_eq) (ground (arith, v)),
        λ j p. ground (arith, get_or-copy_words n rb.ring i table 0 j),
      )

  -- If the word behind the ring is not the one at its start, a dequeue that goes round the end does
  -- not hand out the words of its stretch of the ring.
  pub dequeue_elems-not_window :
      (table table' : List ℕ)
      → n ≤ length table
      → get_or rb.ring rb.size 0 ≢ get_or rb.ring 0 0
      → dequeue_elems rb counter table 8 n ≡ done table'
      → take n table' ≢ window rb.ring rb.size counter n
  dequeue_elems-not_window table table' le differ ran same =
      let (out, run, reads) = dequeue_elems-overrun table le in
      let bound = index-lt in
      let j = rb.size - counter % rb.size in
      let e : counter % rb.size + j ≡ rb.size = omega arith in
      let start : (counter + j) % rb.size ≡ 0 =
        sym (mod-add-mod counter rb.size j) ∙ rw (e, mod_self) in
      let inside : j < n = omega arith in
      let equal : out ≡ table' = cc in
      let read : get_or table' j 0 ≡ get_or rb.ring rb.size 0 =
        rw (← equal) (rw e at (reads j inside)) in
      let expected : get_or (take n table') j 0 ≡ get_or rb.ring 0 0 =
        rw same (rw start at (get_or-window rb.ring rb.size counter n j inside)) in
      differ (sym read ∙ sym (get_or-take n table' j 0 inside) ∙ expected)
