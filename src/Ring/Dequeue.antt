-- ===== src/Ring/Dequeue.antt =====
-- A burst that is taken out of a valid ring.
use kuberne_tsn.Common.{
  ℕ, ◌+◌, ◌-◌, ◌%◌, ◌^◌, ◌≤◌, ◌≡◌, sym, ap, ◌∙◌, List, arith, add32, sub32, length, take, drop,
  ◌==◌, if◌then◌else◌, ℕ_discrete, get_or,
}
use kuberne_tsn.Common.Bits.{bit_and_mask}
use kuberne_tsn.Common.Run.{done}
use kuberne_tsn.Copy.{copy_words}
use kuberne_tsn.Copy.Laws.{copy_unrolled-eq, length-copy_words, get_or-copy_words}
use kuberne_tsn.Ring.{
  RingBuf, Behavior, none_moved, moved, move_cons_head, dequeue_elems, do_dequeue_elems,
}
use kuberne_tsn.Ring.Arith.{pow2-pos, pow2-le, wrap-index_add}
use kuberne_tsn.Ring.Inv.{IsValid, used, contents, length-contents}
use kuberne_tsn.Ring.Window.{
  take-window, drop-window, window_ext, window_straight, slice_ext, slice-eq-take,
}
use kuberne_tsn.Ring.Spec.{granted, get}
use kuberne_tsn.Ring.Heads.{move_cons_head-spurious, limit-eq-granted, granted-le, entries-eq}

-- the ring after `g` words went out at the head
abbrev pub dequeued : RingBuf → ℕ → RingBuf
dequeued rb g =
    let next = add32 rb.cons.tail g in record rb { cons = record { head = next; tail = next } }

module _ {k : ℕ} {rb : RingBuf} (v : IsValid k rb) where
  abbrev stored : ℕ
  stored = length (contents rb)

  move_cons_head-eq :
      (s n : ℕ) (b : Behavior)
      → move_cons_head s rb n b ≡ (
          if granted b n stored == 0 then (none_moved stored, rb) else (
            moved
                (granted b n stored)
                rb.cons.tail
                (add32 rb.cons.tail (granted b n stored))
                stored,
            record rb {
              cons = record { head = add32 rb.cons.tail (granted b n stored); tail = rb.cons.tail };
            },
          ))
  unfolding move_cons_head
  move_cons_head-eq s n b =
      move_cons_head-spurious s rb n b
      ∙ rw (entries-eq v, limit-eq-granted b n stored, v.cons_quiet)

  -- A burst that lies before the end of the ring is copied from there.
  dequeue_elems-eq :
      (table : List ℕ) (h g : ℕ)
      → rb.cons.tail % rb.size + g ≤ rb.size
      → let start = record rb { cons = record { head = h; tail = rb.cons.tail } } in
        dequeue_elems start rb.cons.tail table 8 g
        ≡ done (copy_words g rb.ring (rb.cons.tail % rb.size) table 0)
  unfolding dequeue_elems
  dequeue_elems-eq table h g straight =
      let mask : sub32 rb.size 1 ≡ 2 ^ k - 1 = omega (arith, v, pow2-pos k, pow2-le k v.small) in
      rw (mask, bit_and_mask k rb.cons.tail, ← v.size_eq, copy_unrolled-eq)
        (ground (arith, v, pow2-le k v.small))

  -- The table gets the words from the head on, and keeps its other words.
  dequeued_table :
      (table : List ℕ) (g : ℕ)
      → g ≤ stored
      → g ≤ length table
      → rb.cons.tail % rb.size + g ≤ rb.size
      → take g (copy_words g rb.ring (rb.cons.tail % rb.size) table 0) ≡ take g (contents rb)
  dequeued_table table g fit le straight =
      let i = rb.cons.tail % rb.size in
      let out = copy_words g rb.ring i table 0 in
      sym (slice-eq-take out g (omega (arith, length-copy_words g rb.ring i table 0)))
      ∙ slice_ext out rb.ring 0 i g
          (λ t p. ground (arith, get_or-copy_words g rb.ring i table 0 (0 + t)))
      ∙ sym (window_straight rb.ring rb.size rb.cons.tail g straight)
      ∙ sym
          (take-window rb.ring rb.size rb.cons.tail g (used rb) (omega (arith, length-contents rb)))

  do_dequeue_elems-eq :
      (s : ℕ) (table : List ℕ) (n : ℕ) (b : Behavior)
      → rb.cons.tail % rb.size + granted b n stored ≤ rb.size
      → let g = granted b n stored in
        do_dequeue_elems s rb table 8 n b ≡ (
          if g == 0
          then done (0, stored, table, rb)
          else done
              (g, stored - g, copy_words g rb.ring (rb.cons.tail % rb.size) table 0, dequeued rb g))
  unfolding do_dequeue_elems
  do_dequeue_elems-eq s table n b straight =
      let g = granted b n stored in
      ground (
        arith,
        v,
        pow2-le k v.small,
        length-contents rb,
        granted-le b n stored,
        move_cons_head-eq s n b,
        dequeue_elems-eq table (add32 rb.cons.tail g) g straight,
      )

  used-dequeued : (g : ℕ) → g ≤ stored → used (dequeued rb g) ≡ used rb - g
  used-dequeued g fit = omega (arith, v, length-contents rb, pow2-pos k, pow2-le k v.small)

  dequeued-IsValid : (g : ℕ) → g ≤ stored → IsValid k (dequeued rb g)
  dequeued-IsValid g fit = omega (arith, v, used-dequeued g fit, length-contents rb)

  contents-dequeued : (g : ℕ) → g ≤ stored → contents (dequeued rb g) ≡ drop g (contents rb)
  contents-dequeued g fit =
      let c = rb.cons.tail in
      let index : (t : ℕ) → ((c + g) % 2 ^ 32 + t) % rb.size ≡ (c + g + t) % rb.size =
        λ t. rw v.size_eq (wrap-index_add k (c + g) t v.small) in
      rw (used-dequeued g fit) (
        window_ext rb.ring rb.ring rb.size ((c + g) % 2 ^ 32) (c + g) (used rb - g)
          (λ t p. ap (λ i. get_or rb.ring i 0) (index t))
        ∙ sym (drop-window rb.ring rb.size c g (used rb) (omega (arith, length-contents rb))))

  -- A dequeue of either behaviour on a valid ring takes the oldest words out of the queue that the ring holds, puts
  -- them at the start of the table, reports how many are left, and keeps the ring valid, if the
  -- burst ends before the end of the ring.
  pub dequeue_refines :
      (s : ℕ) (table : List ℕ) (n : ℕ) (b : Behavior)
      → n ≤ length table
      → rb.cons.tail % rb.size + granted b n stored ≤ rb.size
      → (table' : List ℕ) × (rb' : RingBuf) × IsValid k rb'
        × (let (g, left, out, q) = get b (contents rb) n in
            (do_dequeue_elems s rb table 8 n b ≡ done (g, left, table', rb'))
            × (take g table' ≡ out)
            × (contents rb' ≡ q))
  dequeue_refines s table n b le straight =
      let g = granted b n stored in
      let run = do_dequeue_elems-eq s table n b straight in
      let bounds = granted-le b n stored in
      let small : g ≤ length table = omega arith in
      elim (ℕ_discrete g 0) [
        | yes e ↦ (table, rb, v, (ground (arith, run), rw e, rw e))
        | no e ↦ (
          copy_words g rb.ring (rb.cons.tail % rb.size) table 0,
          dequeued rb g,
          dequeued-IsValid g bounds.1,
          (
            ground (arith, run),
            dequeued_table table g bounds.1 small straight,
            contents-dequeued g bounds.1,
          ),
        )
      ]
