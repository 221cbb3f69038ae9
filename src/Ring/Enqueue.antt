-- ===== src/Ring/Enqueue.antt =====
-- A burst that is put into a valid ring.
use kuberne_tsn.Common.{
  ℕ, ◌+◌, ◌-◌, ◌%◌, ◌^◌, ◌≤◌, ◌≡◌, refl, ap, ap₂, ◌∙◌, List, ◌++◌, arith, add32, length, take, ◌==◌,
  if◌then◌else◌, ℕ_discrete,
}
use mathlib.Core.List.{append-nil}
use kuberne_tsn.Common.Bits.{bit_and_mask}
use kuberne_tsn.Common.Run.{done}
use kuberne_tsn.Copy.{copy_words}
use kuberne_tsn.Copy.Laws.{copy_unrolled-eq, length-copy_words}
use kuberne_tsn.Ring.{
  RingBuf, Behavior, none_moved, moved, move_prod_head, enqueue_elems, do_enqueue_elems,
}
use kuberne_tsn.Ring.Arith.{pow2-pos, pow2-le, wrap-index}
use kuberne_tsn.Ring.Inv.{IsValid, used, contents, length-contents}
use kuberne_tsn.Ring.Window.{window-add}
use kuberne_tsn.Ring.Transfer.{written, untouched}
use kuberne_tsn.Ring.Spec.{granted, put}
use kuberne_tsn.Ring.Heads.{move_prod_head-spurious, limit-eq-granted, granted-le, free_entries-eq}

-- the ring after `g` words of the table went in at the tail
abbrev pub enqueued : RingBuf → List ℕ → ℕ → RingBuf
enqueued rb table g =
    let next = add32 rb.prod.tail g in
    record rb {
      prod = record { head = next; tail = next };
      ring = copy_words g table 0 rb.ring (rb.prod.tail % rb.size);
    }

module _ {k : ℕ} {rb : RingBuf} (v : IsValid k rb) where
  abbrev free : ℕ
  free = 2 ^ k - 1 - length (contents rb)

  move_prod_head-eq :
      (s n : ℕ) (b : Behavior)
      → move_prod_head s rb n b ≡ (
          if granted b n free == 0 then (none_moved free, rb) else (
            moved (granted b n free) rb.prod.tail (add32 rb.prod.tail (granted b n free)) free,
            record rb {
              prod = record { head = add32 rb.prod.tail (granted b n free); tail = rb.prod.tail };
            },
          ))
  unfolding move_prod_head
  move_prod_head-eq s n b =
      move_prod_head-spurious s rb n b
      ∙ rw (free_entries-eq v, limit-eq-granted b n free, v.prod_quiet)

  -- A burst that fits before the end of the ring is copied there.
  enqueue_elems-eq :
      (table : List ℕ) (h g : ℕ)
      → rb.prod.tail % rb.size + g ≤ rb.size
      → let start = record rb { prod = record { head = h; tail = rb.prod.tail } } in
        enqueue_elems start rb.prod.tail table 8 g
        ≡ done (record start { ring = copy_words g table 0 rb.ring (rb.prod.tail % rb.size) })
  unfolding enqueue_elems
  enqueue_elems-eq table h g straight =
      rw (v.mask_eq, bit_and_mask k rb.prod.tail, ← v.size_eq, copy_unrolled-eq)
        (ground (arith, v, pow2-le k v.small))

  pub do_enqueue_elems-eq :
      (s : ℕ) (table : List ℕ) (n : ℕ) (b : Behavior)
      → rb.prod.tail % rb.size + granted b n free ≤ rb.size
      → do_enqueue_elems s rb table 8 n b ≡ (
          if granted b n free == 0
          then done (0, free, rb)
          else done
              (granted b n free, free - granted b n free, enqueued rb table (granted b n free)))
  unfolding do_enqueue_elems
  do_enqueue_elems-eq s table n b straight =
      let g = granted b n free in
      ground (
        arith,
        v,
        pow2-le k v.small,
        granted-le b n free,
        move_prod_head-eq s n b,
        enqueue_elems-eq table (add32 rb.prod.tail g) g straight,
      )

  used-enqueued : (table : List ℕ) (g : ℕ) → g ≤ free → used (enqueued rb table g) ≡ used rb + g
  used-enqueued table g fit = omega (arith, v, length-contents rb, pow2-pos k, pow2-le k v.small)

  -- The tail leads to the cell behind the contents.
  tail-index : rb.prod.tail % rb.size ≡ (rb.cons.tail + used rb) % rb.size
  tail-index =
      let wrapped : rb.prod.tail ≡ (rb.cons.tail + used rb) % 2 ^ 32 = omega (arith, v) in
      rw v.size_eq (ap (λ x. x % 2 ^ k) wrapped ∙ wrap-index k (rb.cons.tail + used rb) v.small)

  enqueued-IsValid : (table : List ℕ) (g : ℕ) → g ≤ free → IsValid k (enqueued rb table g)
  enqueued-IsValid table g fit = omega (
    arith,
    used-enqueued table g fit,
    length-contents rb,
    pow2-pos k,
    length-copy_words g table 0 rb.ring (rb.prod.tail % rb.size),
  )

  contents-enqueued :
      (table : List ℕ) (g : ℕ)
      → g ≤ free
      → g ≤ length table
      → rb.prod.tail % rb.size + g ≤ rb.size
      → contents (enqueued rb table g) ≡ contents rb ++ take g table
  contents-enqueued table g fit le straight =
      let u = used rb in
      let a = rb.cons.tail + u in
      let here : a % rb.size + g ≤ rb.size = rw tail-index at straight in
      let cells : rb.size ≤ length rb.ring = omega (arith, v) in
      let room : u + g ≤ rb.size = omega (arith, v, length-contents rb, pow2-pos k) in
      rw (used-enqueued table g fit, tail-index, window-add)
        (ap₂ ◌++◌ (untouched rb.ring table rb.size a g here cells rb.cons.tail u refl room)
          (written rb.ring table rb.size a g here cells le))

  -- An enqueue of either behaviour on a valid ring puts the words into the queue that the ring holds, reports the
  -- free space that is left, and keeps the ring valid, if the burst ends before the end of the ring.
  pub enqueue_refines :
      (s : ℕ) (table : List ℕ) (n : ℕ) (b : Behavior)
      → n ≤ length table
      → rb.prod.tail % rb.size + granted b n free ≤ rb.size
      → (rb' : RingBuf) × IsValid k rb'
        × (let (g, left, q) = put (2 ^ k - 1) b (contents rb) table n in
            (do_enqueue_elems s rb table 8 n b ≡ done (g, left, rb')) × (contents rb' ≡ q))
  enqueue_refines s table n b le straight =
      let g = granted b n free in
      let run = do_enqueue_elems-eq s table n b straight in
      let bounds = granted-le b n free in
      let small : g ≤ length table = omega arith in
      elim (ℕ_discrete g 0) [
        | yes e ↦ (rb, v, (ground (arith, run), rw (e, append-nil)))
        | no e ↦ (
          enqueued rb table g,
          enqueued-IsValid table g bounds.1,
          (ground (arith, run), contents-enqueued table g bounds.1 small straight),
        )
      ]
