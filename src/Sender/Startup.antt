-- ===== src/Sender/Startup.antt =====
-- The start of `main`: the ring of free packets is filled with the indices.
use mathlib.Core.List.{append-nil, append_assoc}
use kuberne_tsn.Common.{
  ℕ, zero, suc, ◌+◌, ◌-◌, ◌^◌, ◌≤◌, ◌≡◌, refl, sym, ap, ◌∙◌, List, [], ◌∷◌, ◌++◌, arith, length,
  length-append,
}
use kuberne_tsn.Common.Run.{done, done-inj}
use kuberne_tsn.Ring.{RingBuf, get_capacity}
use kuberne_tsn.Ring.Inv.{IsValid, contents}
use kuberne_tsn.Ring.Single.{enqueue_one, enqueue_one-placed}
use kuberne_tsn.Sender.{fill_loop, fill_free}

-- the `n` numbers from `i` on
abbrev pub count_up : ℕ → ℕ → List ℕ
count_up zero i = []
count_up (suc n) i = i ∷ count_up n (i + 1)

fill_loop-fills :
    (n i : ℕ) {k : ℕ} {rb : RingBuf}
    → IsValid k rb
    → length (contents rb) + n ≤ 2 ^ k - 1
    → (rb' : RingBuf) × IsValid k rb'
      × (fill_loop n i rb ≡ done rb')
      × (contents rb' ≡ contents rb ++ count_up n i)
unfolding fill_loop
fill_loop-fills zero i {rb = rb} v room = (rb, v, refl, sym (append-nil (contents rb)))
fill_loop-fills (suc n) i {rb = rb} v room =
    let (one, left, one_v, ran, holds) = enqueue_one v 0 i (omega arith) in
    let more = length-append (contents rb) (i ∷ []) in
    let (all, all_v, rest, filled) =
      fill_loop-fills n (i + 1) one_v (rw holds (omega (arith, more))) in
    (
      all,
      all_v,
      rw (ran, fill_loop) rest,
      filled ∙ rw holds (append_assoc (contents rb) (i ∷ []) (count_up n (i + 1))),
    )

fill_loop-placed :
    (n i : ℕ) {k : ℕ} {rb rb' : RingBuf}
    → IsValid k rb
    → length (contents rb) + n ≤ 2 ^ k - 1
    → fill_loop n i rb ≡ done rb'
    → rb'.data_ptr ≡ rb.data_ptr
unfolding fill_loop
fill_loop-placed zero i v room ended = sym (ap (λ (r : RingBuf). r.data_ptr) (done-inj ended))
fill_loop-placed (suc n) i {rb = rb} v room ended =
    let (one, left, one_v, ran, holds) = enqueue_one v 0 i (omega arith) in
    let more = length-append (contents rb) (i ∷ []) in
    fill_loop-placed n (i + 1) one_v (rw holds (omega (arith, more))) (rw (ran, fill_loop) at ended)
    ∙ enqueue_one-placed v 0 i (omega arith) ran

-- The loop that fills an empty ring of free packets ends, with each index below the capacity in the
-- ring once, in order.
pub fill_free-fills :
    {k : ℕ} {rb : RingBuf}
    → IsValid k rb
    → contents rb ≡ []
    → (rb' : RingBuf) × IsValid k rb'
      × (fill_free rb ≡ done rb')
      × (contents rb' ≡ count_up (2 ^ k - 1) 0)
unfolding fill_free get_capacity
fill_free-fills {k} {rb} v empty =
    let (rb', v', ran, filled) = fill_loop-fills (2 ^ k - 1) 0 v (rw empty (omega arith)) in
    (rb', v', ap (λ n. fill_loop n 0 rb) v.capacity_eq ∙ ran, filled ∙ rw empty refl)

-- The ring lies where it was.
pub fill_free-placed :
    {k : ℕ} {rb rb' : RingBuf}
    → IsValid k rb
    → contents rb ≡ []
    → fill_free rb ≡ done rb'
    → rb'.data_ptr ≡ rb.data_ptr
unfolding fill_free get_capacity
fill_free-placed {k} {rb} v empty ended =
    fill_loop-placed (2 ^ k - 1) 0 v (rw empty (omega arith))
      (sym (ap (λ n. fill_loop n 0 rb) v.capacity_eq) ∙ ended)
