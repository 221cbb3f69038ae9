-- ===== src/PrioQueue/Heapify.antt =====
-- `_kt_prio_queue_heapify`: what it keeps, that it ends, and which nodes it leaves alone.
use mathlib.Core.List.Perm
use kuberne_tsn.Common.{
  ℕ, zero, suc, ◌+◌, ◌≤◌, ◌<◌, ◌≡◌, refl, arith, length, take, ◌==◌, true, false, inl, inr, ◌⊎◌,
}
use kuberne_tsn.PrioQueue.{PrioQueue, node_at, right, swap, min_index, heapify_loop, heapify}
use kuberne_tsn.PrioQueue.Order.{length-swap, node_at-swap}
use kuberne_tsn.PrioQueue.Up.{Rearranged, swap-Rearranged}

-- The index chosen is never the left child's: the second test overwrites the choice of the first.
pub min_index-cases :
    (q : PrioQueue) (i : ℕ) → (min_index q i ≡ i) ⊎ ((min_index q i ≡ right i) × (right i < q.size))
unfolding min_index
min_index-cases q i = ground arith

-- The fuel does not show, as long as it is more than the distance to the end of the queue.
heapify_loop-fuel :
    (f g : ℕ) (q : PrioQueue) (i : ℕ)
    → q.size < f + i
    → q.size < g + i
    → heapify_loop f q i ≡ heapify_loop g q i
unfolding heapify_loop
heapify_loop-fuel zero zero q i hf hg = refl
heapify_loop-fuel zero (suc g) q i hf hg = ground (arith, min_index-cases q i)
heapify_loop-fuel (suc f) zero q i hf hg = ground (arith, min_index-cases q i)
heapify_loop-fuel (suc f) (suc g) q i hf hg =
    let sunk = record q { elems = swap q.elems i (right i) } in
    elim (min_index-cases q i) [
      | inl stays ↦ rw stays (ground arith)
      | inr sinks ↦
          rw sinks.0
            (ground (arith, heapify_loop-fuel f g sunk (right i) (omega arith) (omega arith)))
    ]

-- The nodes before `i` stay.
pub node_at-heapify_loop :
    (f : ℕ) (q : PrioQueue) (i c : ℕ)
    → q.size ≤ length q.elems
    → c < i
    → i < q.size
    → node_at (heapify_loop f q i).elems c ≡ node_at q.elems c
unfolding heapify_loop
node_at-heapify_loop zero q i c le lt bound = refl
node_at-heapify_loop (suc f) q i c le lt bound =
    let sunk = record q { elems = swap q.elems i (right i) } in
    elim (min_index-cases q i) [
      | inl stays ↦ rw stays (ground arith)
      | inr (sinks, inside) ↦ rw sinks (
          ground (
            arith,
            node_at-heapify_loop f sunk (right i) c (omega (arith, length-swap q.elems i (right i)))
                (omega arith) inside,
            node_at-swap q.elems i (right i) c (omega arith) (omega arith),
          ))
    ]

-- The nodes in use are rearranged, and the sizes stay.
pub record Same (q q' : PrioQueue) : Type 0 where
  pub same_size : q'.size ≡ q.size
  pub same_cap : q'.cap ≡ q.cap
  pub moved : Rearranged q.size q.elems q'.elems

unmoved : (q : PrioQueue) → Same q q
unmoved q = record {
  same_size = refl;
  same_cap = refl;
  moved = record { same_length = refl; same_nodes = Perm.refl (take q.size q.elems) };
}

==_self : (n : ℕ) → (n == n) ≡ true
==_self n = ground arith

pub heapify_loop-Same :
    (f : ℕ) (q : PrioQueue) (i : ℕ) → q.size ≤ length q.elems → Same q (heapify_loop f q i)
unfolding heapify_loop
heapify_loop-Same zero q i le = unmoved q
heapify_loop-Same (suc f) q i le = elim (min_index-cases q i) [
  | inl stays ↦ rw (stays, ==_self) (unmoved q)
  | inr (sinks, inside) ↦
      let m = right i in
      let sunk = record q { elems = swap q.elems i m } in
      let below : (m == i) ≡ false = ground arith in
      let rest = heapify_loop-Same f sunk m (omega (arith, length-swap q.elems i m)) in
      rw (sinks, below)
        (record {
          same_size = rest.same_size;
          same_cap = rest.same_cap;
          moved = swap-Rearranged i m (omega arith) inside le rest.moved;
        })
]

-- `q.size + 1` rounds are enough: with more fuel `_kt_prio_queue_heapify` does the same.
pub heapify-fuel :
    (f : ℕ) (q : PrioQueue) (i : ℕ) → q.size < f + i → heapify_loop f q i ≡ heapify q i
unfolding heapify
heapify-fuel f q i h = heapify_loop-fuel f (q.size + 1) q i h (omega arith)
