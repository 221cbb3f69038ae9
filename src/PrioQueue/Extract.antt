-- ===== src/PrioQueue/Extract.antt =====
-- `kt_prio_queue_extract_min` and `kt_prio_queue_delete_key`.
use mathlib.Core.List.{append-nil, perm_middle}
use mathlib.Core.List.Perm
use kuberne_tsn.Common.{
  ℕ, zero, suc, ◌+◌, ◌-◌, ◌≤◌, ◌<◌, ◌≡◌, refl, ◌∙◌, ap, List, [], ◌∷◌, ◌++◌, Perm, arith, length,
  take, set, leb, false, none, some, length-set, get_or-set, get_or-take, length-take,
}
use kuberne_tsn.Common.Int.{ℤ, ◌≤ℤ◌, ◌<ℤ◌, ltb_ℤ}
use kuberne_tsn.PrioQueue.{
  Node, PrioQueue, null_node, node_at, int32_min, getmin, min_index, heapify_loop, heapify,
  extract_min, decrease_key, delete_key, reorder, reorder_loop,
}
use kuberne_tsn.PrioQueue.Order.{prio_at, IsHeap, IsValid, live, set-perm, take-set, root_least}
use kuberne_tsn.PrioQueue.Insert.{decrease_key_correct}
use kuberne_tsn.PrioQueue.Up.{reorder_loop-root}
use kuberne_tsn.PrioQueue.Heapify.{heapify_loop-Same}

-- the queue before `_kt_prio_queue_heapify`: the last node at the root
abbrev pub shrunk : PrioQueue → PrioQueue
shrunk q = record q { elems = set q.elems 0 (node_at q.elems (q.size - 1)); size = q.size - 1 }

take-suc : (n : ℕ) (a : List Node) → n < length a → take (suc n) a ≡ take n a ++ node_at a n ∷ []
take-suc n [] h = absurd (omega arith)
take-suc zero (x ∷ a) h = refl
take-suc (suc n) (x ∷ a) h = ap (λ b. x ∷ b) (take-suc n a (omega arith))

-- The first node and those that stay are all the nodes.
shrunk-perm :
    (n : ℕ) (a : List Node)
    → n < length a
    → Perm (node_at a 0 ∷ take n (set a 0 (node_at a n))) (take (suc n) a)
shrunk-perm zero a h = rw (take-suc zero a h) (Perm.refl (node_at a 0 ∷ []))
shrunk-perm (suc n) a h =
    let b = take (suc n) a in
    let v = node_at a (suc n) in
    let pos : 0 < length b = omega (arith, length-take (suc n) a) in
    rw
      (
        take-suc (suc n) a h,
        take-set (suc n) a 0 v (omega arith),
        ← get_or-take (suc n) a 0 null_node (omega arith),
      )
      (Perm.trans (set-perm b 0 v pos)
        (Perm.symm (rw (append-nil b) at (perm_middle {a = v} b []))))

-- What `kt_prio_queue_extract_min` takes out of a queue: a node, with the others left.
pub record Removed (q : PrioQueue) (node : Node) (q' : PrioQueue) : Type 0 where
  pub valid : IsValid q'
  pub same_cap : q'.cap ≡ q.cap
  pub one_less : q'.size + 1 ≡ q.size
  pub others : Perm (node ∷ live q') (live q)

-- `kt_prio_queue_extract_min` on a queue that is not empty returns the payload of the root and
-- removes that node alone.
pub extract_min-Removed :
    {q : PrioQueue}
    → IsValid q
    → 0 < q.size
    → ((extract_min q).0 ≡ some (node_at q.elems 0).payload)
      × Removed q (node_at q.elems 0) (extract_min q).1
unfolding extract_min heapify
extract_min-Removed {q} v pos =
    let last = node_at q.elems (q.size - 1) in
    let some_left : leb q.size 0 ≡ false = ground arith in
    let size : suc (q.size - 1) ≡ q.size = omega arith in
    let storage = length-set q.elems 0 last in
    let same = heapify_loop-Same (q.size - 1 + 1) (shrunk q) 0 (omega (arith, v, storage)) in
    let others = rw size at (shrunk-perm (q.size - 1) q.elems (omega (arith, v))) in
    rw some_left (
      refl,
      record {
        valid = record {
          storage = omega (arith, v, storage, same.moved.same_length, same.same_cap);
          bounded = omega (arith, v, same.same_size, same.same_cap);
        };
        same_cap = same.same_cap;
        one_less = omega (arith, same.same_size);
        others =
            rw same.same_size
              (Perm.trans (Perm.cons (node_at q.elems 0) same.moved.same_nodes) others);
      },
    )

-- On a valid heap that is not empty `kt_prio_queue_extract_min` returns the payload of the root, removes
-- that node alone, and no node has an earlier time.
pub extract_min-least :
    {q : PrioQueue}
    → IsValid q
    → IsHeap q.size q.elems
    → 0 < q.size
    → ((extract_min q).0 ≡ some (node_at q.elems 0).payload)
      × Removed q (node_at q.elems 0) (extract_min q).1
      × ((i : ℕ) → i < q.size → prio_at q.elems 0 ≤ℤ prio_at q.elems i)
extract_min-least {q} v heap pos =
    let (out, removed) = extract_min-Removed v pos in
    (out, removed, λ i p. root_least q.size q.elems i heap p)

-- `kt_prio_queue_extract_min` refuses an empty queue, and changes nothing.
pub extract_min-empty : (q : PrioQueue) → q.size ≡ 0 → extract_min q ≡ (none, q)
unfolding extract_min
extract_min-empty q empty = ground arith

decrease_key-parts :
    (q : PrioQueue) (i : ℕ) (new_val : ℤ)
    → new_val ≤ℤ prio_at q.elems i
    → let q' = decrease_key q i new_val in
      (q'.size ≡ q.size)
      × (q'.elems
          ≡ reorder_loop (i + 1) (set q.elems i (record (node_at q.elems i) { prio = new_val })) i)
unfolding decrease_key reorder
decrease_key-parts q i new_val lower =
    let test : ltb_ℤ (prio_at q.elems i) new_val ≡ false = ground arith in rw test (refl, refl)

-- A node that is given INT32_MIN goes to the root.
delete_key-root :
    (q : PrioQueue) (i : ℕ)
    → IsValid q
    → i < q.size
    → ((c : ℕ) → c < q.size → int32_min <ℤ prio_at q.elems c)
    → node_at (decrease_key q i int32_min).elems 0 ≡ record (node_at q.elems i) { prio = int32_min }
delete_key-root q i v lt above =
    let node = record (node_at q.elems i) { prio = int32_min } in
    let at = λ (c : ℕ). get_or-set q.elems i c node null_node (omega (arith, v)) in
    let kept = decrease_key-parts q i int32_min (omega (arith, above i lt)) in
    let size = length-set q.elems i node in
    rw kept.1 (
      reorder_loop-root (i + 1) q.size (set q.elems i node) i (omega arith) lt
        (omega (arith, v, size)) (λ c p ne. ground (arith, at c, at i, above c))
      ∙ ground (arith, at i))

-- With the last node at the root, the left child smaller than it and no larger than the right one,
-- `_kt_prio_queue_heapify` stops at once.
min_index-shrunk :
    (q : PrioQueue)
    → 3 ≤ q.size
    → q.size ≤ length q.elems
    → prio_at q.elems 1 ≤ℤ prio_at q.elems 2
    → prio_at q.elems 1 <ℤ prio_at q.elems (q.size - 1)
    → min_index (shrunk q) 0 ≡ 0
unfolding min_index
min_index-shrunk q three le siblings low =
    let at =
      λ (c : ℕ). get_or-set q.elems 0 c (node_at q.elems (q.size - 1)) null_node (omega arith) in
    ground (arith, at 0, at 1, at 2)

extract_min-stays :
    (q : PrioQueue) → 0 < q.size → min_index (shrunk q) 0 ≡ 0 → (extract_min q).1 ≡ shrunk q
unfolding extract_min heapify heapify_loop
extract_min-stays q pos stays =
    let fuel : q.size - 1 + 1 ≡ suc (q.size - 1) = omega arith in
    let some_left : leb q.size 0 ≡ false = ground arith in rw (some_left, fuel, stays)

-- When the left child of the root is no larger than the right one and smaller than the last node,
-- `kt_prio_queue_extract_min` leaves the last node above it: the queue is not in heap order, and the
-- time that `kt_prio_queue_getmin` returns next is not the least.
pub extract_min-unordered :
    {q : PrioQueue}
    → IsValid q
    → 3 ≤ q.size
    → prio_at q.elems 1 ≤ℤ prio_at q.elems 2
    → prio_at q.elems 1 <ℤ prio_at q.elems (q.size - 1)
    → let q' = (extract_min q).1 in
      (1 < q'.size)
      × (getmin q' ≡ prio_at q.elems (q.size - 1))
      × (prio_at q'.elems 1 <ℤ getmin q')
      × ¬ IsHeap q'.size q'.elems
unfolding getmin
extract_min-unordered {q} v three siblings low =
    let le : q.size ≤ length q.elems = omega (arith, v) in
    let at =
      λ (c : ℕ). get_or-set q.elems 0 c (node_at q.elems (q.size - 1)) null_node (omega arith) in
    rw (extract_min-stays q (omega arith) (min_index-shrunk q three le siblings low)) (
      omega arith,
      ground (arith, at 0),
      ground (arith, at 0, at 1),
      (λ heap. ground (arith, at 0, at 1, heap 1)),
    )

-- `kt_prio_queue_delete_key` removes the node at `i` alone from a heap, if all times of the queue are
-- larger than INT32_MIN, which the node is given to bring it to the root.
pub delete_key-Removed :
    {q : PrioQueue} (i : ℕ)
    → IsValid q
    → IsHeap q.size q.elems
    → i < q.size
    → ((c : ℕ) → c < q.size → int32_min <ℤ prio_at q.elems c)
    → Removed q (node_at q.elems i) (delete_key q i)
unfolding delete_key
delete_key-Removed {q} i v heap lt above =
    let node = record (node_at q.elems i) { prio = int32_min } in
    let q1 = decrease_key q i int32_min in
    let lowered = decrease_key_correct i int32_min v heap lt (omega (arith, above i lt)) in
    let kept = decrease_key-parts q i int32_min (omega (arith, above i lt)) in
    let (out, removed) = extract_min-Removed {q = q1} lowered.valid (omega (arith, kept.0)) in
    let root = delete_key-root q i v lt above in
    let cell : node_at (live q) i ≡ node_at q.elems i = get_or-take q.size q.elems i null_node lt in
    let size : i < length (live q) = omega (arith, v, length-take q.size q.elems) in
    let trade = rw cell at (set-perm (live q) i node size) in
    let rest = rw root at removed.others in
    record {
      valid = removed.valid;
      same_cap = removed.same_cap ∙ lowered.same_cap;
      one_less = removed.one_less ∙ kept.0;
      others = Perm.cons_inv (
          Perm.trans (Perm.swap (node_at q.elems i) node _)
            (Perm.trans (Perm.cons (node_at q.elems i) (Perm.trans rest lowered.nodes)) trade));
    }
