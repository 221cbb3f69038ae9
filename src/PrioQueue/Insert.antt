-- ===== src/PrioQueue/Insert.antt =====
-- `kt_prio_queue_insert` and `kt_prio_queue_decrease_key`.
use mathlib.Core.List.{append-nil, perm_middle}
use mathlib.Core.List.Perm
use kuberne_tsn.Common.{
  ℕ, zero, suc, ◌+◌, ◌≤◌, ◌<◌, ◌≡◌, ◌≢◌, refl, ap, List, [], ◌∷◌, ◌++◌, Perm, arith, length, take,
  set, true, false, get_or-set, length-set,
}
use kuberne_tsn.Common.Int.{ℤ, ◌≤ℤ◌, ◌<ℤ◌, ltb_ℤ}
use kuberne_tsn.PrioQueue.{
  Node, PrioQueue, null_node, node_at, parent, int64_max, reorder_loop, reorder, decrease_key,
  insert,
}
use kuberne_tsn.PrioQueue.Order.{prio_at, IsHeap, IsValid, live, take-set, set-set}
use kuberne_tsn.PrioQueue.Up.{UpInv, reorder_loop_restores}

-- A valid queue in heap order of the nodes `a`, in the same array.
pub record Holds (q : PrioQueue) (a : List Node) (q' : PrioQueue) : Type 0 where
  pub valid : IsValid q'
  pub heap : IsHeap q'.size q'.elems
  pub nodes : Perm (live q') a
  pub same_cap : q'.cap ≡ q.cap

-- Lowering a node leaves only the edge above it out of order.
lowered-UpInv :
    (n : ℕ) (a : List Node) (i : ℕ) (node : Node)
    → n ≤ length a
    → i < n
    → IsHeap n a
    → node.prio ≤ℤ prio_at a i
    → UpInv n (set a i node) i
lowered-UpInv n a i node le lt heap lower =
    let at = λ (c : ℕ). get_or-set a i c node null_node (omega arith) in
    record {
      storage = omega (arith, length-set a i node);
      inside = lt;
      edges = λ c p q r. ground (arith, at c, at (parent c), heap c);
      bridged = λ c p q r s. ground (arith, at c, at (parent i), heap c, heap i);
    }

-- `kt_prio_queue_decrease_key` with a time that is no larger gives a node of a valid heap that time
-- and restores the order.
pub decrease_key_correct :
    {q : PrioQueue} (i : ℕ) (new_val : ℤ)
    → IsValid q
    → IsHeap q.size q.elems
    → i < q.size
    → new_val ≤ℤ prio_at q.elems i
    → Holds q
        (set (live q) i (record (node_at q.elems i) { prio = new_val }))
        (decrease_key q i new_val)
unfolding decrease_key reorder
decrease_key_correct {q} i new_val v heap lt lower =
    let node = record (node_at q.elems i) { prio = new_val } in
    let le : q.size ≤ length q.elems = omega (arith, v.storage, v.bounded) in
    let test : ltb_ℤ (prio_at q.elems i) new_val ≡ false = ground arith in
    let (sorted, moved) =
      reorder_loop_restores (i + 1) q.size (set q.elems i node) i (omega arith)
        (lowered-UpInv q.size q.elems i node le lt heap lower) in
    rw test (record {
      valid = record {
        storage = omega (arith, v.storage, moved.same_length, length-set q.elems i node);
        bounded = v.bounded;
      };
      heap = sorted;
      nodes = rw (take-set q.size q.elems i node lt) at moved.same_nodes;
      same_cap = refl;
    })

-- A time above the node's own is refused: nothing changes.
pub decrease_key-larger :
    (q : PrioQueue) (i : ℕ) (new_val : ℤ)
    → prio_at q.elems i <ℤ new_val
    → decrease_key q i new_val ≡ q
unfolding decrease_key
decrease_key-larger q i new_val larger = ground arith

appended-UpInv :
    (n : ℕ) (a : List Node) (node : Node)
    → n < length a
    → IsHeap n a
    → UpInv (n + 1) (set a n node) n
appended-UpInv n a node lt heap =
    let at = λ (c : ℕ). get_or-set a n c node null_node lt in
    record {
      storage = omega (arith, length-set a n node);
      inside = omega arith;
      edges = λ c p q r. ground (arith, at c, at (parent c), heap c);
      bridged = λ c p q r s. absurd (omega arith);
    }

take-suc-set :
    (n : ℕ) (a : List Node) (v : Node)
    → n < length a
    → take (suc n) (set a n v) ≡ take n a ++ v ∷ []
take-suc-set n [] v h = absurd (omega arith)
take-suc-set zero (x ∷ a) v h = refl
take-suc-set (suc n) (x ∷ a) v h = ap (λ b. x ∷ b) (take-suc-set n a v (omega arith))

pub take-set-perm :
    (n : ℕ) (a : List Node) (v : Node)
    → n < length a
    → Perm (take (n + 1) (set a n v)) (v ∷ take n a)
take-set-perm n a v h =
    let e : n + 1 ≡ suc n = omega arith in
    rw (e, take-suc-set n a v h) (rw (append-nil (take n a)) at (perm_middle {a = v} (take n a) []))

-- What an insert writes: the node with the largest time, then its own.
pub insert-elems :
    (q : PrioQueue) (prio : ℤ) (payload : ℕ)
    → IsValid q
    → q.size ≢ q.cap
    → prio ≤ℤ int64_max
    → insert q prio payload ≡ (
      true,
      record q {
        elems =
            reorder_loop
              (q.size + 1)
              (set q.elems q.size (record { prio = prio; payload = payload }))
              q.size;
        size = q.size + 1;
      },
    )
unfolding insert decrease_key reorder
insert-elems q prio payload v room range =
    let last : Node = record { prio = int64_max; payload = payload } in
    let node : Node = record { prio = prio; payload = payload } in
    let lt : q.size < length q.elems = omega (arith, v.storage, v.bounded) in
    ground
      (arith, get_or-set q.elems q.size q.size last null_node lt, set-set q.elems q.size last node)

-- `kt_prio_queue_insert` on a valid queue with room adds exactly the node, and keeps the order.
pub insert_correct :
    {q : PrioQueue} (prio : ℤ) (payload : ℕ)
    → IsValid q
    → IsHeap q.size q.elems
    → q.size < q.cap
    → prio ≤ℤ int64_max
    → ((insert q prio payload).0 ≡ true)
      × ((insert q prio payload).1.size ≡ q.size + 1)
      × Holds q (record { prio = prio; payload = payload } ∷ live q) (insert q prio payload).1
insert_correct {q} prio payload v heap room range =
    let node : Node = record { prio = prio; payload = payload } in
    let lt : q.size < length q.elems = omega (arith, v.storage) in
    let (sorted, moved) =
      reorder_loop_restores (q.size + 1) (q.size + 1) (set q.elems q.size node) q.size (omega arith)
        (appended-UpInv q.size q.elems node lt heap) in
    rw (insert-elems q prio payload v (omega arith) range) (
      refl,
      refl,
      record {
        valid = record {
          storage = omega (arith, v.storage, moved.same_length, length-set q.elems q.size node);
          bounded = omega arith;
        };
        heap = sorted;
        nodes = Perm.trans moved.same_nodes (take-set-perm q.size q.elems node lt);
        same_cap = refl;
      },
    )

-- `kt_prio_queue_insert` refuses a full queue, and changes nothing.
pub insert-full :
    (q : PrioQueue) (prio : ℤ) (payload : ℕ) → q.size ≡ q.cap → insert q prio payload ≡ (false, q)
unfolding insert
insert-full q prio payload full = ground arith
