-- ===== src/PrioQueue.antt =====
-- src/kt_queue.c and src/kt_queue.h: the daemon's queue of packets, a min-heap by transmission time
-- in an array. An access out of range is undefined in C: here such a read gives a null node and such
-- a write does nothing, and `Inv.IsValid` keeps every access in range. Indices stay below twice the
-- capacity plus three, so neither `int` nor `size_t` wraps.
pub mod Order
pub mod Up
pub mod Insert
pub mod Nodes
pub mod Heapify
pub mod Extract
mod Tests
use kuberne_tsn.Common.{
  ℕ, zero, suc, ◌+◌, ◌-◌, ◌*◌, ◌/◌, ◌^◌, Bool, true, false, ◌&&◌, Option, none, some, List, get_or,
  set, ltb, leb, ◌==◌, if◌then◌else◌,
}
use kuberne_tsn.Common.Int.{ℤ, pos, negsuc, ltb_ℤ}

-- `struct kt_pq_node`; the pointer is kept as its 64-bit value, which is all that the code uses it for.
pub record Node : Type 0 where
  pub prio : ℤ
  pub payload : ℕ

-- `struct kt_prio_queue`
pub record PrioQueue : Type 0 where
  pub elems : List Node
  pub cap : ℕ
  pub size : ℕ

abbrev pub null_node : Node
null_node = record { prio = pos 0; payload = 0 }

abbrev pub node_at : List Node → ℕ → Node
node_at a i = get_or a i null_node

abbrev pub int64_max : ℤ
int64_max = pos (2 ^ 63 - 1)

abbrev pub int32_min : ℤ
int32_min = negsuc (2 ^ 31 - 1)

-- `kt_prio_queue_init`; `cells` is the memory that `malloc` returned.
unfoldable pub init : List Node → ℕ → PrioQueue
init cells cap = record { elems = cells; cap = cap; size = 0 }

-- `kt_prio_queue_is_empty`
unfoldable pub is_empty : PrioQueue → Bool
is_empty q = q.size == 0

-- `_kt_prio_queue_swap` of `&a[i]` and `&a[j]`
unfoldable pub swap : List Node → ℕ → ℕ → List Node
swap a i j = let tmp = node_at a i in let a' = set a i (node_at a j) in set a' j tmp

-- `_kt_prio_queue_parent`; the division of C makes 0 of -1 / 2, as `-` on ℕ does here.
abbrev pub parent : ℕ → ℕ
parent i = (i - 1) / 2

abbrev pub left : ℕ → ℕ
left i = 2 * i + 1

abbrev pub right : ℕ → ℕ
right i = 2 * i + 2

-- `kt_prio_queue_getmin`
unfoldable pub getmin : PrioQueue → ℤ
getmin q = (node_at q.elems 0).prio

-- The loop of `_kt_prio_queue_reorder`; the fuel is the number of rounds, of which `i + 1` suffice.
unfoldable pub reorder_loop : ℕ → List Node → ℕ → List Node
reorder_loop zero a i = a
reorder_loop (suc fuel) a i =
    let rise = reorder_loop fuel (swap a i (parent i)) (parent i) in
    if ltb 0 i && ltb_ℤ (node_at a i).prio (node_at a (parent i)).prio then rise else a

-- `_kt_prio_queue_reorder`
unfoldable pub reorder : PrioQueue → ℕ → PrioQueue
unfolding reorder_loop
reorder q i = record q { elems = reorder_loop (i + 1) q.elems i }

-- `kt_prio_queue_decrease_key`
unfoldable pub decrease_key : PrioQueue → ℕ → ℤ → PrioQueue
decrease_key q i new_val =
    let node = node_at q.elems i in
    let lowered = record q { elems = set q.elems i (record node { prio = new_val }) } in
    if ltb_ℤ node.prio new_val then q else reorder lowered i

-- `kt_prio_queue_insert`: `false` stands for -1.
unfoldable pub insert : PrioQueue → ℤ → ℕ → Bool × PrioQueue
insert q prio payload =
    let last : Node = record { prio = int64_max; payload = payload } in
    let grown = record q { elems = set q.elems q.size last; size = q.size + 1 } in
    if q.size == q.cap then (false, q) else (true, decrease_key grown q.size prio)

-- The choice of `min_idx` in `_kt_prio_queue_heapify`: each test sets it on both branches.
unfoldable pub min_index : PrioQueue → ℕ → ℕ
min_index q i =
    let m =
      if ltb (left i) q.size && ltb_ℤ (node_at q.elems (left i)).prio (node_at q.elems i).prio
      then left i
      else i in
    if ltb (right i) q.size && ltb_ℤ (node_at q.elems (right i)).prio (node_at q.elems m).prio
    then right i
    else i

-- `_kt_prio_queue_heapify`; the fuel bounds the depth of the recursion, and `q.size + 1` suffices.
unfoldable pub heapify_loop : ℕ → PrioQueue → ℕ → PrioQueue
heapify_loop zero q i = q
heapify_loop (suc fuel) q i =
    let m = min_index q i in
    let sink = heapify_loop fuel (record q { elems = swap q.elems i m }) m in
    if m == i then q else sink

unfoldable pub heapify : PrioQueue → ℕ → PrioQueue
unfolding heapify_loop
heapify q i = heapify_loop (q.size + 1) q i

-- `kt_prio_queue_extract_min`: `none` stands for -1, with `*data` as it was.
unfoldable pub extract_min : PrioQueue → Option ℕ × PrioQueue
extract_min q =
    let moved = set q.elems 0 (node_at q.elems (q.size - 1)) in
    let shrunk = record q { elems = moved; size = q.size - 1 } in
    if leb q.size 0 then (none, q) else (some (node_at q.elems 0).payload, heapify shrunk 0)

-- `kt_prio_queue_delete_key`
unfoldable pub delete_key : PrioQueue → ℕ → PrioQueue
delete_key q i = (extract_min (decrease_key q i int32_min)).1
