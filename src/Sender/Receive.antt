-- ===== src/Sender/Receive.antt =====
-- The first part of a round of the daemon's loop.
use mathlib.Core.List.Perm
use mathlib.Core.List.{perm_middle}
use kuberne_tsn.Common.{
  ℕ, zero, suc, ◌+◌, ◌%◌, ◌≤◌, ◌≡◌, refl, ap, ◌∙◌, List, [], ◌∷◌, ◌++◌, map, arith, length, get_or,
  take, drop, replicate, length-take,
}
use kuberne_tsn.Common.Int.{◌≤ℤ◌}
use kuberne_tsn.Common.Run.{done}
use kuberne_tsn.Clock.{as_i64}
use kuberne_tsn.Packet.{Metadata, metadata_at, read_bytes}
use kuberne_tsn.PrioQueue.{Node, PrioQueue, int64_max}
use kuberne_tsn.PrioQueue.Order.{IsHeap, IsValid, live}
use kuberne_tsn.PrioQueue.Insert.{Holds, insert_correct}
use kuberne_tsn.Ring
use kuberne_tsn.Ring.{RingBuf, variable, dequeue_burst}
use kuberne_tsn.Ring.Inv.{contents}
use kuberne_tsn.Ring.Spec.{granted}
use kuberne_tsn.Ring.Heads.{granted-le}
use kuberne_tsn.Ring.Dequeue.{dequeue_refines}
use kuberne_tsn.Sender.{Sender, insert_all, receive}

-- the node that the daemon makes for the packet with an index
abbrev pub packet : List Metadata → ℕ → Node
packet pool i = record { prio = as_i64 (metadata_at pool i).txtime; payload = i }

pub as_i64-le : (t : ℕ) → as_i64 t ≤ℤ int64_max
unfolding as_i64
as_i64-le t = ground arith

insert_all-Holds :
    (n i : ℕ) (table : List ℕ) (pool : List Metadata) {q : PrioQueue}
    → IsValid q
    → IsHeap q.size q.elems
    → q.size + n ≤ q.cap
    → Holds q (map (packet pool) (read_bytes n table i) ++ live q) (insert_all n i table pool q)
unfolding insert_all read_bytes
insert_all-Holds zero i table pool {q} v heap room = record {
  valid = v;
  heap = heap;
  nodes = Perm.refl (live q);
  same_cap = refl;
}
insert_all-Holds (suc n) i table pool {q} v heap room =
    let offset = get_or table i 0 in
    let txtime = as_i64 (metadata_at pool offset).txtime in
    let (ok, grown, one) =
      insert_correct {q = q} txtime offset v heap (omega arith)
        (as_i64-le (metadata_at pool offset).txtime) in
    let rest =
      insert_all-Holds n (i + 1) table pool one.valid one.heap (omega (arith, one.same_cap)) in
    let others = map (packet pool) (read_bytes n table (i + 1)) in
    record {
      valid = rest.valid;
      heap = rest.heap;
      nodes =
          Perm.trans rest.nodes
            (Perm.trans (Perm.append_left others one.nodes) (perm_middle others (live q)));
      same_cap = rest.same_cap ∙ one.same_cap;
    }

read_bytes-cons :
    (n : ℕ) (x : ℕ) (xs : List ℕ) (i : ℕ) → read_bytes n (x ∷ xs) (suc i) ≡ read_bytes n xs i
unfolding read_bytes
read_bytes-cons zero x xs i = refl
read_bytes-cons (suc n) x xs i =
    let next = ap (read_bytes n (x ∷ xs)) (omega arith) ∙ read_bytes-cons n x xs (i + 1) in
    ap (λ t. get_or xs i 0 ∷ t) next

read_bytes-take : (n : ℕ) (xs : List ℕ) → n ≤ length xs → read_bytes n xs 0 ≡ take n xs
unfolding read_bytes
read_bytes-take zero xs le = refl
read_bytes-take (suc n) [] le = absurd (omega arith)
read_bytes-take (suc n) (x ∷ xs) le =
    ap (λ t. x ∷ t) (read_bytes-cons n x xs 0 ∙ read_bytes-take n xs (omega arith))

take-append-drop : (n : ℕ) (xs : List ℕ) → take n xs ++ drop n xs ≡ xs
take-append-drop zero xs = refl
take-append-drop (suc n) [] = refl
take-append-drop (suc n) (x ∷ xs) = ap (λ t. x ∷ t) (take-append-drop n xs)

-- What the first part of a round takes out of the ring, and the loop over it.
pub receive-takes :
    (spurious : ℕ) (s : Sender) {k : ℕ}
    → Ring.Inv.IsValid k s.tx_ring
    → let g = granted variable 8 (length (contents s.tx_ring)) in
      s.tx_ring.cons.tail % s.tx_ring.size + g ≤ s.tx_ring.size
      → (table : List ℕ) × (rb : RingBuf) × (receive spurious s
          ≡ done (record s { tx_ring = rb; queue = insert_all g 0 table s.metadata_pool s.queue }))
        × Ring.Inv.IsValid k rb
        × (take g (contents s.tx_ring) ++ contents rb ≡ contents s.tx_ring)
        × (read_bytes g table 0 ≡ take g (contents s.tx_ring))
unfolding receive dequeue_burst
receive-takes spurious s rv straight =
    let words = contents s.tx_ring in
    let g = granted variable 8 (length words) in
    let bounds = granted-le variable 8 (length words) in
    let (table, rb, rb_v, (ran, out, holds)) =
      dequeue_refines rv spurious (replicate 64 0) 8 variable (omega arith) straight in
    let long : g ≤ length table =
      omega (arith, ap length out, length-take g table, length-take g words) in
    (
      table,
      rb,
      rw (ran, receive) refl,
      rb_v,
      rw holds (take-append-drop g words),
      read_bytes-take g table long ∙ out,
    )

-- A round takes up to eight indices out of the ring of packets to send, and adds each with the time
-- from its metadata to the queue, if they end before the end of the ring and the queue has room.
pub receive_correct :
    (spurious : ℕ) (s : Sender) {k : ℕ}
    → Ring.Inv.IsValid k s.tx_ring
    → IsValid s.queue
    → IsHeap s.queue.size s.queue.elems
    → let g = granted variable 8 (length (contents s.tx_ring)) in
      s.tx_ring.cons.tail % s.tx_ring.size + g ≤ s.tx_ring.size
      → s.queue.size + g ≤ s.queue.cap
      → (s' : Sender) × (receive spurious s ≡ done s')
        × Ring.Inv.IsValid k s'.tx_ring
        × (take g (contents s.tx_ring) ++ contents s'.tx_ring ≡ contents s.tx_ring)
        × Holds s.queue
            (map (packet s.metadata_pool) (take g (contents s.tx_ring)) ++ live s.queue)
            s'.queue
receive_correct spurious s rv v heap straight room =
    let g = granted variable 8 (length (contents s.tx_ring)) in
    let (table, rb, ran, rb_v, holds, entries) = receive-takes spurious s rv straight in
    (
      record s { tx_ring = rb; queue = insert_all g 0 table s.metadata_pool s.queue },
      ran,
      rb_v,
      holds,
      rw entries at (insert_all-Holds g 0 table s.metadata_pool v heap room),
    )
