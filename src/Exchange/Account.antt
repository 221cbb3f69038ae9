-- ===== src/Exchange/Account.antt =====
-- Every index of a packet is in one place: in the ring of free packets, in the ring of packets to
-- send, in the daemon's queue, or lost.
use mathlib.Core.List.Perm
use kuberne_tsn.Common.{
  Bool, ℕ, zero, suc, ◌+◌, ◌-◌, ◌*◌, ◌^◌, ◌≤◌, ◌≡◌, refl, ap, List, [], ◌∷◌, map, arith, length,
  length-append, length-take, get_or, ltb, if◌then◌else◌,
}
use kuberne_tsn.Common.Perms.{occurs, occurs-append, occurs-Perm}
use kuberne_tsn.Packet.{Metadata, metadata_at, mbuf_size, read_bytes}
use kuberne_tsn.Clock.{as_i64}
use kuberne_tsn.Ring
use kuberne_tsn.Ring.Inv.{contents}
use kuberne_tsn.PrioQueue.{Node, PrioQueue}
use kuberne_tsn.PrioQueue.Order.{IsValid, live}
use kuberne_tsn.PrioQueue.Nodes.{fails, fails-Perm, Added, insert-Added}
use kuberne_tsn.PrioQueue.Extract.{Removed}
use kuberne_tsn.Sender.{insert_all}
use kuberne_tsn.Sender.Receive.{packet, as_i64-le}
use kuberne_tsn.Sender.Startup.{count_up}
use kuberne_tsn.Exchange.{Exchange, payloads, waiting, held, Start}

-- The state is well formed, and each of the 2 ^ k - 1 indices is held once, or lost once.
pub record Inv (k : ℕ) (lost : List ℕ) (x : Exchange) : Type 0 where
  pub free_valid : Ring.Inv.IsValid k x.lib.free_ring
  pub tx_valid : Ring.Inv.IsValid k x.lib.tx_ring
  pub queue_valid : IsValid x.queue
  pub queue_cap : x.queue.cap ≡ 2 ^ k - 1
  pub metadata_size : 2 ^ k - 1 ≤ length x.lib.metadata_pool
  pub payload_size : (2 ^ k - 1) * mbuf_size ≤ length x.lib.mbuf_pool
  pub once : (a : ℕ) → occurs a lost + occurs a (held x) ≡ (if ltb a (2 ^ k - 1) then 1 else 0)
  pub number : length lost + length (held x) ≡ 2 ^ k - 1

length-map : (ns : List Node) → length (map (λ (n : Node). n.payload) ns) ≡ length ns
length-map [] = refl
length-map (n ∷ ns) = ap suc (length-map ns)

pub length-payloads : {q : PrioQueue} → IsValid q → length (payloads q) ≡ q.size
length-payloads {q} v = omega (arith, length-map (live q), length-take q.size q.elems, v)

-- The counts of the parts, of which `held` is made.
pub occurs-held :
    (a : ℕ) (x : Exchange)
    → occurs a (held x)
      ≡ occurs a (contents x.lib.free_ring)
        + (occurs a (contents x.lib.tx_ring) + occurs a (payloads x.queue))
occurs-held a x = omega (
  arith,
  occurs-append a (contents x.lib.free_ring) (waiting x),
  occurs-append a (contents x.lib.tx_ring) (payloads x.queue),
)

pub length-held :
    (x : Exchange)
    → length (held x)
      ≡ length (contents x.lib.free_ring)
        + (length (contents x.lib.tx_ring) + length (payloads x.queue))
length-held x = omega (
  arith,
  length-append (contents x.lib.free_ring) (waiting x),
  length-append (contents x.lib.tx_ring) (payloads x.queue),
)

-- What taking a node out of a queue, and putting one in, does to its indices.
pub occurs-Removed :
    {q q' : PrioQueue} {node : Node}
    → Removed q node q'
    → (a : ℕ) → occurs a (node.payload ∷ payloads q') ≡ occurs a (payloads q)
occurs-Removed removed a = occurs-Perm a (Perm.map (λ (n : Node). n.payload) removed.others)

occurs-Added :
    {q q' : PrioQueue} {node : Node}
    → Added q node q'
    → (a : ℕ) → occurs a (payloads q') ≡ occurs a (node.payload ∷ payloads q)
occurs-Added added a = occurs-Perm a (Perm.map (λ (n : Node). n.payload) added.nodes)

-- `q'` is `q` with the indices `is` put in.
pub record Grown (pool : List Metadata) (is : List ℕ) (q q' : PrioQueue) : Type 0 where
  pub valid : IsValid q'
  pub same_cap : q'.cap ≡ q.cap
  pub more : q'.size ≡ q.size + length is
  pub counts : (a : ℕ) → occurs a (payloads q') ≡ occurs a is + occurs a (payloads q)
  pub tests :
      (ok : Node → Bool) → fails ok (live q') ≡ fails ok (map (packet pool) is) + fails ok (live q)

pub insert_all-Grown :
    (n i : ℕ) (table : List ℕ) (pool : List Metadata) {q : PrioQueue}
    → IsValid q
    → q.size + n ≤ q.cap
    → Grown pool (read_bytes n table i) q (insert_all n i table pool q)
unfolding insert_all read_bytes
insert_all-Grown zero i table pool {q} v room = record {
  valid = v;
  same_cap = refl;
  more = omega arith;
  counts = λ a. omega arith;
  tests = λ ok. omega arith;
}
insert_all-Grown (suc n) i table pool {q} v room =
    let offset = get_or table i 0 in
    let txtime = as_i64 (metadata_at pool offset).txtime in
    let one =
      insert-Added {q = q} txtime offset v (omega arith)
        (as_i64-le (metadata_at pool offset).txtime) in
    let rest = insert_all-Grown n (i + 1) table pool one.valid (omega (arith, one)) in
    record {
      valid = rest.valid;
      same_cap = omega (arith, one, rest);
      more = omega (arith, one, rest);
      counts = λ a. omega (arith, rest.counts a, occurs-Added one a);
      tests = λ ok. omega (arith, rest.tests ok, fails-Perm ok one.nodes);
    }

occurs-count_up :
    (a n i : ℕ) → occurs a (count_up n i) ≡ (if ltb a i then 0 else if ltb a (i + n) then 1 else 0)
occurs-count_up a zero i = ground arith
occurs-count_up a (suc n) i = ground (arith, occurs-count_up a n (i + 1))

length-count_up : (n i : ℕ) → length (count_up n i) ≡ n
length-count_up zero i = refl
length-count_up (suc n) i = ap suc (length-count_up n (i + 1))

-- At the start every index is free.
pub Start-Inv : {k : ℕ} {x : Exchange} → Start k x → Inv k [] x
Start-Inv {k} {x} s =
    let nothing : payloads x.queue ≡ [] = rw s.none_pending refl in
    record {
      free_valid = s.free_valid;
      tx_valid = s.tx_valid;
      queue_valid = s.queue_valid;
      queue_cap = s.queue_cap;
      metadata_size = s.metadata_size;
      payload_size = s.payload_size;
      once = λ a.
          rw (occurs-held a x, s.all_free, s.none_queued, nothing)
            (ground (arith, occurs-count_up a (2 ^ k - 1) 0));
      number =
          rw (length-held x, s.all_free, s.none_queued, nothing)
            (omega (arith, length-count_up (2 ^ k - 1) 0));
    }
