-- ===== src/Sender.antt =====
-- ktsnd.c, the daemon: it takes the indices of packets out of the ring `tx_ring`, keeps them in a
-- queue by their send time, sends each packet when its time has come, and puts its index into
-- `free_ring`. DPDK's answers are parameters. The mbufs of the pools are read only.
pub mod Frame
pub mod Schedule
pub mod Turn
pub mod Startup
pub mod Port
pub mod Setup
pub mod Receive
pub mod Main
pub mod Cleanup
mod Tests
use kuberne_tsn.Common.{
  ℕ, zero, suc, ◌+◌, ◌-◌, ◌*◌, Bool, true, false, Option, none, some, List, [], ◌∷◌, ◌++◌, get_or,
  replicate, sub32, mul32, ltb, if◌then◌else◌,
}
use kuberne_tsn.Common.Int.{ℤ, pos, ltb_ℤ}
use kuberne_tsn.Common.Run.{Run, done, aborted, ◌>>=◌}
use kuberne_tsn.Allocator.{KtAllocator}
use kuberne_tsn.Clock.{get_time_diff_ns, as_i64}
use kuberne_tsn.Packet.{Metadata, metadata_at, mbuf_size}
use kuberne_tsn.Ring.{RingBuf, create, get_capacity, enqueue_burst, dequeue_burst}
use kuberne_tsn.PrioQueue.{PrioQueue, is_empty, getmin, insert, extract_min}
use kuberne_tsn.Sender.Frame.{TxBuf, Network, prepare_packet}

-- The variables of the main loop and the shared memory; `sent` is what `rte_eth_tx_burst` was given,
-- the last packet first.
pub record Sender : Type 0 where
  pub tx_ring : RingBuf
  pub free_ring : RingBuf
  pub queue : PrioQueue
  pub metadata_pool : List Metadata
  pub mbuf_pool : List ℕ
  pub sent : List TxBuf
  pub counter : ℕ

-- What one round of the loop meets: how often a compare-exchange fails spuriously on each ring, the
-- time, and the buffer from `rte_pktmbuf_alloc`, if it has one.
pub record Round : Type 0 where
  pub spurious_tx : ℕ
  pub spurious_free : ℕ
  pub now : ℤ
  pub tx_buf : Option TxBuf

-- `tx_delta_ns`
abbrev pub tx_delta_ns : ℤ
tx_delta_ns = pos 50000

-- The loop that inserts the first `n` entries of the table; what the insertion returns is dropped.
unfoldable pub insert_all : ℕ → ℕ → List ℕ → List Metadata → PrioQueue → PrioQueue
insert_all zero i table pool q = q
insert_all (suc n) i table pool q =
    let offset = get_or table i 0 in
    let txtime = as_i64 (metadata_at pool offset).txtime in
    insert_all n (i + 1) table pool (insert q txtime offset).1

-- The first part of a round. `table` is an array on the stack, whose first entries are written.
unfoldable pub receive : ℕ → Sender → Run Sender
receive spurious s = do
  (nb_elem, left, table, rb) ← dequeue_burst spurious s.tx_ring (replicate 64 0) 8 8
  done (record s { tx_ring = rb; queue = insert_all nb_elem 0 table s.metadata_pool s.queue })

-- Sends the packet with an index, and gives the index back. `aborted` stands for the write through the
-- NULL that `rte_pktmbuf_alloc` returns without buffers, which is only logged.
unfoldable pub transmit : Network → Round → Sender → PrioQueue → ℕ → Run Sender
transmit net r s queue mbuf_index =
    let metadata = metadata_at s.metadata_pool mbuf_index in
    elim r.tx_buf as (λ _. Run Sender) [
      | none ↦ aborted
      | some tx_buf ↦ do
        (nb, left, rb) ← enqueue_burst r.spurious_free s.free_ring (mbuf_index ∷ []) 8 1
        done (record s {
          free_ring = rb;
          queue = queue;
          sent = prepare_packet net tx_buf s.mbuf_pool (mbuf_index * mbuf_size) metadata ∷ s.sent;
          counter = s.counter + 1;
        })
    ]

-- `mbuf_index` after `kt_prio_queue_extract_min`, which does not write it when it fails
unfoldable pub fetched : Option ℕ → ℕ
fetched none = 0
fetched (some i) = i

-- The packet at the root of the queue is sent.
unfoldable pub send_packet : Network → Round → Sender → Run Sender
send_packet net r s = let (out, queue) = extract_min s.queue in transmit net r s queue (fetched out)

-- The second part of a round: the three cases of the comment in the source.
unfoldable pub schedule : Network → Round → Sender → Run Sender
schedule net r s =
    let txtime = getmin s.queue in
    let diff = get_time_diff_ns r.now txtime in
    let late = record s { queue = (extract_min s.queue).1 } in
    let sending = send_packet net r s in
    if is_empty s.queue
    then done s
    else if ltb_ℤ tx_delta_ns diff
    then done s
    else if ltb_ℤ diff (pos 0)
    then done late
    else sending

-- one round of the main loop
unfoldable pub round : Network → Round → Sender → Run Sender
round net r s = receive r.spurious_tx s >>= λ received. schedule net r received

-- the main loop over the rounds that `g_run` lets through
unfoldable pub main_loop : Network → List Round → Sender → Run Sender
main_loop net [] s = done s
main_loop net (r ∷ rs) s = round net r s >>= λ next. main_loop net rs next

-- The loop of `main` that puts the indices from `i` on into the ring of free packets.
unfoldable pub fill_loop : ℕ → ℕ → RingBuf → Run RingBuf
fill_loop zero i rb = done rb
fill_loop (suc n) i rb = do
  (nb, left, filled) ← enqueue_burst 0 rb (i ∷ []) 8 1
  fill_loop n (i + 1) filled

-- The same loop from its start: the capacity does not change on the way.
unfoldable pub fill_free : RingBuf → Run RingBuf
fill_free rb = fill_loop (get_capacity rb) 0 rb

-- `ring_elem_count`
abbrev pub ring_elem_count : ℕ
ring_elem_count = 128
