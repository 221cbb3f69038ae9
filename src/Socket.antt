-- ===== src/Socket.antt =====
-- ktsnd_socket.c, the daemon that is to send over a socket: the same rings and queue as in ktsnd.c, with
-- a loop of its own. It sends nothing yet. Printing is left out.
pub mod Rounds
pub mod Main
pub mod Cleanup
mod Tests
use kuberne_tsn.Common.{ℕ, Option, none, some, List, [], ◌∷◌, replicate, ltb, ◌==◌, if◌then◌else◌}
use kuberne_tsn.Common.Int.{ℤ, pos, ltb_ℤ, ◌-ℤ◌}
use kuberne_tsn.Common.Run.{Run, done, ◌>>=◌}
use kuberne_tsn.Packet.{Metadata}
use kuberne_tsn.Ring.{RingBuf, enqueue_burst, dequeue_burst}
use kuberne_tsn.PrioQueue.{PrioQueue, getmin, extract_min}
use kuberne_tsn.Sender.{insert_all, fill_loop}

-- the variables of the loop and the shared memory
pub record SocketSender : Type 0 where
  pub tx_ring : RingBuf
  pub free_ring : RingBuf
  pub queue : PrioQueue
  pub metadata_pool : List Metadata

-- What one round meets: the spurious failures on each ring, and the time.
pub record Tick : Type 0 where
  pub spurious_tx : ℕ
  pub spurious_free : ℕ
  pub now : ℤ

-- `ring_elem_count`
abbrev pub ring_elem_count : ℕ
ring_elem_count = 100

-- `wakeup_ns`
abbrev pub wakeup_ns : ℤ
wakeup_ns = pos 10000

-- The loop that fills the ring of free packets: it runs to the number of elements, not to the capacity.
unfoldable pub fill_free : RingBuf → Run RingBuf
fill_free rb = fill_loop ring_elem_count 0 rb

-- What follows a call of `kt_prio_queue_extract_min`; when it fails the round ends.
unfoldable pub give_back : Tick → SocketSender → Option ℕ × PrioQueue → Run SocketSender
give_back tick s (none, queue) = done (record s { queue = queue })
give_back tick s (some mbuf_index, queue) = do
  (nb, left, rb) ← enqueue_burst tick.spurious_free s.free_ring (mbuf_index ∷ []) 8 1
  done (record s { free_ring = rb; queue = queue })

-- The second part of a round.
unfoldable pub serve : Tick → SocketSender → Run SocketSender
serve tick s =
    let due = give_back tick s (extract_min s.queue) in
    if ltb 0 s.queue.size
    then if ltb_ℤ (getmin s.queue -ℤ wakeup_ns) tick.now then due else done s
    else done s

-- One round of the loop: without a new packet it starts again at once.
unfoldable pub round : Tick → SocketSender → Run SocketSender
round tick s = do
  (nb_elem, left, table, rb) ← dequeue_burst tick.spurious_tx s.tx_ring (replicate 64 0) 8 8
  let taken = record s { tx_ring = rb } in
      let inserted = record taken { queue = insert_all nb_elem 0 table s.metadata_pool s.queue } in
      if nb_elem == 0 then done taken else serve tick inserted

-- the loop over the rounds that `g_run` lets through
unfoldable pub main_loop : List Tick → SocketSender → Run SocketSender
main_loop [] s = done s
main_loop (tick ∷ ticks) s = round tick s >>= λ next. main_loop ticks next
