-- ===== src/Socket/Tests.antt =====
-- A daemon with one packet in its queue, a ring of 100 words that is filled, and the theorems at them.
use kuberne_tsn.Common.{ℕ, suc, zero, ◌-◌, ◌≡◌, refl, List, [], ◌∷◌, get_or, replicate}
use kuberne_tsn.Common.Int.{pos}
use kuberne_tsn.Common.Run.{done}
use kuberne_tsn.Copy.{copy_unrolled, copy_words}
use kuberne_tsn.Packet.{null_metadata}
use kuberne_tsn.Ring.{
  RingBuf, enqueue_burst, dequeue_burst, do_enqueue_elems, do_dequeue_elems, move_prod_head,
  move_cons_head, enqueue_elems, dequeue_elems,
}
use kuberne_tsn.PrioQueue.{PrioQueue}
use kuberne_tsn.Sender.{fill_loop}
use kuberne_tsn.Socket.{SocketSender, Tick, fill_free, main_loop}
use kuberne_tsn.Socket.Rounds.{main_loop-starves}

-- an empty ring of `n` words, as `kt_ringbuf_create` makes it
abbrev ring_of : ℕ → RingBuf
ring_of n = record {
  name = [];
  data_ptr = 0;
  size = n;
  esize = 1;
  mask = n - 1;
  capacity = n - 1;
  prod = record { head = 0; tail = 0 };
  cons = record { head = 0; tail = 0 };
  ring = replicate n 0;
}

-- the words that come out of a ring one by one
abbrev outs : ℕ → RingBuf → List ℕ
outs zero rb = []
outs (suc n) rb = elim (dequeue_burst 0 rb (0 ∷ []) 8 1) [
  | done (nb, left, table, rb') ↦ get_or table 0 0 ∷ outs n rb'
  | _ ↦ []
]

-- The fifth index that comes out of the filled ring of 100 words is the first one again.
fill_repeats :
    (elim (fill_free (ring_of 100)) as (λ _. List ℕ) [ done rb ↦ outs 5 rb | _ ↦ [] ])
    ≡ 28 ∷ 29 ∷ 30 ∷ 31 ∷ 28 ∷ []
unfolding fill_free fill_loop enqueue_burst dequeue_burst do_enqueue_elems do_dequeue_elems
    move_prod_head move_cons_head enqueue_elems dequeue_elems copy_unrolled copy_words
fill_repeats = refl

abbrev queue : PrioQueue
queue = record { elems = record { prio = pos 70000; payload = 2 } ∷ []; cap = 1; size = 1 }

-- the rings of 100 words after a packet has come in and is in the queue
abbrev daemon : SocketSender
daemon = record {
  tx_ring = record (ring_of 100) {
    prod = record { head = 1; tail = 1 };
    cons = record { head = 1; tail = 1 };
  };
  free_ring = record (ring_of 100) { cons = record { head = 1; tail = 1 } };
  queue = queue;
  metadata_pool = null_metadata ∷ [];
}

-- long after the packet's time
abbrev late : Tick
late = record { spurious_tx = 0; spurious_free = 0; now = pos 900000 }

main_loop-starves_example : main_loop (late ∷ late ∷ []) daemon ≡ done daemon
main_loop-starves_example = main_loop-starves (late ∷ late ∷ []) daemon refl
