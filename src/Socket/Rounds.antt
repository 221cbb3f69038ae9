-- ===== src/Socket/Rounds.antt =====
-- What the loop of ktsnd_socket.c does with its queue.
use kuberne_tsn.Common.{
  ℕ, zero, suc, sub32, ◌-◌, ◌^◌, ◌<◌, ◌≡◌, refl, ap, ◌∙◌, List, [], ◌∷◌, ◌++◌, arith, length,
  replicate, ltb, true,
}
use kuberne_tsn.Common.Int.{ltb_ℤ, ◌-ℤ◌, ◌<ℤ◌}
use kuberne_tsn.Common.Run.{done}
use kuberne_tsn.Ring
use kuberne_tsn.Ring.{
  RingBuf, variable, Moved, none_moved, move_cons_head, do_dequeue_elems, dequeue_burst,
}
use kuberne_tsn.Ring.Inv.{contents}
use kuberne_tsn.Ring.Single.{enqueue_one}
use kuberne_tsn.PrioQueue.{Node, node_at, getmin, extract_min}
use kuberne_tsn.PrioQueue.Order.{IsValid}
use kuberne_tsn.PrioQueue.Extract.{Removed, extract_min-Removed}
use kuberne_tsn.Socket.{SocketSender, Tick, wakeup_ns, give_back, serve, round, main_loop}

-- A ring of any size in which nothing is left to take gives no words, and stays as it is.
move_cons_head-empty :
    (spurious : ℕ) (rb : RingBuf)
    → rb.prod.tail ≡ rb.cons.head
    → move_cons_head spurious rb 8 variable ≡ (none_moved 0, rb)
unfolding move_cons_head
move_cons_head-empty zero rb same =
    let none_left : sub32 rb.prod.tail rb.cons.head ≡ 0 = omega arith in
    rw (none_left, move_cons_head) refl
move_cons_head-empty (suc spurious) rb same =
    let none_left : sub32 rb.prod.tail rb.cons.head ≡ 0 = omega arith in
    rw (none_left, move_cons_head) refl

dequeue_burst-empty :
    (spurious : ℕ) (rb : RingBuf)
    → rb.prod.tail ≡ rb.cons.head
    → dequeue_burst spurious rb (replicate 64 0) 8 8 ≡ done (0, 0, replicate 64 0, rb)
unfolding dequeue_burst do_dequeue_elems
dequeue_burst-empty spurious rb same =
    let none_taken = move_cons_head-empty spurious rb same in
    rw (none_taken, ap (λ (m : Moved × RingBuf). m.1) none_taken, do_dequeue_elems, dequeue_burst)
      refl

round-idle :
    (tick : Tick) (s : SocketSender)
    → s.tx_ring.prod.tail ≡ s.tx_ring.cons.head
    → round tick s ≡ done s
unfolding round
round-idle tick s same = rw (dequeue_burst-empty tick.spurious_tx s.tx_ring same, round) refl

-- While the ring of packets to send, whatever its size, has no new packet, each round ends before it looks at
-- the queue: however long the loop runs and whatever the time is, the queue, with every packet that is in
-- it, and both rings stay as they are.
pub main_loop-starves :
    (ticks : List Tick) (s : SocketSender)
    → s.tx_ring.prod.tail ≡ s.tx_ring.cons.head
    → main_loop ticks s ≡ done s
unfolding main_loop
main_loop-starves [] s same = refl
main_loop-starves (tick ∷ ticks) s same =
    rw (round-idle tick s same, main_loop) (main_loop-starves ticks s same)

module _ (tick : Tick) (s : SocketSender) where
  abbrev first : Node
  first = node_at s.queue.elems 0

  -- When the first packet of a valid queue is due, its time over or less than `wakeup_ns` away, and the ring
  -- of free packets is valid and has room, it is taken out of the queue and its index put into that ring.
  pub serve-frees :
      {k : ℕ}
      → IsValid s.queue
      → Ring.Inv.IsValid k s.free_ring
      → 0 < s.queue.size
      → (node_at s.queue.elems 0).prio -ℤ wakeup_ns <ℤ tick.now
      → length (contents s.free_ring) < 2 ^ k - 1
      → (s' : SocketSender) × (serve tick s ≡ done s')
        × Ring.Inv.IsValid k s'.free_ring
        × (contents s'.free_ring ≡ contents s.free_ring ++ ((node_at s.queue.elems 0).payload ∷ []))
        × Removed s.queue (node_at s.queue.elems 0) s'.queue
  unfolding serve give_back getmin
  serve-frees v free_v some_left due room =
      let pos : ltb 0 s.queue.size ≡ true = ground arith in
      let passed : ltb_ℤ (first.prio -ℤ wakeup_ns) tick.now ≡ true = ground arith in
      let (out, removed) = extract_min-Removed v some_left in
      let (rb, left, rb_v, ran, holds) = enqueue_one free_v tick.spurious_free first.payload room in
      (
        record s { free_ring = rb; queue = (extract_min s.queue).1 },
        rw (pos, passed)
            (ap (λ o. give_back tick s (o, (extract_min s.queue).1)) out ∙ rw ran refl),
        rb_v,
        holds,
        removed,
      )
