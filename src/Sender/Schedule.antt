-- ===== src/Sender/Schedule.antt =====
-- The second part of a round of the daemon's loop.
use mathlib.Core.List.Perm
use mathlib.Core.List.{append_assoc, perm_middle}
use kuberne_tsn.Common.{
  ℕ, ◌+◌, ◌-◌, ◌*◌, ◌^◌, ◌<◌, ◌≡◌, refl, ap, ◌∙◌, none, some, List, [], ◌∷◌, ◌++◌, map, Perm, arith,
  length, true, false, ◌==◌, ℕ_discrete,
}
use kuberne_tsn.Common.Int.{ℤ, pos, ◌+ℤ◌, ◌-ℤ◌, ltb_ℤ, ◌<ℤ◌, ◌≤ℤ◌, int_laws}
use kuberne_tsn.Common.Run.{done, aborted}
use kuberne_tsn.Clock.{get_time_diff_ns}
use kuberne_tsn.Packet.{metadata_at, mbuf_size}
use kuberne_tsn.Ring.{RingBuf, enqueue_burst}
use kuberne_tsn.Ring
use kuberne_tsn.Ring.Inv.{contents}
use kuberne_tsn.Ring.Single.{enqueue_one}
use kuberne_tsn.PrioQueue.{Node, PrioQueue, node_at, is_empty, getmin, extract_min}
use kuberne_tsn.PrioQueue.Order.{IsValid, live}
use kuberne_tsn.PrioQueue.Extract.{Removed, extract_min-Removed}
use kuberne_tsn.Sender.{Sender, Round, tx_delta_ns, transmit, fetched, send_packet, schedule}
use kuberne_tsn.Sender.Frame.{TxBuf, Network, prepare_packet}

-- the packet indices that the daemon holds: free ones, and those of the packets in its queue
abbrev pub indices : Sender → List ℕ
indices s = contents s.free_ring ++ map (λ (n : Node). n.payload) (live s.queue)

-- the packet that is due first
abbrev pub first : Sender → Node
first s = node_at s.queue.elems 0

-- The tests of a round, by the time that the first packet is due.
module _ (now : ℤ) (due : ℤ) where
  not_due : now +ℤ tx_delta_ns <ℤ due → ltb_ℤ tx_delta_ns (due -ℤ now) ≡ true
  not_due later = grind int_laws

  in_reach : due ≤ℤ now +ℤ tx_delta_ns → ltb_ℤ tx_delta_ns (due -ℤ now) ≡ false
  in_reach soon = grind int_laws

  overdue : due <ℤ now → ltb_ℤ (due -ℤ now) (pos 0) ≡ true
  overdue past = grind int_laws

  in_time : now ≤ℤ due → ltb_ℤ (due -ℤ now) (pos 0) ≡ false
  in_time later = grind int_laws

-- Taking a node out of the queue takes its index out of those that are held.
indices-Removed :
    (free : List ℕ) {q q' : PrioQueue} {node : Node}
    → Removed q node q'
    → Perm
        (free ++ (node.payload ∷ map (λ (n : Node). n.payload) (live q')))
        (free ++ map (λ (n : Node). n.payload) (live q))
indices-Removed free removed =
    Perm.append_left free (Perm.map (λ (n : Node). n.payload) removed.others)

module _ (net : Network) (r : Round) (s : Sender) where
  -- With no packet in the queue the second part of a round does nothing, nor does it when the first
  -- packet is due later than `tx_delta_ns` from now.
  pub schedule-waits :
      (0 < s.queue.size → r.now +ℤ tx_delta_ns <ℤ (first s).prio) → schedule net r s ≡ done s
  unfolding schedule get_time_diff_ns is_empty getmin
  schedule-waits later = elim (ℕ_discrete s.queue.size 0) [
    | yes none_left ↦ rw none_left refl
    | no some_left ↦
        let some : (s.queue.size == 0) ≡ false = ground arith in
        let wait = not_due r.now (first s).prio (later (omega arith)) in rw (some, wait) refl
  ]

  -- When the time of the first packet of a valid queue has passed, it is taken out of the queue and not sent, and its
  -- index is not put into the ring of free packets: it is lost to the daemon.
  pub schedule-drops :
      IsValid s.queue
      → 0 < s.queue.size
      → (first s).prio <ℤ r.now
      → (s' : Sender) × (schedule net r s ≡ done s')
        × (s'.sent ≡ s.sent)
        × (s'.free_ring ≡ s.free_ring)
        × Removed s.queue (first s) s'.queue
        × Perm ((first s).payload ∷ indices s') (indices s)
  unfolding schedule get_time_diff_ns is_empty getmin
  schedule-drops v some_left past =
      let some : (s.queue.size == 0) ≡ false = ground arith in
      let near = in_reach r.now (first s).prio (grind int_laws) in
      let late = overdue r.now (first s).prio past in
      let (out, removed) = extract_min-Removed v some_left in
      (
        record s { queue = (extract_min s.queue).1 },
        rw (some, near, late) refl,
        refl,
        refl,
        removed,
        Perm.trans
            (Perm.symm (
              perm_middle (contents s.free_ring)
                (map (λ (n : Node). n.payload) (live (extract_min s.queue).1))))
            (indices-Removed (contents s.free_ring) removed),
      )

  -- What the daemon is once the first packet is sent.
  abbrev pub sender_sent : TxBuf → RingBuf → Sender
  sender_sent tx_buf rb =
      let i = (first s).payload in
      record s {
        free_ring = rb;
        queue = (extract_min s.queue).1;
        sent =
            prepare_packet net tx_buf s.mbuf_pool (i * mbuf_size) (metadata_at s.metadata_pool i)
            ∷ s.sent;
        counter = s.counter + 1;
      }

  transmit-done :
      {tx_buf : TxBuf} {n left : ℕ} {rb : RingBuf}
      → r.tx_buf ≡ some tx_buf
      → enqueue_burst r.spurious_free s.free_ring ((first s).payload ∷ []) 8 1 ≡ done (n, left, rb)
      → transmit net r s (extract_min s.queue).1 (first s).payload ≡ done (sender_sent tx_buf rb)
  unfolding transmit
  transmit-done buffer ran = rw (buffer, ran, transmit) refl

  -- Sending ends when the buffer and room in the ring of free packets are there.
  pub send_packet-done :
      {k : ℕ} {tx_buf : TxBuf}
      → IsValid s.queue
      → Ring.Inv.IsValid k s.free_ring
      → 0 < s.queue.size
      → r.tx_buf ≡ some tx_buf
      → length (contents s.free_ring) < 2 ^ k - 1
      → (rb : RingBuf) × (send_packet net r s ≡ done (sender_sent tx_buf rb))
        × Ring.Inv.IsValid k rb
        × (contents rb ≡ contents s.free_ring ++ ((first s).payload ∷ []))
        × Removed s.queue (first s) (extract_min s.queue).1
  unfolding send_packet fetched
  send_packet-done v free_v some_left buffer room =
      let (out, removed) = extract_min-Removed v some_left in
      let (rb, left, rb_v, ran, holds) =
        enqueue_one free_v r.spurious_free (first s).payload room in
      (
        rb,
        ap (λ o. transmit net r s (extract_min s.queue).1 (fetched o)) out
            ∙ transmit-done buffer ran,
        rb_v,
        holds,
        removed,
      )

  -- Without a buffer the daemon faults.
  pub send_packet-faults : r.tx_buf ≡ none → send_packet net r s ≡ aborted
  unfolding send_packet transmit
  send_packet-faults no_buffer = rw (no_buffer, send_packet, transmit) refl

  -- When the first packet of a valid queue is due now, or within `tx_delta_ns`, there is a buffer for it
  -- and the ring of free packets is valid and has room, it is taken out of the queue and sent as
  -- `prepare_packet` makes it of its metadata and payload, and its index is put into the ring of free
  -- packets: the daemon holds the same indices as before.
  pub schedule-sends :
      {k : ℕ} {tx_buf : TxBuf}
      → IsValid s.queue
      → Ring.Inv.IsValid k s.free_ring
      → 0 < s.queue.size
      → r.now ≤ℤ (first s).prio
      → (first s).prio ≤ℤ r.now +ℤ tx_delta_ns
      → r.tx_buf ≡ some tx_buf
      → length (contents s.free_ring) < 2 ^ k - 1
      → let i = (first s).payload in
        (s' : Sender) × (schedule net r s ≡ done s')
        × (s'.sent
            ≡ prepare_packet net tx_buf s.mbuf_pool (i * mbuf_size) (metadata_at s.metadata_pool i)
              ∷ s.sent)
        × Ring.Inv.IsValid k s'.free_ring
        × (contents s'.free_ring ≡ contents s.free_ring ++ (i ∷ []))
        × Removed s.queue (first s) s'.queue
        × Perm (indices s') (indices s)
  unfolding schedule get_time_diff_ns is_empty getmin
  schedule-sends {tx_buf = tx_buf} v free_v some_left lo hi buffer room =
      let some : (s.queue.size == 0) ≡ false = ground arith in
      let near = in_reach r.now (first s).prio hi in
      let late = in_time r.now (first s).prio lo in
      let (rb, ran, rb_v, holds, removed) = send_packet-done v free_v some_left buffer room in
      (
        sender_sent tx_buf rb,
        rw (some, near, late) ran,
        refl,
        rb_v,
        holds,
        removed,
        rw (holds, append_assoc) (indices-Removed (contents s.free_ring) removed),
      )
