-- ===== src/Exchange/Rounds.antt =====
-- What a round of the daemon does to a state in which every index is in one place.
use mathlib.Core.Path.{subst}
use kuberne_tsn.Common.{
  some, ℕ, ◌+◌, ◌-◌, ◌%◌, ◌^◌, ◌≤◌, ◌<◌, ◌≡◌, sym, ap, ◌∙◌, List, [], ◌∷◌, ◌++◌, arith, some,
  length, length-append, take, Option-cases, inl, inr, dec_lt,
}
use kuberne_tsn.Common.Int.{◌+ℤ◌, ◌≤ℤ◌, ◌<ℤ◌}
use kuberne_tsn.Common.Run.{Run, done, done-inj}
use kuberne_tsn.Common.Perms.{occurs, occurs-append}
use kuberne_tsn.Ring
use kuberne_tsn.Ring.{RingBuf, variable}
use kuberne_tsn.Ring.Inv.{contents}
use kuberne_tsn.Ring.Spec.{granted}
use kuberne_tsn.Ring.Heads.{granted-le}
use kuberne_tsn.PrioQueue.{extract_min, node_at}
use kuberne_tsn.PrioQueue.Extract.{extract_min-Removed}
use kuberne_tsn.Sender.{Sender, Round, tx_delta_ns, insert_all, receive, send_packet, schedule}
use kuberne_tsn.Sender.Frame.{Network, TxBuf}
use kuberne_tsn.Sender.Receive.{receive-takes}
use kuberne_tsn.Sender.Schedule.{first, sender_sent, send_packet-done, send_packet-faults}
use kuberne_tsn.Sender.Turn.{Turn, rests, drops, sends, schedule-Turn}
use kuberne_tsn.Exchange.{Exchange, daemon, after, late_index}
use kuberne_tsn.Exchange.Account.{
  Inv, Grown, occurs-held, length-held, length-payloads, occurs-Removed, insert_all-Grown,
}

-- How the second half of a round can end.
pub data Served (k : ℕ) (net : Network) (r : Round) (x : Exchange) : Sender → Type 0 where
  rested : (0 < x.queue.size → r.now ≤ℤ (first (daemon x)).prio) → Served k net r x (daemon x)
  dropped :
      0 < x.queue.size
      → (first (daemon x)).prio <ℤ r.now
      → Served k net r x (record (daemon x) { queue = (extract_min x.queue).1 })
  sent :
      (tx_buf : TxBuf) (rb : RingBuf)
      → 0 < x.queue.size
      → r.now ≤ℤ (first (daemon x)).prio
      → (first (daemon x)).prio ≤ℤ r.now +ℤ tx_delta_ns
      → r.tx_buf ≡ some tx_buf
      → Ring.Inv.IsValid k rb
      → contents rb ≡ contents x.lib.free_ring ++ ((first (daemon x)).payload ∷ [])
      → Served k net r x (sender_sent net r (daemon x) tx_buf rb)

module _ {k : ℕ} {lost : List ℕ} {x : Exchange} (inv : Inv k lost x) where
  -- The first half of a round moves indices from the ring into the queue: there is room for them.
  pub take_in-Inv :
      (spurious : ℕ) {s : Sender}
      → x.lib.tx_ring.cons.tail % x.lib.tx_ring.size
          + granted variable 8 (length (contents x.lib.tx_ring))
        ≤ x.lib.tx_ring.size
      → receive spurious (daemon x) ≡ done s
      → Inv k lost (after x s) × ((is : List ℕ) × Grown x.lib.metadata_pool is x.queue s.queue)
  take_in-Inv spurious {s} straight ended =
      let words = contents x.lib.tx_ring in
      let g = granted variable 8 (length words) in
      let bounds = granted-le variable 8 (length words) in
      let (table, rb, ran, rb_v, moved, entries) =
        receive-takes spurious (daemon x) inv.tx_valid straight in
      let room : x.queue.size + g ≤ x.queue.cap =
        omega (arith, inv, length-held x, length-payloads inv.queue_valid) in
      let grown =
        rw entries at (insert_all-Grown g 0 table x.lib.metadata_pool inv.queue_valid room) in
      let s0 : Sender = record (daemon x) {
        tx_ring = rb;
        queue = insert_all g 0 table x.lib.metadata_pool x.queue;
      } in
      let y = after x s0 in
      let inv' : Inv k lost y = record {
        free_valid = inv.free_valid;
        tx_valid = rb_v;
        queue_valid = grown.valid;
        queue_cap = grown.same_cap ∙ inv.queue_cap;
        metadata_size = inv.metadata_size;
        payload_size = inv.payload_size;
        once = λ a.
            let whole = sym (occurs-append a (take g words) (contents rb)) ∙ ap (occurs a) moved in
            let split = occurs-held a x in
            let split' = occurs-held a y in omega (arith, inv.once a, grown.counts a);
        number =
            let whole = sym (length-append (take g words) (contents rb)) ∙ ap length moved in
            omega (
              arith,
              inv.number,
              length-held x,
              length-held y,
              length-payloads inv.queue_valid,
              length-payloads grown.valid,
              grown.more,
            );
      } in
      subst
        (λ (t : Sender).
          Inv k lost (after x t) × ((is : List ℕ) × Grown x.lib.metadata_pool is x.queue t.queue))
        (done-inj (sym ran ∙ ended)) (inv', (take g words, grown))

  -- Dropping the first packet loses its index.
  drops-Inv :
      0 < x.queue.size
      → Inv k
          ((node_at x.queue.elems 0).payload ∷ lost)
          (after x (record (daemon x) { queue = (extract_min x.queue).1 }))
  drops-Inv pos =
      let (out, removed) = extract_min-Removed inv.queue_valid pos in
      let y = after x (record (daemon x) { queue = (extract_min x.queue).1 }) in
      record {
        free_valid = inv.free_valid;
        tx_valid = inv.tx_valid;
        queue_valid = removed.valid;
        queue_cap = removed.same_cap ∙ inv.queue_cap;
        metadata_size = inv.metadata_size;
        payload_size = inv.payload_size;
        once = λ a.
            let split = occurs-held a x in
            let split' = occurs-held a y in omega (arith, inv.once a, occurs-Removed removed a);
        number = omega (
          arith,
          inv.number,
          length-held x,
          length-held y,
          length-payloads inv.queue_valid,
          length-payloads removed.valid,
          removed.one_less,
        );
      }

  -- Sending the first packet moves its index to the ring of free packets.
  sent-Inv :
      (net : Network) (r : Round) (tx_buf : TxBuf) (rb : RingBuf)
      → 0 < x.queue.size
      → Ring.Inv.IsValid k rb
      → contents rb ≡ contents x.lib.free_ring ++ ((first (daemon x)).payload ∷ [])
      → Inv k lost (after x (sender_sent net r (daemon x) tx_buf rb))
  sent-Inv net r tx_buf rb pos rb_v holds =
      let d = daemon x in
      let i = (first d).payload in
      let (out, removed) = extract_min-Removed inv.queue_valid pos in
      let y = after x (sender_sent net r d tx_buf rb) in
      let free = contents x.lib.free_ring in
      record {
        free_valid = rb_v;
        tx_valid = inv.tx_valid;
        queue_valid = removed.valid;
        queue_cap = removed.same_cap ∙ inv.queue_cap;
        metadata_size = inv.metadata_size;
        payload_size = inv.payload_size;
        once = λ a.
            let more = ap (occurs a) holds ∙ occurs-append a free (i ∷ []) in
            let split = occurs-held a x in
            let split' = occurs-held a y in omega (arith, inv.once a, occurs-Removed removed a);
        number =
            let more = ap length holds ∙ length-append free (i ∷ []) in
            omega (
              arith,
              inv.number,
              length-held x,
              length-held y,
              length-payloads inv.queue_valid,
              length-payloads removed.valid,
              removed.one_less,
            );
      }

  sends-Served :
      (net : Network) (r : Round) {s : Sender}
      → 0 < x.queue.size
      → r.now ≤ℤ (first (daemon x)).prio
      → (first (daemon x)).prio ≤ℤ r.now +ℤ tx_delta_ns
      → send_packet net r (daemon x) ≡ done s
      → Served k net r x s
  sends-Served net r {s} pos ahead near ended = elim (Option-cases r.tx_buf) [
    | inl no_buffer ↦
        let faults = sym (send_packet-faults net r (daemon x) no_buffer) ∙ ended in
        absurd (ground arith)
    | inr (tx_buf, buffer) ↦
        let before = length-payloads inv.queue_valid in
        let room : length (contents x.lib.free_ring) < 2 ^ k - 1 =
          omega (arith, inv.number, length-held x, before) in
        let (rb, ran, rb_v, holds, removed) =
          send_packet-done net r (daemon x) inv.queue_valid inv.free_valid pos buffer room in
        subst (Served k net r x) (done-inj (sym ran ∙ ended))
          (sent tx_buf rb pos ahead near buffer rb_v holds)
  ]

  Turn-Served :
      (net : Network) (r : Round) {s : Sender} {ran : Run Sender}
      → Turn net r (daemon x) ran
      → ran ≡ done s
      → Served k net r x s
  Turn-Served net r (rests in_time) ended =
      subst (Served k net r x) (done-inj ended) (rested in_time)
  Turn-Served net r (drops pos past) ended =
      subst (Served k net r x) (done-inj ended) (dropped pos past)
  Turn-Served net r (sends pos ahead near) ended = sends-Served net r pos ahead near ended

  pub serve-Served :
      (net : Network) (r : Round) {s : Sender}
      → schedule net r (daemon x) ≡ done s
      → Served k net r x s
  serve-Served net r ended = Turn-Served net r (schedule-Turn net r (daemon x)) ended

  late-none :
      (r : Round)
      → (0 < x.queue.size → r.now ≤ℤ (first (daemon x)).prio)
      → late_index r x.queue ≡ []
  late-none r in_time = elim (dec_lt 0 x.queue.size) [
    | yes pos ↦ let ahead = in_time pos in ground arith
    | no none_left ↦ ground arith
  ]

  -- The second half of a round keeps every index, or loses that of a packet whose time has passed.
  pub Served-Inv :
      (net : Network) (r : Round) {s : Sender}
      → Served k net r x s
      → Inv k (late_index r x.queue ++ lost) (after x s)
  Served-Inv net r (rested in_time) =
      let none_late : late_index r x.queue ≡ [] = late-none r in_time in rw none_late inv
  Served-Inv net r (dropped pos past) =
      let late : late_index r x.queue ≡ (first (daemon x)).payload ∷ [] = ground arith in
      rw late (drops-Inv pos)
  Served-Inv net r (sent tx_buf rb pos ahead near buffer rb_v holds) =
      let none_late : late_index r x.queue ≡ [] = late-none r (λ p. ahead) in
      rw none_late (sent-Inv net r tx_buf rb pos rb_v holds)
