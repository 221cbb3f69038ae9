-- ===== src/Exchange/Drain.antt =====
-- The daemon's loop empties its queue.
use mathlib.Core.Path.{subst}
use kuberne_tsn.Common.{
  ℕ, ◌+◌, ◌-◌, ◌%◌, ◌^◌, ◌<◌, ◌≤◌, ◌≡◌, refl, sym, ap, ◌∙◌, Bool, not, inl, inr, Bool-cases, some,
  List, [], ◌∷◌, ◌++◌, arith, length, take, ltb, if◌then◌else◌, ℕ_discrete,
}
use kuberne_tsn.Common.Int.{ltb_ℤ, ◌+ℤ◌, ◌≤ℤ◌}
use kuberne_tsn.Common.Run.{done}
use kuberne_tsn.Ring.{RingBuf, variable}
use kuberne_tsn.Ring.Arith.{pow2-pos}
use kuberne_tsn.Common.Perms.{occurs}
use kuberne_tsn.Ring.Inv.{contents}
use kuberne_tsn.Ring.Spec.{granted}
use kuberne_tsn.PrioQueue.{Node, PrioQueue}
use kuberne_tsn.PrioQueue.Order.{live}
use kuberne_tsn.PrioQueue.Nodes.{fails, fails-Perm, root-passes}
use kuberne_tsn.PrioQueue.Extract.{Removed}
use kuberne_tsn.Preload.Message.{Host}
use kuberne_tsn.Sender.{Sender, Round, tx_delta_ns, insert_all, receive, schedule, round, main_loop}
use kuberne_tsn.Sender.Frame.{TxBuf, Network}
use kuberne_tsn.Sender.Receive.{receive-takes}
use kuberne_tsn.Sender.Schedule.{first, schedule-waits, schedule-drops, schedule-sends}
use kuberne_tsn.Exchange.{Fitting, all_lost, late_index, Exchange, daemon, after, payloads, Reach}
use kuberne_tsn.Exchange.Account.{Inv, occurs-held, length-held, length-payloads}
use kuberne_tsn.Exchange.Rounds.{
  Served, rested, dropped, sent, take_in-Inv, serve-Served, Served-Inv,
}
use kuberne_tsn.Exchange.Reached.{Reach-Inv}

-- whether a packet is due in a round: its time is over, or at most `tx_delta_ns` away
abbrev pub due_in : Round → Node → Bool
due_in r n = not (ltb_ℤ (r.now +ℤ tx_delta_ns) n.prio)

-- Rounds in which every packet of the queue is due, and there is a buffer to send one.
pub data Ready (q : PrioQueue) : List Round → Type 0 where
  no_rounds : Ready q []
  and_round :
      {r : Round} {rs : List Round} (tx_buf : TxBuf)
      → r.tx_buf ≡ some tx_buf
      → fails (due_in r) (live q) ≡ 0
      → Ready q rs
      → Ready q (r ∷ rs)

Ready-Removed :
    {q q' : PrioQueue} {node : Node} {rs : List Round}
    → Removed q node q'
    → Ready q rs
    → Ready q' rs
Ready-Removed removed no_rounds = no_rounds
Ready-Removed removed (and_round {r = r} tx_buf buffer due rest) =
    and_round tx_buf buffer (omega (arith, fails-Perm (due_in r) removed.others))
      (Ready-Removed removed rest)

Served-daemon :
    {k : ℕ} {net : Network} {r : Round} {x : Exchange} {s : Sender}
    → Served k net r x s
    → (daemon (after x s) ≡ s) × (s.tx_ring ≡ x.lib.tx_ring)
Served-daemon (rested in_time) = (refl, refl)
Served-daemon (dropped pos past) = (refl, refl)
Served-daemon (sent tx_buf rb pos ahead near buffer rb_v holds) = (refl, refl)

-- The indices that are lost once rounds of the main loop have followed, in which no packet comes in: those
-- of the packets that stood first, with their time passed, in a round.
abbrev pub lost_after : Network → List Round → Sender → List ℕ → List ℕ
lost_after net [] s lost = lost
lost_after net (r ∷ rs) s lost = elim (round net r s) as (λ _. List ℕ) [
  | done next ↦ lost_after net rs next (late_index r s.queue ++ lost)
  | _ ↦ lost
]

lost_after-round :
    (net : Network) (r : Round) (rs : List Round) (s : Sender) {next : Sender} (lost : List ℕ)
    → round net r s ≡ done next
    → lost_after net (r ∷ rs) s lost ≡ lost_after net rs next (late_index r s.queue ++ lost)
lost_after-round net r rs s lost ran = rw (ran, lost_after) refl

module _ (net : Network) {k : ℕ} where
  -- A round with a packet that is due takes one out of the queue.
  serve-takes :
      {lost : List ℕ} {x : Exchange} (r : Round) {tx_buf : TxBuf} {rs : List Round}
      → Inv k lost x
      → r.tx_buf ≡ some tx_buf
      → fails (due_in r) (live x.queue) ≡ 0
      → Ready x.queue rs
      → (s : Sender) × (schedule net r (daemon x) ≡ done s)
        × (s.queue.size ≡ x.queue.size - 1)
        × Ready s.queue rs
  serve-takes {x = x} r inv buffer due rest =
      let d = daemon x in
      elim (ℕ_discrete x.queue.size 0) [
        | yes empty ↦ (d, schedule-waits net r d (λ pos. absurd (omega arith)), omega arith, rest)
        | no some_left ↦
            let pos : 0 < x.queue.size = omega arith in
            let passes =
              root-passes (due_in r) x.queue.size x.queue.elems pos (omega (arith, inv.queue_valid))
                due in
            let near : (first d).prio ≤ℤ r.now +ℤ tx_delta_ns = ground arith in
            elim (Bool-cases (ltb_ℤ (first d).prio r.now)) [
              | inl late ↦
                  let (s, ran, _, _, removed, _) =
                    schedule-drops net r d inv.queue_valid pos (ground arith) in
                  (s, ran, omega (arith, removed.one_less), Ready-Removed removed rest)
              | inr ahead ↦
                  let room : length (contents x.lib.free_ring) < 2 ^ k - 1 =
                    omega (arith, inv.number, length-held x, length-payloads inv.queue_valid) in
                  let (s, ran, _, _, _, removed, _) =
                    schedule-sends net r d inv.queue_valid inv.free_valid pos (ground arith) near
                      buffer room in
                  (s, ran, omega (arith, removed.one_less), Ready-Removed removed rest)
            ]
      ]

  -- The first half of a round with an empty ring leaves the queue.
  take_in-idle :
      {lost : List ℕ} {x : Exchange} (spurious : ℕ)
      → Inv k lost x
      → contents x.lib.tx_ring ≡ []
      → (rb : RingBuf) × (receive spurious (daemon x) ≡ done (record (daemon x) { tx_ring = rb }))
        × (contents rb ≡ [])
        × Inv k lost (after x (record (daemon x) { tx_ring = rb }))
  unfolding insert_all
  take_in-idle {x = x} spurious inv empty =
      let words = contents x.lib.tx_ring in
      let none_left : granted variable 8 (length words) ≡ 0 = rw empty refl in
      let in_ring : x.lib.tx_ring.cons.tail % x.lib.tx_ring.size < x.lib.tx_ring.size =
        omega (arith, inv.tx_valid, pow2-pos k) in
      let straight : x.lib.tx_ring.cons.tail % x.lib.tx_ring.size
            + granted variable 8 (length words)
          ≤ x.lib.tx_ring.size =
        rw none_left (omega arith) in
      let (table, rb, ran, rb_v, moved, entries) =
        receive-takes spurious (daemon x) inv.tx_valid straight in
      let taken = λ (n : ℕ). record (daemon x) {
        tx_ring = rb;
        queue = insert_all n 0 table x.lib.metadata_pool x.queue;
      } in
      let idle = ran ∙ ap (λ n. done (taken n)) none_left in
      let nothing = sym (ap (λ n. take n words ++ contents rb) none_left) ∙ moved ∙ empty in
      (rb, idle, nothing, (take_in-Inv inv spurious straight idle).0)

  round-takes :
      {lost : List ℕ} {x : Exchange} (r : Round) {tx_buf : TxBuf} {rs : List Round}
      → Inv k lost x
      → contents x.lib.tx_ring ≡ []
      → r.tx_buf ≡ some tx_buf
      → fails (due_in r) (live x.queue) ≡ 0
      → Ready x.queue rs
      → (y : Exchange) × (round net r (daemon x) ≡ done (daemon y))
        × Inv k (late_index r x.queue ++ lost) y
        × (contents y.lib.tx_ring ≡ [])
        × (y.queue.size ≡ x.queue.size - 1)
        × Ready y.queue rs
  unfolding round
  round-takes {lost} {x} r inv empty buffer due rest =
      let (rb, got, empty', inv') = take_in-idle r.spurious_tx inv empty in
      let x' = after x (record (daemon x) { tx_ring = rb }) in
      let (s, ran, size, rest') = serve-takes r inv' buffer due rest in
      let served = serve-Served inv' net r ran in
      let inv'' = Served-Inv inv' net r served in
      let (same, ring) = Served-daemon served in
      (
        after x' s,
        rw (got, round) (rw ran (ap done (sym same))),
        inv'',
        ap contents ring ∙ empty',
        size,
        rest',
      )

  main_loop-empties :
      (rs : List Round) {lost : List ℕ} {x : Exchange}
      → Inv k lost x
      → contents x.lib.tx_ring ≡ []
      → Ready x.queue rs
      → x.queue.size ≤ length rs
      → (y : Exchange) × (main_loop net rs (daemon x) ≡ done (daemon y))
        × (y.queue.size ≡ 0)
        × Inv k (lost_after net rs (daemon x) lost) y
        × (contents y.lib.tx_ring ≡ [])
  unfolding main_loop
  main_loop-empties [] {lost} {x} inv empty ready enough = (x, refl, omega arith, inv, empty)
  main_loop-empties (r ∷ rs) {lost} {x} inv empty (and_round tx_buf buffer due rest) enough =
      let (y, ran, inv', empty', size, rest') = round-takes r inv empty buffer due rest in
      let (z, loop, emptied, inv'', empty'') =
        main_loop-empties rs inv' empty' rest' (omega arith) in
      let inv_z =
        subst (λ gone. Inv k gone z) (sym (lost_after-round net r rs (daemon x) lost ran)) inv'' in
      (z, rw (ran, main_loop) loop, emptied, inv_z, empty'')

  -- From a state that steps reach in which no message is longer than a slot and no burst goes round the
  -- end of the ring (`Fitting`), with the ring of packets to send empty, the main loop over at least
  -- as many rounds as there are packets in the queue ends with the queue empty, if in each round all of
  -- these packets are due or past their time and DPDK has a buffer. All indices but the lost ones are
  -- then in the ring of free packets, in some order. Lost are those that were lost before, and those of the
  -- packets that stood first in the queue in one of these rounds with their time passed (`lost_after`).
  pub main_loop-drains :
      {host : Host} {x : Exchange} (rs : List Round)
      → (reached : Reach host net k x) → Fitting reached
      → contents x.lib.tx_ring ≡ []
      → Ready x.queue rs
      → x.queue.size ≤ length rs
      → let lost = lost_after net rs (daemon x) (all_lost reached) in
        (s : Sender) × (main_loop net rs (daemon x) ≡ done s)
        × (s.queue.size ≡ 0)
        × (length lost + length (contents s.free_ring) ≡ 2 ^ k - 1)
        × ((a : ℕ)
            → occurs a lost + occurs a (contents s.free_ring)
              ≡ (if ltb a (2 ^ k - 1) then 1 else 0))
  main_loop-drains rs reached fitting empty ready enough =
      let (y, ran, emptied, inv, empty') =
        main_loop-empties rs (Reach-Inv reached fitting) empty ready enough in
      let nothing : payloads y.queue ≡ [] = rw emptied refl in
      (
        daemon y,
        ran,
        emptied,
        omega (arith, inv.number, length-held y, ap length empty', ap length nothing),
        λ a.
            let tx = ap (occurs a) empty' in
            let left = ap (occurs a) nothing in omega (arith, inv.once a, occurs-held a y),
      )
