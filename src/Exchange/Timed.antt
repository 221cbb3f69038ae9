-- ===== src/Exchange/Timed.antt =====
-- The daemon sends each packet close to the time that its message asks for.
use kuberne_tsn.Common.{ℕ, ◌<◌, ◌≡◌, refl, ◌∙◌, Bool, List, [], ◌∷◌, map, arith}
use kuberne_tsn.Common.Int.{ℤ, eqb_ℤ, ◌+ℤ◌, ◌≤ℤ◌, eq_of_parts}
use kuberne_tsn.Common.Run.{done}
use kuberne_tsn.Common.Perms.{occurs, occurs-append}
use kuberne_tsn.Clock.{as_i64}
use kuberne_tsn.Packet.{Metadata, metadata_at}
use kuberne_tsn.Ring.Inv.{contents}
use kuberne_tsn.PrioQueue.{Node, extract_min}
use kuberne_tsn.PrioQueue.Extract.{extract_min-Removed}
use kuberne_tsn.PrioQueue.Order.{live, IsValid}
use kuberne_tsn.PrioQueue.Nodes.{fails, fails-Perm, root-passes}
use kuberne_tsn.Preload.Message.{Host}
use kuberne_tsn.Sender.{Sender, Round, tx_delta_ns, schedule}
use kuberne_tsn.Sender.Receive.{packet}
use kuberne_tsn.Sender.Schedule.{first}
use kuberne_tsn.Sender.Frame.{Network}
use kuberne_tsn.Exchange.{
  Fits, Fitting, Exchange, daemon, after, waiting, payloads, Step, other_call, send, take_in, serve,
  Reach, start, later,
}
use kuberne_tsn.Exchange.Account.{Inv}
use kuberne_tsn.Exchange.Rounds.{Served, rested, dropped, sent, take_in-Inv, serve-Served}
use kuberne_tsn.Exchange.Reached.{Reach-Inv}
use kuberne_tsn.Exchange.Untouched.{Step-Kept}

-- whether a node has the time from the metadata of its packet
abbrev pub on_time : List Metadata → Node → Bool
on_time pool n = eqb_ℤ n.prio (as_i64 (metadata_at pool n.payload).txtime)

-- Every packet in the queue has the time from its metadata.
abbrev pub IsTimed : Exchange → Type 0
IsTimed x = fails (on_time x.lib.metadata_pool) (live x.queue) ≡ 0

packets-on_time :
    (pool : List Metadata) (is : List ℕ) → fails (on_time pool) (map (packet pool) is) ≡ 0
packets-on_time pool [] = refl
packets-on_time pool (i ∷ is) = ground (arith, packets-on_time pool is)

-- Nodes whose metadata stay the same stay on time.
fails-same :
    (pool pool' : List Metadata) (ns : List Node)
    → ((j : ℕ)
        → 0 < occurs j (map (λ (n : Node). n.payload) ns)
        → metadata_at pool' j ≡ metadata_at pool j)
    → fails (on_time pool') ns ≡ fails (on_time pool) ns
fails-same pool pool' [] same = refl
fails-same pool pool' (n ∷ ns) same =
    let here = same n.payload (ground arith) in
    let rest = fails-same pool pool' ns (λ j waits. same j (omega arith)) in rw (here, rest) refl

-- The queue's packets are among those that wait.
queued-waits : (x : Exchange) (j : ℕ) → 0 < occurs j (payloads x.queue) → 0 < occurs j (waiting x)
queued-waits x j pos = omega (arith, occurs-append j (contents x.lib.tx_ring) (payloads x.queue))

module _ {k : ℕ} {lost : List ℕ} {x : Exchange} (inv : Inv k lost x) (timed : IsTimed x) where
  extract_min-timed :
      0 < x.queue.size → fails (on_time x.lib.metadata_pool) (live (extract_min x.queue).1) ≡ 0
  extract_min-timed pos =
      let (out, removed) = extract_min-Removed inv.queue_valid pos in
      omega (arith, fails-Perm (on_time x.lib.metadata_pool) removed.others)

  Served-IsTimed :
      (net : Network) (r : Round) {s : Sender} → Served k net r x s → IsTimed (after x s)
  Served-IsTimed net r (rested in_time) = timed
  Served-IsTimed net r (dropped pos past) = extract_min-timed pos
  Served-IsTimed net r (sent tx_buf rb pos ahead near buffer rb_v holds) = extract_min-timed pos

  -- Every step keeps the packets in the queue on time.
  pub Step-IsTimed :
      {host : Host} {net : Network} {y : Exchange}
      → (step : Step host net x y) → Fits step
      → IsTimed y
  Step-IsTimed (other_call sockets interfaces) fits = timed
  Step-IsTimed {net = net} (send sf st sockfd msg {l = l} ended) short =
      let kept = λ (j : ℕ) (waits : 0 < occurs j (payloads x.queue)).
        (Step-Kept {net = net} j inv (queued-waits x j waits) (send sf st sockfd msg ended)
          short).metadata in
      fails-same x.lib.metadata_pool l.metadata_pool (live x.queue) kept ∙ timed
  Step-IsTimed (take_in spurious ended) straight =
      let (inv', (is, grown)) = take_in-Inv inv spurious straight ended in
      let pool = x.lib.metadata_pool in
      omega (arith, grown.tests (on_time pool), packets-on_time pool is)
  Step-IsTimed {net = net} (serve r ended) fits =
      Served-IsTimed net r (serve-Served inv net r ended)

pub Reach-IsTimed :
    {host : Host} {net : Network} {k : ℕ} {x : Exchange}
    → (reached : Reach host net k x) → Fitting reached
    → IsTimed x
Reach-IsTimed (start s) fitting = rw s.none_pending refl
Reach-IsTimed (later reached step) fitting =
    Step-IsTimed (Reach-Inv reached fitting.0) (Reach-IsTimed reached fitting.0) step fitting.1

-- the time that a message asks for, as the daemon reads it
abbrev pub send_time : Exchange → ℕ → ℤ
send_time x i = as_i64 (metadata_at x.lib.metadata_pool i).txtime

first-timed :
    (x : Exchange)
    → IsValid x.queue
    → IsTimed x
    → 0 < x.queue.size
    → (first (daemon x)).prio ≡ send_time x (first (daemon x)).payload
first-timed x v timed pos =
    let ok = on_time x.lib.metadata_pool in
    let passes = root-passes ok x.queue.size x.queue.elems pos (omega (arith, v)) timed in
    eq_of_parts _ _ (ground arith)

Served-close :
    {k : ℕ} {net : Network} {r : Round} {x : Exchange} {s : Sender}
    → IsValid x.queue
    → IsTimed x
    → Served k net r x s
    → x.counter < s.counter
    → let t = send_time x (first (daemon x)).payload in (r.now ≤ℤ t) × (t ≤ℤ r.now +ℤ tx_delta_ns)
Served-close v timed (rested in_time) more = absurd (omega arith)
Served-close v timed (dropped pos past) more = absurd (omega arith)
Served-close {r = r} {x} v timed (sent tx_buf rb pos ahead near buffer rb_v holds) more =
    let due = first-timed x v timed pos in (rw due at ahead, rw due at near)

-- In every state that steps reach in which no message is longer than a slot and no burst goes round the end
-- of the ring (`Fitting`), a packet that a round of the daemon sends has a send time in its
-- metadata that is not over yet, and at most `tx_delta_ns` away.
pub serve-on_time :
    {host : Host} {net : Network} {k : ℕ} {x : Exchange} (r : Round) {s : Sender}
    → (reached : Reach host net k x) → Fitting reached
    → schedule net r (daemon x) ≡ done s
    → x.counter < s.counter
    → let t = send_time x (first (daemon x)).payload in (r.now ≤ℤ t) × (t ≤ℤ r.now +ℤ tx_delta_ns)
serve-on_time {net = net} r reached fitting ended more =
    let inv = Reach-Inv reached fitting in
    Served-close inv.queue_valid (Reach-IsTimed reached fitting) (serve-Served inv net r ended) more
