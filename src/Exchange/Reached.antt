-- ===== src/Exchange/Reached.antt =====
-- What holds in every state that the daemon and the programs can reach.
use kuberne_tsn.Common.{ℕ, ◌-◌, ◌^◌, ◌≤◌, ◌<◌, List, ◌++◌, arith, length}
use kuberne_tsn.Common.Perms.{occurs}
use kuberne_tsn.Ring.Inv.{contents}
use kuberne_tsn.Preload.Message.{Host}
use kuberne_tsn.Sender.Frame.{Network}
use kuberne_tsn.Exchange.{
  Exchange, held, Step, other_call, send, take_in, serve, Reach, start, later, Fits, Fitting,
  step_lost, all_lost,
}
use kuberne_tsn.Exchange.Account.{Inv, Start-Inv, length-held}
use kuberne_tsn.Exchange.Sends.{send-Effect}
use kuberne_tsn.Exchange.Rounds.{take_in-Inv, serve-Served, Served-Inv}

-- Every step keeps the rings, the queue and the pools well formed and each index in one place; the
-- indices that are lost stay lost.
pub Step-Inv :
    {host : Host} {net : Network} {k : ℕ} {lost : List ℕ} {x y : Exchange}
    → Inv k lost x
    → (step : Step host net x y) → Fits step
    → Inv k (step_lost step ++ lost) y
Step-Inv inv (other_call sockets interfaces) fits = record {
  free_valid = inv.free_valid;
  tx_valid = inv.tx_valid;
  queue_valid = inv.queue_valid;
  queue_cap = inv.queue_cap;
  metadata_size = inv.metadata_size;
  payload_size = inv.payload_size;
  once = inv.once;
  number = inv.number;
}
Step-Inv {host} inv (send sf st sockfd msg ended) short =
    (send-Effect inv sf st msg host sockfd short ended).0
Step-Inv inv (take_in spurious ended) straight = (take_in-Inv inv spurious straight ended).0
Step-Inv {net = net} inv (serve r ended) fits = Served-Inv inv net r (serve-Served inv net r ended)

-- In every state that steps reach from the start in which no message is longer than a slot and no burst
-- goes round the end of the ring (`Fitting`), both rings and the queue are valid, the pools
-- have room for every packet, and each index below 2 ^ k - 1 is in one place: once in the rings and the
-- queue, or once among the lost ones. No other index is anywhere. Lost are exactly the indices of the packets
-- that stood first in the queue, with their time passed, when a round served it (`all_lost`).
pub Reach-Inv :
    {host : Host} {net : Network} {k : ℕ} {x : Exchange}
    → (reached : Reach host net k x) → Fitting reached
    → Inv k (all_lost reached) x
Reach-Inv (start s) fitting = Start-Inv s
Reach-Inv (later reached step) fitting = Step-Inv (Reach-Inv reached fitting.0) step fitting.1

-- In no state that steps reach in which no message is longer than a slot and no burst goes round the end
-- of the ring (`Fitting`) does an index stand twice in the rings and the queue, and never is
-- the ring of packets to send full while a packet is free, so that a send never loses a packet.
pub Reach-safe :
    {host : Host} {net : Network} {k : ℕ} {x : Exchange}
    → (reached : Reach host net k x) → Fitting reached
    → ((a : ℕ) → occurs a (held x) ≤ 1)
      × (0 < length (contents x.lib.free_ring) → length (contents x.lib.tx_ring) < 2 ^ k - 1)
Reach-safe {x = x} reached fitting =
    let inv = Reach-Inv reached fitting in
    (
      λ a. let one = inv.once a in ground arith,
      λ some_free. omega (arith, inv.number, length-held x),
    )
