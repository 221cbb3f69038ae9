-- ===== src/Exchange.antt =====
-- The daemon of ktsnd.c and the programs that libktsn.c is loaded into, over the memory they share.
-- A step is a whole call of `sendmsg`, the first or the second half of a round of the daemon's loop,
-- or a call that only changes what a program's library keeps to itself.
pub mod Account
pub mod Sends
pub mod Rounds
pub mod Reached
pub mod Boot
pub mod Attach
pub mod Untouched
pub mod Timed
pub mod Delivery
pub mod Drain
pub mod Overlap
mod Tests
use kuberne_tsn.Common.{
  ℕ, ◌+◌, ◌-◌, ◌*◌, ◌%◌, ◌^◌, ◌≤◌, ◌≡◌, List, [], ◌∷◌, ◌++◌, map, length, ltb, ◌&&◌, if◌then◌else◌,
}
use kuberne_tsn.Common.Int.{ℤ, ltb_ℤ}
use kuberne_tsn.Common.Run.{done}
use kuberne_tsn.Packet.{mbuf_size}
use kuberne_tsn.Ring
use kuberne_tsn.Ring.{variable}
use kuberne_tsn.Ring.Inv.{contents}
use kuberne_tsn.Ring.Spec.{granted}
use kuberne_tsn.PrioQueue.{Node, PrioQueue, node_at}
use kuberne_tsn.PrioQueue.Order.{IsValid, live}
use kuberne_tsn.Preload.{KtSocket, KtInterface}
use kuberne_tsn.Preload.Message.{Msg, Host, Library, Outcome, sendmsg}
use kuberne_tsn.Sender.{Sender, Round, receive, schedule}
use kuberne_tsn.Sender.Frame.{TxBuf, Network}
use kuberne_tsn.Sender.Startup.{count_up}

-- The shared memory and the variables of the program that calls next, and those of the daemon's loop.
pub record Exchange : Type 0 where
  pub lib : Library
  pub queue : PrioQueue
  pub sent : List TxBuf
  pub counter : ℕ

-- what the daemon sees of it
abbrev pub daemon : Exchange → Sender
daemon x = record {
  tx_ring = x.lib.tx_ring;
  free_ring = x.lib.free_ring;
  queue = x.queue;
  metadata_pool = x.lib.metadata_pool;
  mbuf_pool = x.lib.mbuf_pool;
  sent = x.sent;
  counter = x.counter;
}

-- what it leaves: the pools it only reads
abbrev pub after : Exchange → Sender → Exchange
after x s = record {
  lib = record x.lib { tx_ring = s.tx_ring; free_ring = s.free_ring };
  queue = s.queue;
  sent = s.sent;
  counter = s.counter;
}

-- the indices in the daemon's queue
abbrev pub payloads : PrioQueue → List ℕ
payloads q = map (λ (n : Node). n.payload) (live q)

-- the indices of the packets that are queued and not sent yet
abbrev pub waiting : Exchange → List ℕ
waiting x = contents x.lib.tx_ring ++ payloads x.queue

-- all indices that a ring or the queue holds
abbrev pub held : Exchange → List ℕ
held x = contents x.lib.free_ring ++ waiting x

-- One step from `x`. A call or a round that faults has no step.
pub data Step (host : Host) (net : Network) (x : Exchange) : Exchange → Type 0 where
  -- `socket`, `setsockopt`, `close`, or a call in another program
  other_call :
      (sockets : List KtSocket) (interfaces : List KtInterface)
      → Step host net x
          (record x { lib = record x.lib { sockets = sockets; interfaces = interfaces } })
  send :
      (sf st : ℕ) (sockfd : ℤ) (msg : Msg) {out : Outcome} {l : Library}
      → sendmsg host sf st x.lib sockfd msg ≡ done (out, l)
      → Step host net x (record x { lib = l })
  take_in :
      (spurious : ℕ) {s : Sender}
      → receive spurious (daemon x) ≡ done s
      → Step host net x (after x s)
  serve :
      (r : Round) {s : Sender} → schedule net r (daemon x) ≡ done s → Step host net x (after x s)

-- What the code takes for granted of a step: a message is as long as the slot of a packet at most, and
-- a burst that the daemon takes ends before the end of the ring.
abbrev pub Fits : {host : Host} {net : Network} {x y : Exchange} → Step host net x y → Type 0
Fits (send sf st sockfd msg ended) = msg.iov_len ≤ mbuf_size
Fits {x = x} (take_in spurious ended) =
    x.lib.tx_ring.cons.tail % x.lib.tx_ring.size
      + granted variable 8 (length (contents x.lib.tx_ring))
    ≤ x.lib.tx_ring.size
Fits _ = Unit

-- The index that the second half of a round takes out of the queue and gives to nobody: that of the first
-- packet, when its time has passed.
abbrev pub late_index : Round → PrioQueue → List ℕ
late_index r q =
    let n = node_at q.elems 0 in if ltb 0 q.size && ltb_ℤ n.prio r.now then n.payload ∷ [] else []

abbrev pub step_lost : {host : Host} {net : Network} {x y : Exchange} → Step host net x y → List ℕ
step_lost {x = x} (serve r ended) = late_index r x.queue
step_lost _ = []

-- What the daemon's `main` has set up when its loop starts, for rings of 2 ^ k words.
pub record Start (k : ℕ) (x : Exchange) : Type 0 where
  pub free_valid : Ring.Inv.IsValid k x.lib.free_ring
  pub tx_valid : Ring.Inv.IsValid k x.lib.tx_ring
  pub queue_valid : IsValid x.queue
  pub queue_cap : x.queue.cap ≡ 2 ^ k - 1
  pub metadata_size : 2 ^ k - 1 ≤ length x.lib.metadata_pool
  pub payload_size : (2 ^ k - 1) * mbuf_size ≤ length x.lib.mbuf_pool
  pub all_free : contents x.lib.free_ring ≡ count_up (2 ^ k - 1) 0
  pub none_queued : contents x.lib.tx_ring ≡ []
  pub none_pending : x.queue.size ≡ 0

-- the states that the steps lead to
pub data Reach (host : Host) (net : Network) (k : ℕ) : Exchange → Type 0 where
  start : {x : Exchange} → Start k x → Reach host net k x
  later : {x y : Exchange} → Reach host net k x → Step host net x y → Reach host net k y

-- the indices that the rounds so far have lost
abbrev pub all_lost :
    {host : Host} {net : Network} {k : ℕ} {x : Exchange} → Reach host net k x → List ℕ
all_lost (start s) = []
all_lost (later reached step) = step_lost step ++ all_lost reached

-- Every step so far fits.
abbrev pub Fitting :
    {host : Host} {net : Network} {k : ℕ} {x : Exchange} → Reach host net k x → Type 0
Fitting (start s) = Unit
Fitting (later reached step) = Fitting reached × Fits step
