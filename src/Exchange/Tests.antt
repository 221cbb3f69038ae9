-- ===== src/Exchange/Tests.antt =====
-- A shared memory with one packet, a program that sends a message, and the theorems at them.
use kuberne_tsn.Common.{
  ℕ, ◌+◌, ◌-◌, ◌*◌, ◌^◌, ◌≤◌, ◌<◌, ◌≡◌, refl, [], ◌∷◌, List, arith, length, replicate,
  length-replicate, some, ltb, if◌then◌else◌,
}
use kuberne_tsn.Common.Int.{pos, negsuc, ◌+ℤ◌, ◌-ℤ◌, ◌≤ℤ◌}
use kuberne_tsn.Common.Run.{done}
use kuberne_tsn.Common.Perms.{occurs}
use kuberne_tsn.Clock.{as_i64, get_time_diff_ns}
use kuberne_tsn.Copy.{copy_words, copy_unrolled}
use kuberne_tsn.Packet.{null_metadata, mbuf_size, read_bytes}
use kuberne_tsn.PrioQueue.{
  Node, PrioQueue, is_empty, getmin, swap, reorder_loop, reorder, decrease_key, insert,
  heapify_loop, min_index, heapify, extract_min,
}
use kuberne_tsn.PrioQueue.Order.{live}
use kuberne_tsn.PrioQueue.Nodes.{fails}
use kuberne_tsn.Ring
use kuberne_tsn.Ring.{
  RingBuf, enqueue_burst, dequeue_burst, do_enqueue_elems, do_dequeue_elems, move_prod_head,
  move_cons_head, enqueue_elems, dequeue_elems,
}
use kuberne_tsn.Ring.Inv.{contents}
use kuberne_tsn.Preload.{
  af_inet, KtSocket, KtInterface, InetAddr, socket_find, interface_get_by_net, get_by_net_loop,
  is_same_subnetwork,
}
use kuberne_tsn.Preload.Message.{
  Msg, Host, Library, scm_txtime, queued, inet_metadata, write_packet, post, sendmsg_inet,
  find_txtime, dispatch, sendmsg,
}
use kuberne_tsn.Sender.{
  Sender, Round, tx_delta_ns, insert_all, receive, fetched, transmit, send_packet, schedule,
  main_loop,
}
use kuberne_tsn.Sender.Frame.{TxBuf, Network, prepare_packet}
use kuberne_tsn.Exchange.{
  Fitting, all_lost, Exchange, daemon, after, held, Step, send, take_in, Start, Reach, start, later,
}
use kuberne_tsn.Exchange.Account.{Inv}
use kuberne_tsn.Exchange.Reached.{Reach-Inv, Reach-safe}
use kuberne_tsn.Exchange.Untouched.{WaitsFits, Kept, Waits, at_once, onward, waiting-Kept}
use kuberne_tsn.Exchange.Timed.{send_time, serve-on_time}
use kuberne_tsn.Exchange.Delivery.{message_delivered}
use kuberne_tsn.Exchange.Drain.{due_in, no_rounds, and_round, main_loop-drains, lost_after}

-- a ring of two words, the first of them 0, with `p` words put in and `c` taken out
abbrev ring2 : ℕ → ℕ → RingBuf
ring2 p c = record {
  name = [];
  data_ptr = 0;
  size = 2;
  esize = 1;
  mask = 1;
  capacity = 1;
  prod = record { head = p; tail = p };
  cons = record { head = c; tail = c };
  ring = 0 ∷ 0 ∷ [];
}

ring2-IsValid : (p : ℕ) → p ≤ 1 → Ring.Inv.IsValid 1 (ring2 p 0)
ring2-IsValid n le = record {
  small = omega arith;
  size_eq = refl;
  mask_eq = refl;
  capacity_eq = refl;
  prod_quiet = refl;
  cons_quiet = refl;
  prod_word = omega arith;
  cons_word = omega arith;
  room = omega arith;
  storage = omega arith;
}

abbrev timed : KtSocket
timed = record { fd = pos 5; prio = negsuc 0; txtime = 1; domain = af_inet }

abbrev peer : InetAddr
peer = record { s_addr = 7; sin_port = 9 }

abbrev eth0 : KtInterface
eth0 = record {
  ifindex = 2;
  name = 101 ∷ [];
  addr = record { s_addr = 5; sin_port = 0 };
  netmask = 4;
  mac = [];
}

-- two bytes, to be sent at 70000
abbrev msg : Msg
msg = record {
  name_in = some peer;
  sll_ifindex = some 2;
  iov_base = 65 ∷ 66 ∷ [];
  iov_len = 2;
  control = scm_txtime 70000 ∷ [];
}

abbrev host : Host
host = record { ntohl = λ x. x; ntohs = λ x. x }

abbrev network : Network
network = record { be16 = λ x. x; be32 = λ x. x; ipv4_cksum = λ h. 0 }

abbrev blank : Node
blank = record { prio = pos 0; payload = 0 }

abbrev empty_queue : PrioQueue
empty_queue = record { elems = blank ∷ []; cap = 1; size = 0 }

abbrev slot : List ℕ
slot = replicate 2048 0

abbrev at_start : Exchange
at_start = record {
  lib = record {
    sockets = timed ∷ [];
    interfaces = eth0 ∷ [];
    tx_ring = ring2 0 0;
    free_ring = ring2 1 0;
    metadata_pool = null_metadata ∷ [];
    mbuf_pool = slot;
  };
  queue = empty_queue;
  sent = [];
  counter = 0;
}

at_start-Start : Start 1 at_start
at_start-Start = record {
  free_valid = ring2-IsValid 1 (omega arith);
  tx_valid = ring2-IsValid 0 (omega arith);
  queue_valid = record { storage = omega arith; bounded = omega arith };
  queue_cap = refl;
  metadata_size = omega arith;
  payload_size = omega (arith, length-replicate {A = ℕ} 2048 0);
  all_free = refl;
  none_queued = refl;
  none_pending = refl;
}

-- the library once the message is queued
abbrev lib_sent : Library
lib_sent = record at_start.lib {
  tx_ring = ring2 1 0;
  free_ring = ring2 1 1;
  metadata_pool = inet_metadata host 70000 2 eth0 peer null_metadata ∷ [];
  mbuf_pool = copy_words 2 (65 ∷ 66 ∷ []) 0 slot 0;
}

sendmsg_queues : sendmsg host 0 0 at_start.lib (pos 5) msg ≡ done (queued 2, lib_sent)
unfolding sendmsg socket_find find_txtime dispatch sendmsg_inet interface_get_by_net get_by_net_loop
    is_same_subnetwork post write_packet dequeue_burst do_dequeue_elems move_cons_head dequeue_elems
    enqueue_burst do_enqueue_elems move_prod_head enqueue_elems copy_unrolled copy_words
sendmsg_queues = refl

abbrev after_send : Exchange
after_send = record at_start { lib = lib_sent }

abbrev due_queue : PrioQueue
due_queue = record { elems = record { prio = pos 70000; payload = 0 } ∷ []; cap = 1; size = 1 }

-- the daemon once it has taken the packet in
abbrev daemon_due : Sender
daemon_due = record (daemon after_send) { tx_ring = ring2 1 1; queue = due_queue }

abbrev after_take_in : Exchange
after_take_in = after after_send daemon_due

receive_takes : receive 0 (daemon after_send) ≡ done daemon_due
unfolding receive dequeue_burst do_dequeue_elems move_cons_head dequeue_elems insert_all insert
    decrease_key reorder reorder_loop swap copy_unrolled as_i64 inet_metadata
receive_takes = refl

reached_start : Reach host network 1 at_start
reached_start = start at_start-Start

start-Fitting : Fitting reached_start
unfolding reached_start
start-Fitting = tt

reached_send : Reach host network 1 after_send
reached_send = later reached_start (send 0 0 (pos 5) msg sendmsg_queues)

send-Fitting : Fitting reached_send
unfolding reached_send reached_start
send-Fitting = (tt, omega arith)

take_in-Step : Step host network after_send after_take_in
take_in-Step = take_in 0 receive_takes

reached_due : Reach host network 1 after_take_in
reached_due = later reached_send take_in-Step

due-Fitting : Fitting reached_due
unfolding reached_due take_in-Step
due-Fitting = (send-Fitting, omega arith)

abbrev buffer : TxBuf
buffer = record {
  ether = record { src_addr = []; dst_addr = []; ether_type = 0 };
  ip = record {
    dst_addr = 0;
    src_addr = 0;
    version = 0;
    ihl = 0;
    type_of_service = 0;
    total_length = 0;
    fragment_offset = 0;
    time_to_live = 0;
    next_proto_id = 0;
    hdr_checksum = 0;
    packet_id = 0;
  };
  udp = record { dst_port = 0; src_port = 0; dgram_len = 0; dgram_cksum = 0 };
  body = [];
  overlay = [];
  data_len = 0;
  pkt_len = 0;
  chained = 0;
  nb_segs = 0;
}

-- a round 40000 ns before the packet is due
abbrev near_round : Round
near_round = record { spurious_tx = 0; spurious_free = 0; now = pos 30000; tx_buf = some buffer }

-- the daemon once it has sent the packet
abbrev daemon_sent : Sender
daemon_sent = record daemon_due {
  free_ring = ring2 2 1;
  queue = record due_queue { size = 0 };
  sent =
      prepare_packet network buffer lib_sent.mbuf_pool (0 * mbuf_size)
        (inet_metadata host 70000 2 eth0 peer null_metadata)
      ∷ [];
  counter = 1;
}

schedule_sends : schedule network near_round (daemon after_take_in) ≡ done daemon_sent
unfolding schedule is_empty getmin get_time_diff_ns ◌-ℤ◌ send_packet extract_min heapify
    heapify_loop min_index fetched transmit enqueue_burst do_enqueue_elems move_prod_head
    enqueue_elems copy_unrolled copy_words
schedule_sends = refl

socket_known : socket_find (timed ∷ []) (pos 5) ≡ some timed
unfolding socket_find
socket_known = refl

time_known : find_txtime msg.control ≡ some 70000
unfolding find_txtime
time_known = refl

same_net : interface_get_by_net (eth0 ∷ []) (some peer) ≡ some eth0
unfolding interface_get_by_net get_by_net_loop is_same_subnetwork
same_net = refl

Waits-take_in : Waits host network 0 after_send after_take_in
Waits-take_in = onward at_once (omega arith) take_in-Step

Waits-take_in-Fits : WaitsFits Waits-take_in
unfolding Waits-take_in take_in-Step
Waits-take_in-Fits = (tt, omega arith)

-- Nothing is lost on the way to this state.
none_lost : all_lost reached_due ≡ []
unfolding reached_due reached_send reached_start take_in-Step
none_lost = refl

Reach-Inv_example : Inv 1 (all_lost reached_due) after_take_in
Reach-Inv_example = Reach-Inv reached_due due-Fitting

Reach-safe_example :
    ((a : ℕ) → occurs a (held after_take_in) ≤ 1)
    × (0 < length (contents after_take_in.lib.free_ring)
        → length (contents after_take_in.lib.tx_ring) < 2 ^ 1 - 1)
Reach-safe_example = Reach-safe reached_due due-Fitting

waiting-Kept_example : Kept 0 lib_sent after_take_in.lib
waiting-Kept_example = waiting-Kept 0 reached_send send-Fitting Waits-take_in Waits-take_in-Fits

serve-on_time_example :
    let t = send_time after_take_in 0 in (pos 30000 ≤ℤ t) × (t ≤ℤ pos 30000 +ℤ tx_delta_ns)
serve-on_time_example =
    serve-on_time near_round reached_due due-Fitting schedule_sends (omega arith)

is_due : fails (due_in near_round) (live due_queue) ≡ 0
unfolding ◌+ℤ◌
is_due = refl

message_delivered_example :
    (packet : TxBuf) × (daemon_sent.sent ≡ packet ∷ [])
    × (packet.body ≡ read_bytes 2 (65 ∷ 66 ∷ []) 0)
    × (packet.ip.src_addr ≡ 5)
    × (packet.ip.dst_addr ≡ 7)
    × (packet.udp.dst_port ≡ 9)
    × (pos 30000 ≤ℤ as_i64 70000)
    × (as_i64 70000 ≤ℤ pos 30000 +ℤ tx_delta_ns)
message_delivered_example =
    message_delivered host network 0 0 (pos 5) msg {node = timed} {i = 0} {rest = []} {l = lib_sent}
      reached_start start-Fitting socket_known (λ off. absurd (omega arith)) time_known refl refl
      same_net (omega arith) refl sendmsg_queues near_round Waits-take_in Waits-take_in-Fits refl
      schedule_sends (omega arith)

main_loop-drains_example :
    let lost = lost_after network (near_round ∷ []) (daemon after_take_in) (all_lost reached_due) in
    (s : Sender) × (main_loop network (near_round ∷ []) (daemon after_take_in) ≡ done s)
    × (s.queue.size ≡ 0)
    × (length lost + length (contents s.free_ring) ≡ 2 ^ 1 - 1)
    × ((a : ℕ)
        → occurs a lost + occurs a (contents s.free_ring) ≡ (if ltb a (2 ^ 1 - 1) then 1 else 0))
main_loop-drains_example =
    main_loop-drains network (near_round ∷ []) reached_due due-Fitting refl
      (and_round {r = near_round} buffer refl is_due no_rounds) (omega arith)
