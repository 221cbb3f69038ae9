-- ===== src/Sender/Tests.antt =====
-- A daemon with one packet in its queue and two to take in, and the theorems at it.
use kuberne_tsn.Common.{
  ℕ, zero, suc, ◌+◌, ◌*◌, ◌≤◌, ◌<◌, ◌≡◌, refl, [], ◌∷◌, ◌++◌, Perm, arith, length, some, true,
}
use kuberne_tsn.Common.Int.{pos, negsuc, ◌+ℤ◌, ◌<ℤ◌, ◌≤ℤ◌}
use kuberne_tsn.Common.Run.{done}
use kuberne_tsn.Packet.{Metadata, mbuf_size, transport_udp}
use kuberne_tsn.PrioQueue.{Node, PrioQueue}
use kuberne_tsn.PrioQueue.Order.{IsHeap, IsValid}
use kuberne_tsn.PrioQueue.Extract.{Removed}
use kuberne_tsn.Ring
use kuberne_tsn.Ring.{RingBuf, variable}
use kuberne_tsn.Ring.Inv.{contents}
use kuberne_tsn.Sender.{Sender, Round, tx_delta_ns, schedule}
use kuberne_tsn.Sender.Frame.{
  TxBuf, Network, prepare_packet, prepare_packet-lengths, ether_hdr_len, ipv4_hdr_len, udp_hdr_len,
}
use kuberne_tsn.Sender.Schedule.{indices, schedule-drops, schedule-sends}
use kuberne_tsn.Sender.Port.{Port, Ended, port_init, port_init-Ended}

-- a ring of four words with its counters at the start, `n` words in it
abbrev ring4 : ℕ → RingBuf
ring4 n = record {
  name = [];
  data_ptr = 0;
  size = 4;
  esize = 1;
  mask = 3;
  capacity = 3;
  prod = record { head = n; tail = n };
  cons = record { head = 0; tail = 0 };
  ring = 0 ∷ 1 ∷ 2 ∷ 3 ∷ [];
}

ring4-IsValid : (n : ℕ) → n ≤ 3 → Ring.Inv.IsValid 2 (ring4 n)
ring4-IsValid n le = record {
  small = omega arith;
  size_eq = refl;
  mask_eq = refl;
  capacity_eq = refl;
  prod_quiet = refl;
  cons_quiet = refl;
  prod_word = omega arith;
  cons_word = omega arith;
  room = omega arith;
  storage = omega arith;
}

abbrev due_node : Node
due_node = record { prio = pos 100000; payload = 2 }

abbrev blank : Node
blank = record { prio = pos 0; payload = 0 }

abbrev queue : PrioQueue
queue = record { elems = due_node ∷ blank ∷ blank ∷ []; cap = 3; size = 1 }

queue-IsValid : IsValid queue
queue-IsValid = record { storage = omega arith; bounded = omega arith }

queue-IsHeap : IsHeap 1 queue.elems
queue-IsHeap zero p q = absurd (omega arith)
queue-IsHeap (suc i) p q = absurd (omega arith)

abbrev metadata : Metadata
metadata = record {
  transport = transport_udp;
  txtime = 70000;
  eth_src = [];
  eth_dst = [];
  ip_src = 1;
  ip_dst = 2;
  udp_dport = 3;
  size = 4;
}

abbrev daemon : Sender
daemon = record {
  tx_ring = ring4 2;
  free_ring = ring4 0;
  queue = queue;
  metadata_pool = metadata ∷ metadata ∷ metadata ∷ [];
  mbuf_pool = [];
  sent = [];
  counter = 0;
}

abbrev buffer : TxBuf
buffer = record {
  ether = record { src_addr = []; dst_addr = []; ether_type = 0 };
  ip = record {
    dst_addr = 0;
    src_addr = 0;
    version = 0;
    ihl = 0;
    type_of_service = 0;
    total_length = 0;
    fragment_offset = 0;
    time_to_live = 0;
    next_proto_id = 0;
    hdr_checksum = 0;
    packet_id = 0;
  };
  udp = record { dst_port = 0; src_port = 0; dgram_len = 0; dgram_cksum = 0 };
  body = [];
  overlay = [];
  data_len = 0;
  pkt_len = 0;
  chained = 0;
  nb_segs = 0;
}

-- a host whose byte order is the network's, and a checksum that is always 0
abbrev pub network : Network
network = record { be16 = λ x. x; be32 = λ x. x; ipv4_cksum = λ h. 0 }

abbrev at : ℕ → Round
at now = record { spurious_tx = 0; spurious_free = 0; now = pos now; tx_buf = some buffer }

prepare_packet-lengths_example :
    let p = prepare_packet network buffer [] 0 metadata in
    let datagram = udp_hdr_len + length p.body in
    (p.udp.dgram_len ≡ datagram)
    × (p.ip.total_length ≡ ipv4_hdr_len + datagram)
    × (p.data_len ≡ ether_hdr_len + ipv4_hdr_len + datagram)
    × (p.pkt_len ≡ p.data_len)
prepare_packet-lengths_example =
    prepare_packet-lengths network buffer [] 0 metadata refl (omega arith)

too_early : 0 < 1 → pos 1000 +ℤ tx_delta_ns <ℤ pos 100000
unfolding ◌+ℤ◌
too_early some_left = omega arith

due_soon : pos 100000 ≤ℤ pos 90000 +ℤ tx_delta_ns
unfolding ◌+ℤ◌
due_soon = omega arith

schedule-drops_example :
    (s' : Sender) × (schedule network (at 200000) daemon ≡ done s')
    × (s'.sent ≡ [])
    × (s'.free_ring ≡ ring4 0)
    × Removed queue due_node s'.queue
    × Perm (2 ∷ indices s') (indices daemon)
schedule-drops_example =
    schedule-drops network (at 200000) daemon queue-IsValid (omega arith) (omega arith)

schedule-sends_example :
    (s' : Sender) × (schedule network (at 90000) daemon ≡ done s')
    × (s'.sent ≡ prepare_packet network buffer [] (2 * mbuf_size) metadata ∷ [])
    × Ring.Inv.IsValid 2 s'.free_ring
    × (contents s'.free_ring ≡ contents (ring4 0) ++ (2 ∷ []))
    × Removed queue due_node s'.queue
    × Perm (indices s') (indices daemon)
schedule-sends_example =
    schedule-sends network (at 90000) daemon {k = 2} queue-IsValid (ring4-IsValid 0 (omega arith))
      (omega arith) (omega arith) due_soon refl (omega arith)

-- a port that does not take the MTU
abbrev pub port : Port
port = record {
  valid_port = true;
  info_result = pos 0;
  max_mtu = 1400;
  configure_result = pos 0;
  mtu_result = negsuc 21;
  adjust_result = pos 0;
  nb_rxd = 512;
  nb_txd = 512;
  rx_result = λ q. pos 0;
  tx_result = λ q. pos 0;
  start_result = pos 0;
}

port_init-Ended_example : Ended port 1500 (port_init port 1500)
port_init-Ended_example = port_init-Ended port 1500
