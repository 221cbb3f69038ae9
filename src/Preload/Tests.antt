-- ===== src/Preload/Tests.antt =====
-- A program with one socket that has a send time, and the theorems at it.
use kuberne_tsn.Common.{ℕ, ◌≤◌, ◌≡◌, refl, some, none, [], ◌∷◌, arith, replicate}
use kuberne_tsn.Common.Int.{pos, negsuc}
use kuberne_tsn.Common.Run.{done}
use kuberne_tsn.Packet.{Metadata}
use kuberne_tsn.Ring.{RingBuf}
use kuberne_tsn.Ring.Inv.{contents}
use kuberne_tsn.Ring
use kuberne_tsn.Preload.{af_inet, KtSocket, KtInterface, InetAddr}
use kuberne_tsn.Preload.Message.{Msg, Host, Library, scm_txtime, queued, post}
use kuberne_tsn.Preload.Send.{Queued, post-queues}

-- a ring of two words, which holds `n` of at most one
abbrev ring2 : ℕ → RingBuf
ring2 n = record {
  name = [];
  data_ptr = 0;
  size = 2;
  esize = 1;
  mask = 1;
  capacity = 1;
  prod = record { head = n; tail = n };
  cons = record { head = 0; tail = 0 };
  ring = 0 ∷ 0 ∷ [];
}

ring2-IsValid : (n : ℕ) → n ≤ 1 → Ring.Inv.IsValid 1 (ring2 n)
ring2-IsValid n le = record {
  small = omega arith;
  size_eq = refl;
  mask_eq = refl;
  capacity_eq = refl;
  prod_quiet = refl;
  cons_quiet = refl;
  prod_word = omega arith;
  cons_word = omega arith;
  room = omega arith;
  storage = omega arith;
}

abbrev timed : KtSocket
timed = record { fd = pos 5; prio = negsuc 0; txtime = 1; domain = af_inet }

abbrev peer : InetAddr
peer = record { s_addr = 7; sin_port = 9 }

abbrev iface : KtInterface
iface = record {
  ifindex = 1;
  name = [];
  addr = record { s_addr = 6; sin_port = 0 };
  netmask = 4;
  mac = [];
}

abbrev msg : Msg
msg = record {
  name_in = some peer;
  sll_ifindex = none;
  iov_base = 1 ∷ 2 ∷ 3 ∷ [];
  iov_len = 3;
  control = scm_txtime 1000 ∷ [];
}

abbrev no_metadata : Metadata
no_metadata = record {
  transport = 0;
  txtime = 0;
  eth_src = [];
  eth_dst = [];
  ip_src = 0;
  ip_dst = 0;
  udp_dport = 0;
  size = 0;
}

-- the program with `f` free packets and `t` packets to send
abbrev program : ℕ → ℕ → Library
program f t = record {
  sockets = timed ∷ [];
  interfaces = iface ∷ [];
  tx_ring = ring2 t;
  free_ring = ring2 f;
  metadata_pool = no_metadata ∷ [];
  mbuf_pool = replicate 8 0;
}

abbrev keep : Metadata → Metadata
keep m = m

-- a host whose byte order is the network's
abbrev host : Host
host = record { ntohl = λ x. x; ntohs = λ x. x }

post-queues_example :
    (l' : Library) × (post 0 0 (program 1 0) msg keep ≡ done (queued 3, l'))
    × Ring.Inv.IsValid 1 l'.free_ring
    × Ring.Inv.IsValid 1 l'.tx_ring
    × Queued (program 1 0) msg keep 0 l'
post-queues_example =
    post-queues (program 1 0) msg keep 0 0 {k = 1} {j = 1} {i = 0} {rest = []}
      (ring2-IsValid 1 (omega arith)) (ring2-IsValid 0 (omega arith)) refl (omega arith)
      (omega arith) (omega arith)
