-- ===== src/Perf/Wire/Tests.antt =====
-- A talker with the library, on a machine with one interface.
use kuberne_tsn.Common.{
  ℕ, length-replicate, ◌≤◌, ◌≡◌, refl, ap, none, some, [], ◌∷◌, replicate, arith,
}
use kuberne_tsn.Common.Int.{pos, pos_part}
use kuberne_tsn.Common.Run.{done}
use kuberne_tsn.Packet.{null_metadata}
use kuberne_tsn.Preload.{
  af_inet, KtInterface, InetAddr, socket_find, interface_get_by_net, get_by_net_loop,
  is_same_subnetwork,
}
use kuberne_tsn.Preload.Message.{Host, Library, Msg, queued, sendmsg}
use kuberne_tsn.Perf.{AppConfig, default_config}
use kuberne_tsn.Perf.Config.{Usable}
use kuberne_tsn.Perf.Talker.{Talker, message_of}
use kuberne_tsn.Perf.Wire.{
  Opening, init_preloaded, Addresses, msghdr, talker_node, Posted, talker_posts,
}
use kuberne_tsn.Ring.{RingBuf}
use kuberne_tsn.Ring.Inv.{IsValid}

abbrev ring : RingBuf
ring = record {
  name = [];
  data_ptr = 0;
  size = 2;
  esize = 1;
  mask = 1;
  capacity = 1;
  prod = record { head = 1; tail = 1 };
  cons = record { head = 0; tail = 0 };
  ring = 0 ∷ 0 ∷ [];
}

-- an interface with the address 5 in the network of the addresses with that third bit
abbrev eth0 : KtInterface
eth0 = record {
  ifindex = 2;
  name = [];
  addr = record { s_addr = 5; sin_port = 0 };
  netmask = 4;
  mac = [];
}

abbrev lib : Library
lib = record {
  sockets = [];
  interfaces = eth0 ∷ [];
  tx_ring = record ring { prod = record { head = 0; tail = 0 } };
  free_ring = ring;
  metadata_pool = null_metadata ∷ [];
  mbuf_pool = replicate 2048 0;
}

abbrev host : Host
host = record { ntohl = λ a. a; ntohs = λ a. a }

abbrev net : Addresses
net = record { htons = λ p. 9999; inet_addr = λ text. 7 }

-- a configuration that uses SO_TXTIME
abbrev config : AppConfig
config = record default_config { use_txtime = 1 }

config-Usable : Usable config
config-Usable = record {
  has_port = λ e. absurd (omega (arith, ap pos_part e));
  smallest = omega arith;
  largest = omega arith;
  some_msgs = omega arith;
}

abbrev opening : Opening
opening = record { fd = pos 3; chance = pos 3; default_result = pos 0; unset = af_inet }

abbrev state : Talker
state = record { txtime = pos 2000000000; wakeup_time = pos 1999900000; counter = 1 }

abbrev peer : InetAddr
peer = record { s_addr = 7; sin_port = 9999 }

near : interface_get_by_net (eth0 ∷ []) (some peer) ≡ some eth0
unfolding interface_get_by_net get_by_net_loop is_same_subnetwork
near = refl

unknown : socket_find [] (pos 3) ≡ none
unfolding socket_find
unknown = refl

abbrev msg : Msg
msg = msghdr net none config (message_of config state (1 ∷ 0 ∷ 0 ∷ 0 ∷ []))

abbrev opened : Library
opened = record lib { sockets = talker_node (pos 3) (pos 0) ∷ [] }

ring-IsValid : (n : ℕ) → n ≤ 1 → IsValid 1 (record ring { prod = record { head = n; tail = n } })
ring-IsValid n le = record {
  small = omega arith;
  size_eq = refl;
  mask_eq = refl;
  capacity_eq = refl;
  prod_quiet = refl;
  cons_quiet = refl;
  prod_word = omega arith;
  cons_word = omega arith;
  room = omega arith;
  storage = omega arith;
}

talker_posts_example :
    (init_preloaded opening (pos 0) [] ≡ done (pos 3, opened.sockets))
    × ((l' : Library) × (sendmsg host 0 0 opened (pos 3) msg ≡ done (queued msg.iov_len, l'))
        × Posted net host config
            (message_of config state (1 ∷ 0 ∷ 0 ∷ 0 ∷ []))
            (pos 2000000000)
            0
            lib
            l')
talker_posts_example =
    talker_posts opening net none config (pos 0) host 0 0 lib state (1 ∷ 0 ∷ 0 ∷ 0 ∷ [])
      {iface = eth0} {k = 1} {j = 1} config-Usable (λ e. absurd (omega (arith, e))) (omega arith)
      (omega arith) refl refl refl unknown near (ring-IsValid 1 (omega arith))
      (ring-IsValid 0 (omega arith)) refl (omega arith) (omega arith)
      (omega (arith, length-replicate {A = ℕ} 2048 0))
