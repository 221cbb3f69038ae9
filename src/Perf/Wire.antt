-- ===== src/Perf/Wire.antt =====
-- apps/tsn_perf.c with libktsn.c loaded before it: the socket that the talker opens and the messages that
-- it hands over are the library's.
mod Tests
use kuberne_tsn.Common.{
  ℕ, ap, ◌∙◌, ◌+◌, ◌*◌, ◌<◌, ◌++◌, length, get_or, ◌-◌, ◌%◌, ◌^◌, ◌≤◌, ◌≡◌, ◌≢◌, refl, Option, none,
  some, List, [], ◌∷◌, arith, true, false, ◌==◌, if◌then◌else◌,
}
use kuberne_tsn.Common.Int.{ℤ, pos, negsuc, ltb_ℤ, eqb_ℤ, ◌≤ℤ◌, ◌<ℤ◌}
use kuberne_tsn.Common.Run.{Run, done, aborted}
use kuberne_tsn.Clock.{as_i64}
use kuberne_tsn.Packet.{Metadata, metadata_at, mbuf_size}
use kuberne_tsn.Ring.Inv.{IsValid, contents}
use kuberne_tsn.Preload.{
  Domain, af_inet, sol_socket, so_txtime, so_priority, other_option, KtSocket, KtInterface,
  InetAddr, socket_find, interface_get_by_net, socket, update, enter, setsockopt,
}
use kuberne_tsn.Preload.Start.{value_or_chance}
use kuberne_tsn.Preload.Message.{
  ControlMessage, scm_txtime, Msg, Host, Library, inet_metadata, post, queued, find_txtime, sendmsg,
}
use kuberne_tsn.Preload.Send.{sendmsg-inet, post-queues}
use kuberne_tsn.Perf.{AppConfig}
use kuberne_tsn.Perf.Config.{Usable}
use kuberne_tsn.Perf.Talker.{Talker, Message, message_of}

-- What `init_tx_socket` meets when its calls are the library's: the descriptor of the C library, what is
-- left where the value of `socket` is read, what `setsockopt` of the C library returns, and the domain
-- that a new node has by chance.
pub record Opening : Type 0 where
  pub fd : ℤ
  pub chance : ℤ
  pub default_result : ℤ
  pub unset : Domain

-- `init_tx_socket` with the library's calls, the value it returns and the list of sockets
unfoldable pub init_preloaded : Opening → ℤ → List KtSocket → Run (ℤ × List KtSocket)
init_preloaded o priority sockets =
    let (value, opened) = socket o.fd af_inet sockets in
    let sock = value_or_chance o.chance value in
    let (ranked_result, ranked) =
      setsockopt o.default_result o.unset sock sol_socket so_priority priority opened in
    let (stamped_result, stamped) =
      setsockopt o.default_result o.unset sock sol_socket other_option (pos 0) ranked in
    let (timed_result, timed) =
      setsockopt o.default_result o.unset sock sol_socket so_txtime (pos 0) stamped in
    if ltb_ℤ sock (pos 0)
    then done (negsuc 0, opened)
    else if ltb_ℤ ranked_result (pos 0)
    then aborted
    else if ltb_ℤ stamped_result (pos 0)
    then aborted
    else done (sock, timed)

-- a signed number in memory, read as an unsigned one
unfoldable pub as_u64 : ℤ → ℕ
as_u64 (pos n) = n % 2 ^ 64
as_u64 (negsuc n) = 2 ^ 64 - 1 - n % 2 ^ 64

-- `htons` and `inet_addr` of the C library
pub record Addresses : Type 0 where
  pub htons : ℤ → ℕ
  pub inet_addr : List ℕ → ℕ

unfoldable pub control_of : Option ℤ → List ControlMessage
control_of none = []
control_of (some txtime) = scm_txtime (as_u64 txtime) ∷ []

-- The `struct msghdr` of a message; `sll_ifindex` is its address read as that of another domain.
unfoldable pub msghdr : Addresses → Option ℕ → AppConfig → Message → Msg
msghdr net sll_ifindex config m = record {
  name_in = some (record { s_addr = net.inet_addr config.addr; sin_port = net.htons config.port });
  sll_ifindex = sll_ifindex;
  iov_base = m.bytes;
  iov_len = as_u64 config.msg_size;
  control = control_of m.stamp;
}

-- A time of 64 bits is the same after it has been written as an unsigned number and read as a signed one.
as_i64-as_u64 : (t : ℤ) → negsuc (2 ^ 63 - 1) ≤ℤ t → t <ℤ pos (2 ^ 63) → as_i64 (as_u64 t) ≡ t
unfolding as_i64 as_u64
as_i64-as_u64 (pos n) lo hi = ground arith
as_i64-as_u64 (negsuc n) lo hi = ground arith

eqb_ℤ-refl : (a : ℤ) → eqb_ℤ a a ≡ true
eqb_ℤ-refl a = ground arith

-- A write to the node at the head of the list.
enter-head :
    (write : KtSocket → KtSocket) (unset : Domain) (node : KtSocket) (sockets : List KtSocket)
    → enter write unset (node ∷ sockets) node.fd ≡ write node ∷ sockets
unfolding enter socket_find update
enter-head write unset node sockets =
    let found : socket_find (node ∷ sockets) node.fd ≡ some node =
      rw (eqb_ℤ-refl node.fd, socket_find) refl in
    let written : update write (node ∷ sockets) node.fd ≡ write node ∷ sockets =
      rw (eqb_ℤ-refl node.fd, update) refl in
    rw (found, enter) written

-- the node of the talker's socket
abbrev pub talker_node : ℤ → ℤ → KtSocket
talker_node fd priority = record { fd = fd; prio = priority; txtime = 1; domain = af_inet }

abbrev opened_node : ℤ → ℤ → KtSocket
opened_node fd priority = record { fd = fd; prio = priority; txtime = 0; domain = af_inet }

init_preloaded-opens :
    (o : Opening) (priority : ℤ) (sockets : List KtSocket)
    → ltb_ℤ o.fd (pos 0) ≡ false
    → o.chance ≡ o.fd
    → ltb_ℤ o.default_result (pos 0) ≡ false
    → socket_find sockets o.fd ≡ none
    → init_preloaded o priority sockets ≡ done (o.fd, talker_node o.fd priority ∷ sockets)
unfolding init_preloaded socket value_or_chance setsockopt
init_preloaded-opens o priority sockets opens by_chance stamps fresh =
    let made : socket o.fd af_inet sockets ≡ (none, opened_node o.fd (negsuc 0) ∷ sockets) =
      rw (opens, fresh, socket) refl in
    let ranked =
      enter-head (λ node. record node { prio = priority }) o.unset (opened_node o.fd (negsuc 0))
        sockets in
    let timed =
      enter-head (λ node. record node { txtime = 1 }) o.unset (opened_node o.fd priority) sockets in
    rw (made, by_chance, opens, stamps, ranked, timed) refl

found-head :
    (node : KtSocket) (sockets : List KtSocket) → socket_find (node ∷ sockets) node.fd ≡ some node
unfolding socket_find
found-head node sockets = rw (eqb_ℤ-refl node.fd) refl

size-short : (size : ℤ) → pos 0 <ℤ size → size ≤ℤ pos 1450 → as_u64 size ≤ mbuf_size
unfolding as_u64
size-short (pos n) lo hi = omega arith
size-short (negsuc n) lo hi = absurd (omega arith)

-- What the daemon finds of a message of the talker: the index of its packet at the end of the ring, the time
-- that the talker means, its peer and the length of the message in the packet's entry, and the bytes of the
-- message in its slot.
pub record Posted (net : Addresses) (host : Host) (config : AppConfig) (m : Message) (due : ℤ)
    (i : ℕ) (l l' : Library) : Type 0 where
  pub last : contents l'.tx_ring ≡ contents l.tx_ring ++ (i ∷ [])
  pub time : as_i64 (metadata_at l'.metadata_pool i).txtime ≡ due
  pub size : pos (metadata_at l'.metadata_pool i).size ≡ config.msg_size
  pub peer : (metadata_at l'.metadata_pool i).ip_dst ≡ host.ntohl (net.inet_addr config.addr)
  pub port : (metadata_at l'.metadata_pool i).udp_dport ≡ host.ntohs (net.htons config.port)
  pub bytes :
      (p : ℕ)
      → pos p <ℤ config.msg_size
      → get_or l'.mbuf_pool (i * mbuf_size + p) 0 ≡ get_or m.bytes p 0

size-kept : (size : ℤ) → pos 0 <ℤ size → size ≤ℤ pos 1450 → pos (as_u64 size) ≡ size
unfolding as_u64
size-kept (pos n) lo hi = ap pos (omega arith)
size-kept (negsuc n) lo hi = absurd (omega arith)

size-inside :
    (size : ℤ) (p : ℕ) → pos 0 <ℤ size → size ≤ℤ pos 1450 → pos p <ℤ size → p < as_u64 size
unfolding as_u64
size-inside (pos n) p lo hi lt = omega arith
size-inside (negsuc n) p lo hi lt = absurd (omega arith)

module _ (o : Opening) (net : Addresses) (sll_ifindex : Option ℕ) (config : AppConfig)
    (priority : ℤ) (host : Host) (sf st : ℕ) (l : Library) (s : Talker) (bytes : List ℕ) where
  abbrev addr : InetAddr
  addr = record { s_addr = net.inet_addr config.addr; sin_port = net.htons config.port }

  abbrev msg : Msg
  msg = msghdr net sll_ifindex config (message_of config s bytes)

  abbrev opened : Library
  opened = record l { sockets = talker_node o.fd priority ∷ l.sockets }

  sendmsg-posts :
      {iface : KtInterface}
      → config.use_txtime ≢ 0
      → interface_get_by_net l.interfaces (some addr) ≡ some iface
      → sendmsg host sf st opened o.fd msg
        ≡ post sf st opened msg (inet_metadata host (as_u64 s.txtime) msg.iov_len iface addr)
  unfolding msghdr message_of find_txtime control_of as_u64
  sendmsg-posts {iface} timed known =
      let uses : (config.use_txtime == 0) ≡ false = ground arith in
      let asked : find_txtime msg.control ≡ some (as_u64 s.txtime) = rw uses refl in
      sendmsg-inet host sf st opened o.fd msg (found-head (talker_node o.fd priority) l.sockets)
        (λ off. absurd (omega arith)) asked refl refl known

  -- With SO_TXTIME in use, a usable configuration, a new descriptor that the variable holds although
  -- `socket` returns nothing, and SO_TIMESTAMPING accepted by the C library, the talker's socket opens. With an
  -- interface in the network of the receiver, valid rings, a free packet whose entry and slot are in the pools
  -- and room in the ring of packets to send, its message is then queued: the index of that packet is last in
  -- the ring, the daemon reads the time that the talker means there, if this fits 64 bits, with the peer, the
  -- port and the length of the message, and the slot has the message's bytes.
  pub talker_posts :
      {iface : KtInterface} {k j i : ℕ} {rest : List ℕ}
      → Usable config
      → config.use_txtime ≢ 0
      → negsuc (2 ^ 63 - 1) ≤ℤ s.txtime
      → s.txtime <ℤ pos (2 ^ 63)
      → ltb_ℤ o.fd (pos 0) ≡ false
      → o.chance ≡ o.fd
      → ltb_ℤ o.default_result (pos 0) ≡ false
      → socket_find l.sockets o.fd ≡ none
      → interface_get_by_net l.interfaces (some addr) ≡ some iface
      → IsValid k l.free_ring
      → IsValid j l.tx_ring
      → contents l.free_ring ≡ i ∷ rest
      → length (contents l.tx_ring) < 2 ^ j - 1
      → i < length l.metadata_pool
      → i * mbuf_size + mbuf_size ≤ length l.mbuf_pool
      → (init_preloaded o priority l.sockets ≡ done (o.fd, opened.sockets))
        × ((l' : Library) × (sendmsg host sf st opened o.fd msg ≡ done (queued msg.iov_len, l'))
            × Posted net host config (message_of config s bytes) s.txtime i l l')
  unfolding msghdr inet_metadata
  talker_posts {iface} {i = i} usable timed lo hi opens by_chance stamps fresh known free_v tx_v
        first room here fits =
      let short = size-short config.msg_size usable.smallest usable.largest in
      let fill = inet_metadata host (as_u64 s.txtime) msg.iov_len iface addr in
      let (l', ran, _, _, q) =
        post-queues opened msg fill sf st free_v tx_v first room here (omega arith) in
      (
        init_preloaded-opens o priority l.sockets opens by_chance stamps fresh,
        (
          l',
          sendmsg-posts timed known ∙ ran,
          record {
            last = q.tx_queue;
            time = ap (λ (m : Metadata). as_i64 m.txtime) q.metadata ∙ as_i64-as_u64 s.txtime lo hi;
            size =
                ap (λ (m : Metadata). pos m.size) q.metadata
                ∙ size-kept config.msg_size usable.smallest usable.largest;
            peer = ap (λ (m : Metadata). m.ip_dst) q.metadata;
            port = ap (λ (m : Metadata). m.udp_dport) q.metadata;
            bytes = λ p lt.
                q.payload p (size-inside config.msg_size p usable.smallest usable.largest lt);
          },
        ),
      )
