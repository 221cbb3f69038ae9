-- ===== src/Preload/Message.antt =====
-- The sending of messages in libktsn.c. The byte order functions of the host are parameters.
use kuberne_tsn.Common.{
  ℕ, ◌*◌, Option, none, some, List, [], ◌∷◌, get_or, set, take, replicate, ◌==◌, if◌then◌else◌,
}
use kuberne_tsn.Common.Int.{ℤ}
use kuberne_tsn.Common.Run.{Run, done, aborted, ◌>>=◌}
use kuberne_tsn.Copy.{copy_words}
use kuberne_tsn.Packet.{Metadata, metadata_at, mbuf_size, transport_udp, transport_ethernet}
use kuberne_tsn.Ring.{RingBuf, enqueue_burst, dequeue_burst}
use kuberne_tsn.Preload.{
  Domain, pf_packet, af_inet, other_domain, KtSocket, InetAddr, KtInterface, socket_find,
  interface_find, interface_get_by_net,
}

-- a control message: the send time, or anything else
pub data ControlMessage : Type 0 where
  scm_txtime : (txtime : ℕ) → ControlMessage
  other_message : ControlMessage

-- `struct msghdr`: `name_in` is `msg_name` read as a `sockaddr_in`, `sll_ifindex` that of it read as a
-- `sockaddr_ll`; both are missing when it is NULL. Only the first buffer of the message is read.
pub record Msg : Type 0 where
  pub name_in : Option InetAddr
  pub sll_ifindex : Option ℕ
  pub iov_base : List ℕ
  pub iov_len : ℕ
  pub control : List ControlMessage

pub record Host : Type 0 where
  pub ntohl : ℕ → ℕ
  pub ntohs : ℕ → ℕ

-- the global variables of the library, and the memory that it shares with the daemon
pub record Library : Type 0 where
  pub sockets : List KtSocket
  pub interfaces : List KtInterface
  pub tx_ring : RingBuf
  pub free_ring : RingBuf
  pub metadata_pool : List Metadata
  pub mbuf_pool : List ℕ

-- How a send ends: with what `default_sendmsg` returns, with -ENOBUFS, with the number of bytes, or at
-- the end of the function without a value.
pub data Outcome : Type 0 where
  passed_on no_buffers no_value : Outcome
  queued : (size : ℕ) → Outcome

-- `kt_default_dst_mac` and `kt_multicast_mac`
abbrev pub default_dst_mac : List ℕ
default_dst_mac = replicate 6 0xff

abbrev pub multicast_mac : List ℕ
multicast_mac = 0x01 ∷ 0x00 ∷ 0x5e ∷ 0x00 ∷ 0x00 ∷ 0x01 ∷ []

-- What `sendmsg_inet` writes into the metadata.
unfoldable pub inet_metadata : Host → ℕ → ℕ → KtInterface → InetAddr → Metadata → Metadata
inet_metadata host txtime size iface addr m = record m {
  txtime = txtime;
  size = size;
  eth_src = take 6 iface.mac;
  eth_dst = default_dst_mac;
  ip_dst = host.ntohl addr.s_addr;
  ip_src = host.ntohl iface.addr.s_addr;
  udp_dport = host.ntohs addr.sin_port;
  transport = transport_udp;
}

-- What `sendmsg_packet` writes into the metadata: the addresses and the port stay as they were.
unfoldable pub packet_metadata : ℕ → ℕ → KtInterface → Metadata → Metadata
packet_metadata txtime size iface m = record m {
  txtime = txtime;
  size = size;
  transport = transport_ethernet;
  eth_src = take 6 iface.mac;
  eth_dst = multicast_mac;
}

-- The memory after the payload and the metadata of packet `i` are written.
unfoldable pub write_packet : Library → RingBuf → Msg → (Metadata → Metadata) → ℕ → Library
write_packet l free msg fill i = record l {
  free_ring = free;
  mbuf_pool = copy_words msg.iov_len msg.iov_base 0 l.mbuf_pool (i * mbuf_size);
  metadata_pool = set l.metadata_pool i (fill (metadata_at l.metadata_pool i));
}

-- What `sendmsg_inet` and `sendmsg_packet` do once they have an interface, with the number of spurious
-- failures on the two rings.
unfoldable pub post : ℕ → ℕ → Library → Msg → (Metadata → Metadata) → Run (Outcome × Library)
post spurious_free spurious_tx l msg fill = do
  (nb_free, available, mbuf_index, free) ← dequeue_burst spurious_free l.free_ring (0 ∷ []) 8 1
  let index = get_or mbuf_index 0 0 in
      let written = write_packet l free msg fill index in
      let queueing = enqueue_burst spurious_tx l.tx_ring (index ∷ []) 8 1 >>= λ (nb, left, tx).
      done (if nb == 1 then queued msg.iov_len else no_buffers, record written { tx_ring = tx }) in
      if nb_free == 0 then done (no_buffers, record l { free_ring = free }) else queueing

unfoldable pub sendmsg_inet : Host → ℕ → ℕ → Library → Msg → ℕ → Run (Outcome × Library)
sendmsg_inet host spurious_free spurious_tx l msg txtime =
    elim msg.name_in as (λ _. Run (Outcome × Library)) [
      | none ↦ done (passed_on, l)
      | some addr ↦
          elim (interface_get_by_net l.interfaces (some addr)) as (λ _. Run (Outcome × Library)) [
            | none ↦ done (passed_on, l)
            | some iface ↦
                post spurious_free spurious_tx l msg
                  (inet_metadata host txtime msg.iov_len iface addr)
          ]
    ]

-- `aborted` stands for the read through a `msg_name` that is NULL.
unfoldable pub sendmsg_packet : ℕ → ℕ → Library → Msg → ℕ → Run (Outcome × Library)
sendmsg_packet spurious_free spurious_tx l msg txtime =
    elim msg.sll_ifindex as (λ _. Run (Outcome × Library)) [
      | none ↦ aborted
      | some ifindex ↦
          elim (interface_find l.interfaces ifindex) as (λ _. Run (Outcome × Library)) [
            | none ↦ done (passed_on, l)
            | some iface ↦
                post spurious_free spurious_tx l msg (packet_metadata txtime msg.iov_len iface)
          ]
    ]

-- The loop over the control messages: the first send time.
unfoldable pub find_txtime : List ControlMessage → Option ℕ
find_txtime [] = none
find_txtime (scm_txtime txtime ∷ rest) = some txtime
find_txtime (other_message ∷ rest) = find_txtime rest

-- the `switch` over the domain
unfoldable pub dispatch : Host → ℕ → ℕ → Library → Msg → Domain → ℕ → Run (Outcome × Library)
dispatch host spurious_free spurious_tx l msg pf_packet txtime =
    sendmsg_packet spurious_free spurious_tx l msg txtime
dispatch host spurious_free spurious_tx l msg af_inet txtime =
    sendmsg_inet host spurious_free spurious_tx l msg txtime
dispatch host spurious_free spurious_tx l msg other_domain txtime = done (no_value, l)

unfoldable pub sendmsg : Host → ℕ → ℕ → Library → ℤ → Msg → Run (Outcome × Library)
sendmsg host spurious_free spurious_tx l sockfd msg =
    elim (socket_find l.sockets sockfd) as (λ _. Run (Outcome × Library)) [
      | none ↦ done (passed_on, l)
      | some node ↦
          let with_time : Run (Outcome × Library) = elim (find_txtime msg.control) [
            | none ↦ done (passed_on, l)
            | some txtime ↦ dispatch host spurious_free spurious_tx l msg node.domain txtime
          ] in
          if node.txtime == 0 then done (passed_on, l) else with_time
    ]
