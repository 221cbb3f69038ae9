-- ===== src/Preload/Paths.antt =====
-- The ways a call of `sendmsg` can take.
use kuberne_tsn.Common.{ℕ, inl, inr, some, ◌==◌, Bool-cases, Option-cases}
use kuberne_tsn.Common.Int.{ℤ}
use kuberne_tsn.Common.Run.{Run, done, aborted}
use kuberne_tsn.Packet.{Metadata}
use kuberne_tsn.Preload.{
  Domain, pf_packet, af_inet, other_domain, socket_find, interface_find, interface_get_by_net,
}
use kuberne_tsn.Preload.Message.{
  Msg, Host, Library, Outcome, passed_on, no_value, inet_metadata, packet_metadata, write_packet,
  post, sendmsg_inet, sendmsg_packet, find_txtime, dispatch, sendmsg,
}

-- A send that does not reach the rings, or one that does with some metadata.
pub data Way (sf st : ℕ) (l : Library) (msg : Msg) : Run (Outcome × Library) → Type 0 where
  stops : (out : Outcome) → Way sf st l msg (done (out, l))
  faults : Way sf st l msg aborted
  posts : (fill : Metadata → Metadata) → Way sf st l msg (post sf st l msg fill)

module _ (host : Host) (sf st : ℕ) (l : Library) (msg : Msg) (txtime : ℕ) where
  sendmsg_inet-Way : Way sf st l msg (sendmsg_inet host sf st l msg txtime)
  unfolding sendmsg_inet post write_packet
  sendmsg_inet-Way = elim (Option-cases msg.name_in) [
    | inl unnamed ↦ rw (unnamed, sendmsg_inet) (stops passed_on)
    | inr (addr, named) ↦ elim (Option-cases (interface_get_by_net l.interfaces (some addr))) [
      | inl unknown ↦ rw (named, unknown, sendmsg_inet) (stops passed_on)
      | inr (iface, known) ↦
          rw (named, known, sendmsg_inet) (posts (inet_metadata host txtime msg.iov_len iface addr))
    ]
  ]

  sendmsg_packet-Way : Way sf st l msg (sendmsg_packet sf st l msg txtime)
  unfolding sendmsg_packet post write_packet
  sendmsg_packet-Way = elim (Option-cases msg.sll_ifindex) [
    | inl unnamed ↦ rw (unnamed, sendmsg_packet) faults
    | inr (ifindex, named) ↦ elim (Option-cases (interface_find l.interfaces ifindex)) [
      | inl unknown ↦ rw (named, unknown, sendmsg_packet) (stops passed_on)
      | inr (iface, known) ↦
          rw (named, known, sendmsg_packet) (posts (packet_metadata txtime msg.iov_len iface))
    ]
  ]

  dispatch-Way : (domain : Domain) → Way sf st l msg (dispatch host sf st l msg domain txtime)
  unfolding dispatch
  dispatch-Way pf_packet = sendmsg_packet-Way
  dispatch-Way af_inet = sendmsg_inet-Way
  dispatch-Way other_domain = stops no_value

-- A call of `sendmsg` leaves the library as it is, faults, or posts the message with some metadata.
pub sendmsg-Way :
    (host : Host) (sf st : ℕ) (l : Library) (sockfd : ℤ) (msg : Msg)
    → Way sf st l msg (sendmsg host sf st l sockfd msg)
unfolding sendmsg
sendmsg-Way host sf st l sockfd msg = elim (Option-cases (socket_find l.sockets sockfd)) [
  | inl missing ↦ rw (missing, sendmsg) (stops passed_on)
  | inr (node, registered) ↦ elim (Bool-cases (node.txtime == 0)) [
    | inl off ↦ rw (registered, off, sendmsg) (stops passed_on)
    | inr on ↦ elim (Option-cases (find_txtime msg.control)) [
      | inl unset ↦ rw (registered, on, unset, sendmsg) (stops passed_on)
      | inr (txtime, timed) ↦
          rw (registered, on, timed, sendmsg) (dispatch-Way host sf st l msg txtime node.domain)
    ]
  ]
]
