-- ===== src/Exchange/Delivery.antt =====
-- From a call of `sendmsg` to the packet that the daemon sends for it.
use mathlib.Core.Path.{subst}
use kuberne_tsn.Common.{
  ℕ, zero, suc, ◌+◌, ◌*◌, ◌<◌, ◌≤◌, ◌≡◌, ◌≢◌, refl, sym, ap, ap₂, ◌∙◌, some, List, ◌∷◌, arith,
  get_or,
}
use kuberne_tsn.Common.Int.{ℤ, ◌+ℤ◌, ◌≤ℤ◌}
use kuberne_tsn.Common.Run.{done, done-inj}
use kuberne_tsn.Clock.{as_i64}
use kuberne_tsn.Packet.{Metadata, metadata_at, mbuf_size, read_bytes}
use kuberne_tsn.Ring.Inv.{contents}
use kuberne_tsn.Preload.{
  af_inet, KtSocket, KtInterface, InetAddr, socket_find, interface_get_by_net,
}
use kuberne_tsn.Preload.Message.{
  Msg, Host, Library, Outcome, queued, find_txtime, inet_metadata, sendmsg,
}
use kuberne_tsn.Preload.Send.{Queued, post-queues, sendmsg-inet}
use kuberne_tsn.Sender.{Sender, Round, tx_delta_ns, schedule}
use kuberne_tsn.Sender.Frame.{TxBuf, Network, prepare_packet, prepare_packet-udp}
use kuberne_tsn.Sender.Schedule.{first}
use kuberne_tsn.Exchange.{Fitting, Exchange, daemon, send, Reach, later}
use kuberne_tsn.Exchange.Sends.{head-below, head-room}
use kuberne_tsn.Exchange.Rounds.{Served, rested, dropped, sent, serve-Served}
use kuberne_tsn.Exchange.Reached.{Reach-Inv}
use kuberne_tsn.Exchange.Untouched.{WaitsFits, Waits-Fitting, Waits, Waits-Reach, waiting-Kept}
use kuberne_tsn.Exchange.Timed.{serve-on_time}

-- Equal entries are read as equal lists.
read_bytes-same :
    (n : ℕ) (xs ys : List ℕ) (i j : ℕ)
    → ((p : ℕ) → p < n → get_or xs (i + p) 0 ≡ get_or ys (j + p) 0)
    → read_bytes n xs i ≡ read_bytes n ys j
unfolding read_bytes
read_bytes-same zero xs ys i j same = refl
read_bytes-same (suc n) xs ys i j same =
    let next = λ (p : ℕ) (lt : p < n).
      let shift : (a : ℕ) → a + suc p ≡ a + 1 + p = λ a. omega arith in
      let one : get_or xs (i + suc p) 0 ≡ get_or ys (j + suc p) 0 = same (suc p) (omega arith) in
      rw (shift i, shift j) at one in
    let zero_left : (a : ℕ) → a + 0 ≡ a = λ a. omega arith in
    let head = rw (zero_left i, zero_left j) at (same 0 (omega arith)) in
    ap₂ ◌∷◌ head (read_bytes-same n xs ys (i + 1) (j + 1) next)

-- The packet that a round sends when it counts one more.
Served-packet :
    {k : ℕ} {net : Network} {r : Round} {y : Exchange} {s : Sender}
    → Served k net r y s
    → y.counter < s.counter
    → (tx_buf : TxBuf) × (s.sent
        ≡ let i = (first (daemon y)).payload in
          prepare_packet net tx_buf y.lib.mbuf_pool
            (i * mbuf_size)
            (metadata_at y.lib.metadata_pool i)
          ∷ y.sent)
Served-packet (rested in_time) more = absurd (omega arith)
Served-packet (dropped pos past) more = absurd (omega arith)
Served-packet (sent tx_buf rb pos ahead near buffer rb_v holds) more = (tx_buf, refl)

module _ (host : Host) (net : Network) {k : ℕ} {x : Exchange} (sf st : ℕ) (sockfd : ℤ) (msg : Msg)
    {node : KtSocket} {t : ℕ} {addr : InetAddr} {iface : KtInterface} {i : ℕ} {rest : List ℕ}
    {l : Library} (reached : Reach host net k x) (fitting : Fitting reached)
    (registered : socket_find x.lib.sockets sockfd ≡ some node) (timed : node.txtime ≢ 0)
    (time : find_txtime msg.control ≡ some t) (domain : node.domain ≡ af_inet)
    (name : msg.name_in ≡ some addr)
    (network : interface_get_by_net x.lib.interfaces (some addr) ≡ some iface)
    (short : msg.iov_len ≤ mbuf_size) (head : contents x.lib.free_ring ≡ i ∷ rest)
    (ended : sendmsg host sf st x.lib sockfd msg ≡ done (queued msg.iov_len, l)) where
  sendmsg-Queued : Queued x.lib msg (inet_metadata host t msg.iov_len iface addr) i l
  sendmsg-Queued =
      let inv = Reach-Inv reached fitting in
      let below = head-below inv head in
      let fill = inet_metadata host t msg.iov_len iface addr in
      let (l', ran, free_v, tx_v, q) =
        post-queues x.lib msg fill sf st inv.free_valid inv.tx_valid head (head-room inv head)
          (omega (arith, inv.metadata_size)) (omega (arith, inv.payload_size)) in
      let posted =
        sendmsg-inet host sf st x.lib sockfd msg registered timed time domain name network in
      subst (λ (p : Outcome × Library). Queued x.lib msg fill i p.1)
        (done-inj (sym ran ∙ sym posted ∙ ended)) q

  -- When the call of `sendmsg` has queued the message, the state goes on from it with the packet
  -- waiting, and the daemon then sends that packet, the packet carries the message's bytes and is for
  -- the address and port of the message, and the time that the message asks for is not over and at
  -- most `tx_delta_ns` away, if no message is longer than a slot and no burst goes round the end of the
  -- ring (`Fitting` and `WaitsFits`).
  pub message_delivered :
      {y : Exchange} (r : Round) {s : Sender}
      → (waits : Waits host net i (record x { lib = l }) y) → WaitsFits waits
      → (first (daemon y)).payload ≡ i
      → schedule net r (daemon y) ≡ done s
      → y.counter < s.counter
      → (packet : TxBuf) × (s.sent ≡ packet ∷ y.sent)
        × (packet.body ≡ read_bytes msg.iov_len msg.iov_base 0)
        × (packet.ip.src_addr ≡ net.be32 (host.ntohl iface.addr.s_addr))
        × (packet.ip.dst_addr ≡ net.be32 (host.ntohl addr.s_addr))
        × (packet.udp.dst_port ≡ net.be16 (host.ntohs addr.sin_port))
        × (r.now ≤ℤ as_i64 t)
        × (as_i64 t ≤ℤ r.now +ℤ tx_delta_ns)
  unfolding inet_metadata
  message_delivered {y} r waits fits due served more =
      let q = sendmsg-Queued in
      let reached1 = later reached (send sf st sockfd msg ended) in
      let fitting1 : Fitting reached1 = (fitting, short) in
      let kept = waiting-Kept i reached1 fitting1 waits fits in
      let m = kept.metadata ∙ q.metadata in
      let reached2 = Waits-Reach reached1 waits in
      let fitting2 = Waits-Fitting reached1 waits fitting1 fits in
      let (tx_buf, packet) =
        Served-packet (serve-Served (Reach-Inv reached2 fitting2) net r served) more in
      let (body, src, dst, port) =
        prepare_packet-udp net tx_buf y.lib.mbuf_pool (i * mbuf_size)
          (metadata_at y.lib.metadata_pool i) (ap (λ (d : Metadata). d.transport) m) in
      let bytes =
        read_bytes-same msg.iov_len y.lib.mbuf_pool msg.iov_base (i * mbuf_size) 0 (λ p lt.
          kept.payload p (omega arith)
          ∙ q.payload p lt
          ∙ ap (λ n. get_or msg.iov_base n 0) (omega arith)) in
      let size = ap (λ (d : Metadata). read_bytes d.size y.lib.mbuf_pool (i * mbuf_size)) m in
      let soon = rw due at (serve-on_time r reached2 fitting2 served more) in
      let asked = ap (λ (d : Metadata). as_i64 d.txtime) m in
      (
        prepare_packet net tx_buf y.lib.mbuf_pool (i * mbuf_size)
            (metadata_at y.lib.metadata_pool i),
        rw due at packet,
        body ∙ size ∙ bytes,
        src ∙ ap (λ (d : Metadata). net.be32 d.ip_src) m,
        dst ∙ ap (λ (d : Metadata). net.be32 d.ip_dst) m,
        port ∙ ap (λ (d : Metadata). net.be16 d.udp_dport) m,
        rw asked at soon.0,
        rw asked at soon.1,
      )
