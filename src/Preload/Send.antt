-- ===== src/Preload/Send.antt =====
-- What a send does to the rings and the pools.
use kuberne_tsn.Common.{
  ℕ, ◌+◌, ◌-◌, ◌*◌, ◌^◌, ◌≤◌, ◌<◌, ◌≡◌, ◌≢◌, refl, sym, ap, ◌∙◌, ◌⊎◌, inl, inr, none, some, List,
  [], ◌∷◌, ◌++◌, arith, length, get_or, get_or-set, get_or-set_ne, length-set, ◌==◌, if◌then◌else◌,
  false, Option-cases,
}
use kuberne_tsn.Common.Int.{ℤ}
use kuberne_tsn.Common.Run.{done}
use kuberne_tsn.Copy.Laws.{get_or-copy_words, length-copy_words}
use kuberne_tsn.Packet.{Metadata, null_metadata, metadata_at, mbuf_size}
use kuberne_tsn.Ring.{RingBuf, enqueue_burst, dequeue_burst}
use kuberne_tsn.Ring.Inv.{IsValid, contents}
use kuberne_tsn.Ring.Single.{enqueue_one, enqueue_one-full, dequeue_one, dequeue_one-empty}
use kuberne_tsn.Preload.{
  af_inet, KtSocket, KtInterface, InetAddr, socket_find, interface_get_by_net,
}
use kuberne_tsn.Preload.Message.{
  Msg, Host, Library, passed_on, no_buffers, queued, write_packet, post, sendmsg_inet, find_txtime,
  inet_metadata, dispatch, sendmsg,
}

-- `l'` is `l` with packet `i`, the first of the free ones, filled from a message and queued.
pub record Queued (l : Library) (msg : Msg) (fill : Metadata → Metadata) (i : ℕ) (l' : Library)
    : Type 0 where
  pub metadata : metadata_at l'.metadata_pool i ≡ fill (metadata_at l.metadata_pool i)
  pub other_metadata :
      (j : ℕ) → j ≢ i → metadata_at l'.metadata_pool j ≡ metadata_at l.metadata_pool j
  pub payload :
      (p : ℕ)
      → p < msg.iov_len
      → get_or l'.mbuf_pool (i * mbuf_size + p) 0 ≡ get_or msg.iov_base p 0
  pub other_bytes :
      (p : ℕ)
      → (p < i * mbuf_size) ⊎ (i * mbuf_size + msg.iov_len ≤ p)
      → get_or l'.mbuf_pool p 0 ≡ get_or l.mbuf_pool p 0
  pub tx_queue : contents l'.tx_ring ≡ contents l.tx_ring ++ (i ∷ [])
  pub free_queue : contents l.free_ring ≡ i ∷ contents l'.free_ring
  pub same_metadata_size : length l'.metadata_pool ≡ length l.metadata_pool
  pub same_mbuf_size : length l'.mbuf_pool ≡ length l.mbuf_pool

module _ (l : Library) (msg : Msg) (fill : Metadata → Metadata) (sf st : ℕ) where
  -- The steps of `post` for a free packet `i`.
  post-step :
      (i : ℕ) {available left nb : ℕ} {table : List ℕ} {free tx : RingBuf}
      → dequeue_burst sf l.free_ring (0 ∷ []) 8 1 ≡ done (1, available, table, free)
      → get_or table 0 0 ≡ i
      → enqueue_burst st l.tx_ring (i ∷ []) 8 1 ≡ done (nb, left, tx)
      → post sf st l msg fill
        ≡ done (
          if nb == 1 then queued msg.iov_len else no_buffers,
          record (write_packet l free msg fill i) { tx_ring = tx },
        )
  unfolding post
  post-step i got index put = rw (got, index, put, post) refl

  write_packet-Queued :
      (i : ℕ) (free tx : RingBuf)
      → i < length l.metadata_pool
      → i * mbuf_size + msg.iov_len ≤ length l.mbuf_pool
      → contents l.free_ring ≡ i ∷ contents free
      → contents tx ≡ contents l.tx_ring ++ (i ∷ [])
      → Queued l msg fill i (record (write_packet l free msg fill i) { tx_ring = tx })
  unfolding write_packet
  write_packet-Queued i free tx lt room first last =
      let filled = fill (metadata_at l.metadata_pool i) in
      let bytes =
        λ (p : ℕ). get_or-copy_words msg.iov_len msg.iov_base 0 l.mbuf_pool (i * mbuf_size) p in
      record {
        metadata = ground (arith, get_or-set l.metadata_pool i i filled null_metadata lt);
        other_metadata =
            λ j ne. get_or-set_ne l.metadata_pool i j filled null_metadata (λ e. ne (sym e));
        payload = λ p before.
            let place : 0 + (i * mbuf_size + p - i * mbuf_size) ≡ p = omega arith in
            ground (arith, bytes (i * mbuf_size + p) room, ap (λ q. get_or msg.iov_base q 0) place);
        other_bytes = λ p off. ground (arith, bytes p room, off);
        tx_queue = last;
        free_queue = first;
        same_metadata_size = length-set l.metadata_pool i filled;
        same_mbuf_size = length-copy_words msg.iov_len msg.iov_base 0 l.mbuf_pool (i * mbuf_size);
      }

  -- On valid rings with a free packet and room in the ring of packets to send, the message's bytes are
  -- written from the start of the first free packet's slot on, its metadata into that packet's entry,
  -- and its index moves to the end of that ring; no other byte or entry changes, if the bytes and the
  -- entry lie in the pools.
  pub post-queues :
      {k j i : ℕ} {rest : List ℕ}
      → IsValid k l.free_ring
      → IsValid j l.tx_ring
      → contents l.free_ring ≡ i ∷ rest
      → length (contents l.tx_ring) < 2 ^ j - 1
      → i < length l.metadata_pool
      → i * mbuf_size + msg.iov_len ≤ length l.mbuf_pool
      → (l' : Library) × (post sf st l msg fill ≡ done (queued msg.iov_len, l'))
        × IsValid k l'.free_ring
        × IsValid j l'.tx_ring
        × Queued l msg fill i l'
  unfolding write_packet
  post-queues {i = i} free_v tx_v first room here fits =
      let (free, available, table, free_v', got, index, others) = dequeue_one free_v sf 0 i first in
      let (tx, left, tx_v', put, holds) = enqueue_one tx_v st i room in
      (
        record (write_packet l free msg fill i) { tx_ring = tx },
        post-step i got index put,
        free_v',
        tx_v',
        write_packet-Queued i free tx here fits (first ∙ rw others refl) holds,
      )

  -- Without a free packet in a valid ring the answer is -ENOBUFS, and nothing is queued or written.
  pub post-refuses :
      {k : ℕ}
      → IsValid k l.free_ring
      → contents l.free_ring ≡ []
      → (free : RingBuf) × IsValid k free
        × (contents free ≡ [])
        × (post sf st l msg fill ≡ done (no_buffers, record l { free_ring = free }))
  unfolding post
  post-refuses free_v empty =
      let (free, available, table, free_v', got, others) = dequeue_one-empty free_v sf 0 empty in
      (free, free_v', others, rw (got, post) refl)

  -- On valid rings with a free packet and no room in the ring of packets to send the answer is -ENOBUFS as well, but
  -- the packet's index has left the ring of free packets and is in neither ring.
  pub post-loses :
      {k j i : ℕ} {rest : List ℕ}
      → IsValid k l.free_ring
      → IsValid j l.tx_ring
      → contents l.free_ring ≡ i ∷ rest
      → length (contents l.tx_ring) ≡ 2 ^ j - 1
      → (l' : Library) × (post sf st l msg fill ≡ done (no_buffers, l'))
        × (contents l'.free_ring ≡ rest)
        × (contents l'.tx_ring ≡ contents l.tx_ring)
  unfolding write_packet
  post-loses {i = i} free_v tx_v first full =
      let (free, available, table, free_v', got, index, others) = dequeue_one free_v sf 0 i first in
      let (tx, left, tx_v', put, holds) = enqueue_one-full tx_v st i full in
      (
        record (write_packet l free msg fill i) { tx_ring = tx },
        post-step i got index put,
        others,
        holds,
      )

-- A message on a socket of domain AF_INET that has a send time, with a time among its control messages
-- and an interface of its address's network, is queued with that time and the addresses of both.
pub sendmsg-inet :
    (host : Host) (sf st : ℕ) (l : Library) (sockfd : ℤ) (msg : Msg) {node : KtSocket} {t : ℕ}
    {addr : InetAddr} {iface : KtInterface}
    → socket_find l.sockets sockfd ≡ some node
    → node.txtime ≢ 0
    → find_txtime msg.control ≡ some t
    → node.domain ≡ af_inet
    → msg.name_in ≡ some addr
    → interface_get_by_net l.interfaces (some addr) ≡ some iface
    → sendmsg host sf st l sockfd msg
      ≡ post sf st l msg (inet_metadata host t msg.iov_len iface addr)
unfolding sendmsg dispatch sendmsg_inet post write_packet
sendmsg-inet host sf st l sockfd msg {node} registered timed time domain name net =
    let test : (node.txtime == 0) ≡ false = ground arith in
    rw (registered, test, time, domain, name, net, sendmsg, dispatch, sendmsg_inet) refl

-- A message on a socket that the library does not know, or that has no send time, or without a time
-- among its control messages, is passed on to the C library and changes nothing.
pub sendmsg-passes :
    (host : Host) (sf st : ℕ) (l : Library) (sockfd : ℤ) (msg : Msg)
    → ((node : KtSocket)
        → socket_find l.sockets sockfd ≡ some node
        → (node.txtime ≡ 0) ⊎ (find_txtime msg.control ≡ none))
    → sendmsg host sf st l sockfd msg ≡ done (passed_on, l)
unfolding sendmsg
sendmsg-passes host sf st l sockfd msg untimed =
    elim (Option-cases (socket_find l.sockets sockfd)) [
      | inl missing ↦ rw (missing, sendmsg) refl
      | inr (node, registered) ↦ elim (untimed node registered) [
        | inl off ↦ rw (registered, off, sendmsg) refl
        | inr unset ↦ rw (registered, unset, sendmsg) (ground arith)
      ]
    ]
