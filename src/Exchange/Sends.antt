-- ===== src/Exchange/Sends.antt =====
-- What a send does to a state in which every index is in one place.
use mathlib.Core.Path.{subst}
use kuberne_tsn.Common.{
  ℕ, ◌-◌, ◌^◌, ◌≤◌, ◌<◌, ◌≡◌, refl, sym, ap, ◌∙◌, List, [], ◌∷◌, arith, length, length-append,
  List-cases, inl, inr,
}
use kuberne_tsn.Common.Int.{ℤ}
use kuberne_tsn.Common.Run.{Run, done, done-inj}
use kuberne_tsn.Common.Perms.{occurs, occurs-append}
use kuberne_tsn.Packet.{Metadata, mbuf_size}
use kuberne_tsn.Ring
use kuberne_tsn.Ring.Inv.{contents}
use kuberne_tsn.Preload.Message.{Msg, Host, Library, Outcome, no_buffers, queued, post, sendmsg}
use kuberne_tsn.Preload.Send.{Queued, post-queues, post-refuses}
use kuberne_tsn.Preload.Paths.{Way, stops, faults, posts, sendmsg-Way}
use kuberne_tsn.Exchange.{Exchange}
use kuberne_tsn.Exchange.Account.{Inv, occurs-held, length-held}

-- How a send leaves the memory: the rings and the pools as they were, or with a packet queued.
pub data Effect (l : Library) (msg : Msg) : Outcome → Library → Type 0 where
  keeps :
      {out : Outcome} {l' : Library}
      → l'.metadata_pool ≡ l.metadata_pool
      → l'.mbuf_pool ≡ l.mbuf_pool
      → contents l'.tx_ring ≡ contents l.tx_ring
      → contents l'.free_ring ≡ contents l.free_ring
      → Effect l msg out l'
  queues :
      (fill : Metadata → Metadata) (i : ℕ) {l' : Library}
      → Queued l msg fill i l'
      → Effect l msg (queued msg.iov_len) l'

-- Room in the ring of packets to send, and in the pools, for the first of the free packets.
pub head-below :
    {k : ℕ} {lost : List ℕ} {x : Exchange} {i : ℕ} {rest : List ℕ}
    → Inv k lost x
    → contents x.lib.free_ring ≡ i ∷ rest
    → i < 2 ^ k - 1
head-below {k} {lost} {x} {i} inv first =
    let one = inv.once i in
    let split = occurs-held i x in let here = ap (occurs i) first in ground arith

pub head-room :
    {k : ℕ} {lost : List ℕ} {x : Exchange} {i : ℕ} {rest : List ℕ}
    → Inv k lost x
    → contents x.lib.free_ring ≡ i ∷ rest
    → length (contents x.lib.tx_ring) < 2 ^ k - 1
head-room {x = x} inv first = omega (arith, inv.number, length-held x, ap length first)

module _ {k : ℕ} {lost : List ℕ} {x : Exchange} (inv : Inv k lost x) (sf st : ℕ) (msg : Msg) where
  Queued-Inv :
      {fill : Metadata → Metadata} {i : ℕ} {l' : Library}
      → Ring.Inv.IsValid k l'.free_ring
      → Ring.Inv.IsValid k l'.tx_ring
      → Queued x.lib msg fill i l'
      → Inv k lost (record x { lib = l' })
  Queued-Inv {i = i} {l'} free_v tx_v q =
      let y : Exchange = record x { lib = l' } in
      let more = length-append (contents x.lib.tx_ring) (i ∷ []) in
      record {
        free_valid = free_v;
        tx_valid = tx_v;
        queue_valid = inv.queue_valid;
        queue_cap = inv.queue_cap;
        metadata_size = omega (arith, inv.metadata_size, q.same_metadata_size);
        payload_size = omega (arith, inv.payload_size, q.same_mbuf_size);
        once = λ a.
            let here = occurs-append a (contents x.lib.tx_ring) (i ∷ []) in
            let last = ap (occurs a) q.tx_queue in
            let first = ap (occurs a) q.free_queue in
            let split = occurs-held a x in
            let split' = occurs-held a y in omega (arith, inv.once a);
        number = omega (
          arith,
          inv.number,
          length-held x,
          length-held y,
          ap length q.tx_queue,
          ap length q.free_queue,
          more,
        );
      }

  keeps-Inv :
      {l' : Library}
      → Ring.Inv.IsValid k l'.free_ring
      → Ring.Inv.IsValid k l'.tx_ring
      → l'.metadata_pool ≡ x.lib.metadata_pool
      → l'.mbuf_pool ≡ x.lib.mbuf_pool
      → contents l'.tx_ring ≡ contents x.lib.tx_ring
      → contents l'.free_ring ≡ contents x.lib.free_ring
      → Inv k lost (record x { lib = l' })
  keeps-Inv {l'} free_v tx_v metadata bytes tx free = record {
    free_valid = free_v;
    tx_valid = tx_v;
    queue_valid = inv.queue_valid;
    queue_cap = inv.queue_cap;
    metadata_size = rw metadata inv.metadata_size;
    payload_size = rw bytes inv.payload_size;
    once = λ a. rw (tx, free) (inv.once a);
    number = rw (tx, free) inv.number;
  }

  -- A message that is posted is refused or queued: while there is a free packet the ring of packets to
  -- send has room.
  pub post-Effect :
      (fill : Metadata → Metadata)
      → msg.iov_len ≤ mbuf_size
      → (out : Outcome) × (l' : Library) × (post sf st x.lib msg fill ≡ done (out, l'))
        × Inv k lost (record x { lib = l' })
        × Effect x.lib msg out l'
  post-Effect fill short = elim (List-cases (contents x.lib.free_ring)) [
    | inl none_free ↦
        let (free, free_v, same, ran) =
          post-refuses x.lib msg fill sf st inv.free_valid none_free in
        let kept = same ∙ sym none_free in
        (
          no_buffers,
          record x.lib { free_ring = free },
          ran,
          keeps-Inv free_v inv.tx_valid refl refl refl kept,
          keeps refl refl refl kept,
        )
    | inr (i, rest, first) ↦
        let below = head-below inv first in
        let (l', ran, free_v, tx_v, q) =
          post-queues x.lib msg fill sf st inv.free_valid inv.tx_valid first (head-room inv first)
            (omega (arith, inv.metadata_size)) (omega (arith, inv.payload_size)) in
        (queued msg.iov_len, l', ran, Queued-Inv free_v tx_v q, queues fill i q)
  ]

  Way-Effect :
      {out : Outcome} {l' : Library} {r : Run (Outcome × Library)}
      → msg.iov_len ≤ mbuf_size
      → Way sf st x.lib msg r
      → r ≡ done (out, l')
      → Inv k lost (record x { lib = l' }) × Effect x.lib msg out l'
  Way-Effect short (stops _) ended =
      subst
        (λ (p : Outcome × Library). Inv k lost (record x { lib = p.1 }) × Effect x.lib msg p.0 p.1)
        (done-inj ended) (inv, keeps refl refl refl refl)
  Way-Effect short faults ended = absurd (ground arith)
  Way-Effect short (posts fill) ended =
      let (out, l', ran, inv', effect) = post-Effect fill short in
      subst
        (λ (p : Outcome × Library). Inv k lost (record x { lib = p.1 }) × Effect x.lib msg p.0 p.1)
        (done-inj (sym ran ∙ ended)) (inv', effect)

  pub send-Effect :
      (host : Host) (sockfd : ℤ) {out : Outcome} {l' : Library}
      → msg.iov_len ≤ mbuf_size
      → sendmsg host sf st x.lib sockfd msg ≡ done (out, l')
      → Inv k lost (record x { lib = l' }) × Effect x.lib msg out l'
  send-Effect host sockfd short ended =
      Way-Effect short (sendmsg-Way host sf st x.lib sockfd msg) ended
