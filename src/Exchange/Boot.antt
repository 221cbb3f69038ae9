-- ===== src/Exchange/Boot.antt =====
-- The daemon's start leads to a state from which the steps of the exchange begin.
use mathlib.Core.Path.{subst}
use kuberne_tsn.Common.{
  sub32, ◌+◌, add32, mul32, ℕ, ◌-◌, ◌*◌, ◌≤◌, ◌≡◌, refl, sym, ap, ◌∙◌, Option, none, some, List, [],
  arith, length,
}
use kuberne_tsn.Common.Text.{strncpy}
use kuberne_tsn.Common.Run.{done, done-inj, bind-done}
use kuberne_tsn.Allocator.{KtAllocator}
use kuberne_tsn.Packet.{mbuf_size}
use kuberne_tsn.Ring
use kuberne_tsn.Ring.{RingBuf, name_size, header_size, create, get_capacity}
use kuberne_tsn.Ring.Inv.{contents, create-IsValid}
use kuberne_tsn.PrioQueue
use kuberne_tsn.Preload.{KtSocket, KtInterface}
use kuberne_tsn.Sender.{Sender, fill_free}
use kuberne_tsn.Layout.{Pointers, Each}
use kuberne_tsn.Sender.Setup.{Memory, tx_name, free_name, address, ring_ptr, present, set_up}
use kuberne_tsn.Sender.Startup.{count_up, fill_free-fills, fill_free-placed}
use kuberne_tsn.Exchange.{Exchange, Start}

-- the exchange that the daemon has set up, with what a program's library keeps
abbrev pub booted : List KtSocket → List KtInterface → Sender → Exchange
booted sockets interfaces d = record {
  lib = record {
    sockets = sockets;
    interfaces = interfaces;
    tx_ring = d.tx_ring;
    free_ring = d.free_ring;
    metadata_pool = d.metadata_pool;
    mbuf_pool = d.mbuf_pool;
  };
  queue = d.queue;
  sent = d.sent;
  counter = d.counter;
}

present-done : (o : Option RingBuf) {rb : RingBuf} → present o ≡ done rb → o ≡ some rb
unfolding present
present-done none e = absurd cc
present-done (some rb) e = ap some (done-inj e)

-- The allocator answers each call with an address for which `P` holds.
abbrev pub Answers : {S : Type 0} → KtAllocator S → (ℕ → Type 0) → Type 0
Answers {S} al P = (s : S) (n : ℕ) → (a : ℕ) × (s' : S) × (al.alloc s n ≡ done (some a, s')) × P a

-- The pointers lead to the rings, each of which lies right before its data, and to the pools.
pub record Pointed (mem : Memory) (d : Sender) (p : Pointers) : Type 0 where
  pub tx_ring : p.tx_ring ≡ ring_ptr d.tx_ring
  pub free_ring : p.free_ring ≡ ring_ptr d.free_ring
  pub mbuf_pool : mem.mbufs_at p.mbuf_pool ≡ d.mbuf_pool
  pub metadata_pool : mem.metadata_at p.metadata_pool ≡ d.metadata_pool

module _ {S : Type 0} (al : KtAllocator S) (mem : Memory) where
  -- A ring that `kt_ringbuf_create` has made in memory with room for it.
  created :
      (s s' : S) (name : List ℕ) {o : Option RingBuf} {rb : RingBuf}
      → ((a : ℕ) → 128 ≤ length (mem.ring_at a).ring)
      → create al mem.ring_at s name 128 1 ≡ done (o, s')
      → present o ≡ done rb
      → Ring.Inv.IsValid 7 rb × (contents rb ≡ [])
  created s s' name {o} big made there =
      create-IsValid al mem.ring_at s s' name 7 1 (omega arith) big
        (made ∙ ap (λ (p : Option RingBuf). done (p, s')) (present-done o there))

  -- An allocator that answers with an address makes the ring.
  creates :
      {P : ℕ → Type 0}
      → Answers al P
      → (s : S) (name : List ℕ)
      → (rb : RingBuf) × (s' : S) × (create al mem.ring_at s name 128 1 ≡ done (some rb, s'))
        × P (ring_ptr rb)
  unfolding create
  creates {P} answers s name =
      let (a, s', answer, holds) = answers s (add32 header_size (mul32 128 1)) in
      let made : RingBuf = record (mem.ring_at a) {
        name = strncpy (mem.ring_at a).name name (name_size - 1);
        data_ptr = a + header_size;
        size = 128;
        mask = sub32 128 1;
        capacity = sub32 128 1;
        esize = 1;
        prod = record { head = 0; tail = 0 };
        cons = record { head = 0; tail = 0 };
      } in
      let back : a ≡ a + header_size - header_size = omega arith in
      (made, s', rw (answer, create) refl, subst P back holds)

  -- The daemon's start ends when the allocator answers each of its calls with an address.
  set_up-ends :
      {P : ℕ → Type 0}
      → Answers al P
      → ((a : ℕ) → 128 ≤ length (mem.ring_at a).ring)
      → (s : S)
      → (d : Sender) × (p : Pointers) × (s' : S) × (set_up al mem s ≡ done ((d, p), s')) × Each P p
  unfolding set_up present address
  set_up-ends answers rings s =
      let (tx, s1, made_tx, tx_holds) = creates answers s tx_name in
      let (free, s2, made_free, free_holds) = creates answers s1 free_name in
      let (v, empty) = created s1 s2 free_name rings made_free refl in
      let (filled, filled_v, ran, holds) = fill_free-fills v empty in
      let (mbufs, s3, third, mbufs_hold) = answers s2 (mbuf_size * get_capacity filled) in
      let (metas, s4, fourth, metas_hold) = answers s3 (48 * get_capacity filled) in
      let d : Sender = record {
        tx_ring = tx;
        free_ring = filled;
        queue = PrioQueue.init mem.nodes (get_capacity filled);
        metadata_pool = mem.metadata_at metas;
        mbuf_pool = mem.mbufs_at mbufs;
        sent = [];
        counter = 0;
      } in
      let p : Pointers = record {
        tx_ring = ring_ptr tx;
        free_ring = ring_ptr free;
        mbuf_pool = mbufs;
        metadata_pool = metas;
      } in
      (
        d,
        p,
        s4,
        rw (made_tx, made_free, ran, third, fourth, set_up) refl,
        record {
          tx_ring = tx_holds;
          free_ring = free_holds;
          mbuf_pool = mbufs_hold;
          metadata_pool = metas_hold;
        },
      )

  filled_ring :
      {free_ring filled : RingBuf}
      → Ring.Inv.IsValid 7 free_ring × (contents free_ring ≡ [])
      → fill_free free_ring ≡ done filled
      → Ring.Inv.IsValid 7 filled × (contents filled ≡ count_up 127 0)
  filled_ring (v, empty) full =
      let (rb, rb_v, ran, holds) = fill_free-fills v empty in
      subst (λ r. Ring.Inv.IsValid 7 r × (contents r ≡ count_up 127 0)) (done-inj (sym ran ∙ full))
        (rb_v, holds)

  -- The pointers that the daemon's start hands out lead to what it has set up.
  pub set_up-Pointed :
      (s : S) {s' : S} {d : Sender} {p : Pointers}
      → ((a : ℕ) → 128 ≤ length (mem.ring_at a).ring)
      → set_up al mem s ≡ done ((d, p), s')
      → Pointed mem d p
  unfolding set_up
  set_up-Pointed s rings ended =
      let ((tx, s1), made_tx, r1) = bind-done (create al mem.ring_at s tx_name 128 1) _ ended in
      let ((free, s2), made_free, r2) = bind-done (create al mem.ring_at s1 free_name 128 1) _ r1 in
      let (free_ring, there, r3) = bind-done (present free) _ r2 in
      let (filled, full, r4) = bind-done (fill_free free_ring) _ r3 in
      let ((mbufs_ptr, s3), _, r5) =
        bind-done (al.alloc s2 (mbuf_size * get_capacity filled)) _ r4 in
      let ((metas_ptr, s4), _, r6) = bind-done (al.alloc s3 (48 * get_capacity filled)) _ r5 in
      let (tx_ring, there_tx, r7) = bind-done (present tx) _ r6 in
      let (v, empty) = created s1 s2 free_name rings made_free there in
      let kept = fill_free-placed v empty full in
      subst (λ (e : (Sender × Pointers) × S). Pointed mem e.0.0 e.0.1) (done-inj r7)
        (record {
          tx_ring = refl;
          free_ring = ap (λ n. n - header_size) (sym kept);
          mbuf_pool = refl;
          metadata_pool = refl;
        })

  module _ (sockets : List KtSocket) (interfaces : List KtInterface)
      (metas_fit : (a : ℕ) → 127 ≤ length (mem.metadata_at a))
      (mbufs_fit : (a : ℕ) → 127 * mbuf_size ≤ length (mem.mbufs_at a))
      (nodes_fit : 127 ≤ length mem.nodes) where
    assembled-Start :
        (tx filled : RingBuf) (mbufs metas : ℕ)
        → Ring.Inv.IsValid 7 tx × (contents tx ≡ [])
        → Ring.Inv.IsValid 7 filled × (contents filled ≡ count_up 127 0)
        → Start 7 (
            booted sockets interfaces (record {
              tx_ring = tx;
              free_ring = filled;
              queue = PrioQueue.init mem.nodes (get_capacity filled);
              metadata_pool = mem.metadata_at metas;
              mbuf_pool = mem.mbufs_at mbufs;
              sent = [];
              counter = 0;
            }))
    unfolding PrioQueue.init get_capacity
    assembled-Start tx filled mbufs metas (tx_v, empty) (free_v, all) = record {
      free_valid = free_v;
      tx_valid = tx_v;
      queue_valid = record {
        storage = omega (arith, free_v.capacity_eq, nodes_fit);
        bounded = omega arith;
      };
      queue_cap = free_v.capacity_eq;
      metadata_size = metas_fit metas;
      payload_size = mbufs_fit mbufs;
      all_free = all;
      none_queued = empty;
      none_pending = refl;
    }

    -- When the daemon's start ends, it ends in a state from which the steps begin.
    pub set_up-Start :
        (s : S) {s' : S} {d : Sender} {p : Pointers}
        → ((a : ℕ) → 128 ≤ length (mem.ring_at a).ring)
        → set_up al mem s ≡ done ((d, p), s')
        → Start 7 (booted sockets interfaces d)
    unfolding set_up
    set_up-Start s rings ended =
        let ((tx, s1), made_tx, r1) = bind-done (create al mem.ring_at s tx_name 128 1) _ ended in
        let ((free, s2), made_free, r2) =
          bind-done (create al mem.ring_at s1 free_name 128 1) _ r1 in
        let (free_ring, there, r3) = bind-done (present free) _ r2 in
        let (filled, full, r4) = bind-done (fill_free free_ring) _ r3 in
        let ((mbufs_ptr, s3), _, r5) =
          bind-done (al.alloc s2 (mbuf_size * get_capacity filled)) _ r4 in
        let ((metas_ptr, s4), _, r6) = bind-done (al.alloc s3 (48 * get_capacity filled)) _ r5 in
        let (tx_ring, there_tx, r7) = bind-done (present tx) _ r6 in
        subst (λ (e : (Sender × Pointers) × S). Start 7 (booted sockets interfaces e.0.0))
          (done-inj r7)
          (assembled-Start tx_ring filled (address mbufs_ptr) (address metas_ptr)
            (created s s1 tx_name rings made_tx there_tx)
            (filled_ring (created s1 s2 free_name rings made_free there) full))

-- With an allocator that answers each call with an address, and memory that is large enough there, the
-- daemon's start ends in a state from which the steps of the exchange begin: valid rings of 128 words,
-- all of the 127 indices free, an empty queue with room for them, and pools with an entry for each,
-- whatever a program's library keeps to itself. The rings and the pools are where the allocator's answers
-- are.
pub set_up-boots :
    {S : Type 0} (al : KtAllocator S) (mem : Memory) (s : S) (sockets : List KtSocket)
    (interfaces : List KtInterface) {P : ℕ → Type 0}
    → Answers al P
    → ((a : ℕ) → 128 ≤ length (mem.ring_at a).ring)
    → ((a : ℕ) → 127 ≤ length (mem.metadata_at a))
    → ((a : ℕ) → 127 * mbuf_size ≤ length (mem.mbufs_at a))
    → 127 ≤ length mem.nodes
    → (d : Sender) × (p : Pointers) × (s' : S) × (set_up al mem s ≡ done ((d, p), s'))
      × Start 7 (booted sockets interfaces d)
      × Each P p
set_up-boots al mem s sockets interfaces answers rings metas_fit mbufs_fit nodes_fit =
    let (d, p, s', ran, each) = set_up-ends al mem answers rings s in
    (
      d,
      p,
      s',
      ran,
      set_up-Start al mem sockets interfaces metas_fit mbufs_fit nodes_fit s rings ran,
      each,
    )
