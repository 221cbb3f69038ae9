-- ===== src/Exchange/Overlap.antt =====
-- The daemon of ktsnd.c and the programs with libktsn.c when their calls overlap: a step is one access to a
-- ring, as in Ring.Threads, a write to a packet's payload or metadata, or what a thread does by itself with the indices
-- that it has taken. Thread 0 is the daemon; the others are the programs.
pub mod Balance
pub mod Exclusive
mod Tests
use kuberne_tsn.Common.{
  ℕ, ◌<◌, ◌≤◌, ◌≡◌, ◌≢◌, List, [], ◌∷◌, ◌++◌, drop, ◌+◌, ◌-◌, ◌*◌, ◌&&◌, leb, ltb, get_or, length,
  if◌then◌else◌,
}
use kuberne_tsn.Common.Perms.{occurs}
use kuberne_tsn.Packet.{Metadata, mbuf_size}
use kuberne_tsn.Ring.Threads.{
  Shared, Pc, idle, update, Move, enqueue, prod_wins, dequeue, release, System, Fits,
}
use kuberne_tsn.Ring.Threads.Inv.{Inv}
use kuberne_tsn.Ring.Threads.Fifo.{queue}

-- The two rings with their threads, the indices that each thread has taken and not put back, and the pools:
-- one array of bytes, in which index i has the mbuf_size bytes from i * mbuf_size on, and the metadata.
pub record World : Type 0 where
  pub free : System
  pub tx : System
  pub own : ℕ → List ℕ
  pub mbuf_pool : ℕ → ℕ
  pub metadata_pool : ℕ → Metadata

-- The bytes after a copy to `p`, which goes on into what is behind as long as the source has bytes.
abbrev pub copied : (ℕ → ℕ) → ℕ → List ℕ → ℕ → ℕ
copied pool p bytes q =
    if leb p q && ltb q (p + length bytes) then get_or bytes (q - p) 0 else pool q

-- The thread puts the first of its indices, alone.
abbrev pub Holding : List ℕ → List ℕ → ℕ → Type 0
Holding own table n = (i : ℕ) × (rest : List ℕ) × (own ≡ i ∷ rest) × (table ≡ i ∷ []) × (n ≡ 1)

-- How the code uses a ring: who puts an index, who takes some, and how many it asks for.
abbrev pub Lawful :
    {k : ℕ} {s : Shared} {p : Pc} {s' : Shared} {p' : Pc}
    → Type 0
    → Type 0
    → ℕ
    → List ℕ
    → Move k s p s' p'
    → Type 0
Lawful putter getter most own (enqueue table n) = putter × Holding own table n
Lawful putter getter most own (dequeue n) = getter × (n ≡ most)
Lawful putter getter most own _ = Unit

-- The indices of the thread after an access: one is gone when it is claimed for the ring, and those of a
-- burst are there when it has been read.
abbrev pub own_after :
    {k : ℕ} {s : Shared} {p : Pc} {s' : Shared} {p' : Pc} → Move k s p s' p' → List ℕ → List ℕ
own_after (prod_wins some same) own = drop 1 own
own_after (release {out = out} same) own = own ++ out
own_after _ own = own

-- One step. The daemon puts into the ring of free packets, which the programs take one index at a time
-- from, and takes from the ring of packets to send up to 8 at a time, which the programs put into.
pub data Act (k : ℕ) (w : World) : World → Type 0 where
  on_free :
      (a : ℕ) {m : Shared} {p : Pc}
      → w.tx.pc a ≡ idle
      → (move : Move k w.free.shared (w.free.pc a) m p) → Lawful (a ≡ 0) (a ≢ 0) 1 (w.own a) move
      → Act k w (record w {
        free = record { shared = m; pc = update w.free.pc a p };
        own = update w.own a (own_after move (w.own a));
      })
  on_tx :
      (a : ℕ) {m : Shared} {p : Pc}
      → w.free.pc a ≡ idle
      → (move : Move k w.tx.shared (w.tx.pc a) m p) → Lawful (a ≢ 0) (a ≡ 0) 8 (w.own a) move
      → Act k w (record w {
        tx = record { shared = m; pc = update w.tx.pc a p };
        own = update w.own a (own_after move (w.own a));
      })
  -- A program copies a message to the slot of an index that it has taken, without a check of the length.
  write_payload :
      (a i : ℕ) (bytes : List ℕ)
      → a ≢ 0
      → w.free.pc a ≡ idle
      → w.tx.pc a ≡ idle
      → 0 < occurs i (w.own a)
      → Act k w (record w { mbuf_pool = copied w.mbuf_pool (i * mbuf_size) bytes })
  -- it writes the metadata of the index
  write_metadata :
      (a i : ℕ) (metadata : Metadata)
      → a ≢ 0
      → w.free.pc a ≡ idle
      → w.tx.pc a ≡ idle
      → 0 < occurs i (w.own a)
      → Act k w (record w { metadata_pool = update w.metadata_pool i metadata })
  -- The daemon puts its indices into another order, or drops a late one; a program gives up its index.
  arrange :
      (a : ℕ) (own : List ℕ)
      → w.free.pc a ≡ idle
      → w.tx.pc a ≡ idle
      → ((x : ℕ) → occurs x own ≤ occurs x (w.own a))
      → Act k w (record w { own = update w.own a own })

-- No thread has begun, each index of the free packets is there once, and no packet is to be sent.
pub record Quiet (k : ℕ) (w : World) : Type 0 where
  pub free_inv : Inv k w.free
  pub tx_inv : Inv k w.tx
  pub free_idle : (a : ℕ) → w.free.pc a ≡ idle
  pub tx_idle : (a : ℕ) → w.tx.pc a ≡ idle
  pub none_own : (a : ℕ) → w.own a ≡ []
  pub once : (x : ℕ) → occurs x (queue w.free.shared) ≤ 1
  pub none_queued : queue w.tx.shared ≡ []

pub data Reach (k : ℕ) : World → Type 0 where
  start : {w : World} → Quiet k w → Reach k w
  later : {w v : World} → Reach k w → Act k w v → Reach k v

-- What the code takes for granted of the accesses to the rings, and of the length of a message: that the slot
-- of a packet has room for it.
abbrev pub ActFits : {k : ℕ} {w v : World} → Act k w v → Type 0
ActFits (on_free a still move lawful) = Fits move
ActFits (on_tx a still move lawful) = Fits move
ActFits (write_payload a i bytes program free_still tx_still has) = length bytes ≤ mbuf_size
ActFits _ = Unit

abbrev pub Fitting : {k : ℕ} {w : World} → Reach k w → Type 0
Fitting (start quiet) = Unit
Fitting (later reached act) = Fitting reached × ActFits act
