-- ===== src/Sender/Setup.antt =====
-- The start of `main` in ktsnd.c, from the creation of the shared memory to the queue. Shared memory is
-- what the allocator hands out: what it holds at an address is a parameter.
use kuberne_tsn.Common.{ℕ, ◌-◌, ◌*◌, Option, none, some, List, [], ◌∷◌}
use kuberne_tsn.Common.Run.{Run, done, aborted, ◌>>=◌}
use kuberne_tsn.Allocator.{KtAllocator}
use kuberne_tsn.Packet.{Metadata, mbuf_size}
use kuberne_tsn.Layout.{Pointers}
use kuberne_tsn.Ring.{RingBuf, header_size, create, get_capacity}
use kuberne_tsn.PrioQueue.{Node}
use kuberne_tsn.PrioQueue
use kuberne_tsn.Sender.{Sender, ring_elem_count, fill_free}

-- What memory holds at an address, read as a ring and as the two pools, and what `malloc` returns for the
-- nodes of the queue.
pub record Memory : Type 0 where
  pub ring_at : ℕ → RingBuf
  pub mbufs_at : ℕ → List ℕ
  pub metadata_at : ℕ → List Metadata
  pub nodes : List Node

-- "RB_tx" and "RB_free"
abbrev pub tx_name : List ℕ
tx_name = 82 ∷ 66 ∷ 95 ∷ 116 ∷ 120 ∷ []

abbrev pub free_name : List ℕ
free_name = 82 ∷ 66 ∷ 95 ∷ 102 ∷ 114 ∷ 101 ∷ 101 ∷ []

-- `sizeof(struct kt_metadata)`: 44 bytes of fields, aligned to 8 bytes
abbrev pub sizeof_metadata : ℕ
sizeof_metadata = 48

-- the address that a pointer is, 0 for NULL
unfoldable pub address : Option ℕ → ℕ
address none = 0
address (some a) = a

-- A ring that is used although it may be NULL; `aborted` is the fault.
unfoldable pub present : Option RingBuf → Run RingBuf
present none = aborted
present (some rb) = done rb

-- The pointer to a ring, which lies `sizeof(struct kt_ringbuf)` before its data.
abbrev pub ring_ptr : RingBuf → ℕ
ring_ptr rb = rb.data_ptr - header_size

-- The rings, the pools and the queue, and where they are. The answers for the pools are not checked.
unfoldable pub set_up : {S : Type 0} → KtAllocator S → Memory → S → Run ((Sender × Pointers) × S)
set_up al mem s = do
  (tx, s1) ← create al mem.ring_at s tx_name ring_elem_count 1
  (free, s2) ← create al mem.ring_at s1 free_name ring_elem_count 1
  free_ring ← present free
  filled ← fill_free free_ring
  (mbufs, s3) ← al.alloc s2 (mbuf_size * get_capacity filled)
  (metadata, s4) ← al.alloc s3 (sizeof_metadata * get_capacity filled)
  tx_ring ← present tx
  done (
    (
      record {
        tx_ring = tx_ring;
        free_ring = filled;
        queue = PrioQueue.init mem.nodes (get_capacity filled);
        metadata_pool = mem.metadata_at (address metadata);
        mbuf_pool = mem.mbufs_at (address mbufs);
        sent = [];
        counter = 0;
      },
      record {
        tx_ring = ring_ptr tx_ring;
        free_ring = ring_ptr free_ring;
        mbuf_pool = address mbufs;
        metadata_pool = address metadata;
      },
    ),
    s4,
  )
