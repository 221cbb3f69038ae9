-- ===== src/Socket/Main.antt =====
-- `main` of ktsnd_socket.c: the two memories, the rings and the pools, the loop and the clean-up. The rings
-- have 100 words, and the pools as many entries as the rings have words.
use kuberne_tsn.Common.{ℕ, ◌*◌, Option, none, some, List, ◌++◌}
use kuberne_tsn.Common.Int.{ℤ, pos, negsuc}
use kuberne_tsn.Common.Run.{Run, done, ◌>>=◌}
use kuberne_tsn.Allocator.{KtAllocator}
use kuberne_tsn.Packet.{mbuf_size}
use kuberne_tsn.Layout.{MemLayout, Pointers, publish}
use kuberne_tsn.Memory.{
  KtMemory, System, Call, memory_alloc, memory_destroy, data_memory_name, ctrl_memory_name,
  default_memory_size,
}
use kuberne_tsn.PageAlloc.{PageAllocator, page_allocator}
use kuberne_tsn.PageAlloc
use kuberne_tsn.Ring.{create}
use kuberne_tsn.PrioQueue
use kuberne_tsn.Sender.Setup.{
  Memory, tx_name, free_name, sizeof_metadata, address, present, ring_ptr,
}
use kuberne_tsn.Socket.{SocketSender, Tick, ring_elem_count, fill_free, main_loop}

-- What the program meets: the answers for the two memories, the size of a page, and what memory holds,
-- read as an allocator or as the rings and the pools.
pub record Machine : Type 0 where
  pub data_block : Option KtMemory
  pub data_system : System
  pub ctrl_block : Option KtMemory
  pub ctrl_system : System
  pub page_size : ℕ
  pub old : ℕ → PageAllocator
  pub memory : Memory

-- How `main` ends: its result, the calls of the operating system for the memories, and the layout that it
-- has written into the second one.
pub record End : Type 0 where
  pub result : ℤ
  pub calls : List Call
  pub layout : Option MemLayout

-- The rings, the pools and the queue, and where they are. Nothing checks the answers for the pools.
unfoldable pub set_up :
    {S : Type 0} → KtAllocator S → Memory → S → Run ((SocketSender × Pointers) × S)
set_up al mem s = do
  (tx, s1) ← create al mem.ring_at s tx_name ring_elem_count 1
  (free, s2) ← create al mem.ring_at s1 free_name ring_elem_count 1
  free_ring ← present free
  filled ← fill_free free_ring
  (mbufs, s3) ← al.alloc s2 (mbuf_size * ring_elem_count)
  (metadata, s4) ← al.alloc s3 (sizeof_metadata * ring_elem_count)
  tx_ring ← present tx
  done (
    (
      record {
        tx_ring = tx_ring;
        free_ring = filled;
        queue = PrioQueue.init mem.nodes ring_elem_count;
        metadata_pool = mem.metadata_at (address metadata);
      },
      record {
        tx_ring = ring_ptr tx_ring;
        free_ring = ring_ptr free_ring;
        mbuf_pool = address mbufs;
        metadata_pool = address metadata;
      },
    ),
    s4,
  )

-- `main` once it has both memories, after these calls
unfoldable pub work : Machine → List Tick → List Call → KtMemory → KtMemory → Run End
work mc ticks calls data_mem ctrl_mem = do
  page_al ← PageAlloc.make (mc.old data_mem.addr) data_mem.addr data_mem.size mc.page_size
  ((sender, pointers), al) ← set_up page_allocator mc.memory page_al
  last ← main_loop ticks sender
  done (record {
    result = pos 0;
    calls = calls ++ (memory_destroy ctrl_mem ++ memory_destroy data_mem);
    layout = some (publish data_mem.addr pointers);
  })

-- the end without one of the memories
abbrev pub failed : List Call → End
failed calls = record { result = negsuc 0; calls = calls; layout = none }

unfoldable pub main : Machine → List Tick → Run End
main mc ticks =
    let (data_mem, data_calls) =
      memory_alloc mc.data_block mc.data_system data_memory_name default_memory_size in
    let (ctrl_mem, ctrl_calls) =
      memory_alloc mc.ctrl_block mc.ctrl_system ctrl_memory_name mc.page_size in
    elim data_mem as (λ _. Run End) [
      | none ↦ done (failed data_calls)
      | some data_mem ↦ elim ctrl_mem as (λ _. Run End) [
        | none ↦ done (failed (data_calls ++ ctrl_calls))
        | some ctrl_mem ↦ work mc ticks (data_calls ++ ctrl_calls) data_mem ctrl_mem
      ]
    ]
