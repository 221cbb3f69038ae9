-- ===== src/Sender/Cleanup/Tests.antt =====
-- A daemon that gets its first memory and not the second.
use kuberne_tsn.Common.{◌≡◌, refl, none, some, List, [], ◌∷◌, true}
use kuberne_tsn.Common.Int.{pos, negsuc}
use kuberne_tsn.Common.Text.{strncpy}
use kuberne_tsn.Common.Run.{done}
use kuberne_tsn.Memory.{
  KtMemory, Call, shm_open, ftruncate, mmap, memory_alloc, open_memory, data_memory_name,
  ctrl_memory_name, default_memory_size,
}
use kuberne_tsn.Sender.Main.{Machine, failed, main}
use kuberne_tsn.Memory.Cleanup.{Leaves}
use kuberne_tsn.Sender.Cleanup.{main-Leaves}
use kuberne_tsn.Sender.Tests.{network, port}

abbrev block : KtMemory
block = record { name = []; fd = pos 0; addr = 0; size = 0; used = 0; flags = 0 }

abbrev machine : Machine
machine = record {
  eal_result = pos 0;
  data_block = some block;
  data_system = record { shm_fd = pos 3; ftruncate_result = pos 0; mmap_addr = some 4096 };
  ctrl_block = some block;
  ctrl_system = record { shm_fd = negsuc 0; ftruncate_result = pos 0; mmap_addr = none };
  page_size = 4096;
  old = λ a. record {
    page_size = 0;
    page_count = 0;
    page_free = 0;
    page_list = [];
    free_pages_mask = [];
    data_ptr = 0;
  };
  memory = record {
    ring_at = λ a. record {
      name = [];
      data_ptr = 0;
      size = 0;
      esize = 0;
      mask = 0;
      capacity = 0;
      prod = record { head = 0; tail = 0 };
      cons = record { head = 0; tail = 0 };
      ring = [];
    };
    mbufs_at = λ a. [];
    metadata_at = λ a. [];
    nodes = [];
  };
  mbuf_pool = true;
  port = port;
}

-- The first memory is left open.
abbrev left_open : List Call
left_open = shm_open (pos 3) ∷ ftruncate (pos 3) ∷ mmap (pos 3) ∷ shm_open (negsuc 0) ∷ []

main-fails : main machine network [] ≡ done (failed left_open)
unfolding main memory_alloc open_memory strncpy
main-fails = refl

main-Leaves_example :
    Leaves
      (some block, machine.data_system)
      (some block, machine.ctrl_system)
      (memory_alloc (some block) machine.data_system data_memory_name default_memory_size).0
      (memory_alloc (some block) machine.ctrl_system ctrl_memory_name 4096).0
      (negsuc 0)
      left_open
main-Leaves_example = main-Leaves machine network [] main-fails
