-- ===== src/Exchange/Attach/Tests.antt =====
-- A program that starts beside a daemon, with the memory mapped elsewhere.
use kuberne_tsn.Common.{
  ℕ, ◌+◌, ◌-◌, ◌*◌, ◌%◌, ◌≡◌, refl, ap, none, some, List, [], ◌∷◌, arith, replicate,
  length-replicate, true, ◌==◌, if◌then◌else◌,
}
use kuberne_tsn.Common.Int.{pos}
use kuberne_tsn.Common.Text.{strncpy}
use kuberne_tsn.Common.Run.{done, value_or}
use kuberne_tsn.Allocator.{KtAllocator}
use kuberne_tsn.Layout.{Pointers, publish, Inside, Each}
use kuberne_tsn.Memory.{
  KtMemory, System, memory_alloc, open_memory, data_memory_name, ctrl_memory_name,
}
use kuberne_tsn.Packet.{null_metadata}
use kuberne_tsn.Ring.{RingBuf, enqueue_burst, create, get_capacity}
use kuberne_tsn.Ring
use kuberne_tsn.PrioQueue.{Node}
use kuberne_tsn.Preload.{KtInterface, interface_find}
use kuberne_tsn.Preload.Interfaces.{
  IfAddr, entry_for, add_interfaces, Extended, add_interfaces-Extended,
}
use kuberne_tsn.Preload.Macs.{Answered, with_macs}
use kuberne_tsn.Preload.Start.{Query, Program, look_up, libc_start_main}
use kuberne_tsn.Exchange.{Start}
use kuberne_tsn.Exchange.Boot.{booted}
use kuberne_tsn.Sender.{Sender, fill_free, fill_loop}
use kuberne_tsn.Sender.Setup.{Memory, ring_ptr, set_up, present, address}
use kuberne_tsn.Exchange.Attach.{Shares, Placed, program_starts}

abbrev blank_ring : RingBuf
blank_ring = record {
  name = [];
  data_ptr = 0;
  size = 0;
  esize = 0;
  mask = 0;
  capacity = 0;
  prod = record { head = 0; tail = 0 };
  cons = record { head = 0; tail = 0 };
  ring = replicate 128 0;
}

-- an allocator that hands out the four quarters of 1 MB in turn
abbrev quarters : KtAllocator ℕ
quarters = record { alloc = λ s n. done (some (4096 + s % 4 * 262144), s + 1); free = λ s a. s }

abbrev blank_node : Node
blank_node = record { prio = pos 0; payload = 0 }

abbrev memory : Memory
memory = record {
  ring_at = λ a. blank_ring;
  mbufs_at = λ a. replicate 260096 0;
  metadata_at = λ a. replicate 127 null_metadata;
  nodes = replicate 127 blank_node;
}

abbrev nobody : Sender × Pointers
nobody = (
  record {
    tx_ring = blank_ring;
    free_ring = blank_ring;
    queue = record { elems = []; cap = 0; size = 0 };
    metadata_pool = [];
    mbuf_pool = [];
    sent = [];
    counter = 0;
  },
  record { tx_ring = 0; free_ring = 0; mbuf_pool = 0; metadata_pool = 0 },
)

abbrev started : (Sender × Pointers) × ℕ
started = value_or (nobody, 0) (set_up quarters memory 0)

started-ran : set_up quarters memory 0 ≡ done started
unfolding set_up create fill_free fill_loop enqueue_burst Ring.do_enqueue_elems present address
    get_capacity Ring.move_prod_head Ring.enqueue_elems
started-ran = refl

abbrev sender : Sender
sender = started.0.0

abbrev pointers : Pointers
pointers = started.0.1

-- the pointers that the allocator has answered
pointers-eq :
    pointers
    ≡ record { tx_ring = 4096; free_ring = 266240; mbuf_pool = 528384; metadata_pool = 790528 }
unfolding set_up create fill_free fill_loop enqueue_burst Ring.do_enqueue_elems present address
    get_capacity Ring.move_prod_head Ring.enqueue_elems
pointers-eq = refl

-- the memory after the daemon's start, and the program's mapping of it, 4096 bytes further on
abbrev now : Memory
now = record {
  ring_at = λ a. if a == 4096 then sender.tx_ring else sender.free_ring;
  mbufs_at = memory.mbufs_at;
  metadata_at = memory.metadata_at;
  nodes = [];
}

abbrev view : Memory
view = record {
  ring_at = λ a. now.ring_at (a - 4096);
  mbufs_at = λ a. now.mbufs_at (a - 4096);
  metadata_at = λ a. now.metadata_at (a - 4096);
  nodes = [];
}

-- where the rings lie
rings-at : (ring_ptr sender.tx_ring ≡ 4096) × (ring_ptr sender.free_ring ≡ 266240)
unfolding set_up create fill_free fill_loop enqueue_burst Ring.do_enqueue_elems present address
    get_capacity Ring.move_prod_head Ring.enqueue_elems
rings-at = (refl, refl)

now-Placed : Placed memory now sender
now-Placed = record {
  tx_ring = ap now.ring_at rings-at.0;
  free_ring = ap now.ring_at rings-at.1;
  mbufs = λ a. refl;
  metadata = λ a. refl;
}

shifted : (o : ℕ) → 8192 + o - 4096 ≡ 4096 + o
shifted o = omega arith

view-Shares : Shares 1048576 4096 now 8192 view
view-Shares = record {
  rings = λ o lt. ap now.ring_at (shifted o);
  mbufs = λ o lt. refl;
  metadata = λ o lt. refl;
}

pointers-Inside : Each (Inside 4096 1048576) pointers
pointers-Inside = rw pointers-eq (record {
  tx_ring = record { after = omega arith; before = omega arith; mapped = omega arith };
  free_ring = record { after = omega arith; before = omega arith; mapped = omega arith };
  mbuf_pool = record { after = omega arith; before = omega arith; mapped = omega arith };
  metadata_pool = record { after = omega arith; before = omega arith; mapped = omega arith };
})

abbrev block : KtMemory
block = record { name = []; fd = pos 0; addr = 0; size = 0; used = 0; flags = 0 }

-- `shm_open` returns the descriptor, `mmap` the address.
abbrev opens_at : ℕ → ℕ → System
opens_at fd addr = record { shm_fd = pos fd; ftruncate_result = pos 0; mmap_addr = some addr }

-- the memory that such an allocation gives
abbrev mapped_at : ℕ → ℕ → KtMemory
mapped_at fd addr = record {
  name = [];
  fd = pos fd;
  addr = addr;
  size = 1048576;
  used = 0;
  flags = 0;
}

-- an interface of AF_INET, and one of another family
abbrev entries : List IfAddr
entries =
    record {
      name = 101 ∷ [];
      inet = some (record { s_addr = 5; sin_port = 0 }, 4);
      named = true;
      ifindex = 2;
    }
    ∷ record { name = 108 ∷ []; inet = none; named = true; ifindex = 1 }
    ∷ []

abbrev unset : KtInterface
unset = record {
  ifindex = 0;
  name = [];
  addr = record { s_addr = 0; sin_port = 0 };
  netmask = 0;
  mac = [];
}

abbrev query : Query
query = record {
  fd = pos 7;
  chance = pos 7;
  ioctl = λ fd name. some (2 ∷ 0 ∷ 0 ∷ 0 ∷ 0 ∷ 9 ∷ []);
  close_result = pos 0;
  ifr_name = [];
}

query-Answered : (name : List ℕ) → Answered query name (2 ∷ 0 ∷ 0 ∷ 0 ∷ 0 ∷ 9 ∷ [])
query-Answered name = record { opens = refl; by_chance = refl; answer = refl }

abbrev program : Program
program = record {
  data_block = some block;
  data_system = opens_at 3 8192;
  ctrl_block = some block;
  ctrl_system = opens_at 4 2097152;
  layout_at = λ a. publish 4096 pointers;
  memory = view;
  network = record { ifaddrs = some entries; unset = unset; ask = λ i. query };
}

maps :
    (fd addr : ℕ) (name : List ℕ)
    → (memory_alloc (some block) (opens_at fd addr) name 1048576).0 ≡ some (mapped_at fd addr)
unfolding memory_alloc open_memory strncpy
maps fd addr name = ground arith

program_starts_example :
    (interfaces : List KtInterface) × ((libc_start_main (λ f. 1) program).0
      ≡ done (
          some (
            look_up (λ f. 1),
            (booted [] (with_macs (λ i. 2 ∷ 0 ∷ 0 ∷ 0 ∷ 0 ∷ 9 ∷ []) interfaces) sender).lib,
          )))
    × ((i : ℕ) → interface_find interfaces i ≡ entry_for unset entries i)
    × Start 7 (booted [] (with_macs (λ i. 2 ∷ 0 ∷ 0 ∷ 0 ∷ 0 ∷ 9 ∷ []) interfaces) sender)
program_starts_example =
    program_starts quarters memory now 0 (λ f. 1) program (λ i. 2 ∷ 0 ∷ 0 ∷ 0 ∷ 0 ∷ 9 ∷ [])
      (λ a. omega (arith, length-replicate {A = ℕ} 128 0))
      (λ a. omega (arith, length-replicate 127 null_metadata))
      (λ a. omega (arith, length-replicate {A = ℕ} 260096 0))
      (omega (arith, length-replicate 127 blank_node)) started-ran pointers-Inside now-Placed
      (maps 3 8192 data_memory_name) (maps 4 2097152 ctrl_memory_name) view-Shares (omega arith)
      refl refl (refl, (refl, tt)) (query-Answered _, (query-Answered _, tt))

add_interfaces-Extended_example :
    (interfaces : List KtInterface) × (add_interfaces unset entries [] ≡ done interfaces)
    × Extended unset entries [] interfaces
add_interfaces-Extended_example = add_interfaces-Extended unset entries [] (refl, (refl, tt)) tt
