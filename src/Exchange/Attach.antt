-- ===== src/Exchange/Attach.antt =====
-- A program starts while the daemon runs: the memories are shared, so that the library finds the rings and
-- the pools that the daemon has set up, although it has them mapped at other addresses.
mod Tests
use kuberne_tsn.Common.{
  ℕ, ◌+◌, ◌-◌, ◌*◌, ◌^◌, ◌≤◌, ◌<◌, ◌≡◌, refl, sym, ap, ◌∙◌, Option, none, some, List, [], ◌∷◌,
  arith, length, u64, sub64,
}
use kuberne_tsn.Common.Run.{done}
use kuberne_tsn.Allocator.{KtAllocator}
use kuberne_tsn.Layout.{Pointers, publish, locate, Inside, Each, offset_arrives}
use kuberne_tsn.Memory.{
  KtMemory, memory_alloc, data_memory_name, ctrl_memory_name, default_memory_size,
}
use kuberne_tsn.Packet.{mbuf_size}
use kuberne_tsn.Preload.{KtInterface, interface_find}
use kuberne_tsn.Preload.Interfaces.{IfAddr, AllNamed, entry_for}
use kuberne_tsn.Preload.Macs.{Answered, EachEntry, with_macs, query_interfaces-Answered}
use kuberne_tsn.Preload.Start.{
  Symbol, look_up, Program, attach, attached, set_interfaces, libc_start_main,
}
use kuberne_tsn.Sender.{Sender}
use kuberne_tsn.Sender.Setup.{Memory, ring_ptr, set_up}
use kuberne_tsn.Exchange.{Start}
use kuberne_tsn.Exchange.Boot.{booted, Pointed, set_up-Pointed, set_up-Start}

-- What one mapping of a memory of `size` bytes holds, the other holds at the same offset.
pub record Shares (size base : ℕ) (now : Memory) (base' : ℕ) (view : Memory) : Type 0 where
  pub rings : (o : ℕ) → o < size → view.ring_at (base' + o) ≡ now.ring_at (base + o)
  pub mbufs : (o : ℕ) → o < size → view.mbufs_at (base' + o) ≡ now.mbufs_at (base + o)
  pub metadata : (o : ℕ) → o < size → view.metadata_at (base' + o) ≡ now.metadata_at (base + o)

-- Memory after the daemon's start, which has found `mem` there: each of its rings lies right before its data,
-- and the rest of what it reads as pools is as it was.
pub record Placed (mem now : Memory) (d : Sender) : Type 0 where
  pub tx_ring : now.ring_at (ring_ptr d.tx_ring) ≡ d.tx_ring
  pub free_ring : now.ring_at (ring_ptr d.free_ring) ≡ d.free_ring
  pub mbufs : (a : ℕ) → now.mbufs_at a ≡ mem.mbufs_at a
  pub metadata : (a : ℕ) → now.metadata_at a ≡ mem.metadata_at a

seen :
    {A : Type 0} {size base p : ℕ} (base' : ℕ) (view now : ℕ → A)
    → ((o : ℕ) → o < size → view (base' + o) ≡ now (base + o))
    → base' + size ≤ 2 ^ 64
    → Inside base size p
    → view (u64 (base' + sub64 p base)) ≡ now p
seen {base = base} {p} base' view now same mapped inside =
    let back : base + (p - base) ≡ p = omega (arith, inside) in
    ap view (offset_arrives base' inside mapped)
    ∙ same (p - base) (omega (arith, inside))
    ∙ ap now back

-- The library has the daemon's rings and pools.
attached-finds :
    {size base : ℕ} {mem now : Memory} {d : Sender} {p : Pointers} (pr : Program)
    (data_mem ctrl_mem : KtMemory)
    → Each (Inside base size) p
    → Pointed mem d p
    → Placed mem now d
    → Shares size base now data_mem.addr pr.memory
    → data_mem.addr + size ≤ 2 ^ 64
    → pr.layout_at ctrl_mem.addr ≡ publish base p
    → attached pr data_mem ctrl_mem ≡ (booted [] [] d).lib
unfolding attached attach publish locate
attached-finds {now = now} {d} {p} pr data_mem ctrl_mem each pointed placed shares mapped written =
    rw
      (
        written,
        seen data_mem.addr pr.memory.ring_at now.ring_at shares.rings mapped each.tx_ring
            ∙ ap now.ring_at pointed.tx_ring
            ∙ placed.tx_ring,
        seen data_mem.addr pr.memory.ring_at now.ring_at shares.rings mapped each.free_ring
            ∙ ap now.ring_at pointed.free_ring
            ∙ placed.free_ring,
        seen data_mem.addr pr.memory.mbufs_at now.mbufs_at shares.mbufs mapped each.mbuf_pool
            ∙ placed.mbufs p.mbuf_pool
            ∙ pointed.mbuf_pool,
        seen data_mem.addr pr.memory.metadata_at now.metadata_at shares.metadata mapped
              each.metadata_pool
            ∙ placed.metadata p.metadata_pool
            ∙ pointed.metadata_pool,
      )
      refl

-- With both memories, the program's start goes on to the interfaces.
starts :
    (dlsym : Symbol → ℕ) (pr : Program) {data_mem ctrl_mem : KtMemory}
    → (memory_alloc pr.data_block pr.data_system data_memory_name default_memory_size).0
      ≡ some data_mem
    → (memory_alloc pr.ctrl_block pr.ctrl_system ctrl_memory_name default_memory_size).0
      ≡ some ctrl_mem
    → (libc_start_main dlsym pr).0 ≡ set_interfaces dlsym pr.network (attached pr data_mem ctrl_mem)
unfolding libc_start_main
starts dlsym pr found_data found_ctrl = rw (found_data, found_ctrl, libc_start_main) refl

-- With a daemon whose start has ended, in memory that is large enough, a program starts that has both memories
-- mapped, wherever they are, whose entries of `getifaddrs` all have a name, and whose queries for the MAC
-- addresses find their descriptor in the variable, although `socket` returns nothing, and an address. This is so
-- if the pointers that the daemon's start hands out lie in the memory, the second memory holds the layout that it
-- publishes, and each of its rings lies right before its data, with the pools as they were found. The library has
-- the daemon's rings and pools, for each number the interface of the first entry of AF_INET with it, with the
-- address that was found as its MAC, and none without such an entry, and no socket, and the two are in a state
-- from which the steps of the exchange begin.
pub program_starts :
    {S : Type 0} (al : KtAllocator S) (mem now : Memory) (s : S) {s' : S} {d : Sender}
    {p : Pointers} {size base : ℕ} (dlsym : Symbol → ℕ) (pr : Program)
    {data_mem ctrl_mem : KtMemory} (sa_data : ℕ → List ℕ) {entries : List IfAddr}
    → ((a : ℕ) → 128 ≤ length (mem.ring_at a).ring)
    → ((a : ℕ) → 127 ≤ length (mem.metadata_at a))
    → ((a : ℕ) → 127 * mbuf_size ≤ length (mem.mbufs_at a))
    → 127 ≤ length mem.nodes
    → set_up al mem s ≡ done ((d, p), s')
    → Each (Inside base size) p
    → Placed mem now d
    → (memory_alloc pr.data_block pr.data_system data_memory_name default_memory_size).0
      ≡ some data_mem
    → (memory_alloc pr.ctrl_block pr.ctrl_system ctrl_memory_name default_memory_size).0
      ≡ some ctrl_mem
    → Shares size base now data_mem.addr pr.memory
    → data_mem.addr + size ≤ 2 ^ 64
    → pr.layout_at ctrl_mem.addr ≡ publish base p
    → pr.network.ifaddrs ≡ some entries
    → AllNamed entries
    → EachEntry (λ i name. Answered (pr.network.ask i) name (sa_data i)) pr.network.unset entries
    → (interfaces : List KtInterface) × ((libc_start_main dlsym pr).0
        ≡ done (some (look_up dlsym, (booted [] (with_macs sa_data interfaces) d).lib)))
      × ((i : ℕ) → interface_find interfaces i ≡ entry_for pr.network.unset entries i)
      × Start 7 (booted [] (with_macs sa_data interfaces) d)
unfolding set_interfaces
program_starts al mem now s {d = d} {p} dlsym pr {data_mem} {ctrl_mem} sa_data rings metas mbufs
      nodes ran each placed found_data found_ctrl shares mapped written answered named queries =
    let (interfaces, asked, valid, listed) =
      query_interfaces-Answered pr.network sa_data answered named queries in
    let pointed = set_up-Pointed al mem s rings ran in
    let finds = attached-finds pr data_mem ctrl_mem each pointed placed shares mapped written in
    (
      interfaces,
      starts dlsym pr found_data found_ctrl
          ∙ ap (set_interfaces dlsym pr.network) finds
          ∙ rw asked refl,
      listed,
      set_up-Start al mem [] (with_macs sa_data interfaces) metas mbufs nodes s rings ran,
    )
