-- ===== src/Sender/Main.antt =====
-- `main` of ktsnd.c, from the initialisation of DPDK to the clean-up. `aborted` stands for `rte_exit`.
use kuberne_tsn.Common.{ℕ, Bool, Option, none, some, List, [], ◌++◌, if◌then◌else◌}
use kuberne_tsn.Common.Int.{ℤ, pos, negsuc, ltb_ℤ}
use kuberne_tsn.Common.Run.{Run, done, aborted, ◌>>=◌}
use kuberne_tsn.Layout.{MemLayout, publish}
use kuberne_tsn.Memory.{
  KtMemory, System, memory_alloc, memory_destroy, data_memory_name, ctrl_memory_name,
  default_memory_size,
}
use kuberne_tsn.Memory
use kuberne_tsn.PageAlloc.{PageAllocator, page_allocator}
use kuberne_tsn.PageAlloc
use kuberne_tsn.Sender.{Sender, Round, main_loop}
use kuberne_tsn.Sender.Frame.{Network}
use kuberne_tsn.Sender.Port.{Port, port_init}
use kuberne_tsn.Sender.Port
use kuberne_tsn.Sender.Setup
use kuberne_tsn.Sender.Setup.{set_up}

-- What the daemon meets: the result of `rte_eal_init`, the answers for the two memories, the size of a
-- page, what memory holds, read as an allocator or as the rings and the pools, whether DPDK has buffers,
-- and its answers for the port.
pub record Machine : Type 0 where
  pub eal_result : ℤ
  pub data_block : Option KtMemory
  pub data_system : System
  pub ctrl_block : Option KtMemory
  pub ctrl_system : System
  pub page_size : ℕ
  pub old : ℕ → PageAllocator
  pub memory : Setup.Memory
  pub mbuf_pool : Bool
  pub port : Port

-- How `main` ends: its result, the calls of the operating system for the memories, the layout that it
-- has written into the second one, and the calls that set up the port.
pub record End : Type 0 where
  pub result : ℤ
  pub calls : List Memory.Call
  pub layout : Option MemLayout
  pub port_calls : List Port.Call

-- The port, the loop and the clean-up. The result of `port_init` is only logged.
unfoldable pub work :
    Machine
    → Network
    → List Round
    → List Memory.Call
    → KtMemory
    → KtMemory
    → MemLayout
    → Sender
    → Run End
work mc net rounds calls data_mem ctrl_mem layout sender =
    let without_buffers : End = record {
      result = negsuc 0;
      calls = calls;
      layout = some layout;
      port_calls = [];
    } in
    let ended : End = record {
      result = pos 0;
      calls = calls ++ (memory_destroy ctrl_mem ++ memory_destroy data_mem);
      layout = some layout;
      port_calls = (port_init mc.port 1500).1;
    } in
    let run = main_loop net rounds sender >>= λ s. done ended in
    if mc.mbuf_pool then run else done without_buffers

-- `main` once it has both memories, after these calls
unfoldable pub serve :
    Machine → Network → List Round → List Memory.Call → KtMemory → KtMemory → Run End
serve mc net rounds calls data_mem ctrl_mem = do
  page_al ← PageAlloc.make (mc.old data_mem.addr) data_mem.addr data_mem.size mc.page_size
  ((sender, pointers), al) ← set_up page_allocator mc.memory page_al
  work mc net rounds calls data_mem ctrl_mem (publish data_mem.addr pointers) sender

-- the end without one of the memories
abbrev pub failed : List Memory.Call → End
failed calls = record { result = negsuc 0; calls = calls; layout = none; port_calls = [] }

unfoldable pub main : Machine → Network → List Round → Run End
main mc net rounds =
    let (data_mem, data_calls) =
      memory_alloc mc.data_block mc.data_system data_memory_name default_memory_size in
    let (ctrl_mem, ctrl_calls) =
      memory_alloc mc.ctrl_block mc.ctrl_system ctrl_memory_name mc.page_size in
    let started : Run End = elim data_mem as (λ _. Run End) [
      | none ↦ done (failed data_calls)
      | some data_mem ↦ elim ctrl_mem as (λ _. Run End) [
        | none ↦ done (failed (data_calls ++ ctrl_calls))
        | some ctrl_mem ↦ serve mc net rounds (data_calls ++ ctrl_calls) data_mem ctrl_mem
      ]
    ] in
    if ltb_ℤ mc.eal_result (pos 0) then aborted else started
