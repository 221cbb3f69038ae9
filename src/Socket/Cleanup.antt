-- ===== src/Socket/Cleanup.antt =====
-- What `main` of ktsnd_socket.c leaves open when it ends.
use mathlib.Core.Path.{subst}
use kuberne_tsn.Common.{◌≡◌, refl, inl, inr, Option-cases, List}
use kuberne_tsn.Common.Run.{done, done-inj, bind-done}
use kuberne_tsn.Memory.{memory_alloc, data_memory_name, ctrl_memory_name, default_memory_size}
use kuberne_tsn.Memory.Cleanup.{
  Leaves, clean, without_data, with_both, data-open, both-open, destroyed,
}
use kuberne_tsn.PageAlloc.{page_allocator}
use kuberne_tsn.PageAlloc
use kuberne_tsn.Socket.{Tick, main_loop}
use kuberne_tsn.Socket.Main.{Machine, End, set_up, work, main}

-- When `main` ends with 0, it has got both memories and no descriptor of one is open; when it
-- ends with -1, every descriptor that `shm_open` has returned is still open: that for the first memory if
-- this could not be had, else that and the one for the second.
pub main-Leaves :
    (mc : Machine) (ticks : List Tick) {e : End}
    → main mc ticks ≡ done e
    → Leaves
        (mc.data_block, mc.data_system)
        (mc.ctrl_block, mc.ctrl_system)
        (memory_alloc mc.data_block mc.data_system data_memory_name default_memory_size).0
        (memory_alloc mc.ctrl_block mc.ctrl_system ctrl_memory_name mc.page_size).0
        e.result
        e.calls
unfolding main work
main-Leaves mc ticks {e} ended =
    let (data_mem, data_calls) =
      memory_alloc mc.data_block mc.data_system data_memory_name default_memory_size in
    let (ctrl_mem, ctrl_calls) =
      memory_alloc mc.ctrl_block mc.ctrl_system ctrl_memory_name mc.page_size in
    let Left : End → Type 0 = λ e.
      Leaves (mc.data_block, mc.data_system) (mc.ctrl_block, mc.ctrl_system) data_mem ctrl_mem
        e.result e.calls in
    elim (Option-cases data_mem) [
      | inl no_data ↦ subst Left (done-inj (rw (no_data, main) at ended)) (
          without_data no_data refl (
            data-open mc.data_block mc.data_system data_memory_name default_memory_size
              mc.ctrl_block mc.ctrl_system ctrl_memory_name mc.page_size))
      | inr (data_block, found_data) ↦ elim (Option-cases ctrl_mem) [
        | inl no_ctrl ↦ subst Left (done-inj (rw (found_data, no_ctrl, main) at ended)) (
            with_both found_data refl (
              both-open mc.data_block mc.data_system data_memory_name default_memory_size
                mc.ctrl_block mc.ctrl_system ctrl_memory_name mc.page_size))
        | inr (ctrl_block, found_ctrl) ↦
            let (al, made, r1) =
              bind-done
                (PageAlloc.make (mc.old data_block.addr) data_block.addr data_block.size
                  mc.page_size)
                _ (rw (found_data, found_ctrl, main) at ended) in
            let (((sender, pointers), al'), ready, r2) =
              bind-done (set_up page_allocator mc.memory al) _ r1 in
            let (last, ran, r3) = bind-done (main_loop ticks sender) _ r2 in
            subst Left (done-inj r3) (
              clean found_data found_ctrl refl (
                destroyed mc.data_block mc.data_system data_memory_name default_memory_size
                  mc.ctrl_block mc.ctrl_system ctrl_memory_name mc.page_size found_data found_ctrl))
      ]
    ]
