-- ===== src/Sender/Cleanup.antt =====
-- What `main` of ktsnd.c leaves open when it ends.
mod Tests
use mathlib.Core.Path.{subst}
use mathlib.Core.List.{append-nil}
use kuberne_tsn.Common.{
  ap₂, ℕ, ◌≡◌, refl, sym, ap, ◌∙◌, arith, Bool-cases, inl, inr, Option, none, some, Option-cases,
  List, [], ◌∷◌, ◌++◌, true, false, if◌then◌else◌,
}
use kuberne_tsn.Common.Int.{ℤ, pos, negsuc, eqb_ℤ, ltb_ℤ}
use kuberne_tsn.Common.Run.{done, done-inj, bind-done}
use kuberne_tsn.Layout.{MemLayout, publish}
use kuberne_tsn.PageAlloc.{page_allocator}
use kuberne_tsn.PageAlloc
use kuberne_tsn.Sender.Setup.{set_up}
use kuberne_tsn.Memory.{
  KtMemory, Call, shm_open, ftruncate, mmap, munmap, shm_unlink, closing, memory_alloc,
  memory_destroy, data_memory_name, ctrl_memory_name, default_memory_size,
}
use kuberne_tsn.Memory.Cleanup.{
  Leaves, clean, without_data, with_both, data-open, both-open, destroyed,
}
use kuberne_tsn.Sender.{Sender, Round, main_loop}
use kuberne_tsn.Sender.Frame.{Network}
use kuberne_tsn.Sender.Main.{Machine, End, work, serve, main}

module _ (mc : Machine) (net : Network) (rounds : List Round) where
  abbrev data_answer : Option KtMemory × List Call
  data_answer = memory_alloc mc.data_block mc.data_system data_memory_name default_memory_size

  abbrev ctrl_answer : Option KtMemory × List Call
  ctrl_answer = memory_alloc mc.ctrl_block mc.ctrl_system ctrl_memory_name mc.page_size

  abbrev Left : End → Type 0
  Left e =
      Leaves (mc.data_block, mc.data_system) (mc.ctrl_block, mc.ctrl_system) data_answer.0
        ctrl_answer.0 e.result e.calls

  work-Leaves :
      {data_mem ctrl_mem : KtMemory} (layout : MemLayout) (sender : Sender) {e : End}
      → data_answer.0 ≡ some data_mem
      → ctrl_answer.0 ≡ some ctrl_mem
      → work mc net rounds (data_answer.1 ++ ctrl_answer.1) data_mem ctrl_mem layout sender ≡ done e
      → Left e
  unfolding work
  work-Leaves layout sender found_data found_ctrl ended = elim (Bool-cases mc.mbuf_pool) [
    | inl buffers ↦
        let (s, ran, r) = bind-done (main_loop net rounds sender) _ (rw buffers at ended) in
        subst Left (done-inj r) (
          clean found_data found_ctrl refl (
            destroyed mc.data_block mc.data_system data_memory_name default_memory_size
              mc.ctrl_block mc.ctrl_system ctrl_memory_name mc.page_size found_data found_ctrl))
    | inr none_left ↦ subst Left (done-inj (rw none_left at ended)) (
        with_both found_data refl (
          both-open mc.data_block mc.data_system data_memory_name default_memory_size mc.ctrl_block
            mc.ctrl_system ctrl_memory_name mc.page_size))
  ]

  serve-Leaves :
      {data_mem ctrl_mem : KtMemory} {e : End}
      → data_answer.0 ≡ some data_mem
      → ctrl_answer.0 ≡ some ctrl_mem
      → serve mc net rounds (data_answer.1 ++ ctrl_answer.1) data_mem ctrl_mem ≡ done e
      → Left e
  unfolding serve
  serve-Leaves {data_mem} found_data found_ctrl ended =
      let (al, made, r1) =
        bind-done (PageAlloc.make (mc.old data_mem.addr) data_mem.addr data_mem.size mc.page_size) _
          ended in
      let (((sender, pointers), al'), ran, r2) =
        bind-done (set_up page_allocator mc.memory al) _ r1 in
      work-Leaves (publish data_mem.addr pointers) sender found_data found_ctrl r2

  -- When the daemon's `main` ends with 0, it has got both memories and no descriptor of one is open; when it
  -- ends with -1, every descriptor that `shm_open` has returned is still open: that for the first memory if
  -- this could not be had, else that and the one for the second.
  pub main-Leaves :
      {e : End}
      → main mc net rounds ≡ done e
      → Leaves
          (mc.data_block, mc.data_system)
          (mc.ctrl_block, mc.ctrl_system)
          (memory_alloc mc.data_block mc.data_system data_memory_name default_memory_size).0
          (memory_alloc mc.ctrl_block mc.ctrl_system ctrl_memory_name mc.page_size).0
          e.result
          e.calls
  unfolding main
  main-Leaves ended = elim (Bool-cases (ltb_ℤ mc.eal_result (pos 0))) [
    | inl failed ↦ absurd (ground (arith, failed, ended))
    | inr ready ↦ elim (Option-cases data_answer.0) [
      | inl no_data ↦ subst Left (done-inj (rw (ready, no_data) at ended)) (
          without_data no_data refl (
            data-open mc.data_block mc.data_system data_memory_name default_memory_size
              mc.ctrl_block mc.ctrl_system ctrl_memory_name mc.page_size))
      | inr (data_mem, found_data) ↦ elim (Option-cases ctrl_answer.0) [
        | inl no_ctrl ↦ subst Left (done-inj (rw (ready, found_data, no_ctrl) at ended)) (
            with_both found_data refl (
              both-open mc.data_block mc.data_system data_memory_name default_memory_size
                mc.ctrl_block mc.ctrl_system ctrl_memory_name mc.page_size))
        | inr (ctrl_mem, found_ctrl) ↦
            serve-Leaves found_data found_ctrl (rw (ready, found_data, found_ctrl) at ended)
      ]
    ]
  ]
