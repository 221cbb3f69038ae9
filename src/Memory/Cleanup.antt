-- ===== src/Memory/Cleanup.antt =====
-- The two memories of a daemon: what stays open when its `main` ends.
use mathlib.Core.List.{append-nil}
use kuberne_tsn.Common.{
  ap₂, ℕ, ◌≡◌, refl, ap, ◌∙◌, arith, true, Bool-cases, inl, inr, Option, some, none, List, [], ◌∷◌,
  ◌++◌,
}
use kuberne_tsn.Common.Int.{ℤ, pos, negsuc, eqb_ℤ}
use kuberne_tsn.Memory.{
  KtMemory, Call, shm_open, ftruncate, mmap, munmap, shm_unlink, closing, System, memory_alloc,
  memory_destroy,
}
use kuberne_tsn.Memory.Descriptors.{open_after, asked, memory_alloc-opened, memory_alloc-fd}

eqb_ℤ-refl : (a : ℤ) → eqb_ℤ a a ≡ true
eqb_ℤ-refl a = ground arith

open_after-append :
    (fds : List ℤ) (calls calls' : List Call)
    → open_after fds (calls ++ calls') ≡ open_after (open_after fds calls) calls'
open_after-append fds [] calls' = refl
open_after-append fds (shm_open fd ∷ calls) calls' = elim (Bool-cases (eqb_ℤ fd (negsuc 0))) [
  | inl failed ↦ rw failed (open_after-append fds calls calls')
  | inr found ↦ rw found (open_after-append (fd ∷ fds) calls calls')
]
open_after-append fds (closing fd ∷ calls) calls' = open_after-append _ calls calls'
open_after-append fds (ftruncate fd ∷ calls) calls' = open_after-append fds calls calls'
open_after-append fds (mmap fd ∷ calls) calls' = open_after-append fds calls calls'
open_after-append fds (munmap a n ∷ calls) calls' = open_after-append fds calls calls'
open_after-append fds (shm_unlink name ∷ calls) calls' = open_after-append fds calls calls'

-- What is open when `main` has ended with a result, by the memories that it has got: nothing after a run of
-- the loop, with both; after a failure every descriptor that `shm_open` has returned, that for the second
-- memory included when the first was there. The memories are given as the block and the answers for each.
pub data Leaves (data_mem ctrl_mem : Option KtMemory × System) (got_data got_ctrl : Option KtMemory)
    (result : ℤ) (calls : List Call) : Type 0 where
  clean :
      {m n : KtMemory}
      → got_data ≡ some m
      → got_ctrl ≡ some n
      → result ≡ pos 0
      → open_after [] calls ≡ []
      → Leaves data_mem ctrl_mem got_data got_ctrl result calls
  without_data :
      got_data ≡ none
      → result ≡ negsuc 0
      → open_after [] calls ≡ asked data_mem.0 data_mem.1
      → Leaves data_mem ctrl_mem got_data got_ctrl result calls
  with_both :
      {m : KtMemory}
      → got_data ≡ some m
      → result ≡ negsuc 0
      → open_after [] calls ≡ asked ctrl_mem.0 ctrl_mem.1 ++ asked data_mem.0 data_mem.1
      → Leaves data_mem ctrl_mem got_data got_ctrl result calls

module _ (data_block : Option KtMemory) (data_os : System) (data_name : List ℕ) (data_size : ℕ)
    (ctrl_block : Option KtMemory) (ctrl_os : System) (ctrl_name : List ℕ) (ctrl_size : ℕ) where
  abbrev data_answer : Option KtMemory × List Call
  data_answer = memory_alloc data_block data_os data_name data_size

  abbrev ctrl_answer : Option KtMemory × List Call
  ctrl_answer = memory_alloc ctrl_block ctrl_os ctrl_name ctrl_size

  -- what is open once the first memory has been asked for
  pub data-open : open_after [] data_answer.1 ≡ asked data_block data_os
  data-open =
      memory_alloc-opened [] data_block data_os data_name data_size
      ∙ append-nil (asked data_block data_os)

  -- what is open once both memories have been asked for
  pub both-open :
      open_after [] (data_answer.1 ++ ctrl_answer.1)
      ≡ asked ctrl_block ctrl_os ++ asked data_block data_os
  both-open =
      let first = data-open in
      open_after-append [] data_answer.1 ctrl_answer.1
      ∙ ap (λ fds. open_after fds ctrl_answer.1) first
      ∙ memory_alloc-opened (asked data_block data_os) ctrl_block ctrl_os ctrl_name ctrl_size

  -- The clean-up closes both descriptors.
  pub destroyed :
      {data_mem ctrl_mem : KtMemory}
      → data_answer.0 ≡ some data_mem
      → ctrl_answer.0 ≡ some ctrl_mem
      → open_after []
          ((data_answer.1 ++ ctrl_answer.1) ++ (memory_destroy ctrl_mem ++ memory_destroy data_mem))
        ≡ []
  unfolding memory_destroy
  destroyed {data_mem} {ctrl_mem} found_data found_ctrl =
      let data_fd = memory_alloc-fd data_block data_os data_name data_size found_data in
      let ctrl_fd = memory_alloc-fd ctrl_block ctrl_os ctrl_name ctrl_size found_ctrl in
      let calls = memory_destroy ctrl_mem ++ memory_destroy data_mem in
      let open_both : open_after [] (data_answer.1 ++ ctrl_answer.1)
          ≡ ctrl_mem.fd ∷ data_mem.fd ∷ [] =
        both-open ∙ ap₂ (λ (a b : List ℤ). a ++ b) ctrl_fd data_fd in
      open_after-append [] (data_answer.1 ++ ctrl_answer.1) calls
      ∙ ap (λ fds. open_after fds calls) open_both
      ∙ rw (eqb_ℤ-refl ctrl_mem.fd) (rw (eqb_ℤ-refl data_mem.fd) refl)
