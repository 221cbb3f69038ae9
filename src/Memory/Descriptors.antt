-- ===== src/Memory/Descriptors.antt =====
-- Which descriptors stay open after the calls of src/kt_memory.c.
use kuberne_tsn.Common.{
  ℕ, ◌≡◌, refl, arith, true, not, Bool-cases, inl, inr, Option, none, some, Option-cases, List, [],
  ◌∷◌, ◌++◌, if◌then◌else◌,
}
use kuberne_tsn.Common.Int.{ℤ, pos, negsuc, eqb_ℤ}
use kuberne_tsn.Memory.{
  KtMemory, Call, shm_open, closing, System, open_memory, memory_alloc, memory_destroy,
}

-- the descriptors without the first that is `fd`
abbrev pub without : ℤ → List ℤ → List ℤ
without fd [] = []
without fd (g ∷ fds) = if eqb_ℤ g fd then fds else g ∷ without fd fds

-- the descriptors that are open after some calls
abbrev pub open_after : List ℤ → List Call → List ℤ
open_after fds [] = fds
open_after fds (shm_open fd ∷ calls) =
    if eqb_ℤ fd (negsuc 0) then open_after fds calls else open_after (fd ∷ fds) calls
open_after fds (closing fd ∷ calls) = open_after (without fd fds) calls
open_after fds (_ ∷ calls) = open_after fds calls

-- the descriptor that `shm_open` returns, if it does not fail
abbrev pub opened : System → List ℤ
opened os = if eqb_ℤ os.shm_fd (negsuc 0) then [] else os.shm_fd ∷ []

-- the descriptor that an allocation asks for, if it has its block
abbrev pub asked : Option KtMemory → System → List ℤ
asked none os = []
asked (some block) os = opened os

-- What becomes of the descriptor: a memory has it until `kt_memory_destroy`; without a memory it is
-- open nevertheless.
abbrev pub Descriptor : System → Option KtMemory × List Call → Type 0
Descriptor os (some m, calls) =
    (open_after [] calls ≡ m.fd ∷ []) × (open_after [] (calls ++ memory_destroy m) ≡ [])
Descriptor os (none, calls) = open_after [] calls ≡ opened os

eqb_ℤ-refl : (a : ℤ) → eqb_ℤ a a ≡ true
eqb_ℤ-refl a = ground arith

-- Whatever was open before, the allocation adds the descriptor that `shm_open` returns.
pub memory_alloc-opened :
    (fds : List ℤ) (block : Option KtMemory) (os : System) (name : List ℕ) (size : ℕ)
    → open_after fds (memory_alloc block os name size).1 ≡ asked block os ++ fds
unfolding memory_alloc open_memory
memory_alloc-opened fds none os name size = refl
memory_alloc-opened fds (some block) os name size = elim (Bool-cases (eqb_ℤ os.shm_fd (negsuc 0))) [
  | inl failed ↦ rw failed (rw failed refl)
  | inr found ↦ elim (Bool-cases (not (eqb_ℤ os.ftruncate_result (pos 0)))) [
    | inl cut ↦ rw (found, cut) (rw found refl)
    | inr ok ↦ elim (Option-cases os.mmap_addr) [
      | inl failed ↦ rw (found, ok, failed) (rw found refl)
      | inr (addr, mapped) ↦ rw (found, ok, mapped) (rw found refl)
    ]
  ]
]

-- A memory has that descriptor.
pub memory_alloc-fd :
    (block : Option KtMemory) (os : System) (name : List ℕ) (size : ℕ) {m : KtMemory}
    → (memory_alloc block os name size).0 ≡ some m
    → asked block os ≡ m.fd ∷ []
unfolding memory_alloc open_memory
memory_alloc-fd none os name size e = absurd cc
memory_alloc-fd (some block) os name size e = elim (Bool-cases (eqb_ℤ os.shm_fd (negsuc 0))) [
  | inl failed ↦ absurd (ground (arith, failed, e))
  | inr found ↦ elim (Bool-cases (not (eqb_ℤ os.ftruncate_result (pos 0)))) [
    | inl cut ↦ absurd (ground (arith, found, cut, e))
    | inr ok ↦ elim (Option-cases os.mmap_addr) [
      | inl failed ↦ absurd (ground (arith, found, ok, failed, e))
      | inr (addr, mapped) ↦ ground (arith, found, ok, mapped, e)
    ]
  ]
]

-- A memory that is created has its descriptor as the only open one, and none is open once
-- `kt_memory_destroy` has ended. When `_kt_memory_alloc` has its block but returns NULL, the descriptor
-- that `shm_open` has returned stays open, if it has returned one.
pub memory_alloc-Descriptor :
    (block : KtMemory) (os : System) (name : List ℕ) (size : ℕ)
    → Descriptor os (memory_alloc (some block) os name size)
unfolding memory_alloc open_memory memory_destroy
memory_alloc-Descriptor block os name size = elim (Bool-cases (eqb_ℤ os.shm_fd (negsuc 0))) [
  | inl failed ↦ rw failed refl
  | inr found ↦ elim (Bool-cases (not (eqb_ℤ os.ftruncate_result (pos 0)))) [
    | inl cut ↦ rw (found, cut) refl
    | inr ok ↦ elim (Option-cases os.mmap_addr) [
      | inl failed ↦ rw (found, ok, failed) (rw found refl)
      | inr (addr, mapped) ↦
          rw (found, ok, mapped) (rw found refl, rw (found, eqb_ℤ-refl os.shm_fd) refl)
    ]
  ]
]
