-- ===== src/Memory.antt =====
-- src/kt_memory.c: the shared memory. The calls of the operating system are recorded in their order,
-- and what they return is a parameter.
pub mod Descriptors
pub mod Cleanup
mod Tests
use kuberne_tsn.Common.{ℕ, ◌-◌, Bool, not, Option, none, some, List, [], ◌∷◌, u32, if◌then◌else◌}
use kuberne_tsn.Common.Int.{ℤ, pos, negsuc, eqb_ℤ, ltb_ℤ}
use kuberne_tsn.Common.Text.{strncpy}

-- `struct kt_memory`; `flags` is never set.
pub record KtMemory : Type 0 where
  pub name : List ℕ
  pub fd : ℤ
  pub addr : ℕ
  pub size : ℕ
  pub used : ℕ
  pub flags : ℕ

-- `KT_MEMORY_NAMESIZE`
abbrev pub namesize : ℕ
namesize = 64

-- KT_DEFAULT_SHARED_DATA_MEMORY_NAME and KT_DEFAULT_SHARED_CTRL_MEMORY_NAME: "ktsnd_data_memory" and
-- "ktsnd_meta_memory"
abbrev pub data_memory_name : List ℕ
data_memory_name =
    107 ∷ 116 ∷ 115 ∷ 110 ∷ 100 ∷ 95 ∷ 100 ∷ 97 ∷ 116 ∷ 97 ∷ 95 ∷ 109 ∷ 101 ∷ 109 ∷ 111 ∷ 114 ∷ 121
    ∷ []

abbrev pub ctrl_memory_name : List ℕ
ctrl_memory_name =
    107 ∷ 116 ∷ 115 ∷ 110 ∷ 100 ∷ 95 ∷ 109 ∷ 101 ∷ 116 ∷ 97 ∷ 95 ∷ 109 ∷ 101 ∷ 109 ∷ 111 ∷ 114 ∷ 121
    ∷ []

-- KT_DEFAULT_MEMORY_SIZE
abbrev pub default_memory_size : ℕ
default_memory_size = 1048576

-- A call of the operating system; `shm_open` with the descriptor that it returned.
pub data Call : Type 0 where
  shm_open : (fd : ℤ) → Call
  ftruncate mmap : (fd : ℤ) → Call
  munmap : (addr size : ℕ) → Call
  shm_unlink : (name : List ℕ) → Call
  closing : (fd : ℤ) → Call

-- What the calls of `_kt_memory_alloc` return: the descriptor, the result of `ftruncate`, and the
-- address from `mmap`, if it does not fail.
pub record System : Type 0 where
  pub shm_fd : ℤ
  pub ftruncate_result : ℤ
  pub mmap_addr : Option ℕ

-- `_kt_memory_alloc` once it has its block; the flags of `shm_open` make no difference here. On an
-- error the block is freed.
unfoldable pub open_memory : System → KtMemory → List ℕ → ℕ → Option KtMemory × List Call
open_memory os block name size =
    let fd = os.shm_fd in
    let mapped : Option KtMemory × List Call = elim os.mmap_addr [
      | none ↦ (none, shm_open fd ∷ ftruncate fd ∷ mmap fd ∷ [])
      | some addr ↦ (
        some (record block {
          size = u32 size;
          name = strncpy block.name name (namesize - 1);
          fd = fd;
          addr = addr;
          used = 0;
        }),
        shm_open fd ∷ ftruncate fd ∷ mmap fd ∷ [],
      )
    ] in
    if eqb_ℤ fd (negsuc 0)
    then (none, shm_open fd ∷ [])
    else if not (eqb_ℤ os.ftruncate_result (pos 0))
    then (none, shm_open fd ∷ ftruncate fd ∷ [])
    else mapped

-- `_kt_memory_alloc`, which `kt_memory_attach` and `kt_memory_create` return the result of, with the
-- block from `malloc` as it is found, if there is one
unfoldable pub memory_alloc : Option KtMemory → System → List ℕ → ℕ → Option KtMemory × List Call
memory_alloc none os name size = (none, [])
memory_alloc (some block) os name size = open_memory os block name size

-- `kt_memory_destroy`
unfoldable pub memory_destroy : KtMemory → List Call
memory_destroy m = munmap m.addr m.size ∷ shm_unlink m.name ∷ closing m.fd ∷ []

-- `kt_memory_detach`, with what `munmap` and `_close` return
unfoldable pub memory_detach : ℤ → ℤ → KtMemory → ℤ × List Call
memory_detach munmap_result close_result m =
    if ltb_ℤ munmap_result (pos 0)
    then (negsuc 0, munmap m.addr m.size ∷ [])
    else if ltb_ℤ close_result (pos 0)
    then (negsuc 0, munmap m.addr m.size ∷ closing m.fd ∷ [])
    else (pos 0, munmap m.addr m.size ∷ closing m.fd ∷ [])
