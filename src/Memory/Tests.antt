-- ===== src/Memory/Tests.antt =====
-- A memory whose size cannot be set.
use kuberne_tsn.Common.{◌≡◌, refl, none, some, [], ◌∷◌}
use kuberne_tsn.Common.Int.{pos, negsuc}
use kuberne_tsn.Memory.{KtMemory, System, shm_open, ftruncate, open_memory, memory_alloc}

abbrev block : KtMemory
block = record { name = []; fd = pos 0; addr = 0; size = 0; used = 0; flags = 0 }

-- `ftruncate` fails on descriptor 3.
abbrev full_system : System
full_system = record { shm_fd = pos 3; ftruncate_result = negsuc 0; mmap_addr = none }

full_system-calls :
    memory_alloc (some block) full_system [] 4096
    ≡ (none, shm_open (pos 3) ∷ ftruncate (pos 3) ∷ [])
unfolding memory_alloc open_memory
full_system-calls = refl
