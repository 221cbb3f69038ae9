-- ===== src/Layout.antt =====
-- `struct kt_mem_layout` of src/kt_memory.h: where the rings and the pools lie in the shared memory. The
-- daemon writes it, in ktsnd.c, and a program's library reads it, in libktsn.c; each of them has the
-- memory mapped at an address of its own.
use kuberne_tsn.Common.{ℕ, ◌+◌, ◌-◌, ◌^◌, ◌≤◌, ◌<◌, ◌≡◌, arith, sub64, u64}

pub record MemLayout : Type 0 where
  pub tx_ring_offset : ℕ
  pub free_ring_offset : ℕ
  pub mbuf_pool_offset : ℕ
  pub metadata_pool_offset : ℕ

-- the pointers to the rings and the pools
pub record Pointers : Type 0 where
  pub tx_ring : ℕ
  pub free_ring : ℕ
  pub mbuf_pool : ℕ
  pub metadata_pool : ℕ

-- What the daemon writes, with the memory at `addr`.
unfoldable pub publish : ℕ → Pointers → MemLayout
publish addr p = record {
  tx_ring_offset = sub64 p.tx_ring addr;
  free_ring_offset = sub64 p.free_ring addr;
  mbuf_pool_offset = sub64 p.mbuf_pool addr;
  metadata_pool_offset = sub64 p.metadata_pool addr;
}

-- The pointers that the library sets, with the memory at `addr`.
unfoldable pub locate : ℕ → MemLayout → Pointers
locate addr l = record {
  tx_ring = u64 (addr + l.tx_ring_offset);
  free_ring = u64 (addr + l.free_ring_offset);
  mbuf_pool = u64 (addr + l.mbuf_pool_offset);
  metadata_pool = u64 (addr + l.metadata_pool_offset);
}

-- An address of a memory of `size` bytes at `addr`, which ends below 2 ^ 64.
pub record Inside (addr size p : ℕ) : Type 0 where
  pub after : addr ≤ p
  pub before : p < addr + size
  pub mapped : addr + size ≤ 2 ^ 64

-- every pointer is where `P` says
pub record Each (P : ℕ → Type 0) (p : Pointers) : Type 0 where
  pub tx_ring : P p.tx_ring
  pub free_ring : P p.free_ring
  pub mbuf_pool : P p.mbuf_pool
  pub metadata_pool : P p.metadata_pool

-- An address that is sent as an offset arrives as the same place of the other mapping.
pub offset_arrives :
    (base' : ℕ) {base size p : ℕ}
    → Inside base size p
    → base' + size ≤ 2 ^ 64
    → u64 (base' + sub64 p base) ≡ base' + (p - base)
offset_arrives base' i mapped = omega (arith, i)
