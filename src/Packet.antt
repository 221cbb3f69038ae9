-- ===== src/Packet.antt =====
-- The packet pools of the shared memory, from src/kt_memory.h. The pool of payloads
-- is one array of bytes, as in memory, so that a copy that is too long runs into the next payload.
use kuberne_tsn.Common.{ℕ, zero, suc, ◌+◌, List, [], ◌∷◌, get_or}

-- `KT_METADATA_TRANSPORT_ETHERNET` and `KT_METADATA_TRANSPORT_UDP`
abbrev pub transport_ethernet : ℕ
transport_ethernet = 1

abbrev pub transport_udp : ℕ
transport_udp = 2

-- `struct kt_metadata`
pub record Metadata : Type 0 where
  pub transport : ℕ
  pub txtime : ℕ
  pub eth_src : List ℕ
  pub eth_dst : List ℕ
  pub ip_src : ℕ
  pub ip_dst : ℕ
  pub udp_dport : ℕ
  pub size : ℕ

abbrev pub null_metadata : Metadata
null_metadata = record {
  transport = 0;
  txtime = 0;
  eth_src = [];
  eth_dst = [];
  ip_src = 0;
  ip_dst = 0;
  udp_dport = 0;
  size = 0;
}

abbrev pub metadata_at : List Metadata → ℕ → Metadata
metadata_at pool i = get_or pool i null_metadata

-- the size of `struct kt_mbuf`
abbrev pub mbuf_size : ℕ
mbuf_size = 2048

-- the `n` bytes from `i` on
unfoldable pub read_bytes : ℕ → List ℕ → ℕ → List ℕ
read_bytes zero bytes i = []
read_bytes (suc n) bytes i = get_or bytes i 0 ∷ read_bytes n bytes (i + 1)
