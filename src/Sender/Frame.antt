-- ===== src/Sender/Frame.antt =====
-- `prepare_packet` of ktsnd.c. The byte-order and checksum functions of DPDK are parameters.
use kuberne_tsn.Common.{
  ℕ, ◌+◌, ◌%◌, ◌^◌, ◌≤◌, ◌≡◌, refl, arith, List, u32, ◌==◌, if◌then◌else◌, length, take, ap, zero,
  suc,
}
use kuberne_tsn.Packet.{Metadata, transport_udp, mbuf_size, read_bytes}

-- `struct rte_ether_hdr`, `struct rte_ipv4_hdr`, `struct rte_udp_hdr`: the fields that the source sets
pub record EtherHdr : Type 0 where
  pub src_addr : List ℕ
  pub dst_addr : List ℕ
  pub ether_type : ℕ

pub record Ipv4Hdr : Type 0 where
  pub dst_addr : ℕ
  pub src_addr : ℕ
  pub version : ℕ
  pub ihl : ℕ
  pub type_of_service : ℕ
  pub total_length : ℕ
  pub fragment_offset : ℕ
  pub time_to_live : ℕ
  pub next_proto_id : ℕ
  pub hdr_checksum : ℕ
  pub packet_id : ℕ

pub record UdpHdr : Type 0 where
  pub dst_port : ℕ
  pub src_port : ℕ
  pub dgram_len : ℕ
  pub dgram_cksum : ℕ

-- What an `rte_mbuf` holds: the headers and the body one behind the other, and the bytes that were
-- copied over them from the start on.
pub record TxBuf : Type 0 where
  pub ether : EtherHdr
  pub ip : Ipv4Hdr
  pub udp : UdpHdr
  pub body : List ℕ
  pub overlay : List ℕ
  pub data_len : ℕ
  pub pkt_len : ℕ
  pub chained : ℕ
  pub nb_segs : ℕ

-- DPDK's `rte_cpu_to_be_16` (for which the C library has `htons`), `rte_cpu_to_be_32` and
-- `rte_ipv4_cksum`
pub record Network : Type 0 where
  pub be16 : ℕ → ℕ
  pub be32 : ℕ → ℕ
  pub ipv4_cksum : Ipv4Hdr → ℕ

abbrev pub ether_type_ipv4 : ℕ
ether_type_ipv4 = 0x0800

-- the sizes of the three headers
abbrev pub ether_hdr_len : ℕ
ether_hdr_len = 14

abbrev pub ipv4_hdr_len : ℕ
ipv4_hdr_len = 20

abbrev pub udp_hdr_len : ℕ
udp_hdr_len = 8

-- `SRC_PORT`
abbrev pub src_port_number : ℕ
src_port_number = 9999

-- the IPv4 header that is written over `old`
unfoldable pub ipv4_header : Network → Ipv4Hdr → Metadata → Ipv4Hdr
ipv4_header net old m =
    let ih = record old {
      dst_addr = net.be32 m.ip_dst;
      src_addr = net.be32 m.ip_src;
      version = 4;
      ihl = 5;
      type_of_service = 0;
      total_length = net.be16 ((ipv4_hdr_len + 6 + 2 + m.size) % 2 ^ 16);
      fragment_offset = 0;
      time_to_live = 64;
      next_proto_id = 17;
      hdr_checksum = 0;
      packet_id = net.be16 old.packet_id;
    } in
    record ih { hdr_checksum = net.ipv4_cksum ih }

unfoldable pub udp_header : Network → Metadata → UdpHdr
udp_header net m = record {
  dst_port = net.be16 m.udp_dport;
  src_port = net.be16 src_port_number;
  dgram_len = net.be16 ((udp_hdr_len + m.size) % 2 ^ 16);
  dgram_cksum = 0;
}

-- `prepare_packet`; the payload is the bytes of the pool from `at` on.
unfoldable pub prepare_packet : Network → TxBuf → List ℕ → ℕ → Metadata → TxBuf
prepare_packet net tx_buf pool at m =
    let ehdr = record tx_buf.ether { src_addr = take 6 m.eth_src; dst_addr = take 6 m.eth_dst } in
    let pkt_len = u32 (ether_hdr_len + ipv4_hdr_len + udp_hdr_len + m.size) in
    let udp_packet = record tx_buf {
      ether = record ehdr { ether_type = net.be16 ether_type_ipv4 };
      ip = ipv4_header net tx_buf.ip m;
      udp = udp_header net m;
      body = read_bytes m.size pool at;
      data_len = pkt_len % 2 ^ 16;
      pkt_len = pkt_len;
      chained = 0;
      nb_segs = 1;
    } in
    let ethernet_packet = record tx_buf {
      ether = ehdr;
      overlay = read_bytes m.size pool at;
      data_len = u32 m.size % 2 ^ 16;
      pkt_len = u32 m.size;
      chained = 0;
      nb_segs = 1;
    } in
    if m.transport == transport_udp then udp_packet else ethernet_packet

length-read_bytes : (n : ℕ) (bytes : List ℕ) (i : ℕ) → length (read_bytes n bytes i) ≡ n
unfolding read_bytes
length-read_bytes zero bytes i = refl
length-read_bytes (suc n) bytes i = ap suc (length-read_bytes n bytes (i + 1))

-- A UDP packet whose payload fits a payload slot has lengths that agree: the datagram's is that of
-- its header and body, the IP packet's adds the IP header, and the frame's adds the Ethernet header.
pub prepare_packet-lengths :
    (net : Network) (tx_buf : TxBuf) (pool : List ℕ) (at : ℕ) (m : Metadata)
    → m.transport ≡ transport_udp
    → m.size ≤ mbuf_size
    → let packet = prepare_packet net tx_buf pool at m in
      let datagram = udp_hdr_len + length packet.body in
      (packet.udp.dgram_len ≡ net.be16 datagram)
      × (packet.ip.total_length ≡ net.be16 (ipv4_hdr_len + datagram))
      × (packet.data_len ≡ ether_hdr_len + ipv4_hdr_len + datagram)
      × (packet.pkt_len ≡ packet.data_len)
unfolding prepare_packet udp_header ipv4_header
prepare_packet-lengths net tx_buf pool at m udp fits =
    rw (udp, length-read_bytes m.size pool at)
      (ap net.be16 (omega arith), ap net.be16 (omega arith), omega arith, omega arith)

-- What a UDP packet takes from its metadata and its slot.
pub prepare_packet-udp :
    (net : Network) (tx_buf : TxBuf) (pool : List ℕ) (at : ℕ) (m : Metadata)
    → m.transport ≡ transport_udp
    → let packet = prepare_packet net tx_buf pool at m in
      (packet.body ≡ read_bytes m.size pool at)
      × (packet.ip.src_addr ≡ net.be32 m.ip_src)
      × (packet.ip.dst_addr ≡ net.be32 m.ip_dst)
      × (packet.udp.dst_port ≡ net.be16 m.udp_dport)
unfolding prepare_packet ipv4_header udp_header
prepare_packet-udp net tx_buf pool at m udp = rw udp (refl, refl, refl, refl)
