-- ===== src/Preload.antt =====
-- libktsn.c, the library that is loaded before the program's own: it keeps the sockets with a send
-- time and passes their packets to the daemon. The results of the C library's functions are
-- arguments. `malloc` is taken to succeed; a field that a new node leaves unset is an argument.
pub mod Sockets
pub mod Message
pub mod Interfaces
pub mod Send
pub mod Paths
pub mod Start
pub mod Macs
mod Tests
use kuberne_tsn.Common.{
  ℕ, zero, suc, ◌+◌, ◌*◌, ◌%◌, ◌^◌, bit_and, Bool, true, false, Option, none, some, List, [], ◌∷◌,
  get_or, set, take, ◌==◌, ◌&&◌, if◌then◌else◌,
}
use kuberne_tsn.Common.Int.{ℤ, pos, negsuc, ltb_ℤ, eqb_ℤ}
use kuberne_tsn.Common.Run.{Run, done, aborted}
use kuberne_tsn.Copy.{copy_words}
use kuberne_tsn.Packet.{Metadata, metadata_at, mbuf_size, transport_udp, transport_ethernet}
use kuberne_tsn.Ring.{RingBuf, enqueue_burst, dequeue_burst}

-- the domains, levels and options that the source tells apart
pub data Domain : Type 0 where
  pf_packet af_inet other_domain : Domain

pub data Level : Type 0 where
  sol_socket other_level : Level

pub data SocketOption : Type 0 where
  so_txtime so_priority other_option : SocketOption

-- `struct kt_socket`; the links of the list are the list.
pub record KtSocket : Type 0 where
  pub fd : ℤ
  pub prio : ℤ
  pub txtime : ℕ
  pub domain : Domain

-- the address and the port of a `struct sockaddr_in`, in the network's byte order
pub record InetAddr : Type 0 where
  pub s_addr : ℕ
  pub sin_port : ℕ

-- `struct kt_interface`
pub record KtInterface : Type 0 where
  pub ifindex : ℕ
  pub name : List ℕ
  pub addr : InetAddr
  pub netmask : ℕ
  pub mac : List ℕ

-- `kt_socket_find`
unfoldable pub socket_find : List KtSocket → ℤ → Option KtSocket
socket_find [] fd = none
socket_find (sock ∷ sockets) fd = if eqb_ℤ sock.fd fd then some sock else socket_find sockets fd

-- `kt_interface_find`
unfoldable pub interface_find : List KtInterface → ℕ → Option KtInterface
interface_find [] ifindex = none
interface_find (iface ∷ interfaces) ifindex =
    if iface.ifindex == ifindex then some iface else interface_find interfaces ifindex

-- `kt_interface_exists`
unfoldable pub interface_exists : List KtInterface → ℕ → Bool
interface_exists [] ifindex = false
interface_exists (iface ∷ interfaces) ifindex =
    if iface.ifindex == ifindex then true else interface_exists interfaces ifindex

unfoldable pub is_same_subnetwork : ℕ → ℕ → ℕ → Bool
is_same_subnetwork addr1 addr2 subnet_mask = bit_and addr1 subnet_mask == bit_and addr2 subnet_mask

-- the loop of `kt_interface_get_by_net`
unfoldable pub get_by_net_loop : List KtInterface → ℕ → Option KtInterface
get_by_net_loop [] addr = none
get_by_net_loop (iface ∷ interfaces) addr =
    if is_same_subnetwork iface.addr.s_addr addr iface.netmask
    then some iface
    else get_by_net_loop interfaces addr

-- `kt_interface_get_by_net`; no address stands for NULL.
unfoldable pub interface_get_by_net : List KtInterface → Option InetAddr → Option KtInterface
interface_get_by_net interfaces none = none
interface_get_by_net interfaces (some addr) = get_by_net_loop interfaces addr.s_addr

-- `memcmp(a, b, n) == 0`
unfoldable pub same_bytes : ℕ → List ℕ → List ℕ → Bool
same_bytes zero a b = true
same_bytes (suc n) a b = get_or a n 0 == get_or b n 0 && same_bytes n a b

-- `kt_interface_find_by_mac`
unfoldable pub interface_find_by_mac : List KtInterface → List ℕ → Option KtInterface
interface_find_by_mac [] mac = none
interface_find_by_mac (iface ∷ interfaces) mac =
    if same_bytes 6 iface.mac mac then some iface else interface_find_by_mac interfaces mac

-- `socket`, with what `default_socket` returns. Without a value the end of the function is reached.
unfoldable pub socket : ℤ → Domain → List KtSocket → Option ℤ × List KtSocket
socket fd domain sockets =
    let node : KtSocket = record { fd = fd; prio = negsuc 0; txtime = 0; domain = domain } in
    if ltb_ℤ fd (pos 0)
    then (some fd, sockets)
    else elim (socket_find sockets fd) as (λ _. Option ℤ × List KtSocket) [
      | none ↦ (none, node ∷ sockets)
      | some old ↦ (none, sockets)
    ]

-- The write to a field of the node that `kt_socket_find` returns.
unfoldable pub update : (KtSocket → KtSocket) → List KtSocket → ℤ → List KtSocket
update write [] fd = []
update write (sock ∷ sockets) fd =
    if eqb_ℤ sock.fd fd then write sock ∷ sockets else sock ∷ update write sockets fd

-- The node that a socket option is written to, made if the descriptor has none; `unset` is the domain
-- that the new node has by chance.
unfoldable pub enter : (KtSocket → KtSocket) → Domain → List KtSocket → ℤ → List KtSocket
enter write unset sockets fd =
    let node : KtSocket = record { fd = fd; prio = negsuc 0; txtime = 0; domain = unset } in
    elim (socket_find sockets fd) as (λ _. List KtSocket) [
      | none ↦ write node ∷ sockets
      | some old ↦ update write sockets fd
    ]

-- `setsockopt`, with the integer at `optval` and what `default_setsockopt` would return
unfoldable pub setsockopt :
    ℤ → Domain → ℤ → Level → SocketOption → ℤ → List KtSocket → ℤ × List KtSocket
setsockopt default_result unset fd sol_socket so_txtime optval sockets =
    (pos 0, enter (λ node. record node { txtime = 1 }) unset sockets fd)
setsockopt default_result unset fd sol_socket so_priority optval sockets =
    (pos 0, enter (λ node. record node { prio = optval }) unset sockets fd)
setsockopt default_result unset fd sol_socket other_option optval sockets =
    (default_result, sockets)
setsockopt default_result unset fd other_level option optval sockets = (default_result, sockets)

-- `LIST_REMOVE` of the node that `kt_socket_find` returns
unfoldable pub remove : List KtSocket → ℤ → List KtSocket
remove [] fd = []
remove (sock ∷ sockets) fd = if eqb_ℤ sock.fd fd then sockets else sock ∷ remove sockets fd

-- `close`, with what `default_close` returns
unfoldable pub close : ℤ → List KtSocket → ℤ → ℤ × List KtSocket
close default_result sockets fd = elim (socket_find sockets fd) as (λ _. ℤ × List KtSocket) [
  | none ↦ (default_result, sockets)
  | some node ↦ (default_result, remove sockets fd)
]
