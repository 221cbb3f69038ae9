-- ===== src/Preload/Start.antt =====
-- `__libc_start_main` of libktsn.c, by which a program starts: the look-up of the C library's functions,
-- the shared memory, and the interfaces with their MAC addresses. `aborted` stands for `exit`.
use kuberne_tsn.Common.{ℕ, Option, none, some, List, [], ◌∷◌, ◌++◌, take, if◌then◌else◌}
use kuberne_tsn.Common.Int.{ℤ, pos, ltb_ℤ}
use kuberne_tsn.Common.Run.{Run, done, aborted, ◌>>=◌}
use kuberne_tsn.Common.Text.{strncpy}
use kuberne_tsn.Layout.{MemLayout, Pointers, locate}
use kuberne_tsn.Memory.{
  KtMemory, Call, System, memory_alloc, data_memory_name, ctrl_memory_name, default_memory_size,
}
use kuberne_tsn.Sender.Setup.{Memory}
use kuberne_tsn.Preload.{af_inet, KtSocket, KtInterface, socket, close}
use kuberne_tsn.Preload.Interfaces.{IfAddr, ifnamsiz, add_interfaces}
use kuberne_tsn.Preload.Message.{Library}

-- the functions of the C library that are looked up
pub data Symbol : Type 0 where
  sym_start_main sym_send sym_sendto sym_sendmsg sym_recvfrom sym_bind sym_poll sym_ppoll : Symbol
  sym_pollchk sym_select sym_fcntl sym_setsockopt sym_getsockopt sym_read sym_write : Symbol
  sym_connect sym_socket sym_close sym_getpeername sym_getsockname : Symbol

-- the pointers to these functions
pub record Defaults : Type 0 where
  pub start_main : ℕ
  pub default_send : ℕ
  pub default_sendto : ℕ
  pub default_sendmsg : ℕ
  pub default_recvfrom : ℕ
  pub default_bind : ℕ
  pub default_poll : ℕ
  pub default_ppoll : ℕ
  pub default_pollchk : ℕ
  pub default_select : ℕ
  pub default_fcntl : ℕ
  pub default_setsockopt : ℕ
  pub default_getsockopt : ℕ
  pub default_read : ℕ
  pub default_write : ℕ
  pub default_connect : ℕ
  pub default_socket : ℕ
  pub default_close : ℕ
  pub default_getpeername : ℕ
  pub default_getsockname : ℕ

-- the look-ups, with what `dlsym` returns
unfoldable pub look_up : (Symbol → ℕ) → Defaults
look_up dlsym = record {
  start_main = dlsym sym_start_main;
  default_send = dlsym sym_send;
  default_sendto = dlsym sym_sendto;
  default_sendmsg = dlsym sym_sendmsg;
  default_recvfrom = dlsym sym_recvfrom;
  default_bind = dlsym sym_bind;
  default_poll = dlsym sym_poll;
  default_ppoll = dlsym sym_ppoll;
  default_pollchk = dlsym sym_pollchk;
  default_select = dlsym sym_select;
  default_fcntl = dlsym sym_fcntl;
  default_setsockopt = dlsym sym_setsockopt;
  default_getsockopt = dlsym sym_getsockopt;
  default_read = dlsym sym_read;
  default_write = dlsym sym_write;
  default_connect = dlsym sym_connect;
  default_socket = dlsym sym_socket;
  default_close = dlsym sym_close;
  default_getpeername = dlsym sym_getpeername;
  default_getsockname = dlsym sym_getsockname;
}

-- What the query for one interface meets: the descriptor from `default_socket`, what the variable `sock`
-- holds when `socket` ends without a value, the results of `ioctl` for a descriptor and a name (the
-- hardware address, or a failure) and of `default_close`, and `ifr.ifr_name` before it is written.
pub record Query : Type 0 where
  pub fd : ℤ
  pub chance : ℤ
  pub ioctl : ℤ → List ℕ → Option (List ℕ)
  pub close_result : ℤ
  pub ifr_name : List ℕ

-- The value of a call of `socket`: what happens to be there if it has none.
unfoldable pub value_or_chance : ℤ → Option ℤ → ℤ
value_or_chance chance none = chance
value_or_chance chance (some fd) = fd

-- `query_and_add_mac_address`; `socket` and `close` are those of the library.
unfoldable pub query_and_add_mac_address :
    Query → KtInterface → List KtSocket → Run (KtInterface × List KtSocket)
query_and_add_mac_address q iface sockets =
    let (fd, opened) = socket q.fd af_inet sockets in
    let sock = value_or_chance q.chance fd in
    let asked : Run (KtInterface × List KtSocket) =
      elim (q.ioctl sock (strncpy q.ifr_name iface.name ifnamsiz)) [
        | none ↦ aborted
        | some sa_data ↦
            done (record iface { mac = take 6 sa_data }, (close q.close_result opened sock).1)
      ] in
    if ltb_ℤ sock (pos 0) then aborted else asked

-- The loop over the interfaces; `ask` is what the query for the interface of a number meets.
unfoldable pub query_macs :
    (ℕ → Query) → List KtInterface → List KtSocket → Run (List KtInterface × List KtSocket)
query_macs ask [] sockets = done ([], sockets)
query_macs ask (iface ∷ rest) sockets = do
  (known, sockets1) ← query_and_add_mac_address (ask iface.ifindex) iface sockets
  (others, sockets2) ← query_macs ask rest sockets1
  done (known ∷ others, sockets2)

-- What the C library tells of the interfaces: the entries of `getifaddrs`, unless it fails, the memory
-- that `malloc` returns for a node, and what the queries meet.
pub record Network : Type 0 where
  pub ifaddrs : Option (List IfAddr)
  pub unset : KtInterface
  pub ask : ℕ → Query

-- `query_interfaces`
unfoldable pub query_interfaces :
    Network → List KtInterface → List KtSocket → Run (List KtInterface × List KtSocket)
query_interfaces net interfaces sockets =
    elim net.ifaddrs as (λ _. Run (List KtInterface × List KtSocket)) [
      | none ↦ aborted
      | some entries ↦
          add_interfaces net.unset entries interfaces >>= λ added. query_macs net.ask added sockets
    ]

-- The program that starts: what `malloc` and the system's calls answer for each of the two memories,
-- what memory holds, read as the layout or as the rings and the pools, and the interfaces.
pub record Program : Type 0 where
  pub data_block : Option KtMemory
  pub data_system : System
  pub ctrl_block : Option KtMemory
  pub ctrl_system : System
  pub layout_at : ℕ → MemLayout
  pub memory : Memory
  pub network : Network

-- What the rings and the pools are, by their pointers, and no sockets or interfaces yet.
unfoldable pub attach : Memory → Pointers → Library
attach mem p = record {
  sockets = [];
  interfaces = [];
  tx_ring = mem.ring_at p.tx_ring;
  free_ring = mem.ring_at p.free_ring;
  metadata_pool = mem.metadata_at p.metadata_pool;
  mbuf_pool = mem.mbufs_at p.mbuf_pool;
}

-- The global variables once both memories are attached to.
unfoldable pub attached : Program → KtMemory → KtMemory → Library
attached pr data_mem ctrl_mem = attach pr.memory (locate data_mem.addr (pr.layout_at ctrl_mem.addr))

-- The query for the interfaces, the last thing before the program's `main`.
unfoldable pub set_interfaces : (Symbol → ℕ) → Network → Library → Run (Option (Defaults × Library))
set_interfaces dlsym net l = do
  (interfaces, sockets) ← query_interfaces net l.interfaces l.sockets
  done (some (look_up dlsym, record l { sockets = sockets; interfaces = interfaces }))

-- `__libc_start_main` up to the call of the program's `main`: the global variables, or `none` for the
-- result -1, and the calls of the operating system for the memories.
unfoldable pub libc_start_main :
    (Symbol → ℕ) → Program → Run (Option (Defaults × Library)) × List Call
libc_start_main dlsym pr =
    let (data_mem, data_calls) =
      memory_alloc pr.data_block pr.data_system data_memory_name default_memory_size in
    let (ctrl_mem, ctrl_calls) =
      memory_alloc pr.ctrl_block pr.ctrl_system ctrl_memory_name default_memory_size in
    elim data_mem as (λ _. Run (Option (Defaults × Library)) × List Call) [
      | none ↦ (done none, data_calls)
      | some data_mem ↦ elim ctrl_mem as (λ _. Run (Option (Defaults × Library)) × List Call) [
        | none ↦ (done none, data_calls ++ ctrl_calls)
        | some ctrl_mem ↦ (
          set_interfaces dlsym pr.network (attached pr data_mem ctrl_mem),
          data_calls ++ ctrl_calls,
        )
      ]
    ]
