-- ===== src/Lib.antt =====
-- KuberneTSN: packets with a send time go from programs to a daemon that sends them in time.
--
-- A program runs with libktsn.c loaded before its own libraries. Its `sendmsg` takes the index of a
-- free packet out of a ring in shared memory, writes the payload and the metadata into the pools at that
-- index, and puts the index into a second ring. The daemon, ktsnd.c, takes indices out of the second
-- ring, keeps them in a heap by their send time, sends each packet when it is due, and puts the index
-- back into the first ring. The rings lie in pages that src/kt_alloc.c hands out.
--
--   Ring        src/kt_ringbuf.c, kt_ringbuf.h: one function for each function of the source. Child
--               modules: Inv (the invariant and the queue that a ring holds), Window, Transfer and Heads
--               (lemmas), Spec (a bounded queue), Enqueue, Dequeue, Session and Single (refinement),
--               Straddle (bursts that go round the end). Threads: many producers and consumers at a time,
--               a step for each access of a thread; Inv, Others, Moves, Steps, Safety, Exclusion, Progress,
--               Fifo
--   Copy        the copying loops of src/kt_ringbuf.c, and the `memcpy` of a payload
--   PrioQueue   src/kt_queue.c, kt_queue.h: the array heap. Order, Up, Insert, Heapify, Extract
--   PageAlloc   src/kt_alloc.c, kt_alloc.h: Layout (the start), Search (runs of free pages), Marks and
--               Inv, Alloc, Free
--   Allocator   the interface that a ring is created through, `struct kt_allocator`
--   Packet      src/kt_memory.h: the pools
--   Memory      src/kt_memory.c: the calls of the operating system in their order. Descriptors,
--               Cleanup
--   Clock       src/kt_common.c
--   Layout      `struct kt_mem_layout` of src/kt_memory.h, which the daemon writes and a program reads
--   Sender      ktsnd.c: `round` is a round of the main loop, `receive` and `schedule` its two parts.
--               Main (`main`), Cleanup, Setup and Startup (the rings and the pools), Port (`port_init`),
--               Frame (`prepare_packet`), Receive, Schedule, Turn
--   Preload     libktsn.c: Sockets (the list of sockets), Interfaces, Message (`sendmsg`), Send,
--               Paths, Start (`__libc_start_main`), Macs
--   Exchange    the daemon and the programs over the memory they share: `Step` is a whole call of
--               `sendmsg`, one half of a round of the daemon, or a call that a program's library keeps to
--               itself. Account, Sends, Rounds and Reached (where each packet's index is), Untouched
--               (packets that wait), Timed and Delivery (what is sent, and when), Drain, Boot (the daemon's start),
--               Attach (a program's start). Overlap: the same with calls that overlap, a step for each access
--               to a ring or a slot; Balance, Exclusive
--   Socket      ktsnd_socket.c: the second daemon, over the same rings and queue. Rounds,
--               Main, Cleanup
--   Perf        apps/tsn_perf.c: the options, Config (their checks), Talker (the two roles), Talk and
--               Times (what is sent, and when), Wire (the talker with libktsn.c)
--   Common      shared names, lists measured by native numbers, C arithmetic, the results of a run
--
-- State is passed explicitly: an operation takes the structure and returns it. Unsigned arithmetic is
-- written out modulo its width. A run ends with a value, by a failed `assert`, or not at all
-- (`Common.Run`); a busy wait that another thread would have to end is the last. An array access out of
-- range is undefined in C; here such a read gives a fixed value and such a write does nothing, and the
-- hypotheses of the theorems keep the accesses in range.
--
-- A weak compare-exchange may fail spuriously: the ring's operations take the number of such failures
-- as an argument. The loops of the heap run on the index, the size, or fuel of one more than these; the
-- search for pages and the loop of the allocator's start run on fuel of one more than the page count.
--
-- Parameters are the C library's results, the time, DPDK's buffers, the byte order and checksum
-- functions, and the contents of memory before it is written.
--
-- In the exchange the code takes for granted that a message is at most as long as a packet's slot, 2048
-- bytes, and that a burst which the daemon takes ends before the end of the ring, but checks neither; the
-- theorems that need it say so (`Exchange.Fits`). Times in apps/tsn_perf.c are exact.
--
-- In Ring.Threads the counters do not wrap, and the code sees them modulo 2 ^ 32. Memory is sequentially
-- consistent. What the code takes for granted is `Ring.Threads.Fits`: a thread does not stay between the load
-- and the compare-exchange of a head while 2 ^ 32 words pass, and a burst ends before the end of the ring.
--
-- The steps of Exchange are whole calls, so that the calls on a ring follow each other there. In
-- Exchange.Overlap they overlap; the pool is one array of bytes, which a copy without a check of its length
-- writes to, and the daemon's queue is the list of the indices that the daemon has taken. The theorem on the
-- pool takes for granted that a message is at most as long as a slot (`Exchange.Overlap.ActFits`).
--
-- In `prepare_packet` the room for data in DPDK's buffer has no bound.
--
-- Not modelled: the memory orders of the atomic accesses; `ip_parse`, which nothing calls;
-- src/kt_logger.c; src/kt_mempool.c, which is an assertion; the OPC UA programs under apps; scripts and build files.
pub mod Common
pub mod Clock
pub mod Layout
pub mod Memory
pub mod Packet
pub mod Preload
pub mod Exchange
pub mod Perf
pub mod Socket
pub mod Sender
pub mod Copy
pub mod Allocator
pub mod PageAlloc
pub mod PrioQueue
pub mod Ring
