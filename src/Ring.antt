-- ===== src/Ring.antt =====
-- src/kt_ringbuf.c and src/kt_ringbuf.h: the ring of 64-bit words that the applications and the
-- daemon share. This file has the calls as one thread makes them: the compare-exchange may fail
-- spuriously, and the wait for the tail is a test, since no other thread moves it.
pub mod Arith
pub mod Inv
pub mod Window
pub mod Transfer
pub mod Spec
pub mod Heads
pub mod Enqueue
pub mod Dequeue
pub mod Session
pub mod Single
pub mod Straddle
pub mod Threads
mod Tests
use mathlib.Core.Option
use kuberne_tsn.Common.{
  ℕ, zero, suc, ◌+◌, ◌-◌, bit_and, Bool, Option, none, some, List, u32, add32, sub32, mul32, ltb,
  leb, ◌==◌, if◌then◌else◌,
}
use kuberne_tsn.Common.Run.{Run, done, aborted, spinning, ◌>>=◌}
use kuberne_tsn.Common.Text.{strncpy}
use kuberne_tsn.Allocator.{KtAllocator}
use kuberne_tsn.Copy.{copy_words, copy_unrolled}

-- `struct kt_headtail`
pub record HeadTail : Type 0 where
  pub head : ℕ
  pub tail : ℕ

-- `struct kt_ringbuf`; `ring` holds the 64-bit words of memory from `rb + 1` on.
pub record RingBuf : Type 0 where
  pub name : List ℕ
  pub data_ptr : ℕ
  pub size : ℕ
  pub esize : ℕ
  pub mask : ℕ
  pub capacity : ℕ
  pub prod : HeadTail
  pub cons : HeadTail
  pub ring : List ℕ

-- `enum kt_ringbuf_behavior`
pub data Behavior : Type 0 where
  fixed variable : Behavior

abbrev pub name_size : ℕ
name_size = 32

-- `sizeof(struct kt_ringbuf)`: 72 bytes of fields, aligned to the 64 bytes of a cache line
abbrev pub header_size : ℕ
header_size = 128

-- `kt_ringbuf_create`: `block a` is what the memory at address `a` holds, read as a ring.
unfoldable pub create :
    {S : Type 0} → KtAllocator S → (ℕ → RingBuf) → S → List ℕ → ℕ → ℕ → Run (Option RingBuf × S)
create al block s name count esize =
    let make = λ (a : ℕ). record (block a) {
      name = strncpy (block a).name name (name_size - 1);
      data_ptr = a + header_size;
      size = count;
      mask = sub32 count 1;
      capacity = sub32 count 1;
      esize = esize;
      prod = record { head = 0; tail = 0 };
      cons = record { head = 0; tail = 0 };
    } in
    al.alloc s (add32 header_size (mul32 count esize)) >>= λ (ptr, s').
    done (Option.map make ptr, s')

-- `kt_ringbuf_get_capacity`
unfoldable pub get_capacity : RingBuf → ℕ
get_capacity rb = rb.capacity

-- `kt_ringbuf_count`
pub count : RingBuf → ℕ
count rb =
    let n = bit_and (sub32 rb.prod.tail rb.cons.tail) rb.mask in
    if ltb rb.capacity n then rb.capacity else n

-- How many of the `n` words asked for are moved, with `avail` of them possible.
pub limit : Behavior → ℕ → ℕ → ℕ
limit fixed n avail = if ltb avail n then 0 else n
limit variable n avail = if ltb avail n then avail else n

-- What a move of a head reports: `*free_entries` or `*entries` alone, or with it the number of
-- words, `*old_head` and `*new_head`.
pub data Moved : Type 0 where
  none_moved : (avail : ℕ) → Moved
  moved : (n old_head new_head avail : ℕ) → Moved

-- `__kt_ringbuf_move_prod_head`; the weak compare-exchange fails `spurious` times before it wins.
unfoldable pub move_prod_head : ℕ → RingBuf → ℕ → Behavior → Moved × RingBuf
unfolding limit
move_prod_head zero rb n b =
    let free_entries = sub32 rb.capacity (sub32 rb.prod.head rb.cons.tail) in
    let k = limit b n free_entries in
    let next = add32 rb.prod.head k in
    if k == 0 then (none_moved free_entries, rb) else (
      moved k rb.prod.head next free_entries,
      record rb { prod = record { head = next; tail = rb.prod.tail } },
    )
move_prod_head (suc spurious) rb n b =
    let free_entries = sub32 rb.capacity (sub32 rb.prod.head rb.cons.tail) in
    let again = move_prod_head spurious rb n b in
    if limit b n free_entries == 0 then (none_moved free_entries, rb) else again

-- `__kt_ringbuf_move_cons_head`
unfoldable pub move_cons_head : ℕ → RingBuf → ℕ → Behavior → Moved × RingBuf
unfolding limit
move_cons_head zero rb n b =
    let entries = sub32 rb.prod.tail rb.cons.head in
    let k = limit b n entries in
    let next = add32 rb.cons.head k in
    if k == 0 then (none_moved entries, rb) else (
      moved k rb.cons.head next entries,
      record rb { cons = record { head = next; tail = rb.cons.tail } },
    )
move_cons_head (suc spurious) rb n b =
    let entries = sub32 rb.prod.tail rb.cons.head in
    let again = move_cons_head spurious rb n b in
    if limit b n entries == 0 then (none_moved entries, rb) else again

-- `__kt_ringbuf_enqueue_elems`: the words of the table into the ring. In the branch for a burst
-- that goes round the end, the first loop makes `n` rounds, which leaves none for the second.
unfoldable pub enqueue_elems : RingBuf → ℕ → List ℕ → ℕ → ℕ → Run RingBuf
enqueue_elems rb prod_head obj_table esize n =
    let idx = bit_and prod_head rb.mask in
    let straight = copy_unrolled n obj_table 0 rb.ring idx in
    let first = copy_words n obj_table 0 rb.ring idx in
    let i = n in
    let second = copy_words (n - i) obj_table i first 0 in
    if esize == 8
    then done (record rb { ring = if leb (add32 idx n) rb.size then straight else second })
    else aborted

-- `__kt_ringbuf_dequeue_elems`: the words of the ring into the table, with the same loops.
unfoldable pub dequeue_elems : RingBuf → ℕ → List ℕ → ℕ → ℕ → Run (List ℕ)
dequeue_elems rb cons_head obj_table esize n =
    let idx = bit_and cons_head (sub32 rb.size 1) in
    let straight = copy_unrolled n rb.ring idx obj_table 0 in
    let first = copy_words n rb.ring idx obj_table 0 in
    let i = n in
    let second = copy_words (n - i) rb.ring 0 first i in
    if esize == 8 then done (if leb (add32 idx n) rb.size then straight else second) else aborted

-- The wait until `prod.tail` is the old head, and the store of the new one.
publish_prod : RingBuf → ℕ → ℕ → Run RingBuf
publish_prod rb old next =
    if rb.prod.tail == old
    then done (record rb { prod = record { head = rb.prod.head; tail = next } })
    else spinning

publish_cons : RingBuf → ℕ → ℕ → Run RingBuf
publish_cons rb old next =
    if rb.cons.tail == old
    then done (record rb { cons = record { head = rb.cons.head; tail = next } })
    else spinning

-- `__kt_ringbuf_do_enqueue_elems`, with the number of words, `*free_space` and the ring
unfoldable pub do_enqueue_elems : ℕ → RingBuf → List ℕ → ℕ → ℕ → Behavior → Run (ℕ × ℕ × RingBuf)
unfolding publish_prod
do_enqueue_elems spurious rb obj_table esize n b =
    let (m, rb') = move_prod_head spurious rb n b in
    elim m [
      | none_moved free ↦ done (0, sub32 free 0, rb')
      | moved k old next free ↦ do
        filled ← enqueue_elems rb' old obj_table esize k
        out ← publish_prod filled old next
        done (k, sub32 free k, out)
    ]

-- `__kt_ringbuf_do_dequeue_elems`, with the number of words, `*available`, the table and the ring
unfoldable pub do_dequeue_elems :
    ℕ → RingBuf → List ℕ → ℕ → ℕ → Behavior → Run (ℕ × ℕ × List ℕ × RingBuf)
unfolding publish_cons
do_dequeue_elems spurious rb obj_table esize n b =
    let (m, rb') = move_cons_head spurious rb n b in
    elim m [
      | none_moved entries ↦ done (0, sub32 entries 0, obj_table, rb')
      | moved k old next entries ↦ do
        table ← dequeue_elems rb' old obj_table esize k
        out ← publish_cons rb' old next
        done (k, sub32 entries k, table, out)
    ]

-- `kt_ringbuf_enqueue_burst`
unfoldable pub enqueue_burst : ℕ → RingBuf → List ℕ → ℕ → ℕ → Run (ℕ × ℕ × RingBuf)
enqueue_burst spurious rb obj_table esize n =
    do_enqueue_elems spurious rb obj_table esize n variable

-- `kt_ringbuf_dequeue_burst`
unfoldable pub dequeue_burst : ℕ → RingBuf → List ℕ → ℕ → ℕ → Run (ℕ × ℕ × List ℕ × RingBuf)
dequeue_burst spurious rb obj_table esize n =
    do_dequeue_elems spurious rb obj_table esize n variable
