-- ===== src/Ring/Threads.antt =====
-- src/kt_ringbuf.c with many producers and consumers at a time. A step is one access of one thread;
-- the load that ends the wait for a tail and the store after it are one step, `publish` or `release`. The counters are kept as numbers that do not wrap, and the code sees them modulo 2 ^ 32;
-- `stream` records the word that each position was claimed for. Memory is sequentially consistent.
pub mod Inv
pub mod Others
pub mod Moves
pub mod Steps
pub mod Safety
pub mod Exclusion
pub mod Progress
pub mod Fifo
mod Tests
use kuberne_tsn.Common.{
  ℕ, suc, ◌+◌, ◌-◌, ◌%◌, ◌^◌, ◌<◌, ◌≤◌, ◌≡◌, ◌≢◌, bit_and, List, [], ◌∷◌, ◌++◌, get_or, u32, sub32,
  leb, ltb, ◌==◌, ◌&&◌, if◌then◌else◌,
}
use kuberne_tsn.Ring.{variable}
use kuberne_tsn.Ring.Spec.{granted}

-- the ring's counters, its cells, and the words that the positions were claimed for
pub record Shared : Type 0 where
  pub prod_head : ℕ
  pub prod_tail : ℕ
  pub cons_head : ℕ
  pub cons_tail : ℕ
  pub cell : ℕ → ℕ
  pub stream : ℕ → ℕ

-- Where a thread is. `enq_head` and `enq_free` are in `__kt_ringbuf_move_prod_head`, once the head and
-- the other side's tail are read; `writing` is in `__kt_ringbuf_enqueue_elems` with `i` of `m` words
-- written, or in the wait for the tail when all are. The others are the same for a dequeue.
pub data Pc : Type 0 where
  idle : Pc
  enq_head : (table : List ℕ) (n old : ℕ) → Pc
  enq_free : (table : List ℕ) (n old tail : ℕ) → Pc
  writing : (table : List ℕ) (old m i : ℕ) → Pc
  deq_head : (n old : ℕ) → Pc
  deq_avail : (n old tail : ℕ) → Pc
  reading : (old m i : ℕ) (out : List ℕ) → Pc

-- a function changed at one argument
abbrev pub update {ℓ} : {A : Type ℓ} → (ℕ → A) → ℕ → A → ℕ → A
update f i a j = if i == j then a else f j

-- the stream with the words of a table from a position on
abbrev pub claim : (ℕ → ℕ) → ℕ → ℕ → List ℕ → ℕ → ℕ
claim f p m table q = if leb p q && ltb q (p + m) then get_or table (q - p) 0 else f q

-- how many of `n` words a producer claims: the code's arithmetic on 32 bits
abbrev pub to_put : ℕ → ℕ → ℕ → ℕ → ℕ
to_put k n old tail = granted variable n (sub32 (2 ^ k - 1) (sub32 (u32 old) (u32 tail)))

-- how many a consumer claims
abbrev pub to_get : ℕ → ℕ → ℕ → ℕ
to_get n old tail = granted variable n (sub32 (u32 tail) (u32 old))

-- the cell of word `i` of a burst
abbrev pub index : ℕ → ℕ → ℕ → ℕ
index k old i = bit_and (u32 old) (2 ^ k - 1) + i

-- One access of a thread, on a ring of 2 ^ k words. A compare-exchange compares 32 bits. The burst of words
-- goes to the cells from `index` on, also behind the end of the ring, as the first loop of the source.
pub data Move (k : ℕ) (s : Shared) : Pc → Shared → Pc → Type 0 where
  enqueue : (table : List ℕ) (n : ℕ) → Move k s idle s (enq_head table n s.prod_head)
  load_cons_tail :
      {table : List ℕ} {n old : ℕ}
      → Move k s (enq_head table n old) s (enq_free table n old s.cons_tail)
  enqueue_none :
      {table : List ℕ} {n old tail : ℕ}
      → to_put k n old tail ≡ 0
      → Move k s (enq_free table n old tail) s idle
  prod_fails :
      {table : List ℕ} {n old tail : ℕ}
      → Move k s (enq_free table n old tail) s (enq_head table n s.prod_head)
  prod_wins :
      {table : List ℕ} {n old tail : ℕ}
      → to_put k n old tail ≢ 0
      → u32 s.prod_head ≡ u32 old
      → Move k s
          (enq_free table n old tail)
          (record s {
            prod_head = old + to_put k n old tail;
            stream = claim s.stream old (to_put k n old tail) table;
          })
          (writing table old (to_put k n old tail) 0)
  store :
      {table : List ℕ} {old m i : ℕ}
      → i < m
      → Move k s
          (writing table old m i)
          (record s { cell = update s.cell (index k old i) (get_or table i 0) })
          (writing table old m (suc i))
  publish :
      {table : List ℕ} {old m : ℕ}
      → u32 s.prod_tail ≡ u32 old
      → Move k s (writing table old m m) (record s { prod_tail = old + m }) idle
  dequeue : (n : ℕ) → Move k s idle s (deq_head n s.cons_head)
  load_prod_tail : {n old : ℕ} → Move k s (deq_head n old) s (deq_avail n old s.prod_tail)
  dequeue_none : {n old tail : ℕ} → to_get n old tail ≡ 0 → Move k s (deq_avail n old tail) s idle
  cons_fails : {n old tail : ℕ} → Move k s (deq_avail n old tail) s (deq_head n s.cons_head)
  cons_wins :
      {n old tail : ℕ}
      → to_get n old tail ≢ 0
      → u32 s.cons_head ≡ u32 old
      → Move k s
          (deq_avail n old tail)
          (record s { cons_head = old + to_get n old tail })
          (reading old (to_get n old tail) 0 [])
  load :
      {old m i : ℕ} {out : List ℕ}
      → i < m
      → Move k s
          (reading old m i out)
          s
          (reading old m (suc i) (out ++ (s.cell (index k old i) ∷ [])))
  release :
      {old m : ℕ} {out : List ℕ}
      → u32 s.cons_tail ≡ u32 old
      → Move k s (reading old m m out) (record s { cons_tail = old + m }) idle

-- What the code takes for granted of a step that claims positions: the thread has not been at the head
-- while 2 ^ 32 words have passed, and the burst ends before the end of the ring.
abbrev pub Fits : {k : ℕ} {s : Shared} {p : Pc} {s' : Shared} {p' : Pc} → Move k s p s' p' → Type 0
Fits {k} {s} (prod_wins {n = n} {old} {tail} some same) =
    (s.prod_head < old + 2 ^ 32) × (old % 2 ^ k + to_put k n old tail ≤ 2 ^ k)
Fits {k} {s} (cons_wins {n} {old} {tail} some same) =
    (s.cons_head < old + 2 ^ 32) × (old % 2 ^ k + to_get n old tail ≤ 2 ^ k)
Fits _ = Unit

-- the ring and its threads
pub record System : Type 0 where
  pub shared : Shared
  pub pc : ℕ → Pc

pub data Step (k : ℕ) (s : System) : System → Type 0 where
  pick :
      (a : ℕ) {m : Shared} {p : Pc}
      → Move k s.shared (s.pc a) m p
      → Step k s (record { shared = m; pc = update s.pc a p })

-- A ring as it is created, with any counters that agree, and threads that have not begun.
pub data Reach (k at : ℕ) (cell : ℕ → ℕ) : System → Type 0 where
  start : Reach k at cell (record {
    shared = record {
      prod_head = at;
      prod_tail = at;
      cons_head = at;
      cons_tail = at;
      cell = cell;
      stream = λ p. 0;
    };
    pc = λ a. idle;
  })
  later : {s t : System} → Reach k at cell s → Step k s t → Reach k at cell t

abbrev pub StepFits : {k : ℕ} {s t : System} → Step k s t → Type 0
StepFits (pick a move) = Fits move

-- Every step so far fits.
abbrev pub Fitting : {k at : ℕ} {cell : ℕ → ℕ} {s : System} → Reach k at cell s → Type 0
Fitting start = Unit
Fitting (later reached step) = Fitting reached × StepFits step
