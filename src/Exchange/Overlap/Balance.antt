-- ===== src/Exchange/Overlap/Balance.antt =====
-- An access to a ring moves indices between the ring and the thread, and loses or doubles none.
use kuberne_tsn.Common.{
  ℕ, ◌+◌, ◌-◌, ◌^◌, u32, sub32, ap₂, ◌≡◌, refl, ap, List, [], ◌∷◌, drop, arith,
}
use kuberne_tsn.Common.Perms.{occurs, occurs-append}
use kuberne_tsn.Ring.{variable}
use kuberne_tsn.Ring.Heads.{granted-le}
use kuberne_tsn.Ring.Threads.{
  Shared, Pc, enq_head, enq_free, reading, to_put, to_get, Move, Fits, enqueue, load_cons_tail,
  enqueue_none, prod_fails, prod_wins, store, publish, dequeue, load_prod_tail, dequeue_none,
  cons_fails, cons_wins, load, release,
}
use kuberne_tsn.Ring.Threads.Inv.{
  slice, Ordered, Local, local_idle, local_enq_head, local_enq_free, local_writing, local_deq_head,
  local_deq_avail, local_reading,
}
use kuberne_tsn.Ring.Threads.Others.{slice-same}
use kuberne_tsn.Ring.Threads.Exclusion.{Move-stream}
use kuberne_tsn.Ring.Threads.Fifo.{queue, first_words, prod_wins-appends, cons_wins-removes}
use kuberne_tsn.Exchange.Overlap.{Holding, Lawful, own_after}

-- the words of the positions that a thread is reading
abbrev pub claimed : Shared → Pc → List ℕ
claimed s (reading old m i out) = slice s.stream old m
claimed s _ = []

-- A thread that is about to put an index has it.
abbrev pub Ready : Pc → List ℕ → Type 0
Ready (enq_head table n old) own = Holding own table n
Ready (enq_free table n old tail) own = Holding own table n
Ready _ own = Unit

pub Move-Ready :
    {k : ℕ} {s : Shared} {p : Pc} {s' : Shared} {p' : Pc} (putter getter : Type 0) (most : ℕ)
    (own : List ℕ)
    → Ready p own
    → (move : Move k s p s' p') → Lawful putter getter most own move
    → Ready p' (own_after move own)
Move-Ready putter getter most own ready (enqueue table n) lawful = lawful.1
Move-Ready putter getter most own ready load_cons_tail lawful = ready
Move-Ready putter getter most own ready (enqueue_none none) lawful = tt
Move-Ready putter getter most own ready prod_fails lawful = ready
Move-Ready putter getter most own ready (prod_wins some same) lawful = tt
Move-Ready putter getter most own ready (store lt) lawful = tt
Move-Ready putter getter most own ready (publish same) lawful = tt
Move-Ready putter getter most own ready (dequeue n) lawful = tt
Move-Ready putter getter most own ready load_prod_tail lawful = tt
Move-Ready putter getter most own ready (dequeue_none none) lawful = tt
Move-Ready putter getter most own ready cons_fails lawful = tt
Move-Ready putter getter most own ready (cons_wins some same) lawful = tt
Move-Ready putter getter most own ready (load lt) lawful = tt
Move-Ready putter getter most own ready (release same) lawful = tt

-- What another thread is reading stays.
pub claimed-stays :
    {k : ℕ} {s : Shared} {p q : Pc} {s' : Shared} {p' : Pc}
    → Ordered k s
    → Local k s p
    → Local k s q
    → (move : Move k s p s' p') → Fits move
    → claimed s' q ≡ claimed s q
claimed-stays o mover local_idle move fits = refl
claimed-stays o mover (local_enq_head le) move fits = refl
claimed-stays o mover (local_enq_free le tail room) move fits = refl
claimed-stays o mover (local_writing after before some upto straight want have) move fits = refl
claimed-stays o mover (local_deq_head le) move fits = refl
claimed-stays o mover (local_deq_avail le tail room) move fits = refl
claimed-stays {s = s} {s' = s'} o mover
      (local_reading {old} {m} after before some upto straight words) move fits =
    slice-same s'.stream s.stream old m
      (λ x lt. Move-stream o mover move fits x (omega (arith, o.ready, o.ahead)))

-- An access keeps the number of times that an index is in the ring or with its thread.
pub Move-balance :
    {k : ℕ} {s : Shared} {p : Pc} {s' : Shared} {p' : Pc} (own : List ℕ) (x : ℕ)
    → Ordered k s
    → Local k s p
    → (move : Move k s p s' p') → Fits move
    → Ready p own
    → occurs x (queue s') + (occurs x (own_after move own) + occurs x (claimed s' p'))
      ≡ occurs x (queue s) + (occurs x own + occurs x (claimed s p))
Move-balance own x o local (enqueue table n) fits ready = refl
Move-balance own x o local load_cons_tail fits ready = refl
Move-balance own x o local (enqueue_none none) fits ready = refl
Move-balance own x o local prod_fails fits ready = refl
Move-balance {k} {s} own x o local (prod_wins {table} {n} {old} {tail} some same) (near, straight)
      (i, rest, has, table_eq, n_eq) =
    let m = to_put k n old tail in
    let bounds = granted-le variable n (sub32 (2 ^ k - 1) (sub32 (u32 old) (u32 tail))) in
    let one : m ≡ 1 = omega arith in
    let words : first_words table m ≡ i ∷ [] = ap₂ first_words table_eq one in
    let joined = ap (occurs x) (prod_wins-appends o local same near) in
    let before = ap (occurs x) has in
    let after = ap (λ (l : List ℕ). occurs x (drop 1 l)) has in
    omega (arith, joined, occurs-append x (queue s) (first_words table m), ap (occurs x) words)
Move-balance own x o local (store lt) fits ready = refl
Move-balance own x o local (publish same) fits ready = refl
Move-balance own x o local (dequeue n) fits ready = refl
Move-balance own x o local load_prod_tail fits ready = refl
Move-balance own x o local (dequeue_none none) fits ready = refl
Move-balance own x o local cons_fails fits ready = refl
Move-balance {s = s} own x o local (cons_wins {n} {old} {tail} some same) (near, straight) ready =
    let m = to_get n old tail in
    let rest = queue (record s { cons_head = old + m }) in
    let split = ap (occurs x) (cons_wins-removes o local same near) in
    omega (arith, split, occurs-append x (slice s.stream old m) rest)
Move-balance own x o local (load lt) fits ready = refl
Move-balance {s = s} own x o
      (local_reading {old} {m} {out = out} after before some upto straight words) (release same)
      fits ready =
    omega (arith, occurs-append x own out, ap (occurs x) words)
