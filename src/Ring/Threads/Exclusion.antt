-- ===== src/Ring/Threads/Exclusion.antt =====
-- What the threads may rely on of each other's bursts.
use mathlib.Core.Path.{subst}
use kuberne_tsn.Common.{ℕ, ◌+◌, ◌%◌, ◌^◌, ◌<◌, ◌≤◌, ◌≡◌, ◌≢◌, refl, List, arith}
use kuberne_tsn.Ring.Arith.{pow2-pos}
use kuberne_tsn.Ring.Threads.{
  Shared, Pc, writing, reading, Move, Fits, StepFits, Fitting, enqueue, load_cons_tail,
  enqueue_none, prod_fails, prod_wins, store, publish, dequeue, load_prod_tail, dequeue_none,
  cons_fails, cons_wins, load, release, System, Step, pick, Reach,
}
use kuberne_tsn.Ring.Threads.Inv.{
  slice, Ordered, Local, local_writing, local_reading, puts, gets, Apart,
}
use kuberne_tsn.Ring.Threads.Others.{cells_differ}
use kuberne_tsn.Ring.Threads.Moves.{prod_head-eq}
use kuberne_tsn.Ring.Threads.Safety.{interleaved-Inv}

-- Position `q` is among those that a thread has claimed, to write or to read.
pub data Holds : Pc → ℕ → Type 0 where
  to_write :
      {table : List ℕ} {old m i q : ℕ} → old ≤ q → q < old + m → Holds (writing table old m i) q
  to_read : {old m i q : ℕ} {out : List ℕ} → old ≤ q → q < old + m → Holds (reading old m i out) q

-- Where the positions of two threads are.
held-window :
    {k : ℕ} {s : Shared} {p : Pc} {q : ℕ}
    → Ordered k s
    → Holds p q
    → Local k s p
    → (s.cons_tail ≤ q) × (q < s.prod_head)
held-window o (to_write lo hi) (local_writing after before some upto straight want have) =
    (omega (arith, o.behind, o.ready), omega arith)
held-window o (to_read lo hi) (local_reading after before some upto straight out) =
    (omega arith, omega (arith, o.ready, o.ahead))

positions-differ :
    {k : ℕ} {s : Shared} {p p' : Pc} {q q' : ℕ}
    → Ordered k s
    → Local k s p
    → Local k s p'
    → Apart (puts p) (puts p')
    → Apart (gets p) (gets p')
    → Holds p q
    → Holds p' q'
    → q ≢ q'
positions-differ {q = q} o one two aparts apartg (to_write lo hi) (to_write lo' hi') same =
    let past = aparts q lo hi (omega arith) in absurd (omega arith)
positions-differ o (local_writing after before some upto straight want have)
      (local_reading after' before' some' upto' straight' out) aparts apartg (to_write lo hi)
      (to_read lo' hi') same =
    absurd (omega (arith, o.ready))
positions-differ o (local_reading after before some upto straight out)
      (local_writing after' before' some' upto' straight' want have) aparts apartg (to_read lo hi)
      (to_write lo' hi') same =
    absurd (omega (arith, o.ready))
positions-differ {q = q} o one two aparts apartg (to_read lo hi) (to_read lo' hi') same =
    let past = apartg q lo hi (omega arith) in absurd (omega arith)

-- However the threads interleave, while every burst ends before the end of the ring and no thread stays
-- at a head while 2 ^ 32 words pass (`Fitting`), on a ring of at most 2 ^ 31 words, two of
-- them in the middle of bursts, both writing, both reading, or one of each, have no cell of the ring in
-- common.
pub cells_exclusive :
    {k at : ℕ} {cell : ℕ → ℕ} {s : System} {a b q q' : ℕ}
    → k ≤ 31
    → (reached : Reach k at cell s) → Fitting reached
    → a ≢ b
    → Holds (s.pc a) q
    → Holds (s.pc b) q'
    → q % 2 ^ k ≢ q' % 2 ^ k
cells_exclusive {k} {s = s} {a} {b} {q} {q'} small reached fitting ne one two =
    let inv = interleaved-Inv small reached fitting in
    let differ =
      positions-differ inv.ordered (inv.local a) (inv.local b) (inv.puts_apart a b ne)
        (inv.gets_apart a b ne) one two in
    let (lo, hi) = held-window inv.ordered one (inv.local a) in
    let (lo', hi') = held-window inv.ordered two (inv.local b) in
    let size = pow2-pos k in
    cells_differ (2 ^ k) q q' differ (omega (arith, inv.ordered.room))
      (omega (arith, inv.ordered.room))

read-words :
    {k : ℕ} {s : Shared} {p : Pc} {old m i : ℕ} {out : List ℕ}
    → Ordered k s
    → Local k s p
    → p ≡ reading old m i out
    → (out ≡ slice s.stream old i) × (old + m ≤ s.prod_tail)
read-words {k} {s} o local same = at_reading (subst (Local k s) same local)
  where
    at_reading :
        {old m i : ℕ} {out : List ℕ}
        → Local k s (reading old m i out)
        → (out ≡ slice s.stream old i) × (old + m ≤ s.prod_tail)
    at_reading (local_reading after before some upto straight words) =
        (words, omega (arith, o.ready))

-- However the threads interleave, while every burst ends before the end of the ring and no thread stays
-- at a head while 2 ^ 32 words pass (`Fitting`), on a ring of at most 2 ^ 31 words, the words
-- that a consumer has read in a burst are those that its positions were claimed for by producers, in
-- order, and all of these are published.
pub reader_in_order :
    {k at : ℕ} {cell : ℕ → ℕ} {s : System} (a : ℕ) {old m i : ℕ} {out : List ℕ}
    → k ≤ 31
    → (reached : Reach k at cell s) → Fitting reached
    → s.pc a ≡ reading old m i out
    → (out ≡ slice s.shared.stream old i) × (old + m ≤ s.shared.prod_tail)
reader_in_order a small reached fitting is_reading =
    let inv = interleaved-Inv small reached fitting in
    read-words inv.ordered (inv.local a) is_reading

pub Move-stream :
    {k : ℕ} {s s' : Shared} {p p' : Pc}
    → Ordered k s
    → Local k s p
    → (move : Move k s p s' p') → Fits move
    → (q : ℕ) → q < s.prod_head
    → s'.stream q ≡ s.stream q
Move-stream o local (prod_wins some same) (near, straight) q lt =
    let (here, fits) = prod_head-eq o local same near in ground arith
Move-stream o local (enqueue table n) fits q lt = refl
Move-stream o local load_cons_tail fits q lt = refl
Move-stream o local (enqueue_none none) fits q lt = refl
Move-stream o local prod_fails fits q lt = refl
Move-stream o local (store lt') fits q lt = refl
Move-stream o local (publish same) fits q lt = refl
Move-stream o local (dequeue n) fits q lt = refl
Move-stream o local load_prod_tail fits q lt = refl
Move-stream o local (dequeue_none none) fits q lt = refl
Move-stream o local cons_fails fits q lt = refl
Move-stream o local (cons_wins some same) (near, straight) q lt = refl
Move-stream o local (load lt') fits q lt = refl
Move-stream o local (release same) fits q lt = refl

-- The word that a position was claimed for stays its word.
pub stream_stays :
    {k at : ℕ} {cell : ℕ → ℕ} {s t : System} (q : ℕ)
    → k ≤ 31
    → (reached : Reach k at cell s) → Fitting reached
    → (step : Step k s t) → StepFits step
    → q < s.shared.prod_head
    → t.shared.stream q ≡ s.shared.stream q
stream_stays q small reached fitting (pick a move) fits lt =
    let inv = interleaved-Inv small reached fitting in
    Move-stream inv.ordered (inv.local a) move fits q lt
