-- ===== src/Ring/Threads/Fifo.antt =====
-- The ring that many threads use is one bounded queue: each access changes it as a whole, or not at all.
use mathlib.Core.Path.{subst}
use kuberne_tsn.Common.{
  ℕ, zero, suc, ◌+◌, ◌-◌, ◌^◌, ◌<◌, ◌≤◌, ◌≡◌, refl, ap, ap₂, ◌∙◌, List, [], ◌∷◌, ◌++◌, get_or, u32,
  arith, length, true, ◌==◌,
}
use kuberne_tsn.Ring.Threads.{
  Shared, Pc, enq_free, deq_avail, writing, reading, claim, to_put, to_get, Move, Fits, enqueue,
  load_cons_tail, enqueue_none, prod_fails, prod_wins, store, publish, dequeue, load_prod_tail,
  dequeue_none, cons_fails, cons_wins, load, release, System, Step, pick, StepFits, Reach, Fitting,
}
use kuberne_tsn.Ring.Threads.Inv.{slice, Ordered, Local}
use kuberne_tsn.Ring.Threads.Others.{slice-same}
use kuberne_tsn.Ring.Threads.Moves.{prod_head-eq, cons_head-eq}
use kuberne_tsn.Ring.Threads.Safety.{interleaved-Inv, interleave-Inv}

-- The queue: the words of the positions that a producer has claimed and no consumer.
abbrev pub queue : Shared → List ℕ
queue s = slice s.stream s.cons_head (s.prod_head - s.cons_head)

-- the first `m` words of a table
abbrev pub first_words : List ℕ → ℕ → List ℕ
first_words table m = slice (λ i. get_or table i 0) 0 m

-- What an access does to the queue, by where its thread is afterwards.
pub data Atomic (q q' : List ℕ) (stream : ℕ → ℕ) : Pc → Type 0 where
  unchanged : {p : Pc} → q' ≡ q → Atomic q q' stream p
  appended :
      {table : List ℕ} {old m : ℕ}
      → 0 < m
      → q' ≡ q ++ first_words table m
      → Atomic q q' stream (writing table old m 0)
  removed :
      {old m : ℕ} → 0 < m → q ≡ slice stream old m ++ q' → Atomic q q' stream (reading old m 0 [])

slice-append : (f : ℕ → ℕ) (p a b : ℕ) → slice f p (a + b) ≡ slice f p a ++ slice f (p + a) b
slice-append f p zero b = ap₂ (λ x n. slice f x n) (omega arith) (omega arith)
slice-append f p (suc a) b =
    let count : suc a + b ≡ suc (a + b) = omega arith in
    let shift : p + 1 + a ≡ p + suc a = omega arith in
    ap (slice f p) count
    ∙ ap (λ xs. f p ∷ xs)
        (slice-append f (p + 1) a b ∙ ap (λ x. slice f (p + 1) a ++ slice f x b) shift)

slice-shift :
    (f g : ℕ → ℕ) (p r n : ℕ)
    → ((i : ℕ) → i < n → f (p + i) ≡ g (r + i))
    → slice f p n ≡ slice g r n
slice-shift f g p r zero same = refl
slice-shift f g p r (suc n) same =
    let zero_left : (x : ℕ) → x + 0 ≡ x = λ x. omega arith in
    let step : (x i : ℕ) → x + suc i ≡ x + 1 + i = λ x i. omega arith in
    let first : f p ≡ g r = rw (zero_left p, zero_left r) at (same 0 (omega arith)) in
    ap₂ ◌∷◌ first (
      slice-shift f g (p + 1) (r + 1) n
        (λ i lt. rw (step p i, step r i) at (same (suc i) (omega arith))))

length-slice : (f : ℕ → ℕ) (p n : ℕ) → length (slice f p n) ≡ n
length-slice f p zero = refl
length-slice f p (suc n) = ap suc (length-slice f (p + 1) n)

module _ {k : ℕ} {s : Shared} (o : Ordered k s) where
  -- A producer's claim appends the first words of its table.
  claim-appends :
      (m : ℕ) (table : List ℕ)
      → queue
          (record s { prod_head = s.prod_head + m; stream = claim s.stream s.prod_head m table })
        ≡ queue s ++ first_words table m
  claim-appends m table =
      let f = claim s.stream s.prod_head m table in
      let held = s.prod_head - s.cons_head in
      let in_order : s.cons_head ≤ s.prod_head = omega (arith, o.ready, o.ahead) in
      let count : s.prod_head + m - s.cons_head ≡ held + m = omega arith in
      let end : s.cons_head + held ≡ s.prod_head = omega arith in
      ap (slice f s.cons_head) count
      ∙ slice-append f s.cons_head held m
      ∙ ap₂ ◌++◌ (slice-same f s.stream s.cons_head held (λ q lt. ground arith)) (
          ap (λ x. slice f x m) end
          ∙ slice-shift f (λ i. get_or table i 0) s.prod_head 0 m
              (λ i lt.
                let back : s.prod_head + i - s.prod_head ≡ 0 + i = omega arith in
                ground (arith, ap (λ x. get_or table x 0) back)))

  -- A consumer's claim removes the words of its positions.
  take-removes :
      (m : ℕ)
      → s.cons_head + m ≤ s.prod_head
      → queue s ≡ slice s.stream s.cons_head m ++ queue (record s { cons_head = s.cons_head + m })
  take-removes m le =
      let count : s.prod_head - s.cons_head ≡ m + (s.prod_head - (s.cons_head + m)) = omega arith in
      ap (slice s.stream s.cons_head) count
      ∙ slice-append s.stream s.cons_head m (s.prod_head - (s.cons_head + m))

  -- The same where the code's arithmetic gives the positions.
  pub prod_wins-appends :
      {table : List ℕ} {n old tail : ℕ}
      → Local k s (enq_free table n old tail)
      → u32 s.prod_head ≡ u32 old
      → s.prod_head < old + 2 ^ 32
      → let m = to_put k n old tail in
        queue (record s { prod_head = old + m; stream = claim s.stream old m table })
        ≡ queue s ++ first_words table m
  prod_wins-appends {table} {n} {old} {tail} local same near =
      let (here, fits) = prod_head-eq o local same near in
      let m = to_put k n old tail in
      subst
        (λ (h : ℕ).
          queue (record s { prod_head = h + m; stream = claim s.stream h m table })
          ≡ queue s ++ first_words table m)
        here (claim-appends m table)

  pub cons_wins-removes :
      {n old tail : ℕ}
      → Local k s (deq_avail n old tail)
      → u32 s.cons_head ≡ u32 old
      → s.cons_head < old + 2 ^ 32
      → let m = to_get n old tail in
        queue s ≡ slice s.stream old m ++ queue (record s { cons_head = old + m })
  cons_wins-removes {n} {old} {tail} local same near =
      let (here, fits) = cons_head-eq o local same near in
      let m = to_get n old tail in
      subst (λ (h : ℕ). queue s ≡ slice s.stream h m ++ queue (record s { cons_head = h + m })) here
        (take-removes m (omega (arith, o.ahead)))

  pub Move-Atomic :
      {p p' : Pc} {s' : Shared}
      → Local k s p
      → (move : Move k s p s' p') → Fits move
      → Atomic (queue s) (queue s') s.stream p'
  Move-Atomic local (prod_wins some same) (near, straight) =
      appended (omega arith) (prod_wins-appends local same near)
  Move-Atomic local (cons_wins some same) (near, straight) =
      removed (omega arith) (cons_wins-removes local same near)
  Move-Atomic local (enqueue table n) fits = unchanged refl
  Move-Atomic local load_cons_tail fits = unchanged refl
  Move-Atomic local (enqueue_none none) fits = unchanged refl
  Move-Atomic local prod_fails fits = unchanged refl
  Move-Atomic local (store lt) fits = unchanged refl
  Move-Atomic local (publish same) fits = unchanged refl
  Move-Atomic local (dequeue n) fits = unchanged refl
  Move-Atomic local load_prod_tail fits = unchanged refl
  Move-Atomic local (dequeue_none none) fits = unchanged refl
  Move-Atomic local cons_fails fits = unchanged refl
  Move-Atomic local (load lt) fits = unchanged refl
  Move-Atomic local (release same) fits = unchanged refl

  queue-bounded : length (queue s) ≤ 2 ^ k - 1
  queue-bounded =
      let held = s.prod_head - s.cons_head in
      omega (arith, length-slice s.stream s.cons_head held, o.room, o.behind)

-- The thread that has moved.
abbrev pub mover : {k : ℕ} {s t : System} → Step k s t → ℕ
mover (pick a move) = a

-- However the threads interleave, while every burst ends before the end of the ring and no thread stays
-- at a head while 2 ^ 32 words pass (`Fitting`), a ring of at most 2 ^ 31 words is one bounded queue: an
-- access leaves the queue as it is, or appends the first words of the table of the producer that moves,
-- or removes the words of the positions that the consumer that moves is then to read; and the queue
-- never holds more words than the ring's capacity.
pub interleaved_refines :
    {k at : ℕ} {cell : ℕ → ℕ} {s t : System}
    → k ≤ 31
    → (reached : Reach k at cell s) → Fitting reached
    → (step : Step k s t) → StepFits step
    → Atomic (queue s.shared) (queue t.shared) s.shared.stream (t.pc (mover step))
      × (length (queue t.shared) ≤ 2 ^ k - 1)
interleaved_refines small reached fitting (pick a {p = p'} move) fits =
    let inv = interleaved-Inv small reached fitting in
    let mine : (a == a) ≡ true = ground arith in
    (
      rw mine (Move-Atomic inv.ordered (inv.local a) move fits),
      queue-bounded (interleave-Inv inv (pick a move) fits).ordered,
    )
