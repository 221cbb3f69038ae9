-- ===== src/Ring/Threads/Safety.antt =====
-- The states that the threads can reach.
use kuberne_tsn.Common.{
  ℕ, ◌+◌, ◌≤◌, ◌≡◌, ◌≢◌, sym, ◌∙◌, arith, true, false, ◌==◌, ℕ_discrete, dec_lt,
}
use kuberne_tsn.Ring.Threads.{
  Shared, Pc, update, Move, Fits, StepFits, Fitting, enqueue, load_cons_tail, enqueue_none,
  prod_fails, prod_wins, store, publish, dequeue, load_prod_tail, dequeue_none, cons_fails,
  cons_wins, load, release, System, Step, pick, Reach, start, later,
}
use kuberne_tsn.Ring.Threads.Inv.{
  Ordered, Local, local_idle, local_enq_head, local_enq_free, local_writing, local_deq_head,
  local_deq_avail, local_reading, puts, gets, Apart, Inv,
}
use kuberne_tsn.Ring.Threads.Moves.{prod_head-eq, cons_head-eq, Move-Ordered}
use kuberne_tsn.Ring.Threads.Steps.{Move-Local, Move-others}

-- A claim ends before the head that it was made from.
puts-below : {k : ℕ} {s : Shared} {p : Pc} → Local k s p → (puts p).0 + (puts p).1 ≤ s.prod_head
puts-below local_idle = omega arith
puts-below (local_enq_head le) = omega arith
puts-below (local_enq_free le tail room) = omega arith
puts-below (local_writing after before some upto straight want have) = before
puts-below (local_deq_head le) = omega arith
puts-below (local_deq_avail le tail room) = omega arith
puts-below (local_reading after before some upto straight out) = omega arith

gets-below : {k : ℕ} {s : Shared} {p : Pc} → Local k s p → (gets p).0 + (gets p).1 ≤ s.cons_head
gets-below local_idle = omega arith
gets-below (local_enq_head le) = omega arith
gets-below (local_enq_free le tail room) = omega arith
gets-below (local_writing after before some upto straight want have) = omega arith
gets-below (local_deq_head le) = omega arith
gets-below (local_deq_avail le tail room) = omega arith
gets-below (local_reading after before some upto straight out) = before

Apart-sym : (a b : ℕ × ℕ) → Apart a b → Apart b a
Apart-sym a b apart q lo hi from = elim (dec_lt q (a.0 + a.1)) [
  | yes inside ↦ absurd (let past = apart q from inside lo in omega arith)
  | no past ↦ omega arith
]

Apart-none : (b : ℕ × ℕ) → Apart (0, 0) b
Apart-none b q lo hi from = absurd (omega arith)

module _ {k : ℕ} {s : Shared} (o : Ordered k s) where
  puts-Apart :
      {p p' q : Pc} {s' : Shared}
      → Local k s p
      → Local k s q
      → Apart (puts p) (puts q)
      → (move : Move k s p s' p') → Fits move
      → Apart (puts p') (puts q)
  puts-Apart {q = q} local other apart (enqueue table n) fits = Apart-none (puts q)
  puts-Apart {q = q} local other apart load_cons_tail fits = Apart-none (puts q)
  puts-Apart {q = q} local other apart (enqueue_none none) fits = Apart-none (puts q)
  puts-Apart {q = q} local other apart prod_fails fits = Apart-none (puts q)
  puts-Apart {q = q} local other apart (prod_wins some same) (near, straight) =
      let (here, fits) = prod_head-eq o local same near in
      let below = puts-below other in λ at lo hi from. omega arith
  puts-Apart local other apart (store lt) fits = apart
  puts-Apart {q = q} local other apart (publish same) fits = Apart-none (puts q)
  puts-Apart {q = q} local other apart (dequeue n) fits = Apart-none (puts q)
  puts-Apart {q = q} local other apart load_prod_tail fits = Apart-none (puts q)
  puts-Apart {q = q} local other apart (dequeue_none none) fits = Apart-none (puts q)
  puts-Apart {q = q} local other apart cons_fails fits = Apart-none (puts q)
  puts-Apart {q = q} local other apart (cons_wins some same) (near, straight) = Apart-none (puts q)
  puts-Apart {q = q} local other apart (load lt) fits = Apart-none (puts q)
  puts-Apart {q = q} local other apart (release same) fits = Apart-none (puts q)

  gets-Apart :
      {p p' q : Pc} {s' : Shared}
      → Local k s p
      → Local k s q
      → Apart (gets p) (gets q)
      → (move : Move k s p s' p') → Fits move
      → Apart (gets p') (gets q)
  gets-Apart {q = q} local other apart (enqueue table n) fits = Apart-none (gets q)
  gets-Apart {q = q} local other apart load_cons_tail fits = Apart-none (gets q)
  gets-Apart {q = q} local other apart (enqueue_none none) fits = Apart-none (gets q)
  gets-Apart {q = q} local other apart prod_fails fits = Apart-none (gets q)
  gets-Apart {q = q} local other apart (prod_wins some same) (near, straight) = Apart-none (gets q)
  gets-Apart {q = q} local other apart (store lt) fits = Apart-none (gets q)
  gets-Apart {q = q} local other apart (publish same) fits = Apart-none (gets q)
  gets-Apart {q = q} local other apart (dequeue n) fits = Apart-none (gets q)
  gets-Apart {q = q} local other apart load_prod_tail fits = Apart-none (gets q)
  gets-Apart {q = q} local other apart (dequeue_none none) fits = Apart-none (gets q)
  gets-Apart {q = q} local other apart cons_fails fits = Apart-none (gets q)
  gets-Apart {q = q} local other apart (cons_wins some same) (near, straight) =
      let (here, fits) = cons_head-eq o local same near in
      let below = gets-below other in λ at lo hi from. omega arith
  gets-Apart local other apart (load lt) fits = apart
  gets-Apart {q = q} local other apart (release same) fits = Apart-none (gets q)

-- Claims stay apart when one thread's claim changes.
update-Apart :
    (claims : Pc → ℕ × ℕ) (pc : ℕ → Pc) (a : ℕ) (p' : Pc)
    → ((b : ℕ) → a ≢ b → Apart (claims p') (claims (pc b)))
    → ((b c : ℕ) → b ≢ c → Apart (claims (pc b)) (claims (pc c)))
    → (b c : ℕ) → b ≢ c
    → Apart (claims (update pc a p' b)) (claims (update pc a p' c))
update-Apart claims pc a p' own others b c ne = elim (ℕ_discrete a b) [
  | yes first ↦
      let here : (a == b) ≡ true = ground arith in
      let there : (a == c) ≡ false = ground arith in
      rw (here, there) (own c (λ e. ne (sym first ∙ e)))
  | no not_first ↦ elim (ℕ_discrete a c) [
    | yes second ↦
        let here : (a == b) ≡ false = ground arith in
        let there : (a == c) ≡ true = ground arith in
        rw (here, there) (Apart-sym (claims p') (claims (pc b)) (own b not_first))
    | no neither ↦
        let here : (a == b) ≡ false = ground arith in
        let there : (a == c) ≡ false = ground arith in rw (here, there) (others b c ne)
  ]
]

pub interleave-Inv :
    {k : ℕ} {s t : System} → Inv k s → (step : Step k s t) → StepFits step → Inv k t
interleave-Inv {s = s} inv (pick a {p = p'} move) fits =
    let mover = inv.local a in
    record {
      ordered = Move-Ordered inv.ordered mover move fits;
      local = λ b. elim (ℕ_discrete a b) [
        | yes same ↦
            let here : (a == b) ≡ true = ground arith in
            rw here (Move-Local inv.ordered mover move fits)
        | no other ↦
            let here : (a == b) ≡ false = ground arith in
            rw here (
              Move-others inv.ordered mover (inv.local b) (inv.puts_apart a b other)
                (inv.gets_apart a b other) move fits)
      ];
      puts_apart =
          update-Apart puts s.pc a p'
            (λ b ne. puts-Apart inv.ordered mover (inv.local b) (inv.puts_apart a b ne) move fits)
            inv.puts_apart;
      gets_apart =
          update-Apart gets s.pc a p'
            (λ b ne. gets-Apart inv.ordered mover (inv.local b) (inv.gets_apart a b ne) move fits)
            inv.gets_apart;
    }

-- However the threads interleave, while every burst ends before the end of the ring and no thread stays
-- at a head while 2 ^ 32 words pass (`Fitting`), the counters of a ring of at most 2 ^ 31
-- words stay in order, at most the ring's capacity apart; the published cells hold the words that were
-- put in; what each thread in the middle of a call relies on holds; and no two threads have claimed the
-- same position to write, or the same position to read.
pub interleaved-Inv :
    {k at : ℕ} {cell : ℕ → ℕ} {s : System}
    → k ≤ 31
    → (reached : Reach k at cell s) → Fitting reached
    → Inv k s
interleaved-Inv small start fitting = record {
  ordered = record {
    small = small;
    behind = omega arith;
    ready = omega arith;
    ahead = omega arith;
    room = omega arith;
    published = λ p lo hi. absurd (omega arith);
  };
  local = λ a. local_idle;
  puts_apart = λ a b ne. Apart-none (0, 0);
  gets_apart = λ a b ne. Apart-none (0, 0);
}
interleaved-Inv small (later reached step) fitting =
    interleave-Inv (interleaved-Inv small reached fitting.0) step fitting.1
