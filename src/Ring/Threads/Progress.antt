-- ===== src/Ring/Threads/Progress.antt =====
-- No wait for a tail is without end: some thread can go on.
use mathlib.Core.Path.{subst}
use kuberne_tsn.Common.{
  get_or, ℕ, zero, suc, ◌+◌, ◌-◌, ◌<◌, ◌≤◌, ◌≡◌, ◌⊎◌, inl, inr, refl, sym, ap, ◌∙◌, List, arith,
  u32, true, false, ◌==◌, ℕ_discrete, dec_lt,
}
use kuberne_tsn.Ring.Threads.{
  Shared, Pc, idle, writing, update, index, Move, Fits, StepFits, Fitting, enqueue, load_cons_tail,
  enqueue_none, prod_fails, prod_wins, store, publish, dequeue, load_prod_tail, dequeue_none,
  cons_fails, cons_wins, load, release, System, Step, pick, Reach, start, later,
}
use kuberne_tsn.Ring.Threads.Inv.{Ordered, Local, local_writing, puts, Inv}
use kuberne_tsn.Ring.Threads.Moves.{prod_head-eq, prod_tail-eq}
use kuberne_tsn.Ring.Threads.Safety.{interleaved-Inv}

-- Position `q` is among those that a thread has claimed to write.
abbrev pub Puts : Pc → ℕ → Type 0
Puts p q = ((puts p).0 ≤ q) × (q < (puts p).0 + (puts p).1)

-- Every position between the producers' tail and head is some thread's.
abbrev pub Covered : System → Type 0
Covered s = (q : ℕ) → s.shared.prod_tail ≤ q → q < s.shared.prod_head → (a : ℕ) × Puts (s.pc a) q

-- A thread that moves keeps its positions, or they are published; new ones become its own.
Move-covers :
    {k : ℕ} {s s' : Shared} {p p' : Pc} {q : ℕ}
    → Ordered k s
    → Local k s p
    → (move : Move k s p s' p') → Fits move
    → s'.prod_tail ≤ q
    → q < s'.prod_head
    → Puts p' q ⊎ ((s.prod_tail ≤ q) × (q < s.prod_head) × ((Puts p q) → Puts p' q))
Move-covers {q = q} o local (prod_wins some same) (near, straight) from to =
    let (here, fits) = prod_head-eq o local same near in
    elim (dec_lt q _) [
      | yes old_one ↦ inr (from, old_one, λ mine. absurd (omega (arith, mine.1)))
      | no new_one ↦ inl (omega arith, to)
    ]
Move-covers o local (enqueue table n) fits from to = inr (from, to, λ mine. mine)
Move-covers o local load_cons_tail fits from to = inr (from, to, λ mine. mine)
Move-covers o local (enqueue_none none) fits from to = inr (from, to, λ mine. mine)
Move-covers o local prod_fails fits from to = inr (from, to, λ mine. mine)
Move-covers o local (store lt) fits from to = inr (from, to, λ mine. mine)
Move-covers o local (publish same) fits from to =
    let here = prod_tail-eq o local same in
    inr (omega arith, to, λ mine. absurd (omega (arith, mine.1)))
Move-covers o local (dequeue n) fits from to = inr (from, to, λ mine. mine)
Move-covers o local load_prod_tail fits from to = inr (from, to, λ mine. mine)
Move-covers o local (dequeue_none none) fits from to = inr (from, to, λ mine. mine)
Move-covers o local cons_fails fits from to = inr (from, to, λ mine. mine)
Move-covers o local (cons_wins some same) (near, straight) from to = inr (from, to, λ mine. mine)
Move-covers o local (load lt) fits from to = inr (from, to, λ mine. mine)
Move-covers o local (release same) fits from to = inr (from, to, λ mine. mine)

Step-Covered :
    {k : ℕ} {s t : System} → Inv k s → Covered s → (step : Step k s t) → StepFits step → Covered t
Step-Covered {s = s} inv covered (pick a {p = p'} move) fits q from to =
    let mine : (a == a) ≡ true = ground arith in
    elim (Move-covers inv.ordered (inv.local a) move fits from to) [
      | inl own ↦ (a, rw mine own)
      | inr (from', to', keeps) ↦
          let (b, has) = covered q from' to' in
          elim (ℕ_discrete a b) [
            | yes same ↦ (a, rw mine (keeps (subst (λ c. Puts (s.pc c) q) (sym same) has)))
            | no other ↦ let theirs : (a == b) ≡ false = ground arith in (b, rw theirs has)
          ]
    ]

Reach-Covered :
    {k at : ℕ} {cell : ℕ → ℕ} {s : System}
    → k ≤ 31
    → (reached : Reach k at cell s) → Fitting reached
    → Covered s
Reach-Covered small start fitting = λ q from to. absurd (omega arith)
Reach-Covered small (later reached step) fitting =
    Step-Covered (interleaved-Inv small reached fitting.0) (Reach-Covered small reached fitting.0)
      step fitting.1

-- a run of steps
pub data Runs (k : ℕ) : System → System → Type 0 where
  here : {s : System} → Runs k s s
  first : {s t u : System} → Step k s t → Runs k t u → Runs k s u

-- A producer at the tail stores the rest of its words and publishes them, by itself.
finish :
    {k : ℕ} (d a : ℕ) {s : System} {table : List ℕ} {old m i : ℕ}
    → s.pc a ≡ writing table old m i
    → i + d ≡ m
    → u32 s.shared.prod_tail ≡ u32 old
    → (t : System) × Runs k s t × (t.shared.prod_tail ≡ old + m)
finish {k} zero a {s} {table} {old} {m} {i} at_a all tail =
    let full = at_a ∙ ap (λ c. writing table old m c) (omega arith) in
    let s' : Shared = record s.shared { prod_tail = old + m } in
    let move = subst (λ c. Move k s.shared c s' idle) (sym full) (publish tail) in
    (record { shared = s'; pc = update s.pc a idle }, first (pick a move) here, refl)
finish {k} (suc d) a {s} {table} {old} {m} {i} at_a all tail =
    let s' : Shared = record s.shared {
      cell = update s.shared.cell (index k old i) (get_or table i 0);
    } in
    let p' = writing table old m (suc i) in
    let move = subst (λ c. Move k s.shared c s' p') (sym at_a) (store (omega arith)) in
    let one : System = record { shared = s'; pc = update s.pc a p' } in
    let mine : (a == a) ≡ true = ground arith in
    let at_next : one.pc a ≡ p' = rw mine refl in
    let (t, rest, tail') = finish d a {s = one} at_next (omega arith) tail in
    (t, first (pick a move) rest, tail')

-- Whose claim it is.
at_tail :
    {k : ℕ} {s : Shared} {p : Pc}
    → Local k s p
    → Puts p s.prod_tail
    → (table : List ℕ) × (old : ℕ) × (m : ℕ) × (i : ℕ) × (p ≡ writing table old m i)
      × (s.prod_tail ≡ old)
      × (i ≤ m)
      × (0 < m)
at_tail (local_writing {table} {old} {m} {i} after before some upto straight want have) has =
    (table, old, m, i, refl, omega (arith, has.0), upto, some)
at_tail local has = absurd (omega (arith, has.1))

-- However the threads have interleaved, while every burst ended before the end of the ring and no thread
-- stayed at a head while 2 ^ 32 words passed (`Fitting`), on a ring of at most 2 ^ 31 words:
-- when words are claimed and not published, some run of the threads' steps moves the producers' tail on.
pub tail_advances :
    {k at : ℕ} {cell : ℕ → ℕ} {s : System}
    → k ≤ 31
    → (reached : Reach k at cell s) → Fitting reached
    → s.shared.prod_tail < s.shared.prod_head
    → (t : System) × Runs k s t × (s.shared.prod_tail < t.shared.prod_tail)
tail_advances {k} {s = s} small reached fitting claimed =
    let inv = interleaved-Inv small reached fitting in
    let (a, has) = Reach-Covered small reached fitting s.shared.prod_tail (omega arith) claimed in
    let (table, old, m, i, at_a, tail, upto, some) = at_tail (inv.local a) has in
    let (t, run, moved) = finish (m - i) a at_a (omega arith) (ap u32 tail) in (t, run, omega arith)
