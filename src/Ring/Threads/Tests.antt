-- ===== src/Ring/Threads/Tests.antt =====
-- Two producers on a ring of four words, and the theorems at them.
use kuberne_tsn.Common.{
  ℕ, ◌+◌, ◌-◌, ◌%◌, ◌^◌, ◌<◌, ◌≤◌, ◌≡◌, ◌≢◌, refl, List, [], ◌∷◌, arith, length,
}
use kuberne_tsn.Ring.Threads.{
  writing, reading, enqueue, load_cons_tail, prod_wins, store, publish, dequeue, load_prod_tail,
  cons_wins, load, System, Step, StepFits, pick, Reach, start, later, Fitting,
}
use kuberne_tsn.Ring.Threads.Inv.{slice, Inv}
use kuberne_tsn.Ring.Threads.Safety.{interleaved-Inv}
use kuberne_tsn.Ring.Threads.Exclusion.{Holds, to_write, cells_exclusive, reader_in_order}
use kuberne_tsn.Ring.Threads.Fifo.{Atomic, queue, mover, interleaved_refines}
use kuberne_tsn.Ring.Threads.Progress.{Runs, tail_advances}

abbrev blank_cells : ℕ → ℕ
blank_cells c = 0

-- thread 0 claims one word and thread 1 another, before either has stored it
two_claims :
    (s : System) × (reached : Reach 2 8 blank_cells s) × Fitting reached
    × (s.pc 0 ≡ writing (7 ∷ []) 8 1 0)
    × (s.pc 1 ≡ writing (9 ∷ []) 9 1 0)
    × (s.shared.prod_tail ≡ 8)
    × (s.shared.prod_head ≡ 10)
two_claims = (
  _,
  later
      (later
        (later
          (later (later (later start (pick 0 (enqueue (7 ∷ []) 1))) (pick 0 load_cons_tail))
            (pick 0 (prod_wins (λ e. absurd (omega arith)) refl)))
          (pick 1 (enqueue (9 ∷ []) 1)))
        (pick 1 load_cons_tail))
      (pick 1 (prod_wins (λ e. absurd (omega arith)) refl)),
  ((((((tt, tt), tt), (omega arith, omega arith)), tt), tt), (omega arith, omega arith)),
  refl,
  refl,
  refl,
  refl,
)

-- thread 0 has put a word in, and thread 1 has read it and not given its cell back
one_read :
    (s : System) × (reached : Reach 2 8 blank_cells s) × Fitting reached
    × ((out : List ℕ) × (s.pc 1 ≡ reading 8 1 1 out) × (out ≡ 7 ∷ []))
one_read = (
  _,
  later
      (later
        (later
          (later
            (later
              (later
                (later (later (later start (pick 0 (enqueue (7 ∷ []) 1))) (pick 0 load_cons_tail))
                  (pick 0 (prod_wins (λ e. absurd (omega arith)) refl)))
                (pick 0 (store (omega arith))))
              (pick 0 (publish refl)))
            (pick 1 (dequeue 1)))
          (pick 1 load_prod_tail))
        (pick 1 (cons_wins (λ e. absurd (omega arith)) refl)))
      (pick 1 (load (omega arith))),
  (
    (
      (((((((tt, tt), tt), (omega arith, omega arith)), tt), tt), tt), tt),
      (omega arith, omega arith),
    ),
    tt,
  ),
  (_, refl, refl),
)

interleaved-Inv_example : Inv 2 two_claims.0
interleaved-Inv_example = interleaved-Inv (omega arith) two_claims.1 two_claims.2

first-Holds : Holds (two_claims.0.pc 0) 8
first-Holds = rw two_claims.3 (to_write (omega arith) (omega arith))

second-Holds : Holds (two_claims.0.pc 1) 9
second-Holds = rw two_claims.4 (to_write (omega arith) (omega arith))

cells_exclusive_example : 8 % 2 ^ 2 ≢ 9 % 2 ^ 2
cells_exclusive_example =
    cells_exclusive {k = 2} {a = 0} {b = 1} (omega arith) two_claims.1 two_claims.2
      (λ e. absurd (omega arith)) first-Holds second-Holds

is_claimed : two_claims.0.shared.prod_tail < two_claims.0.shared.prod_head
is_claimed = omega (arith, two_claims.5, two_claims.6)

tail_advances_example :
    (t : System) × Runs 2 two_claims.0 t × (two_claims.0.shared.prod_tail < t.shared.prod_tail)
tail_advances_example = tail_advances (omega arith) two_claims.1 two_claims.2 is_claimed

reader_in_order_example :
    (one_read.3.0 ≡ slice one_read.0.shared.stream 8 1) × (8 + 1 ≤ one_read.0.shared.prod_tail)
reader_in_order_example = reader_in_order 1 (omega arith) one_read.1 one_read.2 one_read.3.1

-- thread 0 is about to claim a word
a_claim :
    (s : System) × (t : System) × (reached : Reach 2 8 blank_cells s) × Fitting reached
    × (step : Step 2 s t) × StepFits step
a_claim = (
  _,
  _,
  later (later start (pick 0 (enqueue (7 ∷ []) 1))) (pick 0 load_cons_tail),
  ((tt, tt), tt),
  pick 0 (prod_wins (λ e. absurd (omega arith)) refl),
  (omega arith, omega arith),
)

interleaved_refines_example :
    Atomic
      (queue a_claim.0.shared)
      (queue a_claim.1.shared)
      a_claim.0.shared.stream
      (a_claim.1.pc (mover a_claim.4))
    × (length (queue a_claim.1.shared) ≤ 2 ^ 2 - 1)
interleaved_refines_example =
    interleaved_refines (omega arith) a_claim.2 a_claim.3 a_claim.4 a_claim.5
