-- ===== src/Exchange/Overlap/Tests.antt =====
-- Two programs on rings of four words: one has put its packet into the ring to send, and the other has taken
-- a packet.
use kuberne_tsn.Common.{ℕ, ◌*◌, ◌<◌, ◌+◌, ◌<◌, ◌≤◌, ◌≡◌, ◌≢◌, refl, [], ◌∷◌, arith}
use kuberne_tsn.Common.Perms.{occurs}
use kuberne_tsn.Packet.{null_metadata, mbuf_size}
use kuberne_tsn.Ring.Threads.{
  idle, enqueue, load_cons_tail, prod_wins, dequeue, load_prod_tail, cons_wins, load, release,
  System,
}
use kuberne_tsn.Ring.Threads.Inv.{local_idle, Inv}
use kuberne_tsn.Ring.Threads.Fifo.{queue}
use kuberne_tsn.Exchange.Overlap.{
  World, Act, on_free, on_tx, write_payload, ActFits, Quiet, Reach, start, later, Fitting,
}
use kuberne_tsn.Exchange.Overlap.Exclusive.{owner_exclusive, waiting_kept}

-- a ring that nobody uses, with the positions from 8 on as its words
abbrev resting : ℕ → System
resting head = record {
  shared = record {
    prod_head = head;
    prod_tail = head;
    cons_head = 8;
    cons_tail = 8;
    cell = λ c. 8 + c;
    stream = λ p. p;
  };
  pc = λ a. idle;
}

abbrev quiet_world : World
quiet_world = record {
  free = resting 10;
  tx = resting 8;
  own = λ a. [];
  mbuf_pool = λ q. 0;
  metadata_pool = λ i. null_metadata;
}

resting-Inv : (head : ℕ) → 8 ≤ head → head ≤ 11 → Inv 2 (resting head)
resting-Inv head lo hi = record {
  ordered = record {
    small = omega arith;
    behind = omega arith;
    ready = lo;
    ahead = omega arith;
    room = omega arith;
    published = λ p from before. omega arith;
  };
  local = λ a. local_idle;
  puts_apart = λ a b ne q from before none. omega arith;
  gets_apart = λ a b ne q from before none. omega arith;
}

quiet_world-Quiet : Quiet 2 quiet_world
quiet_world-Quiet = record {
  free_inv = resting-Inv 10 (omega arith) (omega arith);
  tx_inv = resting-Inv 8 (omega arith) (omega arith);
  free_idle = λ a. refl;
  tx_idle = λ a. refl;
  none_own = λ a. refl;
  once = λ x. ground arith;
  none_queued = refl;
}

program : (a : ℕ) → 0 < a → a ≢ 0
program a lt e = absurd (omega arith)

first : ◌≢◌ {A = ℕ} 1 0
first = program 1 (omega arith)

second : ◌≢◌ {A = ℕ} 2 0
second = program 2 (omega arith)

-- program 1 has claimed a position to send packet 8, and program 2 has taken packet 9
two_programs :
    (w : World) × (reached : Reach 2 w) × Fitting reached
    × (w.own 2 ≡ 9 ∷ [])
    × (queue w.tx.shared ≡ 8 ∷ [])
    × (w.free.pc 2 ≡ idle)
    × (w.tx.pc 2 ≡ idle)
two_programs =
    let one_takes =
      later
        (later
          (later
            (later (later (start quiet_world-Quiet) (on_free 1 refl (dequeue 1) (first, refl)))
              (on_free 1 refl load_prod_tail tt))
            (on_free 1 refl (cons_wins (λ e. absurd (omega arith)) refl) tt))
          (on_free 1 refl (load (omega arith)) tt))
        (on_free 1 refl (release refl) tt) in
    let one_puts =
      later
        (later
          (later one_takes (on_tx 1 refl (enqueue (8 ∷ []) 1) (first, (8, [], refl, refl, refl))))
          (on_tx 1 refl load_cons_tail tt))
        (on_tx 1 refl (prod_wins (λ e. absurd (omega arith)) refl) tt) in
    (
      _,
      later
          (later
            (later
              (later (later one_puts (on_free 2 refl (dequeue 1) (second, refl)))
                (on_free 2 refl load_prod_tail tt))
              (on_free 2 refl (cons_wins (λ e. absurd (omega arith)) refl) tt))
            (on_free 2 refl (load (omega arith)) tt))
          (on_free 2 refl (release refl) tt),
      (
        (
          (
            (
              (
                (
                  (((((((tt, tt), tt), (omega arith, omega arith)), tt), tt), tt), tt),
                  (omega arith, omega arith),
                ),
                tt,
              ),
              tt,
            ),
            (omega arith, omega arith),
          ),
          tt,
        ),
        tt,
      ),
      refl,
      refl,
      refl,
      refl,
    )

owner_exclusive_example :
    (occurs 9 (two_programs.0.own 2) ≡ 1)
    × (occurs 9 (two_programs.0.own 1) ≡ 0)
    × (occurs 9 (queue two_programs.0.free.shared) ≡ 0)
    × (occurs 9 (queue two_programs.0.tx.shared) ≡ 0)
owner_exclusive_example =
    owner_exclusive 2 1 9 two_programs.1 two_programs.2 (λ e. absurd (omega arith))
      (rw two_programs.3 (omega arith))

-- program 2 writes to its packet
a_write : (v : World) × Act 2 two_programs.0 v
a_write = (
  _,
  write_payload 2 9 (1 ∷ 2 ∷ []) second two_programs.5 two_programs.6
      (rw two_programs.3 (omega arith)),
)

short : ActFits a_write.1
unfolding a_write
short = omega arith

waiting_kept_example :
    ((j : ℕ)
      → j < mbuf_size
      → a_write.0.mbuf_pool (8 * mbuf_size + j) ≡ two_programs.0.mbuf_pool (8 * mbuf_size + j))
    × (a_write.0.metadata_pool 8 ≡ two_programs.0.metadata_pool 8)
waiting_kept_example =
    waiting_kept 8 two_programs.1 two_programs.2 a_write.1 short (rw two_programs.4 (omega arith))
