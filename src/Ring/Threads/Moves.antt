-- ===== src/Ring/Threads/Moves.antt =====
-- Every access keeps the order of the counters, and what its own thread relies on.
use kuberne_tsn.Common.{
  ℕ, ◌+◌, ◌-◌, ◌%◌, ◌^◌, ◌<◌, ◌≤◌, ◌≡◌, sym, ◌∙◌, List, get_or, arith, u32, sub32, dec_lt,
}
use kuberne_tsn.Ring.{variable}
use kuberne_tsn.Ring.Arith.{pow2-le}
use kuberne_tsn.Ring.Heads.{granted-le}
use kuberne_tsn.Ring.Threads.{
  Shared, Pc, enq_free, writing, deq_avail, reading, update, claim, to_put, to_get, index, Move,
  Fits, enqueue, load_cons_tail, enqueue_none, prod_fails, prod_wins, store, publish, dequeue,
  load_prod_tail, dequeue_none, cons_fails, cons_wins, load, release,
}
use kuberne_tsn.Ring.Threads.Inv.{
  Ordered, Local, local_enq_free, local_writing, local_deq_avail, local_reading,
}
use kuberne_tsn.Ring.Threads.Others.{cells_differ, index-eq}

-- A counter that is as far as the code can tell where a thread has seen it has not moved.
pub not_moved : (now old : ℕ) → old ≤ now → now < old + 2 ^ 32 → u32 now ≡ u32 old → now ≡ old
not_moved now old le lt same = omega arith

-- A producer claims no more than is free, a consumer no more than is there.
pub to_put-le :
    (k n old tail : ℕ)
    → k ≤ 31
    → tail ≤ old
    → old ≤ tail + (2 ^ k - 1)
    → old + to_put k n old tail ≤ tail + (2 ^ k - 1)
to_put-le k n old tail small le room =
    let free = sub32 (2 ^ k - 1) (sub32 (u32 old) (u32 tail)) in
    let bounds = granted-le variable n free in
    let size = pow2-le k small in
    let gap : sub32 (u32 old) (u32 tail) ≡ old - tail = omega arith in
    let exact : free ≡ 2 ^ k - 1 - (old - tail) = rw gap (omega arith) in omega arith

pub to_get-le : (n old tail : ℕ) → old ≤ tail → old + to_get n old tail ≤ tail
to_get-le n old tail le =
    let bounds = granted-le variable n (sub32 (u32 tail) (u32 old)) in omega arith

module _ {k : ℕ} {s : Shared} (o : Ordered k s) where
  -- What a thread knows when its compare-exchange wins.
  pub prod_head-eq :
      {table : List ℕ} {n old tail : ℕ}
      → Local k s (enq_free table n old tail)
      → u32 s.prod_head ≡ u32 old
      → s.prod_head < old + 2 ^ 32
      → (s.prod_head ≡ old) × (old + to_put k n old tail ≤ s.cons_tail + (2 ^ k - 1))
  prod_head-eq {n = n} {old} {tail} (local_enq_free le behind room) same near =
      let here = not_moved s.prod_head old le near same in
      let fits =
        to_put-le k n old tail o.small (omega (arith, o.behind, o.ready, o.ahead))
          (room (omega arith)) in
      (here, omega arith)

  pub cons_head-eq :
      {n old tail : ℕ}
      → Local k s (deq_avail n old tail)
      → u32 s.cons_head ≡ u32 old
      → s.cons_head < old + 2 ^ 32
      → (s.cons_head ≡ old) × (old + to_get n old tail ≤ s.prod_tail)
  cons_head-eq {n} {old} {tail} (local_deq_avail le ahead room) same near =
      let here = not_moved s.cons_head old le near same in
      let fits = to_get-le n old tail (room (omega arith)) in (here, omega arith)

  pub prod_tail-eq :
      {table : List ℕ} {old m i : ℕ}
      → Local k s (writing table old m i)
      → u32 s.prod_tail ≡ u32 old
      → s.prod_tail ≡ old
  prod_tail-eq (local_writing {old = old} after before some upto straight want have) same =
      let size = pow2-le k o.small in
      sym (not_moved old s.prod_tail after (omega (arith, o.behind, o.ready, o.room)) (sym same))

  pub cons_tail-eq :
      {old m i : ℕ} {out : List ℕ}
      → Local k s (reading old m i out)
      → u32 s.cons_tail ≡ u32 old
      → s.cons_tail ≡ old
  cons_tail-eq (local_reading {old = old} after before some upto straight out) same =
      let size = pow2-le k o.small in
      sym (not_moved old s.cons_tail after (omega (arith, o.ready, o.ahead, o.room)) (sym same))

  -- The cell of a word in a claim.
  pub write_index :
      {table : List ℕ} {old m i : ℕ}
      → Local k s (writing table old m i)
      → i < m
      → index k old i ≡ (old + i) % 2 ^ k
  write_index (local_writing {old = old} {i = i} after before some upto straight want have) lt =
      index-eq k old i o.small (omega arith)

  claimed-Ordered :
      {table : List ℕ} {n old tail : ℕ}
      → Local k s (enq_free table n old tail)
      → u32 s.prod_head ≡ u32 old
      → s.prod_head < old + 2 ^ 32
      → Ordered k (record s {
        prod_head = old + to_put k n old tail;
        stream = claim s.stream old (to_put k n old tail) table;
      })
  claimed-Ordered local same near =
      let (here, fits) = prod_head-eq local same near in
      record {
        small = o.small;
        behind = o.behind;
        ready = o.ready;
        ahead = omega (arith, o.ahead);
        room = fits;
        published =
            λ p lo hi. let word = o.published p lo hi in let below = o.ahead in ground arith;
      }

  stored-Ordered :
      (at v : ℕ)
      → s.prod_tail ≤ at
      → at < s.prod_head
      → Ordered k (record s { cell = update s.cell (at % 2 ^ k) v })
  stored-Ordered at v from to = record {
    small = o.small;
    behind = o.behind;
    ready = o.ready;
    ahead = o.ahead;
    room = o.room;
    published = λ p lo hi.
        let other =
          cells_differ (2 ^ k) at p (λ e. absurd (omega arith)) (omega (arith, o.room))
            (omega arith) in
        let word = o.published p lo hi in ground arith;
  }

  published-Ordered :
      {table : List ℕ} {old m : ℕ}
      → Local k s (writing table old m m)
      → s.prod_tail ≡ old
      → Ordered k (record s { prod_tail = old + m })
  published-Ordered {table} {old} {m} (local_writing after before some upto straight want have)
        here =
      record {
        small = o.small;
        behind = o.behind;
        ready = omega (arith, o.ready);
        ahead = before;
        room = o.room;
        published = λ p lo hi. elim (dec_lt p old) [
          | yes below ↦ o.published p lo (omega arith)
          | no above ↦
              let place : old + (p - old) ≡ p = omega arith in
              let word = have (p - old) (omega arith) ∙ sym (want (p - old) (omega arith)) in
              rw place at word
        ];
      }

  released-Ordered :
      {old m : ℕ} {out : List ℕ}
      → Local k s (reading old m m out)
      → s.cons_tail ≡ old
      → Ordered k (record s { cons_tail = old + m })
  released-Ordered (local_reading after before some upto straight out) here = record {
    small = o.small;
    behind = before;
    ready = o.ready;
    ahead = o.ahead;
    room = omega (arith, o.room);
    published = λ p lo hi. o.published p (omega arith) hi;
  }

  -- A word is written between the producers' tail and head.
  pub write_within :
      {table : List ℕ} {old m i : ℕ}
      → Local k s (writing table old m i)
      → i < m
      → (s.prod_tail ≤ old + i) × (old + i < s.prod_head)
  write_within (local_writing after before some upto straight want have) lt =
      (omega arith, omega arith)

  -- The order of the counters is kept.
  pub Move-Ordered :
      {p p' : Pc} {s' : Shared} → Local k s p → (move : Move k s p s' p') → Fits move → Ordered k s'
  Move-Ordered local (enqueue table n) fits = o
  Move-Ordered local load_cons_tail fits = o
  Move-Ordered local (enqueue_none none) fits = o
  Move-Ordered local prod_fails fits = o
  Move-Ordered local (prod_wins some same) (near, straight) = claimed-Ordered local same near
  Move-Ordered local (store {table} {old} {m} {i} lt) fits =
      let place = write_index local lt in
      let (from, to) = write_within local lt in
      rw place (stored-Ordered (old + i) (get_or table i 0) from to)
  Move-Ordered local (publish same) fits = published-Ordered local (prod_tail-eq local same)
  Move-Ordered local (dequeue n) fits = o
  Move-Ordered local load_prod_tail fits = o
  Move-Ordered local (dequeue_none none) fits = o
  Move-Ordered local cons_fails fits = o
  Move-Ordered local (cons_wins some same) (near, straight) =
      let (here, fits) = cons_head-eq local same near in
      record {
        small = o.small;
        behind = omega (arith, o.behind);
        ready = fits;
        ahead = o.ahead;
        room = o.room;
        published = o.published;
      }
  Move-Ordered local (load lt) fits = o
  Move-Ordered local (release same) fits = released-Ordered local (cons_tail-eq local same)
