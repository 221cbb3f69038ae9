-- ===== src/Ring/Threads/Steps.antt =====
-- Every step keeps the invariant.
use mathlib.Core.Path.{subst}
use kuberne_tsn.Common.{
  ℕ, suc, ◌+◌, ◌%◌, ◌^◌, ◌<◌, refl, sym, ap, ◌∙◌, List, [], ◌∷◌, ◌++◌, get_or, arith, ℕ_discrete,
}
use kuberne_tsn.Ring.Threads.{
  Shared, Pc, writing, reading, update, claim, to_put, to_get, index, Move, Fits, enqueue,
  load_cons_tail, enqueue_none, prod_fails, prod_wins, store, publish, dequeue, load_prod_tail,
  dequeue_none, cons_fails, cons_wins, load, release,
}
use kuberne_tsn.Ring.Threads.Inv.{
  slice, Ordered, Local, local_idle, local_enq_head, local_enq_free, local_writing, local_deq_head,
  local_deq_avail, local_reading, puts, gets, Apart,
}
use kuberne_tsn.Ring.Threads.Others.{
  cells_differ, index-eq, slice-suc, Local-claimed, Local-stored, Local-published, Local-taken,
  Local-released,
}
use kuberne_tsn.Ring.Threads.Moves.{
  prod_head-eq, cons_head-eq, prod_tail-eq, cons_tail-eq, write_index, write_within,
}

module _ {k : ℕ} {s : Shared} (o : Ordered k s) where
  stored-Local :
      {table : List ℕ} {old m i : ℕ}
      → i < m
      → Local k s (writing table old m i)
      → Local k
          (record s { cell = update s.cell ((old + i) % 2 ^ k) (get_or table i 0) })
          (writing table old m (suc i))
  stored-Local {table} {old} {m} {i} lt (local_writing after before some upto straight want have) =
      local_writing after before some (omega arith) straight want (λ j le. elim (ℕ_discrete j i) [
        | yes same ↦ rw same (ground arith)
        | no other ↦
            let apart =
              cells_differ (2 ^ k) (old + i) (old + j) (λ e. other (omega arith))
                (omega (arith, o.room, o.behind, o.ready))
                (omega (arith, o.room, o.behind, o.ready)) in
            let word = have j (omega arith) in ground arith
      ])

  loaded-Local :
      {old m i : ℕ} {out : List ℕ}
      → i < m
      → Local k s (reading old m i out)
      → Local k s (reading old m (suc i) (out ++ (s.cell (index k old i) ∷ [])))
  loaded-Local {old} {m} {i} {out} lt (local_reading after before some upto straight words) =
      let place = index-eq k old i o.small (omega arith) in
      let word = o.published (old + i) (omega arith) (omega (arith, o.ready)) in
      local_reading after before some (omega arith) straight (
        ap (λ xs. xs ++ (s.cell (index k old i) ∷ [])) words
        ∙ ap (λ x. slice s.stream old i ++ (x ∷ [])) (ap s.cell place ∙ word)
        ∙ sym (slice-suc s.stream old i))

  -- The thread that moves knows what it relies on next.
  pub Move-Local :
      {p p' : Pc} {s' : Shared}
      → Local k s p
      → (move : Move k s p s' p') → Fits move
      → Local k s' p'
  Move-Local local (enqueue table n) fits = local_enq_head (omega arith)
  Move-Local (local_enq_head le) load_cons_tail fits =
      local_enq_free le (omega arith) (λ h. omega (arith, o.room))
  Move-Local local (enqueue_none none) fits = local_idle
  Move-Local local prod_fails fits = local_enq_head (omega arith)
  Move-Local local (prod_wins {table} {n} {old} {tail} some same) (near, straight) =
      let (here, fits) = prod_head-eq o local same near in
      local_writing (omega (arith, o.ahead)) (omega arith) (omega arith) (omega arith) straight
        (λ j lt. ground arith) (λ j lt. absurd (omega arith))
  Move-Local local (store {table} {old} {m} {i} lt) fits =
      let place = write_index o local lt in rw place (stored-Local lt local)
  Move-Local local (publish same) fits = local_idle
  Move-Local local (dequeue n) fits = local_deq_head (omega arith)
  Move-Local (local_deq_head le) load_prod_tail fits =
      local_deq_avail le (omega arith) (λ h. omega (arith, o.ready))
  Move-Local local (dequeue_none none) fits = local_idle
  Move-Local local cons_fails fits = local_deq_head (omega arith)
  Move-Local local (cons_wins {n} {old} {tail} some same) (near, straight) =
      let (here, fits) = cons_head-eq o local same near in
      local_reading (omega (arith, o.behind)) (omega arith) (omega arith) (omega arith) straight
        refl
  Move-Local local (load lt) fits = loaded-Local lt local
  Move-Local local (release same) fits = local_idle

  -- Another thread, with claims of its own, still has what it relies on.
  pub Move-others :
      {p p' q : Pc} {s' : Shared}
      → Local k s p
      → Local k s q
      → Apart (puts p) (puts q)
      → Apart (gets p) (gets q)
      → (move : Move k s p s' p') → Fits move
      → Local k s' q
  Move-others local other aparts apartg (enqueue table n) fits = other
  Move-others local other aparts apartg load_cons_tail fits = other
  Move-others local other aparts apartg (enqueue_none none) fits = other
  Move-others local other aparts apartg prod_fails fits = other
  Move-others {q = q} local other aparts apartg (prod_wins {table} {n} {old} {tail} some same)
        (near, straight) =
      let (here, fits) = prod_head-eq o local same near in
      let m = to_put k n old tail in
      subst
        (λ (h : ℕ). Local k (record s { prod_head = h + m; stream = claim s.stream h m table }) q)
        here (Local-claimed o m table other)
  Move-others local other aparts apartg (store {table} {old} {m} {i} lt) fits =
      let place = write_index o local lt in
      let (from, to) = write_within o local lt in
      rw place (
        Local-stored o (old + i) (get_or table i 0) from to
          (λ q lo hi below. aparts q (omega arith) (omega arith) below) other)
  Move-others {q = q} local other aparts apartg (publish {old = old} {m} same) fits =
      let here = prod_tail-eq o local same in
      subst (λ (h : ℕ). Local k (record s { prod_tail = h + m }) q) here
        (Local-published o m (rw here aparts) other)
  Move-others local other aparts apartg (dequeue n) fits = other
  Move-others local other aparts apartg load_prod_tail fits = other
  Move-others local other aparts apartg (dequeue_none none) fits = other
  Move-others local other aparts apartg cons_fails fits = other
  Move-others {q = q} local other aparts apartg (cons_wins {n} {old} {tail} some same)
        (near, straight) =
      let (here, fits) = cons_head-eq o local same near in
      subst (λ (h : ℕ). Local k (record s { cons_head = h + to_get n old tail }) q) here
        (Local-taken o (to_get n old tail) other)
  Move-others local other aparts apartg (load lt) fits = other
  Move-others {q = q} local other aparts apartg (release {old = old} {m} same) fits =
      let here = cons_tail-eq o local same in
      subst (λ (h : ℕ). Local k (record s { cons_tail = h + m }) q) here
        (Local-released o m (rw here apartg) other)
