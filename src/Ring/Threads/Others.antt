-- ===== src/Ring/Threads/Others.antt =====
-- What a thread relies on survives the accesses of the others.
use kuberne_tsn.Common.{
  ℕ, zero, suc, ◌+◌, ◌-◌, ◌%◌, ◌^◌, ◌<◌, ◌≤◌, ◌≡◌, ◌≢◌, refl, sym, ap, ap₂, ◌∙◌, List, [], ◌∷◌,
  ◌++◌, arith, u32, dec_lt,
}
use kuberne_tsn.Common.Bits.{bit_and_mask}
use kuberne_tsn.Ring.Arith.{wrap-index, add-mod-ne, add-mod_straight}
use kuberne_tsn.Ring.Threads.{Shared, Pc, update, claim, index}
use kuberne_tsn.Ring.Threads.Inv.{
  slice, Ordered, Local, local_idle, local_enq_head, local_enq_free, local_writing, local_deq_head,
  local_deq_avail, local_reading, puts, gets, Apart,
}

-- Two positions of one window have different cells.
pub cells_differ : (size q p : ℕ) → q ≢ p → q < p + size → p < q + size → q % size ≢ p % size
cells_differ size q p ne lo hi same = elim (dec_lt p q) [
  | yes above ↦
      let shift : p + (q - p) ≡ q = omega arith in
      add-mod-ne size p (q - p) (omega arith) (omega arith) (ap (λ x. x % size) shift ∙ same)
  | no below ↦
      let shift : q + (p - q) ≡ p = omega arith in
      add-mod-ne size q (p - q) (omega arith) (omega arith) (ap (λ x. x % size) shift ∙ sym same)
]

-- The cell that the code computes is that of the position.
pub index-eq : (k old i : ℕ) → k ≤ 31 → old % 2 ^ k + i < 2 ^ k → index k old i ≡ (old + i) % 2 ^ k
index-eq k old i small straight =
    ap (λ x. x + i) (bit_and_mask k (u32 old) ∙ wrap-index k old small)
    ∙ sym (add-mod_straight (2 ^ k) old i straight)

pub slice-same :
    (f g : ℕ → ℕ) (p n : ℕ) → ((q : ℕ) → q < p + n → f q ≡ g q) → slice f p n ≡ slice g p n
slice-same f g p zero same = refl
slice-same f g p (suc n) same =
    ap₂ ◌∷◌ (same p (omega arith)) (slice-same f g (p + 1) n (λ q lt. same q (omega arith)))

pub slice-suc : (f : ℕ → ℕ) (p n : ℕ) → slice f p (suc n) ≡ slice f p n ++ (f (p + n) ∷ [])
slice-suc f p zero = ap (λ x. f x ∷ []) (omega arith)
slice-suc f p (suc n) =
    let shift : p + 1 + n ≡ p + suc n = omega arith in
    ap (λ xs. f p ∷ xs) (slice-suc f (p + 1) n ∙ ap (λ x. slice f (p + 1) n ++ (f x ∷ [])) shift)

module _ {k : ℕ} {s : Shared} (o : Ordered k s) where
  -- A producer claims positions from the head on.
  pub Local-claimed :
      (m : ℕ) (table : List ℕ) {p : Pc}
      → Local k s p
      → Local k
          (record s { prod_head = s.prod_head + m; stream = claim s.stream s.prod_head m table })
          p
  Local-claimed m table local_idle = local_idle
  Local-claimed m table (local_enq_head le) = local_enq_head (omega arith)
  Local-claimed m table (local_enq_free le tail room) =
      local_enq_free (omega arith) tail (λ h. room (omega arith))
  Local-claimed m table (local_writing after before some upto straight want have) =
      local_writing after (omega arith) some upto straight
        (λ j lt. let here = want j lt in ground arith) have
  Local-claimed m table (local_deq_head le) = local_deq_head le
  Local-claimed m table (local_deq_avail le tail room) = local_deq_avail le tail room
  Local-claimed m table (local_reading {old} {i = i} after before some upto straight out) =
      local_reading after before some upto straight (
        out
        ∙ slice-same s.stream (claim s.stream s.prod_head m table) old i
            (λ q lt. let below : q < s.prod_head = omega (arith, o.ready, o.ahead) in ground arith))

  -- A word is stored at a position that another thread has claimed.
  pub Local-stored :
      (at v : ℕ) {p : Pc}
      → s.prod_tail ≤ at
      → at < s.prod_head
      → Apart (at, 1) (puts p)
      → Local k s p
      → Local k (record s { cell = update s.cell (at % 2 ^ k) v }) p
  Local-stored at v from to apart local_idle = local_idle
  Local-stored at v from to apart (local_enq_head le) = local_enq_head le
  Local-stored at v from to apart (local_enq_free le tail room) = local_enq_free le tail room
  Local-stored at v from to apart
        (local_writing {old = old} {m} {i} after before some upto straight want have) =
      local_writing after before some upto straight want (λ j lt.
        let ne : at ≢ old + j = λ e.
          (let hit = apart at (omega arith) (omega arith) (omega arith) in absurd (omega arith)) in
        let other =
          cells_differ (2 ^ k) at (old + j) ne (omega (arith, o.room, o.behind, o.ready))
            (omega (arith, o.room, o.behind, o.ready)) in
        let here = have j lt in ground arith)
  Local-stored at v from to apart (local_deq_head le) = local_deq_head le
  Local-stored at v from to apart (local_deq_avail le tail room) = local_deq_avail le tail room
  Local-stored at v from to apart (local_reading after before some upto straight out) =
      local_reading after before some upto straight out

  -- A producer publishes its claim, which starts at the tail.
  pub Local-published :
      (m : ℕ) {p : Pc}
      → Apart (s.prod_tail, m) (puts p)
      → Local k s p
      → Local k (record s { prod_tail = s.prod_tail + m }) p
  Local-published m apart local_idle = local_idle
  Local-published m apart (local_enq_head le) = local_enq_head le
  Local-published m apart (local_enq_free le tail room) = local_enq_free le tail room
  Local-published m apart (local_writing {old = old} after before some upto straight want have) =
      let later : s.prod_tail + m ≤ old = elim (dec_lt old (s.prod_tail + m)) [
        | yes inside ↦ absurd (let hit = apart old after inside (omega arith) in omega arith)
        | no past ↦ omega arith
      ] in
      local_writing later before some upto straight want have
  Local-published m apart (local_deq_head le) = local_deq_head le
  Local-published m apart (local_deq_avail le tail room) = local_deq_avail le (omega arith) room
  Local-published m apart (local_reading after before some upto straight out) =
      local_reading after before some upto straight out

  -- A consumer claims positions from the head on.
  pub Local-taken :
      (m : ℕ) {p : Pc} → Local k s p → Local k (record s { cons_head = s.cons_head + m }) p
  Local-taken m local_idle = local_idle
  Local-taken m (local_enq_head le) = local_enq_head le
  Local-taken m (local_enq_free le tail room) = local_enq_free le tail room
  Local-taken m (local_writing after before some upto straight want have) =
      local_writing after before some upto straight want have
  Local-taken m (local_deq_head le) = local_deq_head (omega arith)
  Local-taken m (local_deq_avail le tail room) =
      local_deq_avail (omega arith) tail (λ h. room (omega arith))
  Local-taken m (local_reading after before some upto straight out) =
      local_reading after (omega arith) some upto straight out

  -- A consumer gives its claim back, which starts at the tail.
  pub Local-released :
      (m : ℕ) {p : Pc}
      → Apart (s.cons_tail, m) (gets p)
      → Local k s p
      → Local k (record s { cons_tail = s.cons_tail + m }) p
  Local-released m apart local_idle = local_idle
  Local-released m apart (local_enq_head le) = local_enq_head le
  Local-released m apart (local_enq_free le tail room) = local_enq_free le (omega arith) room
  Local-released m apart (local_writing after before some upto straight want have) =
      local_writing after before some upto straight want have
  Local-released m apart (local_deq_head le) = local_deq_head le
  Local-released m apart (local_deq_avail le tail room) = local_deq_avail le tail room
  Local-released m apart (local_reading {old = old} after before some upto straight out) =
      let later : s.cons_tail + m ≤ old = elim (dec_lt old (s.cons_tail + m)) [
        | yes inside ↦ absurd (let hit = apart old after inside (omega arith) in omega arith)
        | no past ↦ omega arith
      ] in
      local_reading later before some upto straight out
