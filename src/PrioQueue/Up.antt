-- ===== src/PrioQueue/Up.antt =====
-- The loop of `_kt_prio_queue_reorder`, which moves a node towards the root.
use mathlib.Core.List.Perm
use kuberne_tsn.Common.{
  ℕ, zero, suc, ◌≤◌, ◌<◌, ◌≡◌, ◌≢◌, refl, ◌∙◌, List, Perm, arith, length, take, ltb, ◌&&◌,
  Bool-cases, inl, inr,
}
use kuberne_tsn.Common.Int.{◌≤ℤ◌, ◌<ℤ◌, ltb_ℤ}
use kuberne_tsn.PrioQueue.{Node, node_at, parent, swap, reorder_loop}
use kuberne_tsn.PrioQueue.Order.{prio_at, IsHeap, length-swap, node_at-swap, take-swap-perm}

-- only the edge above `i` may be out of order
pub record UpInv (n : ℕ) (a : List Node) (i : ℕ) : Type 0 where
  pub storage : n ≤ length a
  pub inside : i < n
  pub edges : (c : ℕ) → 0 < c → c < n → c ≢ i → prio_at a (parent c) ≤ℤ prio_at a c
  pub bridged : (c : ℕ) → 0 < c → c < n → parent c ≡ i → 0 < i → prio_at a (parent i) ≤ℤ prio_at a c

-- `b` holds the first `n` nodes of `a` in another order, in an array as long
pub record Rearranged (n : ℕ) (a b : List Node) : Type 0 where
  pub same_length : length b ≡ length a
  pub same_nodes : Perm (take n b) (take n a)

swap-UpInv :
    {n : ℕ} {a : List Node} (i : ℕ)
    → UpInv n a i
    → 0 < i
    → prio_at a i <ℤ prio_at a (parent i)
    → UpInv n (swap a i (parent i)) (parent i)
swap-UpInv {n} {a} i v pos below =
    let at = λ (c : ℕ).
      node_at-swap a i (parent i) c (omega (arith, v.inside, v.storage))
        (omega (arith, v.inside, v.storage)) in
    record {
      storage = omega (arith, v.storage, length-swap a i (parent i));
      inside = omega (arith, v.inside);
      edges = λ c p q r. ground (arith, at c, at (parent c), v.edges c, v.bridged c);
      bridged =
          λ c p q r s. ground (arith, at c, at (parent (parent i)), v.edges c, v.edges (parent i));
    }

pub swap-Rearranged :
    {n : ℕ} {a b : List Node} (i j : ℕ)
    → i < n
    → j < n
    → n ≤ length a
    → Rearranged n (swap a i j) b
    → Rearranged n a b
swap-Rearranged {n} {a} i j hi hj le r = record {
  same_length = r.same_length ∙ length-swap a i j;
  same_nodes = Perm.trans r.same_nodes (take-swap-perm n a i j hi hj le);
}

-- An array with one node too low in the tree becomes a heap of the same nodes.
pub reorder_loop_restores :
    (fuel n : ℕ) (a : List Node) (i : ℕ)
    → i < fuel
    → UpInv n a i
    → IsHeap n (reorder_loop fuel a i) × Rearranged n a (reorder_loop fuel a i)
unfolding reorder_loop
reorder_loop_restores zero n a i f v = absurd (omega arith)
reorder_loop_restores (suc fuel) n a i f v =
    elim (Bool-cases (ltb 0 i && ltb_ℤ (prio_at a i) (prio_at a (parent i)))) [
      | inl rises ↦
          let up = parent i in
          let pos : 0 < i = ground arith in
          let below : prio_at a i <ℤ prio_at a up = ground arith in
          let (heap, moved) =
            reorder_loop_restores fuel n (swap a i up) up (omega arith)
              (swap-UpInv i v pos below) in
          rw rises (heap, swap-Rearranged i up v.inside (omega (arith, v.inside)) v.storage moved)
      | inr stays ↦ rw stays (
        (λ c p q. ground (arith, v.edges c)),
        record { same_length = refl; same_nodes = Perm.refl (take n a) },
      )
    ]

-- A node that is smaller than all others goes to the root.
pub reorder_loop-root :
    (fuel n : ℕ) (a : List Node) (i : ℕ)
    → i < fuel
    → i < n
    → n ≤ length a
    → ((c : ℕ) → c < n → c ≢ i → prio_at a i <ℤ prio_at a c)
    → node_at (reorder_loop fuel a i) 0 ≡ node_at a i
unfolding reorder_loop
reorder_loop-root zero n a i f lt le least = absurd (omega arith)
reorder_loop-root (suc fuel) n a zero f lt le least = ground arith
reorder_loop-root (suc fuel) n a (suc i) f lt le least =
    let up = parent (suc i) in
    let at = λ (c : ℕ). node_at-swap a (suc i) up c (omega arith) (omega arith) in
    let below = least up (omega arith) (omega arith) in
    let rest =
      reorder_loop-root fuel n (swap a (suc i) up) up (omega arith) (omega arith)
        (omega (arith, length-swap a (suc i) up))
        (λ c p q. ground (arith, at c, at up, least c, least up)) in
    ground (arith, below, rest, at up)
