-- ===== src/PrioQueue/Nodes.antt =====
-- Which nodes an insert leaves in the queue, whether or not the queue is in order.
use mathlib.Core.List.Perm
use mathlib.Core.List.{Permᴰ}
use mathlib.Core.Logic.{∥∥₁_elim}
use native.Mathlib.Nat.{ℕ_set}
use kuberne_tsn.Common.{
  ℕ, zero, suc, ◌+◌, ◌≤◌, ◌<◌, ◌≡◌, refl, ◌∙◌, List, ◌∷◌, Perm, arith, length, take, set,
  length-set, true, ltb, ◌&&◌, Bool-cases, inl, inr, Bool, [], ◌++◌, if◌then◌else◌,
}
use kuberne_tsn.Common.Int.{ℤ, ◌≤ℤ◌, ltb_ℤ}
use kuberne_tsn.PrioQueue.{Node, PrioQueue, node_at, parent, swap, int64_max, reorder_loop, insert}
use kuberne_tsn.PrioQueue.Order.{prio_at, IsValid, live, length-swap}
use kuberne_tsn.PrioQueue.Up.{Rearranged, swap-Rearranged}
use kuberne_tsn.PrioQueue.Insert.{insert-elems, take-set-perm}

reorder_loop-Rearranged :
    (fuel n : ℕ) (a : List Node) (i : ℕ)
    → i < n
    → n ≤ length a
    → Rearranged n a (reorder_loop fuel a i)
unfolding reorder_loop
reorder_loop-Rearranged zero n a i lt le = record {
  same_length = refl;
  same_nodes = Perm.refl (take n a);
}
reorder_loop-Rearranged (suc fuel) n a i lt le =
    elim (Bool-cases (ltb 0 i && ltb_ℤ (prio_at a i) (prio_at a (parent i)))) [
      | inl rises ↦
          let up = parent i in
          let rest =
            reorder_loop-Rearranged fuel n (swap a i up) up (omega arith)
              (omega (arith, length-swap a i up)) in
          rw rises (swap-Rearranged i up lt (omega arith) le rest)
      | inr stays ↦ rw stays record { same_length = refl; same_nodes = Perm.refl (take n a) }
    ]

-- `q'` is `q` with one node more.
pub record Added (q : PrioQueue) (node : Node) (q' : PrioQueue) : Type 0 where
  pub valid : IsValid q'
  pub same_cap : q'.cap ≡ q.cap
  pub one_more : q'.size ≡ q.size + 1
  pub nodes : Perm (live q') (node ∷ live q)

-- `kt_prio_queue_insert` on a valid queue with room adds the node, in whatever order the queue is.
pub insert-Added :
    {q : PrioQueue} (prio : ℤ) (payload : ℕ)
    → IsValid q
    → q.size < q.cap
    → prio ≤ℤ int64_max
    → Added q (record { prio = prio; payload = payload }) (insert q prio payload).1
insert-Added {q} prio payload v room range =
    let node : Node = record { prio = prio; payload = payload } in
    let lt : q.size < length q.elems = omega (arith, v.storage) in
    let moved =
      reorder_loop-Rearranged (q.size + 1) (q.size + 1) (set q.elems q.size node) q.size
        (omega arith) (omega (arith, length-set q.elems q.size node)) in
    rw (insert-elems q prio payload v (omega arith) range) record {
      valid = record {
        storage = omega (arith, v.storage, moved.same_length, length-set q.elems q.size node);
        bounded = omega arith;
      };
      same_cap = refl;
      one_more = refl;
      nodes = Perm.trans moved.same_nodes (take-set-perm q.size q.elems node lt);
    }

-- how many of the nodes fail a test
abbrev pub fails : (Node → Bool) → List Node → ℕ
fails ok [] = 0
fails ok (n ∷ ns) = (if ok n then 0 else 1) + fails ok ns

pub fails-append :
    (ok : Node → Bool) (xs ys : List Node) → fails ok (xs ++ ys) ≡ fails ok xs + fails ok ys
fails-append ok [] ys = omega arith
fails-append ok (x ∷ xs) ys = omega (arith, fails-append ok xs ys)

fails-Permᴰ : (ok : Node → Bool) {xs ys : List Node} → Permᴰ xs ys → fails ok xs ≡ fails ok ys
fails-Permᴰ ok Permᴰ.nil = refl
fails-Permᴰ ok (Permᴰ.cons e p) = rw e (omega (arith, fails-Permᴰ ok p))
fails-Permᴰ ok (Permᴰ.swap e e') = rw (e, e') (omega arith)
fails-Permᴰ ok (Permᴰ.trans p q) = fails-Permᴰ ok p ∙ fails-Permᴰ ok q

pub fails-Perm : (ok : Node → Bool) {xs ys : List Node} → Perm xs ys → fails ok xs ≡ fails ok ys
fails-Perm ok {xs} {ys} p = ∥∥₁_elim p (ℕ_set (fails ok xs) (fails ok ys)) (fails-Permᴰ ok)

-- When no node fails a test, the root passes it.
pub root-passes :
    (ok : Node → Bool) (n : ℕ) (a : List Node)
    → 0 < n
    → n ≤ length a
    → fails ok (take n a) ≡ 0
    → ok (node_at a 0) ≡ true
root-passes ok zero a pos le none_fails = absurd (omega arith)
root-passes ok (suc n) [] pos le none_fails = absurd (omega arith)
root-passes ok (suc n) (x ∷ xs) pos le none_fails = elim (Bool-cases (ok x)) [
  | inl passes ↦ passes
  | inr fails_it ↦ absurd (ground arith)
]
