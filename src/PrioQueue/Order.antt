-- ===== src/PrioQueue/Order.antt =====
-- The heap order, and what a swap does to the nodes of an array.
use mathlib.Core.List.Perm
use kuberne_tsn.Common.{
  ℕ, zero, suc, ◌≤◌, ◌<◌, ◌≡◌, refl, ◌∙◌, ap, List, [], ◌∷◌, Perm, arith, length, set, take,
  length-set, get_or-set, get_or-take, length-take, ◌==◌, if◌then◌else◌,
}
use kuberne_tsn.Common.Int.{ℤ, ◌≤ℤ◌}
use kuberne_tsn.PrioQueue.{Node, PrioQueue, null_node, node_at, parent, swap}

abbrev pub prio_at : List Node → ℕ → ℤ
prio_at a i = (node_at a i).prio

-- every node but the first is no smaller than its parent, among the first `n`
abbrev pub IsHeap : ℕ → List Node → Type 0
IsHeap n a = (c : ℕ) → 0 < c → c < n → prio_at a (parent c) ≤ℤ prio_at a c

-- the nodes in use
abbrev pub live : PrioQueue → List Node
live q = take q.size q.elems

pub record IsValid (q : PrioQueue) : Type 0 where
  pub storage : q.cap ≤ length q.elems
  pub bounded : q.size ≤ q.cap

root_least_below :
    (k n : ℕ) (a : List Node) (i : ℕ) → IsHeap n a → i < k → i < n → prio_at a 0 ≤ℤ prio_at a i
root_least_below zero n a i h f p = absurd (omega arith)
root_least_below (suc k) n a i h f p = ground (arith, h i, root_least_below k n a (parent i) h)

-- The root of a heap has the least time.
pub root_least : (n : ℕ) (a : List Node) (i : ℕ) → IsHeap n a → i < n → prio_at a 0 ≤ℤ prio_at a i
root_least n a i h p = root_least_below (suc i) n a i h (omega arith) p

pub length-swap : (a : List Node) (i j : ℕ) → length (swap a i j) ≡ length a
unfolding swap
length-swap a i j =
    length-set (set a i (node_at a j)) j (node_at a i) ∙ length-set a i (node_at a j)

pub node_at-swap :
    (a : List Node) (i j c : ℕ)
    → i < length a
    → j < length a
    → node_at (swap a i j) c
      ≡ (if j == c then node_at a i else if i == c then node_at a j else node_at a c)
unfolding swap
node_at-swap a i j c hi hj = rw (
  get_or-set (set a i (node_at a j)) j c (node_at a i) null_node
      (omega (arith, length-set a i (node_at a j))),
  get_or-set a i c (node_at a j) null_node hi,
)

pub take-set :
    (n : ℕ) (a : List Node) (i : ℕ) (v : Node) → i < n → take n (set a i v) ≡ set (take n a) i v
take-set zero a i v h = absurd (omega arith)
take-set (suc n) [] i v h = refl
take-set (suc n) (x ∷ a) zero v h = refl
take-set (suc n) (x ∷ a) (suc i) v h = ap (λ b. x ∷ b) (take-set n a i v (omega arith))

pub set-set : (a : List Node) (i : ℕ) (v w : Node) → set (set a i v) i w ≡ set a i w
set-set [] i v w = refl
set-set (x ∷ a) zero v w = refl
set-set (x ∷ a) (suc i) v w = ap (λ b. x ∷ b) (set-set a i v w)

-- A write trades the old node for the new one.
pub set-perm :
    (a : List Node) (i : ℕ) (v : Node) → i < length a → Perm (node_at a i ∷ set a i v) (v ∷ a)
set-perm [] i v h = absurd (omega arith)
set-perm (x ∷ a) zero v h = Perm.swap v x a
set-perm (x ∷ a) (suc i) v h =
    Perm.trans (Perm.swap x (node_at a i) (set a i v))
      (Perm.trans (Perm.cons x (set-perm a i v (omega arith))) (Perm.swap v x a))

pub swap-perm : (a : List Node) (i j : ℕ) → i < length a → j < length a → Perm (swap a i j) a
unfolding swap
swap-perm a i j hi hj =
    let b = set a i (node_at a j) in
    let size : length b ≡ length a = length-set a i (node_at a j) in
    let kept : node_at b j ≡ node_at a j =
      ground (arith, get_or-set a i j (node_at a j) null_node) in
    Perm.cons_inv (
      Perm.trans (rw kept at (set-perm b j (node_at a i) (omega arith)))
        (set-perm a i (node_at a j) hi))

-- A swap among the first `n` nodes rearranges them.
pub take-swap-perm :
    (n : ℕ) (a : List Node) (i j : ℕ)
    → i < n
    → j < n
    → n ≤ length a
    → Perm (take n (swap a i j)) (take n a)
unfolding swap
take-swap-perm n a i j hi hj le =
    let size : length (take n a) ≡ n = omega (arith, length-take n a) in
    rw
      (
        take-set n (set a i (node_at a j)) j (node_at a i) hj,
        take-set n a i (node_at a j) hi,
        ← get_or-take n a i null_node hi,
        ← get_or-take n a j null_node hj,
      )
      (swap-perm (take n a) i j (omega arith) (omega arith))
