-- ===== src/Ring/Heads.antt =====
-- What the moves of the heads report, and that a spurious failure of the compare-exchange does not
-- show.
use kuberne_tsn.Common.{ℕ, zero, suc, ◌-◌, ◌^◌, ◌≤◌, ◌≡◌, refl, arith, sub32, length}
use kuberne_tsn.Ring.{RingBuf, Behavior, fixed, variable, limit, move_prod_head, move_cons_head}
use kuberne_tsn.Ring.Arith.{pow2-pos, pow2-le}
use kuberne_tsn.Ring.Inv.{IsValid, contents, length-contents}
use kuberne_tsn.Ring.Spec.{granted}

-- The number of spurious failures of the compare-exchange does not show in the result.
pub move_prod_head-spurious :
    (s : ℕ) (rb : RingBuf) (n : ℕ) (b : Behavior)
    → move_prod_head s rb n b ≡ move_prod_head 0 rb n b
unfolding move_prod_head
move_prod_head-spurious zero rb n b = refl
move_prod_head-spurious (suc s) rb n b = ground (arith, move_prod_head-spurious s rb n b)

pub move_cons_head-spurious :
    (s : ℕ) (rb : RingBuf) (n : ℕ) (b : Behavior)
    → move_cons_head s rb n b ≡ move_cons_head 0 rb n b
unfolding move_cons_head
move_cons_head-spurious zero rb n b = refl
move_cons_head-spurious (suc s) rb n b = ground (arith, move_cons_head-spurious s rb n b)

pub limit-eq-granted : (b : Behavior) (n avail : ℕ) → limit b n avail ≡ granted b n avail
unfolding limit
limit-eq-granted fixed n avail = refl
limit-eq-granted variable n avail = refl

pub granted-le :
    (b : Behavior) (n avail : ℕ) → (granted b n avail ≤ n) × (granted b n avail ≤ avail)
granted-le fixed n avail = ground arith
granted-le variable n avail = ground arith

-- The free entries that an enqueue computes in wrapping arithmetic are those of the queue.
pub free_entries-eq :
    {k : ℕ} {rb : RingBuf}
    → IsValid k rb
    → sub32 rb.capacity (sub32 rb.prod.head rb.cons.tail) ≡ 2 ^ k - 1 - length (contents rb)
free_entries-eq {k} {rb} v =
    rw (length-contents rb) (ground (arith, v, pow2-pos k, pow2-le k v.small))

-- The entries that a dequeue computes are those of the queue.
pub entries-eq :
    {k : ℕ} {rb : RingBuf} → IsValid k rb → sub32 rb.prod.tail rb.cons.head ≡ length (contents rb)
entries-eq {k} {rb} v = rw (length-contents rb) (ground (arith, v))
