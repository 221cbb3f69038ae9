-- ===== src/Ring/Session.antt =====
-- Calls that move one word, as the library and the daemon make them to enqueue: they never go round
-- the end of the ring.
use native.Mathlib.Nat.{mod-lt}
use kuberne_tsn.Common.{
  ℕ, ◌+◌, ◌-◌, ◌%◌, ◌^◌, ◌≤◌, ◌<◌, ◌≡◌, refl, List, [], ◌∷◌, arith, length, take,
}
use kuberne_tsn.Common.Run.{Run, done, ◌>>=◌}
use kuberne_tsn.Ring.{RingBuf, variable, enqueue_burst, dequeue_burst}
use kuberne_tsn.Ring.Arith.{pow2-pos}
use kuberne_tsn.Ring.Inv.{IsValid, contents}
use kuberne_tsn.Ring.Spec.{put, get}
use kuberne_tsn.Ring.Heads.{granted-le}
use kuberne_tsn.Ring.Enqueue.{enqueue_refines}
use kuberne_tsn.Ring.Dequeue.{dequeue_refines}

pub data Op : Type 0 where
  put_word : ℕ → Op
  get_word : Op

-- how many words were moved, and the words that came out
abbrev pub Reply : Type 0
Reply = ℕ × List ℕ

-- a client's calls in order, with what each returns
unfoldable pub run : RingBuf → List Op → Run (List Reply)
run rb [] = done []
run rb (put_word x ∷ ops) = enqueue_burst 0 rb (x ∷ []) 8 1 >>= λ (n, free, rb').
    run rb' ops >>= λ rest. done ((n, []) ∷ rest)
run rb (get_word ∷ ops) = dequeue_burst 0 rb (0 ∷ []) 8 1 >>= λ (n, left, table, rb').
    run rb' ops >>= λ rest. done ((n, take n table) ∷ rest)

-- the same calls on a queue of at most `cap` words
pub spec_run : ℕ → List ℕ → List Op → List Reply
spec_run cap q [] = []
spec_run cap q (put_word x ∷ ops) =
    let (n, free, q') = put cap variable q (x ∷ []) 1 in (n, []) ∷ spec_run cap q' ops
spec_run cap q (get_word ∷ ops) =
    let (n, left, out, q') = get variable q 1 in (n, out) ∷ spec_run cap q' ops

-- One word always ends before the end of the ring.
pub one_straight : (size a g : ℕ) → 0 < size → g ≤ 1 → a % size + g ≤ size
one_straight size a g pos one = omega (arith, mod-lt a pos)

-- No sequence of calls that move one word tells a valid ring from the queue that it holds.
pub run_refines :
    (ops : List Op) {k : ℕ} {rb : RingBuf}
    → IsValid k rb
    → run rb ops ≡ done (spec_run (2 ^ k - 1) (contents rb) ops)
unfolding run spec_run enqueue_burst dequeue_burst
run_refines [] v = refl
run_refines (put_word x ∷ ops) {k} {rb} v =
    let bounds = granted-le variable 1 (2 ^ k - 1 - length (contents rb)) in
    let pos : 0 < rb.size = omega (arith, v, pow2-pos k) in
    let (rb', v', (ran, holds)) =
      enqueue_refines v 0 (x ∷ []) 1 variable (omega arith) (one_straight _ _ _ pos bounds.0) in
    rw ran (rw (run_refines ops v') (rw holds))
run_refines (get_word ∷ ops) {k} {rb} v =
    let bounds = granted-le variable 1 (length (contents rb)) in
    let pos : 0 < rb.size = omega (arith, v, pow2-pos k) in
    let (table', rb', v', (ran, out, holds)) =
      dequeue_refines v 0 (0 ∷ []) 1 variable (omega arith) (one_straight _ _ _ pos bounds.0) in
    rw ran (rw (run_refines ops v') (rw (holds, out)))
