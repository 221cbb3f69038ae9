-- ===== src/Ring/Single.antt =====
-- Calls that move one word, as the preloaded library and the daemon make them.
use kuberne_tsn.Common.{
  ℕ, ◌-◌, ◌^◌, ◌<◌, ◌≡◌, refl, sym, ap, ◌∙◌, List, [], ◌∷◌, ◌++◌, arith, length, get_or, take,
}
use kuberne_tsn.Common.Run.{done, done-inj}
use kuberne_tsn.Ring.{RingBuf, variable, enqueue_burst, dequeue_burst}
use kuberne_tsn.Ring.Arith.{pow2-pos}
use kuberne_tsn.Ring.Inv.{IsValid, contents}
use kuberne_tsn.Ring.Heads.{granted-le}
use kuberne_tsn.Ring.Spec.{granted}
use mathlib.Core.List.{append-nil}
use kuberne_tsn.Ring.Enqueue.{enqueue_refines, do_enqueue_elems-eq}
use kuberne_tsn.Ring.Dequeue.{dequeue_refines}
use kuberne_tsn.Ring.Session.{one_straight}

-- A word put into a ring that is not full: it comes last.
pub enqueue_one :
    {k : ℕ} {rb : RingBuf}
    → IsValid k rb
    → (s x : ℕ) → length (contents rb) < 2 ^ k - 1
    → (rb' : RingBuf) × (left : ℕ) × IsValid k rb'
      × (enqueue_burst s rb (x ∷ []) 8 1 ≡ done (1, left, rb'))
      × (contents rb' ≡ contents rb ++ (x ∷ []))
unfolding enqueue_burst
enqueue_one {k} {rb} v s x room =
    let bounds = granted-le variable 1 (2 ^ k - 1 - length (contents rb)) in
    let pos : 0 < rb.size = omega (arith, v, pow2-pos k) in
    let (rb', v', (ran, holds)) =
      enqueue_refines v s (x ∷ []) 1 variable (omega arith) (one_straight _ _ _ pos bounds.0) in
    let free = 2 ^ k - 1 - length (contents rb) in
    let one : granted variable 1 free ≡ 1 = ground arith in
    (rb', free - 1, v', ran ∙ rw one refl, holds ∙ rw one refl)

-- The ring lies where it was.
pub enqueue_one-placed :
    {k : ℕ} {rb rb' : RingBuf}
    → IsValid k rb
    → (s x : ℕ) {left : ℕ} → length (contents rb) < 2 ^ k - 1
    → enqueue_burst s rb (x ∷ []) 8 1 ≡ done (1, left, rb')
    → rb'.data_ptr ≡ rb.data_ptr
unfolding enqueue_burst
enqueue_one-placed {k} {rb} v s x room ran =
    let bounds = granted-le variable 1 (2 ^ k - 1 - length (contents rb)) in
    let pos : 0 < rb.size = omega (arith, v, pow2-pos k) in
    let one : granted variable 1 (2 ^ k - 1 - length (contents rb)) ≡ 1 = ground arith in
    let run =
      rw one at (do_enqueue_elems-eq v s (x ∷ []) 1 variable (one_straight _ _ _ pos bounds.0)) in
    ap (λ (o : ℕ × ℕ × RingBuf). o.2.data_ptr) (done-inj (sym ran ∙ run))

-- A full ring takes no word, and stays as it holds.
pub enqueue_one-full :
    {k : ℕ} {rb : RingBuf}
    → IsValid k rb
    → (s x : ℕ) → length (contents rb) ≡ 2 ^ k - 1
    → (rb' : RingBuf) × (left : ℕ) × IsValid k rb'
      × (enqueue_burst s rb (x ∷ []) 8 1 ≡ done (0, left, rb'))
      × (contents rb' ≡ contents rb)
unfolding enqueue_burst
enqueue_one-full {k} {rb} v s x full =
    let bounds = granted-le variable 1 (2 ^ k - 1 - length (contents rb)) in
    let pos : 0 < rb.size = omega (arith, v, pow2-pos k) in
    let (rb', v', (ran, holds)) =
      enqueue_refines v s (x ∷ []) 1 variable (omega arith) (one_straight _ _ _ pos bounds.0) in
    let free = 2 ^ k - 1 - length (contents rb) in
    let nothing : granted variable 1 free ≡ 0 = ground arith in
    (rb', free - 0, v', ran ∙ rw nothing refl, holds ∙ rw (nothing, append-nil) refl)

head-take : (t : List ℕ) → get_or (take 1 t) 0 0 ≡ get_or t 0 0
head-take [] = refl
head-take (x ∷ xs) = refl

-- The first word of a ring is taken out.
pub dequeue_one :
    {k : ℕ} {rb : RingBuf}
    → IsValid k rb
    → (s old x : ℕ) {rest : List ℕ} → contents rb ≡ x ∷ rest
    → (rb' : RingBuf) × (left : ℕ) × (table : List ℕ) × IsValid k rb'
      × (dequeue_burst s rb (old ∷ []) 8 1 ≡ done (1, left, table, rb'))
      × (get_or table 0 0 ≡ x)
      × (contents rb' ≡ rest)
unfolding dequeue_burst
dequeue_one {k} {rb} v s old x e =
    let bounds = granted-le variable 1 (length (contents rb)) in
    let pos : 0 < rb.size = omega (arith, v, pow2-pos k) in
    let (table', rb', v', (ran, out, holds)) =
      dequeue_refines v s (old ∷ []) 1 variable (omega arith) (one_straight _ _ _ pos bounds.0) in
    let one : granted variable 1 (length (contents rb)) ≡ 1 = ground arith in
    let first = ap (λ t. get_or t 0 0) (rw (one, e) at out) in
    (
      rb',
      length (contents rb) - 1,
      table',
      v',
      ran ∙ rw one refl,
      sym (head-take table') ∙ first,
      holds ∙ rw (one, e) refl,
    )

-- An empty ring gives no word, and leaves the table.
pub dequeue_one-empty :
    {k : ℕ} {rb : RingBuf}
    → IsValid k rb
    → (s old : ℕ) → contents rb ≡ []
    → (rb' : RingBuf) × (left : ℕ) × (table : List ℕ) × IsValid k rb'
      × (dequeue_burst s rb (old ∷ []) 8 1 ≡ done (0, left, table, rb'))
      × (contents rb' ≡ [])
unfolding dequeue_burst
dequeue_one-empty {k} {rb} v s old e =
    let bounds = granted-le variable 1 (length (contents rb)) in
    let pos : 0 < rb.size = omega (arith, v, pow2-pos k) in
    let (table', rb', v', (ran, out, holds)) =
      dequeue_refines v s (old ∷ []) 1 variable (omega arith) (one_straight _ _ _ pos bounds.0) in
    let nothing : granted variable 1 (length (contents rb)) ≡ 0 = rw e refl in
    (rb', length (contents rb) - 0, table', v', ran ∙ rw nothing refl, holds ∙ rw (nothing, e) refl)
