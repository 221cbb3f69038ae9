-- ===== src/Ring/Threads/Inv.antt =====
-- What holds of the counters and of each thread, and of two threads together.
use kuberne_tsn.Common.{ℕ, zero, suc, ◌+◌, ◌-◌, ◌%◌, ◌^◌, ◌<◌, ◌≤◌, ◌≡◌, ◌≢◌, List, [], ◌∷◌, get_or}
use kuberne_tsn.Ring.Threads.{
  Shared, Pc, idle, enq_head, enq_free, writing, deq_head, deq_avail, reading, System,
}

-- the `n` words of a stream from position `p` on
abbrev pub slice : (ℕ → ℕ) → ℕ → ℕ → List ℕ
slice f p zero = []
slice f p (suc n) = f p ∷ slice f (p + 1) n

-- The counters are in order, at most the ring's capacity apart, and the published cells hold the words
-- of the stream.
pub record Ordered (k : ℕ) (s : Shared) : Type 0 where
  pub small : k ≤ 31
  pub behind : s.cons_tail ≤ s.cons_head
  pub ready : s.cons_head ≤ s.prod_tail
  pub ahead : s.prod_tail ≤ s.prod_head
  pub room : s.prod_head ≤ s.cons_tail + (2 ^ k - 1)
  pub published : (p : ℕ) → s.cons_tail ≤ p → p < s.prod_tail → s.cell (p % 2 ^ k) ≡ s.stream p

-- What a thread in the middle of a call relies on.
pub data Local (k : ℕ) (s : Shared) : Pc → Type 0 where
  local_idle : Local k s idle
  local_enq_head :
      {table : List ℕ} {n old : ℕ} → old ≤ s.prod_head → Local k s (enq_head table n old)
  local_enq_free :
      {table : List ℕ} {n old tail : ℕ}
      → old ≤ s.prod_head
      → tail ≤ s.cons_tail
      → (s.prod_head ≤ old → old ≤ tail + (2 ^ k - 1))
      → Local k s (enq_free table n old tail)
  local_writing :
      {table : List ℕ} {old m i : ℕ}
      → s.prod_tail ≤ old
      → old + m ≤ s.prod_head
      → 0 < m
      → i ≤ m
      → old % 2 ^ k + m ≤ 2 ^ k
      → ((j : ℕ) → j < m → s.stream (old + j) ≡ get_or table j 0)
      → ((j : ℕ) → j < i → s.cell ((old + j) % 2 ^ k) ≡ get_or table j 0)
      → Local k s (writing table old m i)
  local_deq_head : {n old : ℕ} → old ≤ s.cons_head → Local k s (deq_head n old)
  local_deq_avail :
      {n old tail : ℕ}
      → old ≤ s.cons_head
      → tail ≤ s.prod_tail
      → (s.cons_head ≤ old → old ≤ tail)
      → Local k s (deq_avail n old tail)
  local_reading :
      {old m i : ℕ} {out : List ℕ}
      → s.cons_tail ≤ old
      → old + m ≤ s.cons_head
      → 0 < m
      → i ≤ m
      → old % 2 ^ k + m ≤ 2 ^ k
      → out ≡ slice s.stream old i
      → Local k s (reading old m i out)

-- the positions that a thread has claimed to write, and those to read: their start and their number
abbrev pub puts : Pc → ℕ × ℕ
puts (writing table old m i) = (old, m)
puts p = (0, 0)

abbrev pub gets : Pc → ℕ × ℕ
gets (reading old m i out) = (old, m)
gets p = (0, 0)

-- Two claims have no position in common.
abbrev pub Apart : ℕ × ℕ → ℕ × ℕ → Type 0
Apart a b = (q : ℕ) → a.0 ≤ q → q < a.0 + a.1 → b.0 ≤ q → b.0 + b.1 ≤ q

pub record Inv (k : ℕ) (s : System) : Type 0 where
  pub ordered : Ordered k s.shared
  pub local : (a : ℕ) → Local k s.shared (s.pc a)
  pub puts_apart : (a b : ℕ) → a ≢ b → Apart (puts (s.pc a)) (puts (s.pc b))
  pub gets_apart : (a b : ℕ) → a ≢ b → Apart (gets (s.pc a)) (gets (s.pc b))
