-- ===== src/Ring/Spec.antt =====
-- What the ring promises: a queue of at most `cap` words, moved in bursts.
use kuberne_tsn.Common.{ℕ, ◌-◌, List, ◌++◌, length, take, drop, ltb, if◌then◌else◌}
use kuberne_tsn.Ring.{Behavior, fixed, variable}

-- how many of `n` words are moved when `avail` can be
abbrev pub granted : Behavior → ℕ → ℕ → ℕ
granted fixed n avail = if ltb avail n then 0 else n
granted variable n avail = if ltb avail n then avail else n

-- the number of words taken, the free space that is left, and the queue
abbrev pub put : ℕ → Behavior → List ℕ → List ℕ → ℕ → ℕ × ℕ × List ℕ
put cap b q table n =
    let free = cap - length q in let k = granted b n free in (k, free - k, q ++ take k table)

-- the number of words handed out, the number that is left, the words, and the queue
abbrev pub get : Behavior → List ℕ → ℕ → ℕ × ℕ × List ℕ × List ℕ
get b q n = let k = granted b n (length q) in (k, length q - k, take k q, drop k q)
