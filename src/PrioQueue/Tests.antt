-- ===== src/PrioQueue/Tests.antt =====
-- Small queues, and the theorems at them.
use kuberne_tsn.Common.{ℕ, zero, suc, ◌+◌, ◌<◌, ◌≡◌, refl, [], ◌∷◌, arith, none, some, true, false}
use kuberne_tsn.Common.Int.{pos, negsuc, ◌≤ℤ◌, ◌<ℤ◌}
use kuberne_tsn.PrioQueue.{
  Node, PrioQueue, init, is_empty, getmin, insert, decrease_key, extract_min, reorder, reorder_loop,
  swap, min_index, heapify, heapify_loop,
}
use kuberne_tsn.PrioQueue.Order.{prio_at, IsHeap, IsValid, live}
use kuberne_tsn.PrioQueue.Insert.{Holds, insert_correct, insert-full, decrease_key-larger}
use kuberne_tsn.PrioQueue.Extract.{
  Removed, extract_min-least, extract_min-empty, extract_min-unordered,
}

abbrev node : ℕ → ℕ → Node
node t p = record { prio = pos t; payload = p }

-- four cells, three of them in use, with the smaller child on the left
abbrev sample : PrioQueue
sample = record { elems = node 1 10 ∷ node 2 20 ∷ node 3 30 ∷ node 0 0 ∷ []; cap = 4; size = 3 }

sample-IsValid : IsValid sample
sample-IsValid = omega arith

sample-IsHeap : IsHeap 3 sample.elems
sample-IsHeap zero p q = absurd (omega arith)
sample-IsHeap (suc zero) p q = omega arith
sample-IsHeap (suc (suc zero)) p q = omega arith
sample-IsHeap (suc (suc (suc c))) p q = absurd (omega arith)

-- After 1 the queue holds 2 and 3, and gives 3.
second_min : getmin (extract_min sample).1 ≡ pos 3
unfolding getmin extract_min heapify heapify_loop min_index
second_min = refl

insert_at_root :
    (insert sample (pos 0) 7).1.elems ≡ node 0 7 ∷ node 1 10 ∷ node 3 30 ∷ node 2 20 ∷ []
unfolding insert decrease_key reorder reorder_loop swap
insert_at_root = refl

empty_at_start : is_empty (init sample.elems 4) ≡ true
unfolding is_empty init
empty_at_start = refl

insert_correct_example :
    ((insert sample (pos 0) 7).0 ≡ true)
    × ((insert sample (pos 0) 7).1.size ≡ 3 + 1)
    × Holds sample (node 0 7 ∷ live sample) (insert sample (pos 0) 7).1
insert_correct_example =
    insert_correct (pos 0) 7 sample-IsValid sample-IsHeap (omega arith) (omega arith)

abbrev full : PrioQueue
full = record sample { cap = 3 }

insert-full_example : insert full (pos 0) 7 ≡ (false, full)
insert-full_example = insert-full full (pos 0) 7 refl

decrease_key-larger_example : decrease_key sample 2 (pos 9) ≡ sample
decrease_key-larger_example = decrease_key-larger sample 2 (pos 9) (omega arith)

extract_min-least_example :
    ((extract_min sample).0 ≡ some 10)
    × Removed sample (node 1 10) (extract_min sample).1
    × ((i : ℕ) → i < 3 → pos 1 ≤ℤ prio_at sample.elems i)
extract_min-least_example = extract_min-least sample-IsValid sample-IsHeap (omega arith)

abbrev emptied : PrioQueue
emptied = record sample { size = 0 }

extract_min-empty_example : extract_min emptied ≡ (none, emptied)
extract_min-empty_example = extract_min-empty emptied refl

extract_min-unordered_example :
    let q' = (extract_min sample).1 in
    (1 < q'.size)
    × (getmin q' ≡ pos 3)
    × (prio_at q'.elems 1 <ℤ getmin q')
    × ¬ IsHeap q'.size q'.elems
extract_min-unordered_example =
    extract_min-unordered {q = sample} sample-IsValid (omega arith) (omega arith) (omega arith)

all_positive : (c : ℕ) → c < 3 → negsuc 0x7fff_ffff <ℤ prio_at sample.elems c
all_positive zero p = omega arith
all_positive (suc zero) p = omega arith
all_positive (suc (suc zero)) p = omega arith
all_positive (suc (suc (suc c))) p = absurd (omega arith)
