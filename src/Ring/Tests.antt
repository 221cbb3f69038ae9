-- ===== src/Ring/Tests.antt =====
-- A ring of four cells whose counters are about to wrap, and the theorems at it.
use kuberne_tsn.Common.{
  ℕ, ◌+◌, ◌-◌, ◌<◌, ◌≡◌, ◌≢◌, refl, List, [], ◌∷◌, some, arith, get_or, take, ltb, leb, ◌&&◌,
  if◌then◌else◌,
}
use kuberne_tsn.Common.Run.{done}
use kuberne_tsn.Allocator.{KtAllocator}
use kuberne_tsn.Copy.{copy_words, copy_unrolled}
use kuberne_tsn.Copy.Laws.{copy_unrolled-eq}
use kuberne_tsn.Ring.{
  RingBuf, fixed, variable, move_cons_head, enqueue_elems, dequeue_elems, do_enqueue_elems,
  do_dequeue_elems, dequeue_burst,
}
use kuberne_tsn.Ring.Inv.{IsValid, contents}
use kuberne_tsn.Ring.Window.{window}
use kuberne_tsn.Ring.Spec.{put, get}
use kuberne_tsn.Ring.Enqueue.{enqueue_refines}
use kuberne_tsn.Ring.Dequeue.{dequeue_refines}
use kuberne_tsn.Ring.Session.{put_word, get_word, run, spec_run, run_refines}
use kuberne_tsn.Ring.Straddle.{
  enqueue_elems-overrun, dequeue_elems-overrun, dequeue_elems-not_window,
}

-- Five cells of memory, four of them the ring's: word 13 stands at index 3, word 10 at index 0.
abbrev near_wrap : RingBuf
near_wrap = record {
  name = [];
  data_ptr = 128;
  size = 4;
  esize = 1;
  mask = 3;
  capacity = 3;
  prod = record { head = 1; tail = 1 };
  cons = record { head = 0xffff_ffff; tail = 0xffff_ffff };
  ring = 10 ∷ 11 ∷ 12 ∷ 13 ∷ 99 ∷ [];
}

near_wrap-IsValid : IsValid 2 near_wrap
near_wrap-IsValid = omega arith

contents-near_wrap : contents near_wrap ≡ 13 ∷ 10 ∷ []
contents-near_wrap = refl

-- the number of words and the words of two single dequeues, and of one dequeue of two words
single_gets : run near_wrap (get_word ∷ get_word ∷ []) ≡ done ((1, 13 ∷ []) ∷ (1, 10 ∷ []) ∷ [])
unfolding run dequeue_burst do_dequeue_elems move_cons_head dequeue_elems copy_unrolled copy_words
single_gets = refl

burst_table : dequeue_elems near_wrap 0xffff_ffff (0 ∷ 0 ∷ []) 8 2 ≡ done (13 ∷ 99 ∷ [])
unfolding dequeue_elems copy_unrolled copy_words
burst_table = refl

abbrev one_block : KtAllocator ℕ
one_block = record { alloc = λ s n. done (some s, s + n); free = λ s p. s }

copy_unrolled-eq_example :
    copy_unrolled 3 (1 ∷ 2 ∷ 3 ∷ []) 0 near_wrap.ring 1
    ≡ copy_words 3 (1 ∷ 2 ∷ 3 ∷ []) 0 near_wrap.ring 1
copy_unrolled-eq_example = copy_unrolled-eq 3 (1 ∷ 2 ∷ 3 ∷ []) 0 near_wrap.ring 1

enqueue_refines_example :
    (rb' : RingBuf) × IsValid 2 rb'
    × (let (g, left, q) = put 3 variable (13 ∷ 10 ∷ []) (7 ∷ 8 ∷ []) 2 in
        (do_enqueue_elems 1 near_wrap (7 ∷ 8 ∷ []) 8 2 variable ≡ done (g, left, rb'))
        × (contents rb' ≡ q))
enqueue_refines_example =
    enqueue_refines near_wrap-IsValid 1 (7 ∷ 8 ∷ []) 2 variable (omega arith) (omega arith)

dequeue_refines_example :
    (table' : List ℕ) × (rb' : RingBuf) × IsValid 2 rb'
    × (let (g, left, out, q) = get fixed (13 ∷ 10 ∷ []) 1 in
        (do_dequeue_elems 0 near_wrap (0 ∷ []) 8 1 fixed ≡ done (g, left, table', rb'))
        × (take g table' ≡ out)
        × (contents rb' ≡ q))
dequeue_refines_example =
    dequeue_refines near_wrap-IsValid 0 (0 ∷ []) 1 fixed (omega arith) (omega arith)

run_refines_example :
    run near_wrap (put_word 5 ∷ get_word ∷ [])
    ≡ done (spec_run 3 (13 ∷ 10 ∷ []) (put_word 5 ∷ get_word ∷ []))
run_refines_example = run_refines (put_word 5 ∷ get_word ∷ []) near_wrap-IsValid

enqueue_elems-overrun_example :
    (rb' : RingBuf) × (enqueue_elems near_wrap 3 (7 ∷ 8 ∷ []) 8 2 ≡ done rb')
    × ((p : ℕ)
        → get_or rb'.ring p 0 ≡ (
            if leb 3 p && ltb p 5
            then get_or (7 ∷ 8 ∷ []) (p - 3) 0
            else get_or near_wrap.ring p 0))
enqueue_elems-overrun_example =
    enqueue_elems-overrun near_wrap-IsValid 3 2 (omega arith) (omega arith) (7 ∷ 8 ∷ [])
      (omega arith)

dequeue_elems-overrun_example :
    (table' : List ℕ) × (dequeue_elems near_wrap 0xffff_ffff (0 ∷ 0 ∷ []) 8 2 ≡ done table')
    × ((j : ℕ) → j < 2 → get_or table' j 0 ≡ get_or near_wrap.ring (3 + j) 0)
dequeue_elems-overrun_example =
    dequeue_elems-overrun near_wrap-IsValid 0xffff_ffff 2 (omega arith) (omega arith) (0 ∷ 0 ∷ [])
      (omega arith)

dequeue_elems-not_window_example : take 2 (13 ∷ 99 ∷ []) ≢ window near_wrap.ring 4 0xffff_ffff 2
dequeue_elems-not_window_example =
    dequeue_elems-not_window near_wrap-IsValid 0xffff_ffff 2 (omega arith) (omega arith)
      (0 ∷ 0 ∷ []) (13 ∷ 99 ∷ []) (omega arith) (omega arith) burst_table
