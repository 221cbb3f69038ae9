-- ===== src/Exchange/Overlap/Exclusive.antt =====
-- However the calls overlap, an index is in one place at a time.
use mathlib.Core.Path.{subst}
use kuberne_tsn.Common.{
  ℕ, ◌+◌, ◌*◌, ◌&&◌, leb, ltb, length, ◌<◌, ◌≤◌, ◌≡◌, ◌≢◌, refl, sym, ap, ◌∙◌, List, arith, true,
  false, ◌==◌, ℕ_discrete,
}
use kuberne_tsn.Common.Perms.{occurs}
use kuberne_tsn.Packet.{mbuf_size}
use kuberne_tsn.Ring.Threads.{Shared, Pc, idle, update, Move, Fits, System, pick}
use kuberne_tsn.Ring.Threads.Inv.{Inv}
use kuberne_tsn.Ring.Threads.Safety.{interleave-Inv}
use kuberne_tsn.Ring.Threads.Fifo.{queue}
use kuberne_tsn.Exchange.Overlap.{
  World, Lawful, own_after, Act, on_free, on_tx, write_payload, write_metadata, arrange, Quiet,
  Reach, start, later, ActFits, Fitting,
}
use kuberne_tsn.Exchange.Overlap.Balance.{claimed, Ready, Move-Ready, claimed-stays, Move-balance}

-- how often an index is in the rings, and how often with a thread
abbrev pub in_rings : World → ℕ → ℕ
in_rings w x = occurs x (queue w.free.shared) + occurs x (queue w.tx.shared)

abbrev pub in_hand : World → ℕ → ℕ → ℕ
in_hand w x a =
    occurs x (w.own a)
    + occurs x (claimed w.free.shared (w.free.pc a))
    + occurs x (claimed w.tx.shared (w.tx.pc a))

pub record Orderly (k : ℕ) (w : World) : Type 0 where
  pub free_inv : Inv k w.free
  pub tx_inv : Inv k w.tx
  pub free_ready : (a : ℕ) → Ready (w.free.pc a) (w.own a)
  pub tx_ready : (a : ℕ) → Ready (w.tx.pc a) (w.own a)
  pub alone : (x a b : ℕ) → a ≢ b → in_rings w x + (in_hand w x a + in_hand w x b) ≤ 1

-- When what a thread gives is what the rings get, an index stays in one place.
moved-alone :
    (a : ℕ) (rings rings' : ℕ) (hand hand' : ℕ → ℕ)
    → rings' + hand' a ≤ rings + hand a
    → ((b : ℕ) → a ≢ b → hand' b ≡ hand b)
    → ((b c : ℕ) → b ≢ c → rings + (hand b + hand c) ≤ 1)
    → (b c : ℕ) → b ≢ c
    → rings' + (hand' b + hand' c) ≤ 1
moved-alone a rings rings' hand hand' balance same alone b c ne = elim (ℕ_discrete a b) [
  | yes first ↦
      let other = same c (λ e. ne (sym first ∙ e)) in
      omega (arith, alone b c ne, ap hand first, ap hand' first)
  | no not_first ↦ elim (ℕ_discrete a c) [
    | yes second ↦
        let other = same b not_first in omega (arith, alone b c ne, ap hand second, ap hand' second)
    | no neither ↦ omega (
      arith,
      same b not_first,
      same c neither,
      alone a b not_first,
      alone a c neither,
      alone b c ne,
    )
  ]
]

-- a thread's part of a changed function, and another's
at-update : {A : Type 0} (f : ℕ → A) (a : ℕ) (v : A) → update f a v a ≡ v
at-update f a v = let mine : (a == a) ≡ true = ground arith in rw mine refl

off-update : {A : Type 0} (f : ℕ → A) (a : ℕ) (v : A) (b : ℕ) → a ≢ b → update f a v b ≡ f b
off-update f a v b ne = let theirs : (a == b) ≡ false = ground arith in rw theirs refl

-- What holds for the thread that moves and for every other one holds for all.
each-update :
    {A B : Type 0} (P : A → B → Type 0) (f : ℕ → A) (g : ℕ → B) (a : ℕ) (v : A) (u : B)
    → P v u
    → ((b : ℕ) → P (f b) (g b))
    → (b : ℕ) → P (update f a v b) (update g a u b)
each-update P f g a v u own others b = elim (ℕ_discrete a b) [
  | yes same ↦ let here : (a == b) ≡ true = ground arith in rw here own
  | no other ↦ let there : (a == b) ≡ false = ground arith in rw there (others b)
]

-- A thread that is not at the ring may take or give indices elsewhere.
kept-Ready :
    (pc : ℕ → Pc) (own : ℕ → List ℕ) (a : ℕ) (own' : List ℕ)
    → pc a ≡ idle
    → ((b : ℕ) → Ready (pc b) (own b))
    → (b : ℕ) → Ready (pc b) (update own a own' b)
kept-Ready pc own a own' still ready b = elim (ℕ_discrete a b) [
  | yes same ↦ subst (λ q. Ready q (update own a own' b)) (sym (ap pc (sym same) ∙ still)) tt
  | no other ↦ let there : (a == b) ≡ false = ground arith in rw there (ready b)
]

-- One thread's access to one ring: what it gives is what the ring gets, and the others keep theirs.
module _ {k : ℕ} (r : System) (own : ℕ → List ℕ) (inv : Inv k r) (x a : ℕ) {m : Shared} {p : Pc}
    (move : Move k r.shared (r.pc a) m p) (fits : Fits move) where
  abbrev own' : ℕ → List ℕ
  own' = update own a (own_after move (own a))

  abbrev pc' : ℕ → Pc
  pc' = update r.pc a p

  given :
      Ready (r.pc a) (own a)
      → occurs x (queue m) + (occurs x (own' a) + occurs x (claimed m (pc' a)))
        ≡ occurs x (queue r.shared) + (occurs x (own a) + occurs x (claimed r.shared (r.pc a)))
  given ready =
      let own_at = ap (occurs x) (at-update own a (own_after move (own a))) in
      let pc_at = ap (λ q. occurs x (claimed m q)) (at-update r.pc a p) in
      omega (arith, own_at, pc_at, Move-balance (own a) x inv.ordered (inv.local a) move fits ready)

  others_keep :
      (b : ℕ)
      → a ≢ b
      → occurs x (own' b) + occurs x (claimed m (pc' b))
        ≡ occurs x (own b) + occurs x (claimed r.shared (r.pc b))
  others_keep b ne =
      let own_off = ap (occurs x) (off-update own a (own_after move (own a)) b ne) in
      let pc_off = ap (λ q. occurs x (claimed m q)) (off-update r.pc a p b ne) in
      omega (
        arith,
        own_off,
        pc_off,
        ap (occurs x) (claimed-stays inv.ordered (inv.local a) (inv.local b) move fits),
      )

module _ {k : ℕ} {w : World} (inv : Orderly k w) where
  on_free-Orderly :
      (a : ℕ) {m : Shared} {p : Pc}
      → w.tx.pc a ≡ idle
      → (move : Move k w.free.shared (w.free.pc a) m p) → Lawful (a ≡ 0) (a ≢ 0) 1 (w.own a) move
      → Fits move
      → Orderly k (record w {
        free = record { shared = m; pc = update w.free.pc a p };
        own = update w.own a (own_after move (w.own a));
      })
  on_free-Orderly a {m} {p} still move lawful fits =
      let own' = own_after move (w.own a) in
      let ring = inv.free_inv in
      let v : World = record w {
        free = record { shared = m; pc = update w.free.pc a p };
        own = update w.own a own';
      } in
      record {
        free_inv = interleave-Inv ring (pick a move) fits;
        tx_inv = inv.tx_inv;
        free_ready =
            each-update (λ q own. Ready q own) w.free.pc w.own a p own'
              (Move-Ready (a ≡ 0) (a ≢ 0) 1 (w.own a) (inv.free_ready a) move lawful)
              inv.free_ready;
        tx_ready = kept-Ready w.tx.pc w.own a own' still inv.tx_ready;
        alone = λ x.
            moved-alone a (in_rings w x) (in_rings v x) (in_hand w x) (in_hand v x)
              (omega (arith, given w.free w.own ring x a move fits (inv.free_ready a)))
              (λ b ne. omega (arith, others_keep w.free w.own ring x a move fits b ne))
              (inv.alone x);
      }

  on_tx-Orderly :
      (a : ℕ) {m : Shared} {p : Pc}
      → w.free.pc a ≡ idle
      → (move : Move k w.tx.shared (w.tx.pc a) m p) → Lawful (a ≢ 0) (a ≡ 0) 8 (w.own a) move
      → Fits move
      → Orderly k (record w {
        tx = record { shared = m; pc = update w.tx.pc a p };
        own = update w.own a (own_after move (w.own a));
      })
  on_tx-Orderly a {m} {p} still move lawful fits =
      let own' = own_after move (w.own a) in
      let ring = inv.tx_inv in
      let v : World = record w {
        tx = record { shared = m; pc = update w.tx.pc a p };
        own = update w.own a own';
      } in
      record {
        free_inv = inv.free_inv;
        tx_inv = interleave-Inv ring (pick a move) fits;
        free_ready = kept-Ready w.free.pc w.own a own' still inv.free_ready;
        tx_ready =
            each-update (λ q own. Ready q own) w.tx.pc w.own a p own'
              (Move-Ready (a ≢ 0) (a ≡ 0) 8 (w.own a) (inv.tx_ready a) move lawful) inv.tx_ready;
        alone = λ x.
            moved-alone a (in_rings w x) (in_rings v x) (in_hand w x) (in_hand v x)
              (omega (arith, given w.tx w.own ring x a move fits (inv.tx_ready a)))
              (λ b ne. omega (arith, others_keep w.tx w.own ring x a move fits b ne)) (inv.alone x);
      }

  arrange-Orderly :
      (a : ℕ) (own' : List ℕ)
      → w.free.pc a ≡ idle
      → w.tx.pc a ≡ idle
      → ((x : ℕ) → occurs x own' ≤ occurs x (w.own a))
      → Orderly k (record w { own = update w.own a own' })
  arrange-Orderly a own' free_still tx_still fewer =
      let v : World = record w { own = update w.own a own' } in
      record {
        free_inv = inv.free_inv;
        tx_inv = inv.tx_inv;
        free_ready = kept-Ready w.free.pc w.own a own' free_still inv.free_ready;
        tx_ready = kept-Ready w.tx.pc w.own a own' tx_still inv.tx_ready;
        alone = λ x.
            moved-alone a (in_rings w x) (in_rings v x) (in_hand w x) (in_hand v x)
              (omega (arith, fewer x, ap (occurs x) (at-update w.own a own')))
              (λ b ne. omega (arith, ap (occurs x) (off-update w.own a own' b ne))) (inv.alone x);
      }

pub Act-Orderly :
    {k : ℕ} {w v : World} → Orderly k w → (act : Act k w v) → ActFits act → Orderly k v
Act-Orderly inv (on_free a still move lawful) fits = on_free-Orderly inv a still move lawful fits
Act-Orderly inv (on_tx a still move lawful) fits = on_tx-Orderly inv a still move lawful fits
Act-Orderly inv (write_payload a i bytes program free_still tx_still has) fits = record {
  free_inv = inv.free_inv;
  tx_inv = inv.tx_inv;
  free_ready = inv.free_ready;
  tx_ready = inv.tx_ready;
  alone = inv.alone;
}
Act-Orderly inv (write_metadata a i metadata program free_still tx_still has) fits = record {
  free_inv = inv.free_inv;
  tx_inv = inv.tx_inv;
  free_ready = inv.free_ready;
  tx_ready = inv.tx_ready;
  alone = inv.alone;
}
Act-Orderly inv (arrange a own free_still tx_still fewer) fits =
    arrange-Orderly inv a own free_still tx_still fewer

idle-Ready : (p : Pc) (own : List ℕ) → p ≡ idle → Ready p own
idle-Ready p own e = subst (λ q. Ready q own) (sym e) tt

idle-claimed : (s : Shared) (p : Pc) (x : ℕ) → p ≡ idle → occurs x (claimed s p) ≡ 0
idle-claimed s p x e = ap (λ q. occurs x (claimed s q)) e

-- no thread holds an index at the start
hand-none : {k : ℕ} {w : World} → Quiet k w → (x c : ℕ) → in_hand w x c ≡ 0
hand-none {w = w} q x c =
    let own = ap (occurs x) (q.none_own c) in
    let free = idle-claimed w.free.shared (w.free.pc c) x (q.free_idle c) in
    let tx = idle-claimed w.tx.shared (w.tx.pc c) x (q.tx_idle c) in omega arith

Quiet-Orderly : {k : ℕ} {w : World} → Quiet k w → Orderly k w
Quiet-Orderly {w = w} q = record {
  free_inv = q.free_inv;
  tx_inv = q.tx_inv;
  free_ready = λ a. idle-Ready (w.free.pc a) (w.own a) (q.free_idle a);
  tx_ready = λ a. idle-Ready (w.tx.pc a) (w.own a) (q.tx_idle a);
  alone = λ x a b ne.
      omega (arith, hand-none q x a, hand-none q x b, q.once x, ap (occurs x) q.none_queued);
}

pub Reach-Orderly : {k : ℕ} {w : World} (reached : Reach k w) → Fitting reached → Orderly k w
Reach-Orderly (start quiet) fitting = Quiet-Orderly quiet
Reach-Orderly (later reached act) fitting =
    Act-Orderly (Reach-Orderly reached fitting.0) act fitting.1

-- However the calls of the programs and the daemon overlap, from a start where no thread has begun, each
-- index is at most once in the ring of free packets and no packet is to be sent (`Quiet`), while every burst
-- ends before the end of its ring and no thread stays at a head while 2 ^ 32 words pass (`Fitting`), an
-- index that a thread has taken and not put back is with that thread once, and neither in a ring nor with
-- another thread.
pub owner_exclusive :
    {k : ℕ} {w : World} (a b i : ℕ) (reached : Reach k w)
    → Fitting reached
    → a ≢ b
    → 0 < occurs i (w.own a)
    → (occurs i (w.own a) ≡ 1)
      × (occurs i (w.own b) ≡ 0)
      × (occurs i (queue w.free.shared) ≡ 0)
      × (occurs i (queue w.tx.shared) ≡ 0)
owner_exclusive a b i reached fitting ne has =
    let inv = Reach-Orderly reached fitting in
    let one = inv.alone i a b ne in (omega arith, omega arith, omega arith, omega arith)

-- The index of a program is not one that waits to be sent.
not_waiting :
    {k : ℕ} {w : World} {a i n : ℕ} (reached : Reach k w)
    → Fitting reached
    → a ≢ 0
    → 0 < occurs n (w.own a)
    → 0 < occurs i (queue w.tx.shared) + occurs i (w.own 0)
    → n ≢ i
not_waiting {w = w} {a} {n = n} reached fitting program has waits same =
    let one = (Reach-Orderly reached fitting).alone n a 0 program in
    let queued = ap (λ x. occurs x (queue w.tx.shared)) same in
    let owned = ap (λ x. occurs x (w.own 0)) same in absurd (omega arith)

-- However the calls of the programs and the daemon overlap, from a start as in `Quiet`, while every burst ends
-- before the end of its ring, no thread stays at a head while 2 ^ 32 words pass and no message is longer than a
-- slot (`Fitting`), a step leaves the payload and the metadata of an index as they are when the index is in the
-- ring of packets to send, or is with the daemon, if what this step claims or copies fits likewise (`ActFits`).
pub waiting_kept :
    {k : ℕ} {w v : World} (i : ℕ) (reached : Reach k w)
    → Fitting reached
    → (act : Act k w v) → ActFits act
    → 0 < occurs i (queue w.tx.shared) + occurs i (w.own 0)
    → ((j : ℕ) → j < mbuf_size → v.mbuf_pool (i * mbuf_size + j) ≡ w.mbuf_pool (i * mbuf_size + j))
      × (v.metadata_pool i ≡ w.metadata_pool i)
waiting_kept i reached fitting (on_free a still move lawful) fits waits = (λ j lt. refl, refl)
waiting_kept i reached fitting (on_tx a still move lawful) fits waits = (λ j lt. refl, refl)
waiting_kept {w = w} i reached fitting (write_payload a n bytes program free_still tx_still has)
      fits waits =
    let ne = not_waiting reached fitting program has waits in
    (
      λ j lt.
          let outside : (leb (n * mbuf_size) (i * mbuf_size + j)
                && ltb (i * mbuf_size + j) (n * mbuf_size + length bytes))
              ≡ false =
            ground arith in
          rw outside refl,
      refl,
    )
waiting_kept {w = w} i reached fitting (write_metadata a n metadata program free_still tx_still has)
      fits waits =
    (
      λ j lt. refl,
      off-update w.metadata_pool n metadata i (not_waiting reached fitting program has waits),
    )
waiting_kept i reached fitting (arrange a own free_still tx_still fewer) fits waits =
    (λ j lt. refl, refl)
