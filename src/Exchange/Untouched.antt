-- ===== src/Exchange/Untouched.antt =====
-- What a send leaves of the packets that wait to be sent.
use kuberne_tsn.Common.{
  ℕ, ◌+◌, ◌*◌, ◌≤◌, ◌<◌, ◌≡◌, ◌≢◌, refl, sym, ap, ◌∙◌, ◌⊎◌, inl, inr, List, arith, get_or, dec_lt,
}
use kuberne_tsn.Common.Perms.{occurs, occurs-append}
use kuberne_tsn.Packet.{Metadata, metadata_at, mbuf_size}
use kuberne_tsn.Ring.Inv.{contents}
use kuberne_tsn.Preload.Message.{Msg, Host, Library, Outcome}
use kuberne_tsn.Preload.Send.{Queued}
use kuberne_tsn.Sender.Frame.{Network}
use kuberne_tsn.Exchange.{
  Fits, Fitting, Exchange, waiting, Step, other_call, send, take_in, serve, Reach, later,
}
use kuberne_tsn.Exchange.Account.{Inv}
use kuberne_tsn.Exchange.Sends.{Effect, keeps, queues, send-Effect}
use kuberne_tsn.Exchange.Reached.{Reach-Inv}

-- The metadata and the slot of packet `j` are the same.
pub record Kept (j : ℕ) (l l' : Library) : Type 0 where
  pub metadata : metadata_at l'.metadata_pool j ≡ metadata_at l.metadata_pool j
  pub payload :
      (p : ℕ)
      → p < mbuf_size
      → get_or l'.mbuf_pool (j * mbuf_size + p) 0 ≡ get_or l.mbuf_pool (j * mbuf_size + p) 0

Kept-refl : (j : ℕ) (l : Library) → Kept j l l
Kept-refl j l = record { metadata = refl; payload = λ p lt. refl }

pub Kept-trans : {j : ℕ} {l l' l'' : Library} → Kept j l l' → Kept j l' l'' → Kept j l l''
Kept-trans one two = record {
  metadata = two.metadata ∙ one.metadata;
  payload = λ p lt. two.payload p lt ∙ one.payload p lt;
}

-- the slots of two packets are apart
slots_apart :
    (i j p n : ℕ)
    → j ≢ i
    → p < mbuf_size
    → n ≤ mbuf_size
    → (j * mbuf_size + p < i * mbuf_size) ⊎ (i * mbuf_size + n ≤ j * mbuf_size + p)
slots_apart i j p n ne lt le = elim (dec_lt j i) [
  | yes below ↦ inl (omega arith)
  | no not_below ↦ inr (omega arith)
]

-- A packet that waits is not the first of the free ones.
waiting-other :
    {k : ℕ} {lost : List ℕ} {x : Exchange} {msg : Msg} {fill : Metadata → Metadata} {i j : ℕ}
    {l' : Library}
    → Inv k lost x
    → Queued x.lib msg fill i l'
    → 0 < occurs j (waiting x)
    → j ≢ i
waiting-other {x = x} {i} {j} inv q waits e =
    let one = inv.once j in
    let split = occurs-append j (contents x.lib.free_ring) (waiting x) in
    let first = ap (occurs j) q.free_queue in let same = sym e in ground arith

Effect-Kept :
    {k : ℕ} {lost : List ℕ} {x : Exchange} {msg : Msg} {out : Outcome} {l' : Library} (j : ℕ)
    → Inv k lost x
    → msg.iov_len ≤ mbuf_size
    → 0 < occurs j (waiting x)
    → Effect x.lib msg out l'
    → Kept j x.lib l'
Effect-Kept j inv short waits (keeps metadata bytes tx free) = record {
  metadata = ap (λ pool. metadata_at pool j) metadata;
  payload = λ p lt. ap (λ pool. get_or pool (j * mbuf_size + p) 0) bytes;
}
Effect-Kept {msg = msg} j inv short waits (queues fill i q) =
    let ne = waiting-other inv q waits in
    record {
      metadata = q.other_metadata j ne;
      payload =
          λ p lt. q.other_bytes (j * mbuf_size + p) (slots_apart i j p msg.iov_len ne lt short);
    }

-- No step that fits writes to the metadata or the slot of a packet that waits to be sent.
pub Step-Kept :
    {host : Host} {net : Network} {k : ℕ} {lost : List ℕ} {x y : Exchange} (j : ℕ)
    → Inv k lost x
    → 0 < occurs j (waiting x)
    → (step : Step host net x y) → Fits step
    → Kept j x.lib y.lib
Step-Kept {x = x} j inv waits (other_call sockets interfaces) fits = record {
  metadata = refl;
  payload = λ p lt. refl;
}
Step-Kept {host} j inv waits (send sf st sockfd msg ended) short =
    Effect-Kept j inv short waits (send-Effect inv sf st msg host sockfd short ended).1
Step-Kept j inv waits (take_in spurious ended) straight = record {
  metadata = refl;
  payload = λ p lt. refl;
}
Step-Kept j inv waits (serve r ended) fits = record { metadata = refl; payload = λ p lt. refl }

-- Steps from `x` to `y` with packet `j` waiting in each state they start from.
pub data Waits (host : Host) (net : Network) (j : ℕ) (x : Exchange) : Exchange → Type 0 where
  at_once : Waits host net j x x
  onward :
      {y z : Exchange}
      → Waits host net j x y
      → 0 < occurs j (waiting y)
      → Step host net y z
      → Waits host net j x z

-- every one of these steps fits
abbrev pub WaitsFits :
    {host : Host} {net : Network} {j : ℕ} {x y : Exchange} → Waits host net j x y → Type 0
WaitsFits at_once = Unit
WaitsFits (onward before waits step) = WaitsFits before × Fits step

pub Waits-Reach :
    {host : Host} {net : Network} {k j : ℕ} {x y : Exchange}
    → Reach host net k x
    → Waits host net j x y
    → Reach host net k y
Waits-Reach reached at_once = reached
Waits-Reach reached (onward before waits step) = later (Waits-Reach reached before) step

pub Waits-Fitting :
    {host : Host} {net : Network} {k j : ℕ} {x y : Exchange} (reached : Reach host net k x)
    (waits : Waits host net j x y)
    → Fitting reached
    → WaitsFits waits
    → Fitting (Waits-Reach reached waits)
unfolding Waits-Reach
Waits-Fitting reached at_once fitting fits = fitting
Waits-Fitting reached (onward before waits step) fitting fits =
    (Waits-Fitting reached before fitting fits.0, fits.1)

-- However the programs and the daemon go on from a state that they can reach, while a packet waits to be
-- sent its metadata and its slot stay as they are, if no message is longer than a slot and no burst goes
-- round the end of the ring (`Fitting` and `WaitsFits`).
pub waiting-Kept :
    {host : Host} {net : Network} {k : ℕ} (j : ℕ) {x y : Exchange}
    → (reached : Reach host net k x) → Fitting reached
    → (waits : Waits host net j x y) → WaitsFits waits
    → Kept j x.lib y.lib
waiting-Kept j {x} reached fitting at_once fits = Kept-refl j x.lib
waiting-Kept j reached fitting (onward before waits step) fits =
    let inv =
      Reach-Inv (Waits-Reach reached before) (Waits-Fitting reached before fitting fits.0) in
    Kept-trans (waiting-Kept j reached fitting before fits.0) (Step-Kept j inv waits step fits.1)
