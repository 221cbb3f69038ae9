-- ===== src/Perf/Times.antt =====
-- The times of the latency test, and how many messages it sends.
use kuberne_tsn.Common.{
  false, ℕ, zero, suc, ◌+◌, ◌-◌, ◌*◌, ◌/◌, ◌%◌, ◌<◌, ◌≤◌, ◌≡◌, refl, ap, ◌∙◌, inl, inr, List, [],
  ◌∷◌, arith, length, take, replicate, length-replicate, ℕ_discrete,
}
use kuberne_tsn.Common.Int.{ℤ, pos, pos_part, ltb_ℤ, ◌≤ℤ◌, ◌+ℤ◌}
use kuberne_tsn.Common.Run.{done}
use kuberne_tsn.Clock.{nsec_per_sec, get_realtime_ns}
use kuberne_tsn.Perf.{AppConfig}
use kuberne_tsn.Perf.Talker.{
  Talker, Message, timespec, div, rem, scale, start_talker, talker_loop, TxSocket, init_tx_socket,
  talk, do_talker,
}
use kuberne_tsn.Perf.Talk.{successes, before, Talked, talker_loop-Talked}

-- The time that a `timespec` is made of is the one that `kt_get_realtime_ns` makes of its two fields,
-- and the nanoseconds are fewer than a second's, if the time is not negative.
pub timespec-realtime :
    (t : ℕ)
    → (sec : ℕ) × (nsec : ℕ) × (timespec (pos t) ≡ record { tv_sec = pos sec; tv_nsec = pos nsec })
      × (nsec < nsec_per_sec)
      × (get_realtime_ns sec nsec ≡ pos t)
unfolding timespec div rem get_realtime_ns
timespec-realtime t = (t / nsec_per_sec, t % nsec_per_sec, refl, omega arith, ap pos (omega arith))

-- The first send time is a whole second, more than one second after the start and at most two.
pub start_talker-window :
    (config : AppConfig) (now : ℕ)
    → (t : ℕ) × ((start_talker config (pos now)).txtime ≡ pos t)
      × (t % nsec_per_sec ≡ 0)
      × (now + nsec_per_sec < t)
      × (t ≤ now + 2 * nsec_per_sec)
unfolding start_talker div scale ◌+ℤ◌
start_talker-window config now = (
  now / nsec_per_sec * nsec_per_sec + 2 * nsec_per_sec,
  ground arith,
  omega arith,
  omega arith,
  omega arith,
)

successes-le : (rets : List ℤ) → successes rets ≤ length rets
successes-le [] = omega arith
successes-le (ret ∷ rets) = ground (arith, successes-le rets)

successes-take :
    (rets : List ℤ) (i : ℕ)
    → successes rets ≡ length rets
    → i ≤ length rets
    → successes (take i rets) ≡ i
successes-take rets zero all le = refl
successes-take [] (suc i) all le = absurd (omega arith)
successes-take (ret ∷ rets) (suc i) all le =
    ground (arith, successes-take rets i, successes-le rets)

-- The loop's counter after `i` messages that were all taken.
counts :
    (config : AppConfig) (s : Talker) (rets : List ℤ) (i : ℕ)
    → successes rets ≡ length rets
    → i ≤ length rets
    → (before config s rets i).counter ≡ s.counter + i
counts config s rets i all le = omega (arith, successes-take rets i all le)

Talked-count :
    (int_bytes : ℕ → List ℕ) (config : AppConfig) {message : List ℕ} {rets : List ℤ} {s : Talker}
    {sent : List Message} {last : Talker} {n : ℕ}
    → Talked int_bytes config message rets s sent last
    → s.counter ≡ 1
    → config.n_msgs ≡ pos n
    → 1 ≤ n
    → n ≤ length rets
    → successes rets ≡ length rets
    → length sent + 1 ≡ n
Talked-count int_bytes config {rets = rets} {s} {sent} {n = n} talked first n_eq some_msgs enough
      all =
    let limit = λ (i : ℕ) (lt : i < length sent). rw n_eq at (talked.wanted i lt) in
    let below : (i : ℕ) → i < length sent → 1 + i < n = λ i lt.
      omega (arith, limit i lt, counts config s rets i all (omega (arith, talked.within))) in
    let most : length sent + 1 ≤ n = elim (ℕ_discrete (length sent) 0) [
      | yes none_sent ↦ omega arith
      | no some_sent ↦ omega (arith, below (length sent - 1) (omega arith))
    ] in
    elim talked.stopped [
      | inl out_of_time ↦ absurd (omega (arith, below (n - 1) (omega arith)))
      | inr reached ↦
          let end = ap (λ (t : Talker). t.counter) talked.last_state in
          let counter = counts config s rets (length sent) all talked.within in
          let least = rw n_eq at reached in omega arith
    ]

-- The socket is made whether or not it has support for send times.
init_tx_socket-made :
    (tx : TxSocket)
    → pos 0 ≤ℤ tx.sock
    → pos 0 ≤ℤ tx.priority_result
    → pos 0 ≤ℤ tx.timestamping_result
    → init_tx_socket tx ≡ done tx.sock
unfolding init_tx_socket
init_tx_socket-made tx sock prio stamp =
    let made : ltb_ℤ tx.sock (pos 0) ≡ false = ground arith in
    let first : ltb_ℤ tx.priority_result (pos 0) ≡ false = ground arith in
    let second : ltb_ℤ tx.timestamping_result (pos 0) ≡ false = ground arith in
    rw (made, first, second) refl

do_talker-done :
    (int_bytes : ℕ → List ℕ) (config : AppConfig) (tx : TxSocket) (now : ℤ) (rets : List ℤ)
    {sent : List Message} {last : Talker}
    → init_tx_socket tx ≡ done tx.sock
    → ltb_ℤ tx.sock (pos 0) ≡ false
    → talk int_bytes config now rets ≡ done (sent, last)
    → do_talker int_bytes config tx now rets ≡ done sent
unfolding do_talker
do_talker-done int_bytes config tx now rets made opened talked =
    rw (made, do_talker) (rw opened (rw talked refl))

-- When the socket is made, `sendmsg` takes every message and the program runs long enough, a test with a
-- number of messages to send, and messages of at least four bytes, sends one message fewer than that
-- number: the counter starts at 1.
pub do_talker-count :
    (int_bytes : ℕ → List ℕ) (config : AppConfig) (tx : TxSocket) (now : ℤ) (rets : List ℤ)
    {n size : ℕ}
    → ((c : ℕ) → length (int_bytes c) ≡ 4)
    → pos 0 ≤ℤ tx.sock
    → pos 0 ≤ℤ tx.priority_result
    → pos 0 ≤ℤ tx.timestamping_result
    → config.msg_size ≡ pos size
    → 4 ≤ size
    → config.n_msgs ≡ pos n
    → 1 ≤ n
    → n ≤ length rets
    → successes rets ≡ length rets
    → (sent : List Message) × (do_talker int_bytes config tx now rets ≡ done sent)
      × (length sent + 1 ≡ n)
unfolding talk start_talker
do_talker-count int_bytes config tx now rets {n} {size} four sock prio stamp size_eq long n_eq
      some_msgs enough all =
    let message = replicate size 97 in
    let s = start_talker config now in
    let (sent, last, ran, talked) =
      talker_loop-Talked int_bytes config message rets s four
        (omega (arith, length-replicate {A = ℕ} size 97)) in
    let begun =
      ap (λ (z : ℤ). talker_loop int_bytes config (replicate (pos_part z) 97) rets s) size_eq
      ∙ ran in
    let opened : ltb_ℤ tx.sock (pos 0) ≡ false = ground arith in
    (
      sent,
      do_talker-done int_bytes config tx now rets (init_tx_socket-made tx sock prio stamp) opened
          begun,
      Talked-count int_bytes config talked refl n_eq some_msgs enough all,
    )
