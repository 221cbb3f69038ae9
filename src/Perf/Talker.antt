-- ===== src/Perf/Talker.antt =====
-- apps/tsn_perf.c, the two roles: the sockets, and the loops that send and receive. Times are signed
-- 64-bit numbers, whose overflow is undefined in C; here they do not overflow.
use kuberne_tsn.Common.{
  ℕ, suc, ◌+◌, ◌*◌, ◌/◌, ◌%◌, Option, none, some, List, [], ◌∷◌, ◌++◌, length, drop, replicate, ltb,
  ◌==◌, ◌&&◌, not, if◌then◌else◌,
}
use kuberne_tsn.Common.Int.{ℤ, pos, negsuc, pos_part, sub_ℕ, ltb_ℤ, ◌+ℤ◌, ◌-ℤ◌}
use kuberne_tsn.Common.Run.{Run, done, aborted, ◌>>=◌}
use kuberne_tsn.Clock.{nsec_per_sec}
use kuberne_tsn.Perf.{AppConfig}

-- What `socket` and the three calls of `setsockopt` return.
pub record TxSocket : Type 0 where
  pub sock : ℤ
  pub priority_result : ℤ
  pub timestamping_result : ℤ
  pub txtime_result : ℤ

-- `init_tx_socket`; the failure of the last call is only warned of. `aborted` is the exit.
unfoldable pub init_tx_socket : TxSocket → Run ℤ
init_tx_socket tx =
    if ltb_ℤ tx.sock (pos 0)
    then done (negsuc 0)
    else if ltb_ℤ tx.priority_result (pos 0)
    then aborted
    else if ltb_ℤ tx.timestamping_result (pos 0)
    then aborted
    else done tx.sock

-- `init_rx_socket`, with what `socket` and `bind` return, and the descriptors that it closes
unfoldable pub init_rx_socket : ℤ → ℤ → ℤ × List ℤ
init_rx_socket sockfd bind_result =
    if ltb_ℤ sockfd (pos 0)
    then (negsuc 0, [])
    else if ltb_ℤ bind_result (pos 0)
    then (negsuc 0, sockfd ∷ [])
    else (sockfd, [])

-- C's division of a signed number by a positive one, which goes towards 0, and its remainder
unfoldable pub div : ℤ → ℕ → ℤ
div (pos n) d = pos (n / d)
div (negsuc n) d = sub_ℕ 0 (suc n / d)

unfoldable pub rem : ℤ → ℕ → ℤ
rem (pos n) d = pos (n % d)
rem (negsuc n) d = sub_ℕ 0 (suc n % d)

unfoldable pub scale : ℤ → ℕ → ℤ
scale (pos n) d = pos (n * d)
scale (negsuc n) d = sub_ℕ 0 (suc n * d)

-- `struct timespec`
pub record Timespec : Type 0 where
  pub tv_sec : ℤ
  pub tv_nsec : ℤ

unfoldable pub timespec : ℤ → Timespec
timespec t = record { tv_sec = div t nsec_per_sec; tv_nsec = rem t nsec_per_sec }

-- What `do_talker` keeps from one message to the next.
pub record Talker : Type 0 where
  pub txtime : ℤ
  pub wakeup_time : ℤ
  pub counter : ℕ

-- A message: when the program wakes up for it, the send time that goes with it, and its bytes.
pub record Message : Type 0 where
  pub sleep_ts : Timespec
  pub stamp : Option ℤ
  pub bytes : List ℕ

-- the times before the loop
unfoldable pub start_talker : AppConfig → ℤ → Talker
start_talker config now =
    let now_norm = scale (div now nsec_per_sec) nsec_per_sec in
    let txtime = now_norm +ℤ pos (nsec_per_sec * 2) in
    record { txtime = txtime; wakeup_time = txtime -ℤ config.wakeup_delay; counter = 1 }

-- `msg_cnt[0] = counter`, with the bytes of an `int` on the machine; `aborted` is the write behind the
-- end of a message of fewer than four bytes.
unfoldable pub put_counter : (ℕ → List ℕ) → ℕ → List ℕ → Run (List ℕ)
put_counter int_bytes counter message =
    if ltb (length message) 4 then aborted else done (int_bytes counter ++ drop 4 message)

-- The state after a message that `sendmsg` returned `ret` for.
unfoldable pub next_talker : AppConfig → ℤ → Talker → Talker
next_talker config ret s = record {
  txtime = s.txtime +ℤ config.interval;
  wakeup_time = s.wakeup_time +ℤ config.interval;
  counter = if ltb_ℤ ret (pos 1) then s.counter else s.counter + 1;
}

unfoldable pub message_of : AppConfig → Talker → List ℕ → Message
message_of config s bytes = record {
  sleep_ts = timespec s.wakeup_time;
  stamp = if config.use_txtime == 0 then none else some s.txtime;
  bytes = bytes;
}

-- The loop, over what `sendmsg` returns as long as `g_run` is set: the messages in order, and the state
-- at the end.
unfoldable pub talker_loop :
    (ℕ → List ℕ) → AppConfig → List ℕ → List ℤ → Talker → Run (List Message × Talker)
talker_loop int_bytes config message [] s = done ([], s)
talker_loop int_bytes config message (ret ∷ rets) s =
    let one = put_counter int_bytes s.counter message >>= λ bytes.
    talker_loop int_bytes config bytes rets (next_talker config ret s) >>= λ (sent, last).
    done (message_of config s bytes ∷ sent, last) in
    if ltb_ℤ (pos s.counter) config.n_msgs then one else done ([], s)

-- `do_talker` once it has its socket
unfoldable pub talk : (ℕ → List ℕ) → AppConfig → ℤ → List ℤ → Run (List Message × Talker)
talk int_bytes config now rets =
    talker_loop int_bytes config (replicate (pos_part config.msg_size) 97) rets
      (start_talker config now)

-- `do_talker`: the messages that it sends
unfoldable pub do_talker : (ℕ → List ℕ) → AppConfig → TxSocket → ℤ → List ℤ → Run (List Message)
do_talker int_bytes config tx now rets = init_tx_socket tx >>= λ sockfd.
    (if ltb_ℤ sockfd (pos 0)
      then done []
      else (talk int_bytes config now rets >>= λ (sent, last). done sent))

-- What `recvfrom` returns, the number that the message then starts with, and the time.
pub record Received : Type 0 where
  pub ret : ℤ
  pub count : ℤ
  pub now : ℤ

-- The loop of `do_listener`: the lines that it prints.
unfoldable pub listener_loop : AppConfig → List Received → List (ℤ × ℤ)
listener_loop config [] = []
listener_loop config (r ∷ rs) =
    let rest = listener_loop config rs in
    if ltb_ℤ (pos 0) r.ret && not (config.verbose == 0) then (r.count, r.now) ∷ rest else rest
