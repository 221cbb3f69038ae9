-- ===== src/Sender/Turn.antt =====
-- The ways the second half of a round of the daemon's loop can take.
use kuberne_tsn.Common.{◌<◌, ◌≡◌, true, false, ◌==◌, Bool-cases, inl, inr, arith}
use kuberne_tsn.Common.Int.{ℤ, pos, ltb_ℤ, ◌+ℤ◌, ◌-ℤ◌, ◌<ℤ◌, ◌≤ℤ◌, int_laws}
use kuberne_tsn.Common.Run.{Run, done}
use kuberne_tsn.Clock.{get_time_diff_ns}
use kuberne_tsn.PrioQueue.{is_empty, getmin, extract_min}
use kuberne_tsn.Sender.{Sender, Round, tx_delta_ns, send_packet, schedule}
use kuberne_tsn.Sender.Schedule.{first}
use kuberne_tsn.Sender.Frame.{Network}

-- Nothing happens, with no packet whose time has passed first; the first packet is dropped since its time has passed; or it is sent, when its time
-- is now or at most `tx_delta_ns` away.
pub data Turn (net : Network) (r : Round) (s : Sender) : Run Sender → Type 0 where
  rests : (0 < s.queue.size → r.now ≤ℤ (first s).prio) → Turn net r s (done s)
  drops :
      0 < s.queue.size
      → (first s).prio <ℤ r.now
      → Turn net r s (done (record s { queue = (extract_min s.queue).1 }))
  sends :
      0 < s.queue.size
      → r.now ≤ℤ (first s).prio
      → (first s).prio ≤ℤ r.now +ℤ tx_delta_ns
      → Turn net r s (send_packet net r s)

module _ (now : ℤ) (due : ℤ) where
  is_past : ltb_ℤ (due -ℤ now) (pos 0) ≡ true → due <ℤ now
  is_past late = grind int_laws

  is_ahead : ltb_ℤ (due -ℤ now) (pos 0) ≡ false → now ≤ℤ due
  is_ahead in_time = grind int_laws

  is_early : ltb_ℤ tx_delta_ns (due -ℤ now) ≡ true → now ≤ℤ due
  is_early early = grind int_laws

  is_near : ltb_ℤ tx_delta_ns (due -ℤ now) ≡ false → due ≤ℤ now +ℤ tx_delta_ns
  is_near near = grind int_laws

-- Which way the second half of a round takes depends on the queue and the time alone.
pub schedule-Turn : (net : Network) (r : Round) (s : Sender) → Turn net r s (schedule net r s)
unfolding schedule is_empty send_packet getmin get_time_diff_ns
schedule-Turn net r s =
    let due = (first s).prio in
    let diff = due -ℤ r.now in
    elim (Bool-cases (s.queue.size == 0)) [
      | inl empty ↦ rw (empty, schedule) (rests (λ pos. absurd (ground (arith, empty))))
      | inr some ↦ elim (Bool-cases (ltb_ℤ tx_delta_ns diff)) [
        | inl early ↦ rw (some, early, schedule) (rests (λ pos. is_early r.now due early))
        | inr near ↦ elim (Bool-cases (ltb_ℤ diff (pos 0))) [
          | inl late ↦
              rw (some, near, late, schedule) (drops (ground arith) (is_past r.now due late))
          | inr in_time ↦
              rw (some, near, in_time, schedule)
                (sends (ground arith) (is_ahead r.now due in_time) (is_near r.now due near))
        ]
      ]
    ]
