-- ===== src/Perf/Talk.antt =====
-- What the talker of the latency test sends, and when.
use kuberne_tsn.Common.{
  ℕ, zero, suc, ◌+◌, ◌-◌, ◌<◌, ◌≤◌, ◌≡◌, refl, sym, ap, ◌∙◌, ◌⊎◌, inl, inr, Bool-cases, List, [],
  ◌∷◌, ◌++◌, arith, length, length-append, take, drop, get_or, none, ltb, if◌then◌else◌, false,
}
use kuberne_tsn.Common.Int.{ℤ, pos, ltb_ℤ, ◌+ℤ◌, ◌<ℤ◌, ◌≤ℤ◌, int_laws}
use kuberne_tsn.Common.Run.{done}
use kuberne_tsn.Perf.{AppConfig}
use kuberne_tsn.Perf.Talker.{Talker, Message, put_counter, next_talker, message_of, talker_loop}

-- `n` times an interval
abbrev pub times : ℕ → ℤ → ℤ
times zero a = pos 0
times (suc n) a = a +ℤ times n a

-- how many of the results are successes
abbrev pub successes : List ℤ → ℕ
successes [] = 0
successes (ret ∷ rets) = (if ltb_ℤ ret (pos 1) then 0 else 1) + successes rets

+ℤ_assoc : (a b c : ℤ) → a +ℤ (b +ℤ c) ≡ (a +ℤ b) +ℤ c
+ℤ_assoc a b c = grind int_laws

+ℤ_zero : (a : ℤ) → a +ℤ pos 0 ≡ a
+ℤ_zero a = grind int_laws

talker_ext :
    (a b : Talker)
    → a.txtime ≡ b.txtime
    → a.wakeup_time ≡ b.wakeup_time
    → a.counter ≡ b.counter
    → a ≡ b
talker_ext a b e f g = cc

drop-append : (xs ys : List ℕ) (n : ℕ) → length xs ≡ n → drop n (xs ++ ys) ≡ ys
drop-append [] ys zero e = refl
drop-append [] ys (suc n) e = absurd (omega arith)
drop-append (x ∷ xs) ys zero e = absurd (omega arith)
drop-append (x ∷ xs) ys (suc n) e = drop-append xs ys n (omega arith)

length-drop : (n : ℕ) (xs : List ℕ) → length (drop n xs) ≡ length xs - n
length-drop zero xs = omega arith
length-drop (suc n) [] = omega arith
length-drop (suc n) (x ∷ xs) = omega (arith, length-drop n xs)

module _ (config : AppConfig) (s : Talker) (rets : List ℤ) where
  -- The state before message `i`: the times have moved on by `i` intervals, and the counter by the number
  -- of messages that `sendmsg` took.
  abbrev pub before : ℕ → Talker
  before i = record {
    txtime = s.txtime +ℤ times i config.interval;
    wakeup_time = s.wakeup_time +ℤ times i config.interval;
    counter = s.counter + successes (take i rets);
  }

before-zero : (config : AppConfig) (s : Talker) (rets : List ℤ) → before config s rets 0 ≡ s
before-zero config s rets =
    talker_ext (before config s rets 0) s (+ℤ_zero s.txtime) (+ℤ_zero s.wakeup_time) (omega arith)

before-suc :
    (config : AppConfig) (s : Talker) (ret : ℤ) (rets : List ℤ) (i : ℕ)
    → before config (next_talker config ret s) rets i ≡ before config s (ret ∷ rets) (suc i)
unfolding next_talker
before-suc config s ret rets i =
    talker_ext (before config (next_talker config ret s) rets i)
      (before config s (ret ∷ rets) (suc i))
      (sym (+ℤ_assoc s.txtime config.interval (times i config.interval)))
      (sym (+ℤ_assoc s.wakeup_time config.interval (times i config.interval))) (ground arith)

abbrev pub null_message : Message
null_message = record {
  sleep_ts = record { tv_sec = pos 0; tv_nsec = pos 0 };
  stamp = none;
  bytes = [];
}

module _ (int_bytes : ℕ → List ℕ) (config : AppConfig) where
  -- the message that goes with a state, made of an older one
  abbrev pub numbered : List ℕ → Talker → Message
  numbered message s = message_of config s (int_bytes s.counter ++ drop 4 message)

  -- What a run of the loop sends, and how it ends.
  pub record Talked (message : List ℕ) (rets : List ℤ) (s : Talker) (sent : List Message)
      (last : Talker) : Type 0 where
    pub messages :
        (i : ℕ)
        → i < length sent
        → get_or sent i null_message ≡ numbered message (before config s rets i)
    pub wanted : (i : ℕ) → i < length sent → pos (before config s rets i).counter <ℤ config.n_msgs
    pub last_state : last ≡ before config s rets (length sent)
    pub within : length sent ≤ length rets
    pub stopped : (length sent ≡ length rets) ⊎ (config.n_msgs ≤ℤ pos last.counter)

  Talked-nothing :
      (message : List ℕ) (rets : List ℤ) (s : Talker)
      → (0 ≡ length rets) ⊎ (config.n_msgs ≤ℤ pos s.counter)
      → Talked message rets s [] s
  Talked-nothing message rets s stopped = record {
    messages = λ i lt. absurd (omega arith);
    wanted = λ i lt. absurd (omega arith);
    last_state = sym (before-zero config s rets);
    within = omega arith;
    stopped = stopped;
  }

  module _ (message : List ℕ) (ret : ℤ) (rets : List ℤ) (s : Talker) {sent : List Message}
      {last : Talker} (four : length (int_bytes s.counter) ≡ 4)
      (more : pos s.counter <ℤ config.n_msgs)
      (rest : Talked
        (int_bytes s.counter ++ drop 4 message)
        rets
        (next_talker config ret s)
        sent
        last) where
    cons-messages :
        (i : ℕ)
        → i < suc (length sent)
        → get_or (numbered message s ∷ sent) i null_message
          ≡ numbered message (before config s (ret ∷ rets) i)
    cons-messages zero lt = ap (numbered message) (sym (before-zero config s (ret ∷ rets)))
    cons-messages (suc i) lt =
        let body = drop-append (int_bytes s.counter) (drop 4 message) 4 four in
        let shift = before-suc config s ret rets i in
        let now = before config (next_talker config ret s) rets i in
        rest.messages i (omega arith)
        ∙ ap (λ b. message_of config now (int_bytes now.counter ++ b)) body
        ∙ ap (numbered message) shift

    cons-wanted :
        (i : ℕ)
        → i < suc (length sent)
        → pos (before config s (ret ∷ rets) i).counter <ℤ config.n_msgs
    cons-wanted zero lt = omega arith
    cons-wanted (suc i) lt =
        let shift = ap (λ (t : Talker). t.counter) (before-suc config s ret rets i) in
        omega (arith, rest.wanted i (omega arith))

    cons-stopped :
        (length sent ≡ length rets) ⊎ (config.n_msgs ≤ℤ pos last.counter)
        → (suc (length sent) ≡ suc (length rets)) ⊎ (config.n_msgs ≤ℤ pos last.counter)
    cons-stopped (inl all) = inl (ap suc all)
    cons-stopped (inr enough) = inr enough

    Talked-cons : Talked message (ret ∷ rets) s (numbered message s ∷ sent) last
    Talked-cons = record {
      messages = cons-messages;
      wanted = cons-wanted;
      last_state = rest.last_state ∙ before-suc config s ret rets (length sent);
      within = omega (arith, rest.within);
      stopped = cons-stopped rest.stopped;
    }

  -- The loop ends for a message of four bytes or more. Message `i` wakes the program up, and is stamped,
  -- `i` intervals after the times at the start; it carries the number of messages that `sendmsg` has
  -- taken before, counted from the number at the start, and else the bytes of the message. The loop goes
  -- on as long as that number is below the number of messages to send and the program runs.
  pub talker_loop-Talked :
      (message : List ℕ) (rets : List ℤ) (s : Talker)
      → ((c : ℕ) → length (int_bytes c) ≡ 4)
      → 4 ≤ length message
      → (sent : List Message) × (last : Talker) × (talker_loop int_bytes config message rets s
          ≡ done (sent, last))
        × Talked message rets s sent last
  unfolding talker_loop put_counter
  talker_loop-Talked message [] s four long = ([], s, refl, Talked-nothing message [] s (inl refl))
  talker_loop-Talked message (ret ∷ rets) s four long =
      elim (Bool-cases (ltb_ℤ (pos s.counter) config.n_msgs)) [
        | inl more ↦
            let bytes = int_bytes s.counter ++ drop 4 message in
            let size : 4 ≤ length bytes =
              omega (arith, four s.counter, length-append (int_bytes s.counter) (drop 4 message)) in
            let fits : ltb (length message) 4 ≡ false = ground arith in
            let (sent, last, ran, rest) =
              talker_loop-Talked bytes rets (next_talker config ret s) four size in
            (
              numbered message s ∷ sent,
              last,
              rw (more, fits, ran) refl,
              Talked-cons message ret rets s (four s.counter) (ground arith) rest,
            )
        | inr enough ↦
            ([], s, rw enough refl, Talked-nothing message (ret ∷ rets) s (inr (ground arith)))
      ]
