-- ===== src/Perf/Tests.antt =====
-- A configuration, a short run of the talker, and the theorems at them.
use kuberne_tsn.Common.{ℕ, ◌+◌, ◌≡◌, refl, List, [], ◌∷◌, some, arith, length, replicate}
use kuberne_tsn.Common.Int.{ℤ, pos}
use kuberne_tsn.Common.Run.{done}
use kuberne_tsn.Common.Text.{strncpy}
use kuberne_tsn.Perf.{
  AppConfig, Libc, txtime_flag, n_msgs_flag, default_config, default_addr, talker, set_option,
  parse_options, check_config, same_text, set_role, configure,
}
use kuberne_tsn.Perf.Config.{Usable, configure-Usable}
use kuberne_tsn.Perf.Talker.{Talker, Message, TxSocket, do_talker}
use kuberne_tsn.Perf.Times.{do_talker-count}

-- a C library whose `atoi` takes the length of the text as the number
abbrev libc : Libc
libc = record { atoi = λ text. pos (length text); atol = λ text. pos (length text) }

abbrev config : AppConfig
config = record default_config {
  addr = strncpy default_config.addr default_addr 63;
  use_txtime = 1;
  n_msgs = pos 3;
}

configured :
    configure libc (txtime_flag ∷ n_msgs_flag (51 ∷ 51 ∷ 51 ∷ []) ∷ []) (some talker) ≡ done config
unfolding configure parse_options set_option check_config set_role same_text strncpy
configured = refl

configure-Usable_example : Usable config
configure-Usable_example =
    configure-Usable libc (txtime_flag ∷ n_msgs_flag (51 ∷ 51 ∷ 51 ∷ []) ∷ []) (some talker)
      configured

-- the bytes of a small number
abbrev bytes : ℕ → List ℕ
bytes c = c ∷ 0 ∷ 0 ∷ 0 ∷ []

abbrev at_start : Talker
at_start = record { txtime = pos 2000; wakeup_time = pos 1000; counter = 1 }

abbrev message : List ℕ
message = replicate 6 97

-- the first message is not taken
abbrev results : List ℤ
results = pos 0 ∷ pos 6 ∷ pos 6 ∷ pos 6 ∷ []

-- a socket without support for send times
abbrev tx_socket : TxSocket
tx_socket = record {
  sock = pos 3;
  priority_result = pos 0;
  timestamping_result = pos 0;
  txtime_result = pos 1;
}

do_talker-count_example :
    (sent : List Message) × (do_talker bytes config tx_socket
        (pos 1500000000)
        (pos 512 ∷ pos 512 ∷ pos 512 ∷ [])
      ≡ done sent)
    × (length sent + 1 ≡ 3)
do_talker-count_example =
    do_talker-count bytes config tx_socket (pos 1500000000) (pos 512 ∷ pos 512 ∷ pos 512 ∷ [])
      {n = 3} {size = 512} (λ c. refl) (omega arith) (omega arith) (omega arith) refl (omega arith)
      refl (omega arith) (omega arith) refl
